-- ===== src/Recovery/Plan/Reset.antt =====
-- What `reset_deobfuscation_state` (src/reverse_engineering/tools/deobfuscation/state.py) forgets.
use arema.Prelude.{
  ℕ, String, Bool, true, false, not, ◌&&◌, Option, none, some, List, [], ◌∷◌, ◌==◌, if◌then◌else◌,
  eqb,
}
use arema.Prelude.Int.{pos}
use arema.Prelude.Json.{Json, null, bool, int, str, arr, nil, as_nat, as_bool}
use arema.Workbench.State.{State}
use arema.Recovery.Keys
use arema.Recovery.Gate.Facts.{Facts}

written : String → List (String × Json) → Option Json → Option Json
written key [] old = old
written key ((k, v) ∷ items) old = written key items (if k == key then some v else old)

-- What an analysis that has not begun has under a key: null, false, zero, or an empty text or list.
abbrev pub is_neutral : Option Json → Bool
is_neutral none = false
is_neutral (some null) = true
is_neutral (some (bool b)) = not b
is_neutral (some (int (pos n))) = eqb n 0
is_neutral (some (str s)) = s == ""
is_neutral (some (arr nil)) = true
is_neutral (some v) = false

abbrev all_neutral : List (String × Json) → Bool
all_neutral [] = true
all_neutral ((k, v) ∷ items) = is_neutral (some v) && all_neutral items

-- The keys under which an analysis keeps what it found out: the classification and what is asked of the
-- model, the markers and the results of the tools, the snapshots, the summary and the evidence of the loop,
-- its counters, and the signature of the thrash detector.
abbrev pub analysis_keys : List String
analysis_keys =
    "deobf:classification" ∷ "deobf_current_artifact_id" ∷ "deobf_previous_snapshot_json"
    ∷ "deobf_pcode_preferred" ∷ "deobf_upx_provenance" ∷ "deep_decompile_targets"
    ∷ "deobf:upx_changed" ∷ "deobf:upx_degraded" ∷ "deobf:upx_called" ∷ "deobf:upx_result"
    ∷ "deobf:de4dot_called" ∷ "deobf:de4dot_result" ∷ "deobf:floss_count" ∷ "deobf:floss_degraded"
    ∷ "deobf:floss_called" ∷ "deobf:floss_result" ∷ "deobf:floss_seen_fingerprints"
    ∷ "deobf:retriage_snapshot" ∷ "deobf:previous_snapshot" ∷ "recovery_summary_json"
    ∷ "recovery_evidence_json" ∷ "deobf:iteration" ∷ "deobf:scripted_result"
    ∷ "deobf:scripted_attempted" ∷ "deobf:gate_error" ∷ "workbench:thrash_signature"
    ∷ "workbench:thrash_repeats" ∷ "workbench:thrash_artifact" ∷ []

-- What the gate reads where nothing has been found out.
abbrev pub no_facts : Facts
no_facts = record {
  previous = none;
  upx_changed = false;
  upx_degraded = false;
  floss_degraded = false;
  floss_count = 0;
  previous_summary = none;
  previous_evidence = none;
}

abbrev as_count : Option Json → Option ℕ
as_count none = some 0
as_count (some v) = as_nat v

abbrev as_flag : Option Json → Option Bool
as_flag none = some false
as_flag (some v) = as_bool v
