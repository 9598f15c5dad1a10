-- ===== src/Recovery/Gate/Reread.antt =====
-- The summary that src/reverse_engineering/agents/deobf_gate.py writes, read by its next call.
use arema.Prelude.{
  String, Bool, true, false, ◌≡◌, ◌≤◌, refl, arith, none, some, List, [], ◌∷◌, eq_refl, leb, length,
  contains, map, if◌then◌else◌,
}
use arema.Prelude.Json.{str, get_field}
use arema.Recovery.ModelJson.{JsonTools, loads_model_json}
use arema.Evidence.Envelope.{max_limitations}
use arema.Evidence.Envelope.RoundTrip.{items_list-list_items, all_texts-map}
use arema.Recovery.Gate.{ToolStatus, success, non_applicable, degraded, status_name}
use arema.Recovery.Gate.Summary.{
  RecoverySummary, summary_json, read_reasons, tool_status_of, parse_summary,
}

tool_status_of-status_name : (s : ToolStatus) → tool_status_of (status_name s) ≡ some s
tool_status_of-status_name success = refl
tool_status_of-status_name non_applicable = refl
tool_status_of-status_name degraded = refl

length-map_str : (texts : List String) → length (map str texts) ≡ length texts
length-map_str [] = refl
length-map_str (t ∷ ts) = omega (arith, length-map_str ts)

-- A summary of 64 limitations at most is read back as it is if its exit reason is one of the five that are
-- read, and refused otherwise.
pub parse_summary-written :
    (tools : JsonTools) (s : RecoverySummary)
    → length s.limitations ≤ max_limitations
    → parse_summary tools (summary_json s) s.artifact_id
      ≡ (if contains read_reasons s.exit_reason then some (some s) else none)
unfolding parse_summary loads_model_json get_field
parse_summary-written tools s h = by_reason (contains read_reasons s.exit_reason) refl
  where
    few : leb (length (map str s.limitations)) max_limitations ≡ true
    few = ground (arith, length-map_str s.limitations)

    by_reason :
        (b : Bool)
        → contains read_reasons s.exit_reason ≡ b
        → parse_summary tools (summary_json s) s.artifact_id ≡ (if b then some (some s) else none)
    by_reason true e =
        rw
          (
            eq_refl s.artifact_id,
            e,
            tool_status_of-status_name s.upx.status,
            tool_status_of-status_name s.floss.status,
            items_list-list_items (map str s.limitations),
            few,
            all_texts-map s.limitations,
          )
          refl
    by_reason false e = rw (eq_refl s.artifact_id, e) refl
