-- ===== src/Recovery/GateTests.antt =====
-- A loop over a UPX sample under the gate (src/reverse_engineering/agents/deobf_gate.py), a summary that is
-- not read back, and a string that is too long for a finding.
use Prim.Native.String.{◌++◌}
use arema.Prelude.{
  ℕ, zero, suc, String, Bool, true, false, ◌≡◌, ◌⊎◌, refl, arith, Option, none, some, [], ◌∷◌, ◌==◌,
  contains, every_char, if◌then◌else◌,
}
use arema.Prelude.Int.{pos}
use arema.Prelude.Dict.{lookup}
use arema.Prelude.Json.{Json, bool, int, str, obj, Fields, end, field, get_field}
use arema.Workbench.State.{State, current_artifact_key}
use arema.Recovery.Keys
use arema.Recovery.ModelJson.{loads_model_json}
use arema.Recovery.Plan.{
  classification_json, plan_of, parse_classification, parse_current_classification,
}
use arema.Recovery.Tests.{id_a, upx_plan, plain_json}
use arema.Recovery.Gate.{GateTools, ToolOutcome, success, non_applicable, degraded, skipped}
use arema.Recovery.Gate.Outcomes.{upx_outcome, floss_outcome, scripted_outcome, de4dot_outcome}
use arema.Recovery.Gate.Evidence.{build_evidence, add_records, add_limitation}
use arema.Recovery.Gate.Summary.{RecoverySummary, summary_json, parse_summary, read_reasons}
use arema.Recovery.Gate.Facts.{read_facts, parse_previous_evidence}
use arema.Recovery.Gate.Decide.{EscalationDecision, evaluate_deobf_gate}
use arema.Recovery.Gate.Loop.{raised, ended, run_loop, run_loop_ends}
use arema.Recovery.Gate.Reread.{parse_summary-written}
use arema.Recovery.Gate.Raises.{build_evidence_raises}

abbrev a_thousand : ℕ → String → String
a_thousand zero s = s
a_thousand (suc n) s = a_thousand n (s ++ s)

abbrev tools : GateTools
tools = record {
  readers = record {
    json = plain_json;
    floats = record { is_unit = λ s. s == "1.0"; of_int = λ n. none; to_float = λ v. none };
    lower = λ s. s;
  };
  sorted_dumps = shown;
  compact_dumps = λ v. "{}";
  py_str = λ v. "";
  fingerprint = shown;
}
  where
    shown : Json → String
    shown (obj (field k (str s) fields)) = s
    shown v = ""

abbrev retriaged : Json
retriaged = obj (
    field "artifact_id" (str id_a) (
      field "size" (int (pos 9000)) (
        field "function_count" (int (pos 3)) (
          field "import_count" (int (pos 2))
            (field "string_count" (int (pos 10)) (field "section_count" (int (pos 3)) end))))))

abbrev state_after : ℕ → State
state_after n =
    (Keys.classification_key, classification_json upx_plan id_a)
    ∷ (current_artifact_key, str id_a)
    ∷ (Keys.upx_called_key, bool true)
    ∷ (Keys.floss_called_key, bool true)
    ∷ (Keys.upx_changed_key, bool false)
    ∷ (Keys.retriage_snapshot_key, retriaged)
    ∷ (Keys.deobf_iteration_key, int (pos n))
    ∷ []

-- The file has grown, so the loop goes on, and it is capped in the sixth turn.
abbrev escalates : Option EscalationDecision → Option Bool
escalates none = none
escalates (some d) = some d.escalate

capped : escalates (evaluate_deobf_gate tools (state_after 5)) ≡ some true
unfolding evaluate_deobf_gate lookup parse_current_classification parse_classification
    loads_model_json plan_of get_field every_char read_facts parse_summary parse_previous_evidence
    build_evidence add_records floss_outcome scripted_outcome de4dot_outcome upx_outcome
    add_limitation
capped = refl

goes_on_in_second : escalates (evaluate_deobf_gate tools (state_after 1)) ≡ some false
unfolding evaluate_deobf_gate lookup parse_current_classification parse_classification
    loads_model_json plan_of get_field every_char read_facts parse_summary parse_previous_evidence
    build_evidence add_records floss_outcome scripted_outcome de4dot_outcome upx_outcome
goes_on_in_second = refl

-- Agents that change nothing.
abbrev idle : ℕ → State → State
idle k s = s

run_loop_ends_example :
    (run_loop tools idle 6 (state_after 0) ≡ ended)
    ⊎ (run_loop tools idle 6 (state_after 0) ≡ raised)
unfolding lookup
run_loop_ends_example =
    run_loop_ends tools idle 6 0 (state_after 0) (λ k s. refl) refl (omega arith) (omega arith)

abbrev invalid_snapshot : RecoverySummary
invalid_snapshot = record {
  artifact_id = id_a;
  exit_reason = "retriage_snapshot_invalid";
  upx = record { status = degraded; changed = false; error_code = "upx_failed" };
  floss = record { status = non_applicable; new_count = 0; error_code = "" };
  limitations = "deobfuscation:retriage_snapshot_invalid" ∷ [];
}

parse_summary-written_example : parse_summary plain_json (summary_json invalid_snapshot) id_a ≡ (
    if contains read_reasons "retriage_snapshot_invalid"
    then some (some invalid_snapshot)
    else none)
parse_summary-written_example = parse_summary-written plain_json invalid_snapshot (omega arith)

-- A FLOSS result with one string of 16384 characters.
abbrev long_string : Fields
long_string = field "string" (str (a_thousand 14 "A")) end

abbrev long_floss : ToolOutcome
long_floss = record skipped { status = success; new_count = 1; records = long_string ∷ [] }

build_evidence_raises_example :
    build_evidence tools id_a none [] skipped long_floss skipped skipped ≡ none
build_evidence_raises_example =
    build_evidence_raises tools id_a none [] skipped long_floss skipped skipped long_string [] refl
      refl refl (omega arith) (omega arith)

-- A state in the fourth turn, with an old summary and a value that is not the analysis's.
abbrev used : State
used =
    ("task", str "unpack")
    ∷ (Keys.recovery_summary_key, summary_json invalid_snapshot)
    ∷ state_after 3
