-- ===== src/Recovery/Gate/Facts.antt =====
-- What `evaluate_deobf_gate` of src/reverse_engineering/agents/deobf_gate.py reads from the state, and the tests
-- for an exit.
use arema.Prelude.{
  ℕ, String, Bool, true, false, not, ◌&&◌, ◌||◌, Option, none, some, [], ◌∷◌, ◌==◌, eqb, leb, ltb,
  contains, if◌then◌else◌,
}
use arema.Prelude.Dict.{lookup, is_some}
use arema.Prelude.Json.{Json, null, as_bool, as_nat, as_str, as_obj, get_or_null}
use arema.Workbench.State.{State}
use arema.Recovery.Keys
use arema.Recovery.ModelJson.{◌>>=◌, require, loads_model_json, max_model_json_chars}
use arema.Recovery.Plan.{Snapshot, DeobfPlan, snapshot_of, value_at, is_artifact_id}
use arema.Evidence.Envelope.{EvidenceEnvelope, rebind_evidence_envelope}
use arema.Evidence.Envelope.Parse.{parse_evidence_envelope}
use arema.Recovery.Gate.{GateTools}
use arema.Recovery.Gate.Summary.{RecoverySummary, parse_summary, raises_type_error}

-- `state.get(key, 0)`, a nonnegative integer, and `state.get(key, False)`, a Boolean
abbrev pub state_nat : State → String → Option ℕ
state_nat state key = elim (lookup key state) [ none ↦ some 0 | some v ↦ as_nat v ]

abbrev pub state_bool : State → String → Option Bool
state_bool state key = elim (lookup key state) [ none ↦ some false | some v ↦ as_bool v ]

-- `_recovery_called`
abbrev pub recovery_called : State → Option Bool
recovery_called state = do
  upx ← state_bool state Keys.upx_called_key
  if upx then state_bool state Keys.floss_called_key else some false

-- What the gate reads besides the classification, the iteration and the call markers.
pub record Facts : Type 0 where
  pub previous : Option Snapshot
  pub upx_changed : Bool
  pub upx_degraded : Bool
  pub floss_degraded : Bool
  pub floss_count : ℕ
  pub previous_summary : Option RecoverySummary
  pub previous_evidence : Option EvidenceEnvelope

-- Without a snapshot there is no growth.
abbrev pub has_grown : Option Snapshot → Snapshot → Bool
has_grown none baseline = false
has_grown (some current) baseline =
    ltb baseline.size current.size
    || (ltb baseline.function_count current.function_count
        || (ltb baseline.import_count current.import_count
            || (ltb baseline.string_count current.string_count
                || ltb baseline.section_count current.section_count)))

abbrev pub or_else {ℓ} : {A : Type ℓ} → Option A → A → A
or_else none a = a
or_else (some b) a = b

abbrev pub is_none {ℓ} : {A : Type ℓ} → Option A → Bool
is_none none = true
is_none (some a) = false

-- The tests of the exit, in the order in which they give the reason.
pub record Exit : Type 0 where
  pub clean_plan : Bool
  pub pcode_preferred : Bool
  pub enabled_degraded : Bool
  pub snapshot_invalid : Bool
  pub no_progress : Bool
  pub capped : Bool

abbrev pub exit_of : DeobfPlan → Facts → Option Snapshot → ℕ → Exit
exit_of plan facts current iteration = record {
  clean_plan =
      not plan.upx && (not plan.floss && contains ("none" ∷ "unknown" ∷ []) plan.obf_class);
  pcode_preferred = plan.pcode_preferred;
  enabled_degraded =
      (not plan.upx || facts.upx_degraded)
      && ((not plan.floss || facts.floss_degraded) && (plan.upx || plan.floss));
  snapshot_invalid = is_none current;
  no_progress =
      not facts.upx_changed
      && (eqb facts.floss_count 0
          && not (has_grown current (or_else facts.previous plan.pre_snapshot)));
  capped = leb Keys.deobf_max_iterations iteration;
}

abbrev pub exits : Exit → Bool
exits x =
    x.clean_plan
    || (x.pcode_preferred
        || (x.enabled_degraded || (x.snapshot_invalid || (x.no_progress || x.capped))))

abbrev pub reason_of : Exit → String
reason_of x =
    if x.clean_plan
    then "complete"
    else if x.pcode_preferred
    then "pcode_handoff"
    else if x.enabled_degraded
    then "degraded"
    else if x.snapshot_invalid
    then "retriage_snapshot_invalid"
    else if x.no_progress
    then "no_progress"
    else "iteration_cap"

module _ (tools : GateTools) where
  -- `_parse_snapshot` and `_parse_current_snapshot`
  abbrev pub parse_snapshot : Json → Option Snapshot
  parse_snapshot raw = do
    decoded ← loads_model_json tools.readers.json max_model_json_chars raw
    fields ← as_obj decoded
    snapshot_of fields

  abbrev pub parse_current_snapshot : Json → String → Option Snapshot
  parse_current_snapshot raw artifact_id = do
    decoded ← loads_model_json tools.readers.json max_model_json_chars raw
    fields ← as_obj decoded
    own_id ← as_str (get_or_null "artifact_id" fields)
    _ ← require (is_artifact_id own_id)
    _ ← require (own_id == artifact_id)
    snapshot_of fields

  abbrev pub previous_snapshot : Json → Option (Option Snapshot)
  previous_snapshot null = some none
  previous_snapshot raw = do s ← parse_snapshot raw; some (some s)

  -- `_evidence_artifact_id` and `_parse_previous_evidence`
  abbrev pub evidence_artifact_id : Json → Option String
  evidence_artifact_id raw = do
    decoded ← loads_model_json tools.readers.json max_model_json_chars raw
    fields ← as_obj decoded
    as_str (get_or_null "artifact_id" fields)

  abbrev pub rebound_evidence : Json → String → Option EvidenceEnvelope
  rebound_evidence raw artifact_id = do
    own_id ← evidence_artifact_id raw
    envelope ← parse_evidence_envelope tools.readers raw own_id
    rebind_evidence_envelope tools.readers.floats envelope artifact_id

  unfoldable pub parse_previous_evidence : Json → String → Option (Option EvidenceEnvelope)
  parse_previous_evidence null artifact_id = some none
  parse_previous_evidence raw artifact_id = do e ← rebound_evidence raw artifact_id; some (some e)

  -- Whether the readings before the summary succeed and that of the summary raises a TypeError.
  abbrev pub summary_type_error : State → DeobfPlan → Bool
  summary_type_error state plan =
      is_some (do
        _ ← previous_snapshot (value_at Keys.previous_snapshot_key state)
        _ ← state_bool state Keys.upx_changed_key
        _ ← state_bool state Keys.upx_degraded_key
        _ ← state_bool state Keys.floss_degraded_key
        state_nat state Keys.floss_count_key)
      && raises_type_error tools.readers.json (value_at Keys.recovery_summary_key state)
          plan.artifact_id

  unfoldable pub read_facts : State → DeobfPlan → Option Facts
  read_facts state plan = do
    previous ← previous_snapshot (value_at Keys.previous_snapshot_key state)
    upx_changed ← state_bool state Keys.upx_changed_key
    upx_degraded ← state_bool state Keys.upx_degraded_key
    floss_degraded ← state_bool state Keys.floss_degraded_key
    floss_count ← state_nat state Keys.floss_count_key
    previous_summary ←
        parse_summary tools.readers.json (value_at Keys.recovery_summary_key state) plan.artifact_id
    previous_evidence ←
        parse_previous_evidence (value_at Keys.recovery_evidence_key state) plan.artifact_id
    some (record {
      previous = previous;
      upx_changed = upx_changed;
      upx_degraded = upx_degraded;
      floss_degraded = floss_degraded;
      floss_count = floss_count;
      previous_summary = previous_summary;
      previous_evidence = previous_evidence;
    })
