-- ===== src/Recovery/Gate/Decide.antt =====
-- `evaluate_deobf_gate` of src/reverse_engineering/agents/deobf_gate.py. An `EscalationDecision` is whether
-- the loop ends, and what is written to the state.
use arema.Prelude.{
  ℕ, ◌+◌, String, Bool, true, false, not, ◌&&◌, ◌||◌, Option, none, some, List, [], ◌∷◌, ◌==◌,
  if◌then◌else◌,
}
use arema.Prelude.Int.{pos}
use arema.Prelude.Dict.{insert}
use arema.Prelude.Json.{Json, null, bool, int, str, obj, get_or_null}
use arema.Workbench.State.{State}
use arema.Recovery.Keys
use arema.Recovery.ModelJson.{◌>>=◌}
use arema.Recovery.Plan.{Snapshot, DeobfPlan, snapshot_json, value_at, parse_current_classification}
use arema.Evidence.Envelope.{EvidenceEnvelope, envelope_json, max_limitations}
use arema.Recovery.Cached.{is_true}
use arema.Recovery.Gate.{GateTools, ToolOutcome, is_success, stable_append}
use arema.Recovery.Gate.Facts.{
  Facts, exit_of, exits, reason_of, or_else, is_none, state_nat, state_bool, recovery_called,
  read_facts, summary_type_error, parse_current_snapshot,
}
use arema.Recovery.Gate.Outcomes.{upx_outcome, floss_outcome, scripted_outcome, de4dot_outcome}
use arema.Recovery.Gate.Evidence.{build_evidence, add_limitation}
use arema.Recovery.Gate.Targets.{floss_decompile_targets}
use arema.Recovery.Gate.Summary.{
  RecoverySummary, summary_of, summary_json, limitations_of, summary_limitations,
}

pub record EscalationDecision : Type 0 where
  pub escalate : Bool
  pub state_delta : List (String × Json)

abbrev pub invalid_state_error : String
invalid_state_error = "invalid_state"

abbrev pub recovery_not_called_error : String
recovery_not_called_error = "recovery_not_called"

-- `_fail_closed`
abbrev pub fail_closed : String → String → EscalationDecision
fail_closed pcode_alias reason = record {
  escalate = true;
  state_delta =
      (Keys.gate_error_key, str reason) ∷ (Keys.pcode_preferred_prompt_key, str pcode_alias) ∷ [];
}

-- The floss result is a dict with `applicable` set.
abbrev pub is_applicable : Json → Bool
is_applicable (obj r) = is_true (get_or_null "applicable" r)
is_applicable v = false

abbrev pub with_cap : Bool → List String → List String
with_cap true limitations = stable_append limitations "deobfuscation:iteration_cap" max_limitations
with_cap false limitations = limitations

abbrev pub final_summary :
    DeobfPlan → Facts → String → ToolOutcome → ToolOutcome → EvidenceEnvelope → RecoverySummary
final_summary plan facts reason upx floss final =
    summary_of plan.artifact_id reason upx floss
      (with_cap (reason == "iteration_cap") (summary_limitations facts.previous_summary final))

module _ (tools : GateTools) where
  -- `_iteration_delta`, with the decompile targets
  abbrev pub iteration_delta :
      Snapshot → String → ℕ → EvidenceEnvelope → String → List (String × Json)
  iteration_delta current pcode_alias iteration evidence targets =
      (Keys.previous_snapshot_key, snapshot_json current)
      ∷ (Keys.deobf_baseline_prompt_key, str (tools.compact_dumps (snapshot_json current)))
      ∷ (Keys.pcode_preferred_prompt_key, str pcode_alias)
      ∷ (Keys.deobf_iteration_key, int (pos iteration))
      ∷ (Keys.recovery_evidence_key, envelope_json evidence)
      ∷ (Keys.upx_called_key, bool false)
      ∷ (Keys.floss_called_key, bool false)
      ∷ (Keys.upx_result_key, null)
      ∷ (Keys.floss_result_key, null)
      ∷ (Keys.upx_changed_key, bool false)
      ∷ (Keys.upx_degraded_key, bool false)
      ∷ (Keys.floss_count_key, int (pos 0))
      ∷ (Keys.floss_degraded_key, bool false)
      ∷ (Keys.scripted_result_key, null)
      ∷ (Keys.scripted_attempted_key, bool false)
      ∷ (Keys.de4dot_result_key, null)
      ∷ (Keys.de4dot_called_key, bool false)
      ∷ (Keys.dnlib_roundtrip_result_key, null)
      ∷ (Keys.dnlib_roundtrip_called_key, bool false)
      ∷ (Keys.deep_decompile_targets_prompt_key, str targets)
      ∷ []

  -- A limitation that is added where the test holds.
  abbrev pub limited : Bool → String → EvidenceEnvelope → Option EvidenceEnvelope
  limited true limitation evidence = add_limitation tools evidence limitation
  limited false limitation evidence = some evidence

  -- The decision that ends the loop, with the evidence and the summary written again.
  abbrev pub finished :
      DeobfPlan
      → Facts
      → String
      → ToolOutcome
      → ToolOutcome
      → List (String × Json)
      → EvidenceEnvelope
      → EscalationDecision
  finished plan facts reason upx floss delta final = record {
    escalate = true;
    state_delta =
        insert Keys.recovery_summary_key
          (summary_json (final_summary plan facts reason upx floss final))
          (insert Keys.recovery_evidence_key (envelope_json final) delta);
  }

  abbrev pub needs_script : String → ToolOutcome → Bool → Bool
  needs_script reason scripted attempted =
      attempted && (not (is_success scripted.status) && reason == "no_progress")

  abbrev pub finish :
      State
      → DeobfPlan
      → Facts
      → String
      → ToolOutcome
      → ToolOutcome
      → ToolOutcome
      → EvidenceEnvelope
      → List (String × Json)
      → Option EscalationDecision
  finish state plan facts reason upx floss scripted evidence delta = do
    capped ← limited (reason == "iteration_cap") "deobfuscation:iteration_cap" evidence
    attempted ← state_bool state Keys.scripted_attempted_key
    final ← limited (needs_script reason scripted attempted) "recovery:scripted_unavailable" capped
    some (finished plan facts reason upx floss delta final)

  -- From the evidence on.
  abbrev pub conclude :
      State
      → DeobfPlan
      → Facts
      → String
      → ℕ
      → ToolOutcome
      → ToolOutcome
      → ToolOutcome
      → EvidenceEnvelope
      → Option EscalationDecision
  conclude state plan facts pcode_alias n upx floss scripted evidence =
      let current =
        parse_current_snapshot tools (value_at Keys.retriage_snapshot_key state) plan.artifact_id in
      let x = exit_of plan facts current (n + 1) in
      let delta =
        iteration_delta (or_else current (or_else facts.previous plan.pre_snapshot)) pcode_alias
          (n + 1) evidence (floss_decompile_targets floss) in
      if exits x
      then finish state plan facts (reason_of x) upx floss scripted evidence delta
      else some (record { escalate = false; state_delta = delta })

  -- The evidence of this turn.
  abbrev pub turn_evidence :
      State → DeobfPlan → Facts → ToolOutcome → ToolOutcome → ToolOutcome → Option EvidenceEnvelope
  turn_evidence state plan facts upx floss scripted = do
    built ←
        build_evidence tools plan.artifact_id facts.previous_evidence
          (limitations_of facts.previous_summary) upx floss scripted
          (de4dot_outcome tools (value_at Keys.de4dot_result_key state) plan.artifact_id)
    limited
        (is_none (
          parse_current_snapshot tools (value_at Keys.retriage_snapshot_key state)
            plan.artifact_id))
        "deobfuscation:retriage_snapshot_invalid" built

  -- From the facts on; `n` is the iteration that the state has. `none` is an exception that is not caught.
  abbrev pub decide : State → DeobfPlan → Facts → String → ℕ → Option EscalationDecision
  decide state plan facts pcode_alias n =
      let upx =
        upx_outcome (value_at Keys.upx_result_key state) plan.upx facts.upx_changed
          facts.upx_degraded in
      let floss =
        floss_outcome tools (value_at Keys.floss_result_key state)
          (plan.floss || is_applicable (value_at Keys.floss_result_key state)) facts.floss_degraded
          plan.artifact_id in
      let scripted =
        scripted_outcome tools (value_at Keys.scripted_result_key state) plan.artifact_id in
      turn_evidence state plan facts upx floss scripted
      >>= conclude state plan facts pcode_alias n upx floss scripted

  -- The readings, in order: a ValueError in one of them fails closed.
  abbrev pub evaluate_plan : State → DeobfPlan → Option EscalationDecision
  evaluate_plan state plan =
      let pcode_alias = if plan.pcode_preferred then "true" else "false" in
      elim (state_nat state Keys.deobf_iteration_key) [
        | none ↦ some (fail_closed pcode_alias invalid_state_error)
        | some n ↦ elim (recovery_called state) [
          | none ↦ some (fail_closed pcode_alias invalid_state_error)
          | some false ↦ some (fail_closed pcode_alias recovery_not_called_error)
          | some true ↦ elim (read_facts tools state plan) [
            | none ↦ elim (summary_type_error tools state plan) [
              | true ↦ none
              | false ↦ some (fail_closed pcode_alias invalid_state_error)
            ]
            | some facts ↦ decide state plan facts pcode_alias n
          ]
        ]
      ]

  unfoldable pub evaluate_deobf_gate : State → Option EscalationDecision
  evaluate_deobf_gate state = elim (parse_current_classification tools.readers.json state) [
    | none ↦ some (fail_closed "" invalid_state_error)
    | some plan ↦ evaluate_plan state plan
  ]
