-- ===== src/Recovery/Gate/Turn.antt =====
-- What a turn of `evaluate_deobf_gate` (src/reverse_engineering/agents/deobf_gate.py) that reads its facts writes.
use arema.Prelude.{
  ℕ, ◌+◌, String, Bool, true, false, ◌||◌, ◌≡◌, refl, sym, ◌∙◌, Option, some, List, ◌==◌,
  if◌then◌else◌,
}
use arema.Prelude.Int.{pos}
use arema.Prelude.Dict.{lookup, insert, lookup-insert}
use arema.Prelude.Json.{Json, int}
use arema.Workbench.State.{State}
use arema.Recovery.Keys
use arema.Recovery.ModelJson.{◌>>=◌, Given, bind-Given, made}
use arema.Recovery.Plan.{DeobfPlan, value_at}
use arema.Evidence.Envelope.{EvidenceFinding, EvidenceEnvelope, envelope_json}
use arema.Recovery.Gate.{GateTools, ToolOutcome}
use arema.Recovery.Gate.Outcomes.{upx_outcome, floss_outcome, scripted_outcome, de4dot_outcome}
use arema.Recovery.Gate.Targets.{floss_decompile_targets}
use arema.Recovery.Gate.Summary.{limitations_of, summary_json}
use arema.Recovery.Gate.Evidence.{prior_findings, build_evidence}
use arema.Recovery.Gate.Kept.{Keeps, build_evidence-Keeps, limited-Keeps}
use arema.Recovery.Gate.Facts.{
  Facts, Exit, exits, exit_of, reason_of, state_bool, parse_current_snapshot, or_else, is_none,
}
use arema.Recovery.Gate.Decide.{
  EscalationDecision, iteration_delta, is_applicable, limited, final_summary, finished,
  needs_script, finish, conclude, turn_evidence, decide,
}

module _ (tools : GateTools) (state : State) (plan : DeobfPlan) (facts : Facts) (n : ℕ) where
  -- The tests for an exit in this turn.
  abbrev pub turn_exit : Exit
  turn_exit =
      exit_of plan facts
        (parse_current_snapshot tools (value_at Keys.retriage_snapshot_key state) plan.artifact_id)
        (n + 1)

  -- The decision is that of the tests, the next iteration is counted, and the evidence that is written is
  -- valid, bound to the plan's artifact, and begins with the findings of the evidence before.
  abbrev pub Decided : EscalationDecision → Type 0
  Decided d =
      (d.escalate ≡ exits turn_exit)
      × (lookup Keys.deobf_iteration_key d.state_delta ≡ some (int (pos (n + 1))))
      × ((e : EvidenceEnvelope) × (lookup Keys.recovery_evidence_key d.state_delta
            ≡ some (envelope_json e))
          × Keeps tools plan.artifact_id (prior_findings facts.previous_evidence) e)

  -- What the tools of this turn came to.
  abbrev pub upx_here : ToolOutcome
  upx_here =
      upx_outcome (value_at Keys.upx_result_key state) plan.upx facts.upx_changed facts.upx_degraded

  abbrev pub floss_here : ToolOutcome
  floss_here =
      floss_outcome tools (value_at Keys.floss_result_key state)
        (plan.floss || is_applicable (value_at Keys.floss_result_key state)) facts.floss_degraded
        plan.artifact_id

  abbrev pub scripted_here : ToolOutcome
  scripted_here = scripted_outcome tools (value_at Keys.scripted_result_key state) plan.artifact_id

  -- This one, with the delta that it starts from.
  abbrev pub Kept : EvidenceEnvelope → Type 0
  Kept e = Keeps tools plan.artifact_id (prior_findings facts.previous_evidence) e

  finish-Decided :
      (reason : String) (upx floss scripted : ToolOutcome) (evidence : EvidenceEnvelope)
      (delta : List (String × Json))
      → exits turn_exit ≡ true
      → Kept evidence
      → lookup Keys.deobf_iteration_key delta ≡ some (int (pos (n + 1)))
      → Given Decided (finish tools state plan facts reason upx floss scripted evidence delta)
  finish-Decided reason upx floss scripted evidence delta x k i =
      bind-Given Kept Decided
        (limited tools (reason == "iteration_cap") "deobfuscation:iteration_cap" evidence)
        from_capped
        (limited-Keeps tools (reason == "iteration_cap") "deobfuscation:iteration_cap"
          plan.artifact_id prior evidence k)
        (λ capped kc.
          bind-Given (λ _. Unit {0}) Decided (state_bool state Keys.scripted_attempted_key)
            (from_attempted capped) (made (state_bool state Keys.scripted_attempted_key))
            (λ attempted _.
              bind-Given Kept Decided
                (limited tools (needs_script tools reason scripted attempted)
                  "recovery:scripted_unavailable" capped)
                from_final
                (limited-Keeps tools (needs_script tools reason scripted attempted)
                  "recovery:scripted_unavailable" plan.artifact_id prior capped kc)
                (λ final kf. (sym x, counted final, (final, written final, kf)))))
    where
      prior : List EvidenceFinding
      prior = prior_findings facts.previous_evidence

      from_final : EvidenceEnvelope → Option EscalationDecision
      from_final final = some (finished tools plan facts reason upx floss delta final)

      from_attempted : EvidenceEnvelope → Bool → Option EscalationDecision
      from_attempted capped attempted =
          limited tools (needs_script tools reason scripted attempted)
            "recovery:scripted_unavailable" capped
          >>= from_final

      from_capped : EvidenceEnvelope → Option EscalationDecision
      from_capped capped = state_bool state Keys.scripted_attempted_key >>= from_attempted capped

      again : EvidenceEnvelope → List (String × Json)
      again final = insert Keys.recovery_evidence_key (envelope_json final) delta

      summary : EvidenceEnvelope → Json
      summary final = summary_json (final_summary plan facts reason upx floss final)

      counted :
          (final : EvidenceEnvelope)
          → lookup Keys.deobf_iteration_key
              (finished tools plan facts reason upx floss delta final).state_delta
            ≡ some (int (pos (n + 1)))
      counted final =
          lookup-insert Keys.recovery_summary_key Keys.deobf_iteration_key (summary final)
            (again final)
          ∙ lookup-insert Keys.recovery_evidence_key Keys.deobf_iteration_key (envelope_json final)
              delta
          ∙ i

      written :
          (final : EvidenceEnvelope)
          → lookup Keys.recovery_evidence_key
              (finished tools plan facts reason upx floss delta final).state_delta
            ≡ some (envelope_json final)
      written final =
          lookup-insert Keys.recovery_summary_key Keys.recovery_evidence_key (summary final)
            (again final)
          ∙ lookup-insert Keys.recovery_evidence_key Keys.recovery_evidence_key
              (envelope_json final) delta

  conclude-Decided :
      (pcode_alias : String) (upx floss scripted : ToolOutcome) (evidence : EvidenceEnvelope)
      → Kept evidence
      → Given Decided (conclude tools state plan facts pcode_alias n upx floss scripted evidence)
  unfolding lookup
  conclude-Decided pcode_alias upx floss scripted evidence k = by_exit (exits turn_exit) refl
    where
      delta : List (String × Json)
      delta =
          iteration_delta tools
            (or_else
              (parse_current_snapshot tools (value_at Keys.retriage_snapshot_key state)
                plan.artifact_id)
              (or_else facts.previous plan.pre_snapshot))
            pcode_alias (n + 1) evidence (floss_decompile_targets floss)

      by_exit :
          (b : Bool)
          → exits turn_exit ≡ b
          → Given Decided (
              if b
              then finish tools state plan facts
                  (reason_of turn_exit)
                  upx
                  floss
                  scripted
                  evidence
                  delta
              else some (record { escalate = false; state_delta = delta }))
      by_exit true e =
          finish-Decided (reason_of turn_exit) upx floss scripted evidence delta e k refl
      by_exit false e = (sym e, refl, (evidence, refl, k))

  -- The evidence of the turn, by what the tools came to.
  abbrev pub evidence_made : Option EvidenceEnvelope
  evidence_made = turn_evidence tools state plan facts upx_here floss_here scripted_here

  pub turn_evidence-Kept : Given Kept evidence_made
  turn_evidence-Kept =
      bind-Given Kept Kept
        (build_evidence tools plan.artifact_id facts.previous_evidence
          (limitations_of facts.previous_summary) upx_here floss_here scripted_here de4dot)
        (limited tools invalid "deobfuscation:retriage_snapshot_invalid")
        (build_evidence-Keeps tools plan.artifact_id facts.previous_evidence
          (limitations_of facts.previous_summary) upx_here floss_here scripted_here de4dot)
        (limited-Keeps tools invalid "deobfuscation:retriage_snapshot_invalid" plan.artifact_id
          (prior_findings facts.previous_evidence))
    where
      de4dot : ToolOutcome
      de4dot = de4dot_outcome tools (value_at Keys.de4dot_result_key state) plan.artifact_id

      invalid : Bool
      invalid = is_none (
          parse_current_snapshot tools (value_at Keys.retriage_snapshot_key state) plan.artifact_id)

  pub decide-Decided :
      (pcode_alias : String) → Given Decided (decide tools state plan facts pcode_alias n)
  decide-Decided pcode_alias =
      bind-Given Kept Decided evidence_made
        (conclude tools state plan facts pcode_alias n upx_here floss_here scripted_here)
        turn_evidence-Kept (conclude-Decided pcode_alias upx_here floss_here scripted_here)
