-- ===== src/Recovery/Gate/Undecided.antt =====
-- When a turn of `evaluate_deobf_gate` (src/reverse_engineering/agents/deobf_gate.py) that reads its facts raises.
use arema.Prelude.{
  ℕ, ◌+◌, String, Bool, true, false, ◌≡◌, ◌⊎◌, refl, ap, subst, sym, ◌∙◌, inl, inr, Option, none,
  some, List, ◌==◌, if◌then◌else◌,
}
use arema.Prelude.Json.{Json}
use arema.Workbench.State.{State}
use arema.Recovery.Keys
use arema.Recovery.ModelJson.{◌>>=◌, Given}
use arema.Recovery.Plan.{DeobfPlan, value_at}
use arema.Evidence.Envelope.{EvidenceEnvelope}
use arema.Recovery.Gate.{GateTools, ToolOutcome}
use arema.Recovery.Gate.Targets.{floss_decompile_targets}
use arema.Recovery.Gate.Evidence.{prior_findings}
use arema.Recovery.Gate.Kept.{limited-Keeps, limited-made}
use arema.Recovery.Gate.Facts.{Facts, exits, reason_of, state_bool, parse_current_snapshot, or_else}
use arema.Recovery.Gate.Decide.{
  EscalationDecision, iteration_delta, limited, finished, needs_script, finish, conclude, decide,
}
use arema.Recovery.Gate.Turn.{
  turn_exit, upx_here, floss_here, scripted_here, Kept, evidence_made, turn_evidence-Kept,
}

module _ (tools : GateTools) (state : State) (plan : DeobfPlan) (facts : Facts) (n : ℕ) where
  -- After the tests for an exit, only the marker of a scripted recovery can be at fault.
  finish-raises :
      (reason : String) (upx floss scripted : ToolOutcome) (evidence : EvidenceEnvelope)
      (delta : List (String × Json))
      → (Kept tools state plan facts n) evidence
      → finish tools state plan facts reason upx floss scripted evidence delta ≡ none
      → state_bool state Keys.scripted_attempted_key ≡ none
  finish-raises reason upx floss scripted evidence delta k h =
      let capped_made =
        limited-made tools (reason == "iteration_cap") "deobfuscation:iteration_cap" evidence refl
          k.0 in
      let capped = capped_made.0 in
      by_attempted capped
        (subst (Given (Kept tools state plan facts n)) capped_made.1 (
          limited-Keeps tools (reason == "iteration_cap") "deobfuscation:iteration_cap"
            plan.artifact_id (prior_findings facts.previous_evidence) evidence k))
        (state_bool state Keys.scripted_attempted_key) refl
        (sym (ap (λ o. o >>= after) capped_made.1) ∙ h)
    where
      from_attempted : EvidenceEnvelope → Bool → Option EscalationDecision
      from_attempted capped attempted =
          limited tools (needs_script tools reason scripted attempted)
            "recovery:scripted_unavailable" capped
          >>= (λ final. some (finished tools plan facts reason upx floss delta final))

      after : EvidenceEnvelope → Option EscalationDecision
      after capped = state_bool state Keys.scripted_attempted_key >>= from_attempted capped

      by_attempted :
          (capped : EvidenceEnvelope)
          → (Kept tools state plan facts n) capped
          → (o : Option Bool) → state_bool state Keys.scripted_attempted_key ≡ o
          → (o >>= from_attempted capped) ≡ none
          → state_bool state Keys.scripted_attempted_key ≡ none
      by_attempted capped kc none e x = e
      by_attempted capped kc (some attempted) e x =
          let (final, f) =
            limited-made tools (needs_script tools reason scripted attempted)
              "recovery:scripted_unavailable" capped refl kc.0 in
          cc (
            sym (ap (λ o. o >>= (λ e. some (finished tools plan facts reason upx floss delta e))) f)
            ∙ x)

  conclude-raises :
      (pcode_alias : String) (upx floss scripted : ToolOutcome) (evidence : EvidenceEnvelope)
      → (Kept tools state plan facts n) evidence
      → conclude tools state plan facts pcode_alias n upx floss scripted evidence ≡ none
      → (exits (turn_exit tools state plan facts n) ≡ true)
        × (state_bool state Keys.scripted_attempted_key ≡ none)
  conclude-raises pcode_alias upx floss scripted evidence k h =
      by_exit (exits (turn_exit tools state plan facts n)) refl h
    where
      delta : List (String × Json)
      delta =
          iteration_delta tools
            (or_else
              (parse_current_snapshot tools (value_at Keys.retriage_snapshot_key state)
                plan.artifact_id)
              (or_else facts.previous plan.pre_snapshot))
            pcode_alias (n + 1) evidence (floss_decompile_targets floss)

      by_exit :
          (b : Bool)
          → exits (turn_exit tools state plan facts n) ≡ b
          → (if b
              then finish tools state plan facts
                  (reason_of (turn_exit tools state plan facts n))
                  upx
                  floss
                  scripted
                  evidence
                  delta
              else some (record { escalate = false; state_delta = delta }))
            ≡ none
          → (exits (turn_exit tools state plan facts n) ≡ true)
            × (state_bool state Keys.scripted_attempted_key ≡ none)
      by_exit true e x = (
        e,
        finish-raises (reason_of (turn_exit tools state plan facts n)) upx floss scripted evidence
            delta k x,
      )
      by_exit false e x = cc x

  pub decide-raises :
      (pcode_alias : String)
      → decide tools state plan facts pcode_alias n ≡ none
      → ((evidence_made tools state plan facts n) ≡ none)
        ⊎ ((exits (turn_exit tools state plan facts n) ≡ true)
            × (state_bool state Keys.scripted_attempted_key ≡ none))
  decide-raises pcode_alias h =
      by_evidence (evidence_made tools state plan facts n) refl
        (turn_evidence-Kept tools state plan facts n) h
    where
      by_evidence :
          (o : Option EvidenceEnvelope)
          → (evidence_made tools state plan facts n) ≡ o
          → Given (Kept tools state plan facts n) o
          → (o
              >>= conclude tools state plan facts pcode_alias n
                  (upx_here tools state plan facts n)
                  (floss_here tools state plan facts n)
                  (scripted_here tools state plan facts n))
            ≡ none
          → ((evidence_made tools state plan facts n) ≡ none)
            ⊎ ((exits (turn_exit tools state plan facts n) ≡ true)
                × (state_bool state Keys.scripted_attempted_key ≡ none))
      by_evidence none e k x = inl e
      by_evidence (some evidence) e k x = inr (
          conclude-raises pcode_alias (upx_here tools state plan facts n)
            (floss_here tools state plan facts n) (scripted_here tools state plan facts n) evidence
            k x)
