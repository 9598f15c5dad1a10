-- ===== src/Recovery/Gate/Decided.antt =====
-- What a decision of `evaluate_deobf_gate` (src/reverse_engineering/agents/deobf_gate.py) writes.
use arema.Prelude.{
  ℕ, String, Bool, true, false, ◌≡◌, ◌⊎◌, refl, subst, inl, inr, Option, none, some, [], ◌∷◌,
  if◌then◌else◌,
}
use arema.Prelude.Json.{str}
use arema.Workbench.State.{State}
use arema.Recovery.Keys
use arema.Recovery.ModelJson.{Given}
use arema.Recovery.Plan.{DeobfPlan, parse_current_classification}
use arema.Recovery.Gate.{GateTools}
use arema.Recovery.Gate.Facts.{
  Facts, exits, state_nat, state_bool, recovery_called, summary_type_error, read_facts,
}
use arema.Recovery.Gate.Decide.{EscalationDecision, decide, evaluate_plan, evaluate_deobf_gate}
use arema.Recovery.Gate.Turn.{turn_exit, evidence_made, Decided, decide-Decided}
use arema.Recovery.Gate.Undecided.{decide-raises}

-- The loop ends, and only an error code and the p-code alias are written.
abbrev pub closed : String → String → Option EscalationDecision
closed pcode_alias code = some (record {
  escalate = true;
  state_delta = ("deobf:gate_error", str code) ∷ ("deobf_pcode_preferred", str pcode_alias) ∷ [];
})

abbrev pub alias_of : DeobfPlan → String
alias_of plan = if plan.pcode_preferred then "true" else "false"

module _ (tools : GateTools) (state : State) where
  -- On facts that were read: a decision; or an exception, where the evidence cannot be made, or the loop is to
  -- end and the marker of a scripted recovery is no Boolean.
  abbrev pub FactsOutcome : DeobfPlan → Facts → ℕ → Option EscalationDecision → Type 0
  FactsOutcome plan facts n o =
      ((d : EscalationDecision) × (o ≡ some d) × Decided tools state plan facts n d)
      ⊎ ((o ≡ none)
          × ((evidence_made tools state plan facts n ≡ none)
              ⊎ ((exits (turn_exit tools state plan facts n) ≡ true)
                  × (state_bool state "deobf:scripted_attempted" ≡ none))))

  -- On a plan: an iteration or a call marker that is invalid; a tool that was not called; a fact that is
  -- invalid, with an uncaught TypeError where that of the summary is one; or facts that were read.
  abbrev pub PlanOutcome : DeobfPlan → Option EscalationDecision → Type 0
  PlanOutcome plan o =
      (((state_nat state "deobf:iteration" ≡ none) ⊎ (recovery_called state ≡ none))
        × (o ≡ closed (alias_of plan) "invalid_state"))
      ⊎ (((recovery_called state ≡ some false) × (o ≡ closed (alias_of plan) "recovery_not_called"))
          ⊎ (((read_facts tools state plan ≡ none)
                × (recovery_called state ≡ some true)
                × (o ≡ (
                    if summary_type_error tools state plan
                    then none
                    else closed (alias_of plan) "invalid_state")))
              ⊎ ((facts : Facts) × (n : ℕ) × (read_facts tools state plan ≡ some facts)
                  × (state_nat state "deobf:iteration" ≡ some n)
                  × (recovery_called state ≡ some true)
                  × FactsOutcome plan facts n o)))

  abbrev pub GateOutcome : Option EscalationDecision → Type 0
  GateOutcome o =
      ((parse_current_classification tools.readers.json state ≡ none)
        × (o ≡ closed "" "invalid_state"))
      ⊎ ((plan : DeobfPlan) × (parse_current_classification tools.readers.json state ≡ some plan)
          × PlanOutcome plan o)

  decide-FactsOutcome :
      (plan : DeobfPlan) (facts : Facts) (n : ℕ)
      → FactsOutcome plan facts n (decide tools state plan facts (alias_of plan) n)
  decide-FactsOutcome plan facts n =
      by_decision (decide tools state plan facts (alias_of plan) n) refl
        (decide-Decided tools state plan facts n (alias_of plan))
    where
      by_decision :
          (o : Option EscalationDecision)
          → decide tools state plan facts (alias_of plan) n ≡ o
          → Given (Decided tools state plan facts n) o
          → FactsOutcome plan facts n o
      by_decision none e g = inr (refl, decide-raises tools state plan facts n (alias_of plan) e)
      by_decision (some d) e g = inl (d, refl, g)

  module _ (plan : DeobfPlan) where
    by_error :
        (b : Bool)
        → (elim b [ true ↦ none | false ↦ closed (alias_of plan) "invalid_state" ])
          ≡ (if b then none else closed (alias_of plan) "invalid_state")
    by_error true = refl
    by_error false = refl

    by_facts :
        (n : ℕ) (o : Option Facts)
        → read_facts tools state plan ≡ o
        → state_nat state Keys.deobf_iteration_key ≡ some n
        → recovery_called state ≡ some true
        → PlanOutcome plan (elim o [
          | none ↦ elim (summary_type_error tools state plan) [
            | true ↦ none
            | false ↦ closed (alias_of plan) "invalid_state"
          ]
          | some facts ↦ decide tools state plan facts (alias_of plan) n
        ])
    by_facts n none rf rn rc =
        inr (inr (inl (rf, rc, by_error (summary_type_error tools state plan))))
    by_facts n (some facts) rf rn rc =
        inr (inr (inr (facts, n, rf, rn, rc, decide-FactsOutcome plan facts n)))

    by_called :
        (n : ℕ) (o : Option Bool)
        → recovery_called state ≡ o
        → state_nat state Keys.deobf_iteration_key ≡ some n
        → PlanOutcome plan (elim o [
          | none ↦ closed (alias_of plan) "invalid_state"
          | some false ↦ closed (alias_of plan) "recovery_not_called"
          | some true ↦ elim (read_facts tools state plan) [
            | none ↦ elim (summary_type_error tools state plan) [
              | true ↦ none
              | false ↦ closed (alias_of plan) "invalid_state"
            ]
            | some facts ↦ decide tools state plan facts (alias_of plan) n
          ]
        ])
    by_called n none rc rn = inl (inr rc, refl)
    by_called n (some false) rc rn = inr (inl (rc, refl))
    by_called n (some true) rc rn = by_facts n (read_facts tools state plan) refl rn rc

    by_iteration :
        (o : Option ℕ)
        → state_nat state Keys.deobf_iteration_key ≡ o
        → PlanOutcome plan (elim o [
          | none ↦ closed (alias_of plan) "invalid_state"
          | some n ↦ elim (recovery_called state) [
            | none ↦ closed (alias_of plan) "invalid_state"
            | some false ↦ closed (alias_of plan) "recovery_not_called"
            | some true ↦ elim (read_facts tools state plan) [
              | none ↦ elim (summary_type_error tools state plan) [
                | true ↦ none
                | false ↦ closed (alias_of plan) "invalid_state"
              ]
              | some facts ↦ decide tools state plan facts (alias_of plan) n
            ]
          ]
        ])
    by_iteration none rn = inl (inl rn, refl)
    by_iteration (some n) rn = by_called n (recovery_called state) refl rn

    evaluate_plan-PlanOutcome : PlanOutcome plan (evaluate_plan tools state plan)
    evaluate_plan-PlanOutcome = by_iteration (state_nat state Keys.deobf_iteration_key) refl

pub evaluate_deobf_gate_outcomes :
    (tools : GateTools) (state : State) → GateOutcome tools state (evaluate_deobf_gate tools state)
unfolding evaluate_deobf_gate
evaluate_deobf_gate_outcomes tools state =
    by_plan (parse_current_classification tools.readers.json state) refl
  where
    by_plan :
        (o : Option DeobfPlan)
        → parse_current_classification tools.readers.json state ≡ o
        → GateOutcome tools state (elim o [
          | none ↦ closed "" "invalid_state"
          | some plan ↦ evaluate_plan tools state plan
        ])
    by_plan none e = inl (e, refl)
    by_plan (some plan) e = inr (plan, e, evaluate_plan-PlanOutcome tools state plan)

-- A decision by which the loop goes on is one on facts that were read.
pub goes_on-Decided :
    (tools : GateTools) (state : State) (d : EscalationDecision)
    → GateOutcome tools state (some d)
    → d.escalate ≡ false
    → (plan : DeobfPlan) × (facts : Facts) × (n : ℕ) × (state_nat state Keys.deobf_iteration_key
        ≡ some n)
      × Decided tools state plan facts n d
goes_on-Decided tools state d (inl (_, x)) f = cc
goes_on-Decided tools state d (inr (plan, _, inl (_, x))) f = cc
goes_on-Decided tools state d (inr (plan, _, inr (inl (_, x)))) f = cc
goes_on-Decided tools state d (inr (plan, _, inr (inr (inl (_, _, x))))) f =
    absurd (not_closed (summary_type_error tools state plan) x)
  where
    not_closed :
        (b : Bool) → some d ≡ (if b then none else closed (alias_of plan) "invalid_state") → ⊥
    not_closed true y = cc y
    not_closed false y = cc
goes_on-Decided tools state d
      (inr (plan, _, inr (inr (inr (facts, n, _, i, _, inl (d', x, decided)))))) f =
    (plan, facts, n, i, subst (Decided tools state plan facts n) (same x) decided)
  where
    same : some d ≡ some d' → d' ≡ d
    same y = cc
goes_on-Decided tools state d (inr (plan, _, inr (inr (inr (facts, n, _, i, _, inr (x, _)))))) f =
    cc x
