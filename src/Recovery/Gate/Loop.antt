-- ===== src/Recovery/Gate/Loop.antt =====
-- The deobfuscation loop under the gate of src/reverse_engineering/agents/deobf_gate.py ends.
use arema.Prelude.{
  ℕ, zero, suc, ◌+◌, ◌≤◌, String, Bool, true, false, ◌≡◌, ◌⊎◌, refl, ap, subst, sym, ◌∙◌, inl, inr,
  arith, Option, none, some, List, [], ◌∷◌, ◌==◌, Bool-cases,
}
use arema.Prelude.Int.{pos}
use arema.Prelude.Dict.{lookup, insert, lookup-insert}
use arema.Prelude.Json.{Json, int, as_nat}
use arema.Workbench.State.{State}
use arema.Recovery.Keys
use arema.Recovery.Plan.{DeobfPlan}
use arema.Recovery.Gate.{GateTools}
use arema.Recovery.Gate.Facts.{Facts, exits, state_nat}
use arema.Recovery.Gate.Decide.{EscalationDecision, evaluate_deobf_gate}
use arema.Recovery.Gate.Decided.{GateOutcome, evaluate_deobf_gate_outcomes, goes_on-Decided}
use arema.Recovery.Gate.Turn.{turn_exit, Decided}

-- The delta written to the state. Its keys differ, so that the order of the writes does not matter.
abbrev pub apply_delta : List (String × Json) → State → State
apply_delta [] state = state
apply_delta ((key, value) ∷ delta) state = insert key value (apply_delta delta state)

pub data LoopResult : Type 0 where
  running raised ended : LoopResult

lookup-apply_delta :
    (key : String) (value : Json) (delta : List (String × Json)) (state : State)
    → lookup key delta ≡ some value
    → lookup key (apply_delta delta state) ≡ some value
unfolding lookup
lookup-apply_delta key value [] state h = cc
lookup-apply_delta key value ((k, v) ∷ delta) state h = elim (Bool-cases (k == key)) [
  | inl q ↦ lookup-insert k key v (apply_delta delta state) ∙ (rw q (rw q at h))
  | inr q ↦
      lookup-insert k key v (apply_delta delta state)
      ∙ (rw q (lookup-apply_delta key value delta state (rw q at h)))
]

-- `state_nat` of what is there.
abbrev as_count : Option Json → Option ℕ
as_count none = some 0
as_count (some v) = as_nat v

module _ (tools : GateTools) where
  -- The turns of the loop: the agents of a turn change the state, then the gate decides. `running` is a
  -- loop that has not ended after so many turns.
  unfoldable pub run_loop : (ℕ → State → State) → ℕ → State → LoopResult
  run_loop agents zero state = running
  run_loop agents (suc turns) state = elim (evaluate_deobf_gate tools (agents turns state)) [
    | none ↦ raised
    | some d ↦ elim d.escalate [
      | true ↦ ended
      | false ↦ run_loop agents turns (apply_delta d.state_delta (agents turns state))
    ]
  ]

  -- A turn after which the loop goes on is the fifth at most, and is counted.
  goes_on :
      (state : State) (d : EscalationDecision) (n : ℕ)
      → evaluate_deobf_gate tools state ≡ some d
      → d.escalate ≡ false
      → state_nat state Keys.deobf_iteration_key ≡ some n
      → (n + 1 ≤ 5)
        × (state_nat (apply_delta d.state_delta state) Keys.deobf_iteration_key ≡ some (n + 1))
  goes_on state d n e f i =
      let (plan, facts, m, j, decided) =
        goes_on-Decided tools state d
          (subst (GateOutcome tools state) e (evaluate_deobf_gate_outcomes tools state)) f in
      decided_case plan facts m j decided
    where
      decided_case :
          (plan : DeobfPlan) (facts : Facts) (m : ℕ)
          → state_nat state Keys.deobf_iteration_key ≡ some m
          → Decided tools state plan facts m d
          → (n + 1 ≤ 5)
            × (state_nat (apply_delta d.state_delta state) Keys.deobf_iteration_key ≡ some (n + 1))
      decided_case plan facts m j (goes, counted, _) = (omega (arith, at_n, room), counted_in)
        where
          at_n : m ≡ n
          at_n = some_injective (sym j ∙ i)
            where
              some_injective : some m ≡ some n → m ≡ n
              some_injective y = cc

          open_exit : exits (turn_exit tools state plan facts m) ≡ false
          open_exit = sym goes ∙ f

          room : m + 1 ≤ 5
          room = ground (arith, open_exit)

          in_delta : lookup Keys.deobf_iteration_key d.state_delta ≡ some (int (pos (n + 1)))
          in_delta = counted ∙ ap (λ k. some (int (pos (k + 1)))) at_n

          counted_in :
              state_nat (apply_delta d.state_delta state) Keys.deobf_iteration_key ≡ some (n + 1)
          counted_in = ap as_count (
              lookup-apply_delta Keys.deobf_iteration_key (int (pos (n + 1))) d.state_delta state
                in_delta)

  -- A loop whose agents leave the iteration alone, and that is given one turn at least and six with those that
  -- it has counted, ends, or is ended by an exception that the gate does not catch.
  pub run_loop_ends :
      (agents : ℕ → State → State) (turns n : ℕ) (state : State)
      → ((k : ℕ) (s : State)
          → lookup Keys.deobf_iteration_key (agents k s) ≡ lookup Keys.deobf_iteration_key s)
      → state_nat state Keys.deobf_iteration_key ≡ some n
      → 1 ≤ turns
      → 6 ≤ n + turns
      → (run_loop agents turns state ≡ ended) ⊎ (run_loop agents turns state ≡ raised)
  unfolding run_loop
  run_loop_ends agents zero n state leaves i some_turn room = absurd (no some_turn)
    where
      no : 1 ≤ 0 → ⊥
      no x = omega arith
  run_loop_ends agents (suc turns) n state leaves i some_turn room =
      by_decision (evaluate_deobf_gate tools (agents turns state)) refl
        (λ m s j some_left r. run_loop_ends agents turns m s leaves j some_left r)
    where
      here : State
      here = agents turns state

      iteration : state_nat here Keys.deobf_iteration_key ≡ some n
      iteration = ap as_count (leaves turns state) ∙ i

      by_escalate :
          (d : EscalationDecision) (b : Bool)
          → evaluate_deobf_gate tools here ≡ some d
          → d.escalate ≡ b
          → ((m : ℕ) (s : State)
              → state_nat s Keys.deobf_iteration_key ≡ some m
              → 1 ≤ turns
              → 6 ≤ m + turns
              → (run_loop agents turns s ≡ ended) ⊎ (run_loop agents turns s ≡ raised))
          → ((elim b [
            | true ↦ ended
            | false ↦ run_loop agents turns (apply_delta d.state_delta here)
          ])
              ≡ ended)
            ⊎ ((elim b [
              | true ↦ ended
              | false ↦ run_loop agents turns (apply_delta d.state_delta here)
            ])
                ≡ raised)
      by_escalate d true e f rest = inl refl
      by_escalate d false e f rest =
          let (below, next) = goes_on here d n e f iteration in
          rest (n + 1) (apply_delta d.state_delta here) next (omega (arith, below, room))
            (omega (arith, room))

      by_decision :
          (o : Option EscalationDecision)
          → evaluate_deobf_gate tools here ≡ o
          → ((m : ℕ) (s : State)
              → state_nat s Keys.deobf_iteration_key ≡ some m
              → 1 ≤ turns
              → 6 ≤ m + turns
              → (run_loop agents turns s ≡ ended) ⊎ (run_loop agents turns s ≡ raised))
          → ((elim o [
            | none ↦ raised
            | some d ↦ elim d.escalate [
              | true ↦ ended
              | false ↦ run_loop agents turns (apply_delta d.state_delta here)
            ]
          ])
              ≡ ended)
            ⊎ ((elim o [
              | none ↦ raised
              | some d ↦ elim d.escalate [
                | true ↦ ended
                | false ↦ run_loop agents turns (apply_delta d.state_delta here)
              ]
            ])
                ≡ raised)
      by_decision none e rest = inr refl
      by_decision (some d) e rest = by_escalate d d.escalate e refl rest
