-- ===== src/Workbench/Budget/Bounds.antt =====
-- What the guard of src/reverse_engineering/tools/workbench/budget.py lets through over a whole case.
use arema.Prelude.{
  ℕ, suc, ◌+◌, ◌≤◌, String, Bool, true, false, not, ◌||◌, ◌≡◌, refl, ap, sym, ◌∙◌, subst, inl, inr,
  Option, none, some, List, [], ◌∷◌, ◌==◌, arith, Bool-cases, length, every, if◌then◌else◌,
}
use arema.Prelude.Int.{ℤ, pos, ◌+ℤ◌, ◌-ℤ◌, leb_ℤ, ltb_ℤ}
use arema.Prelude.Dict.{insert, lookup-insert}
use arema.Prelude.Json.{Json, int}
use arema.Workbench.State.{
  State, workbench_exec_count_key, workbench_max_executions, workbench_token_baseline_key,
  workbench_max_tokens, run_python_tool_name,
}
use arema.Workbench.Budget.{
  charge, exhausted_result, tokens_spent, int_at, or_zero, run_python_budget_guard,
}

-- What happens in a case: the guard is called for a tool, or other code writes a key of the state.
pub data Event : Type 0 where
  call : String → Event
  write : String → Json → Event

-- Other code leaves the two keys of the guard alone.
abbrev pub is_foreign : Event → Bool
is_foreign (call name) = true
is_foreign (write key v) =
    not (key == workbench_exec_count_key || key == workbench_token_baseline_key)

abbrev pub step : Event → State → State
step (call name) state = (run_python_budget_guard name state).1
step (write key v) state = insert key v state

abbrev pub spend_when : Option Json → ℤ → List ℤ → List ℤ
spend_when none spent rest = spent ∷ rest
spend_when (some result) spent rest = rest

-- The tokens that had been spent at each `run_python` call that the guard let through.
unfoldable pub spends : List Event → State → List ℤ
spends [] state = []
spends (write key v ∷ events) state = spends events (insert key v state)
spends (call name ∷ events) state =
    let rest = spends events (run_python_budget_guard name state).1 in
    if name == run_python_tool_name
    then spend_when (run_python_budget_guard name state).0 (tokens_spent state) rest
    else rest

abbrev pub used_of : State → ℤ
used_of state = or_zero (int_at workbench_exec_count_key state)

module _ (name : String) (state : State) where
  pub guard-other :
      (name == run_python_tool_name) ≡ false → run_python_budget_guard name state ≡ (none, state)
  unfolding run_python_budget_guard
  guard-other q = rw q refl

  module _ (events : List Event) where
    pub spends-other :
        (name == run_python_tool_name) ≡ false
        → spends (call name ∷ events) state ≡ spends events state
    unfolding spends
    spends-other q = rw q (ap (λ r. spends events r.1) (guard-other q))

    pub spends-call :
        (r : Option Json × State)
        → (name == run_python_tool_name) ≡ true
        → run_python_budget_guard name state ≡ r
        → spends (call name ∷ events) state
          ≡ spend_when r.0 (tokens_spent state) (spends events r.1)
    unfolding spends
    spends-call r q e = rw q (ap (λ r. spend_when r.0 (tokens_spent state) (spends events r.1)) e)

-- Every outcome of the guard on a call of `run_python`.
module _ (state : State) (name : String) (q : (name == run_python_tool_name) ≡ true) where
  pub guard-spent_count :
      leb_ℤ workbench_max_executions (used_of state) ≡ true
      → run_python_budget_guard name state ≡ (some (exhausted_result "100 executions"), state)
  unfolding run_python_budget_guard
  guard-spent_count l = rw (q, l) refl

  pub guard-first :
      leb_ℤ workbench_max_executions (used_of state) ≡ false
      → int_at workbench_token_baseline_key state ≡ none
      → run_python_budget_guard name state ≡ (
        none,
        charge
            (used_of state)
            (insert workbench_token_baseline_key (int (tokens_spent state)) state),
      )
  unfolding run_python_budget_guard
  guard-first l e = rw (q, l, e) refl

  guard-later :
      (baseline : ℤ)
      → leb_ℤ workbench_max_executions (used_of state) ≡ false
      → int_at workbench_token_baseline_key state ≡ some baseline
      → leb_ℤ workbench_max_tokens (tokens_spent state -ℤ baseline) ≡ false
      → run_python_budget_guard name state ≡ (none, charge (used_of state) state)
  unfolding run_python_budget_guard
  guard-later baseline l e m = rw (q, l, e, m) refl

  guard-spent_tokens :
      (baseline : ℤ)
      → leb_ℤ workbench_max_executions (used_of state) ≡ false
      → int_at workbench_token_baseline_key state ≡ some baseline
      → leb_ℤ workbench_max_tokens (tokens_spent state -ℤ baseline) ≡ true
      → run_python_budget_guard name state ≡ (some (exhausted_result "16,000,000 tokens"), state)
  unfolding run_python_budget_guard
  guard-spent_tokens baseline l e m = rw (q, l, e, m) refl

-- What a charge leaves in the two keys.
module _ (used : ℤ) (state : State) where
  pub charge-used : int_at workbench_exec_count_key (charge used state) ≡ some (used +ℤ pos 1)
  charge-used =
      rw
        (lookup-insert workbench_exec_count_key workbench_exec_count_key (int (used +ℤ pos 1))
          state)
        refl

  pub charge-baseline :
      int_at workbench_token_baseline_key (charge used state)
      ≡ int_at workbench_token_baseline_key state
  charge-baseline =
      rw
        (lookup-insert workbench_exec_count_key workbench_token_baseline_key (int (used +ℤ pos 1))
          state)
        refl

-- What another's write leaves in them.
module _ (key : String) (v : Json) (state : State) (f : is_foreign (write key v) ≡ true) where
  pub write-used :
      int_at workbench_exec_count_key (insert key v state) ≡ int_at workbench_exec_count_key state
  write-used = rw (lookup-insert key workbench_exec_count_key v state, apart) refl
    where
      apart : (key == workbench_exec_count_key) ≡ false
      apart = ground arith

  pub write-baseline :
      int_at workbench_token_baseline_key (insert key v state)
      ≡ int_at workbench_token_baseline_key state
  write-baseline = rw (lookup-insert key workbench_token_baseline_key v state, apart) refl
    where
      apart : (key == workbench_token_baseline_key) ≡ false
      apart = ground arith

under_max : (x : ℤ) → leb_ℤ workbench_max_tokens x ≡ false → ltb_ℤ x workbench_max_tokens ≡ true
under_max x h = ground arith

pub one_more : (n : ℕ) → pos n +ℤ pos 1 ≡ pos (suc n)
unfolding ◌+ℤ◌
one_more n = ground arith

pub has_room : (n : ℕ) → leb_ℤ workbench_max_executions (pos n) ≡ false → suc n ≤ 100
has_room n h = ground arith

-- Each of the spends is less than the ceiling above the baseline, and the count does not pass the cap.
abbrev pub Within : ℤ → ℕ → List ℤ → Type 0
Within b n l = (every (λ s. ltb_ℤ (s -ℤ b) workbench_max_tokens) l ≡ true) × (n + length l ≤ 100)

module _ (b : ℤ) where
  pub spends-Within :
      (events : List Event) (state : State) (n : ℕ)
      → used_of state ≡ pos n
      → int_at workbench_token_baseline_key state ≡ some b
      → n ≤ 100
      → every is_foreign events ≡ true
      → Within b n (spends events state)
  unfolding spends
  spends-Within [] state n u e le f = (refl, omega arith)
  spends-Within (write key v ∷ events) state n u e le f =
      spends-Within events (insert key v state) n (ap or_zero (write-used key v state first) ∙ u)
        (write-baseline key v state first ∙ e) le rest
    where
      first : is_foreign (write key v) ≡ true
      first = ground arith

      rest : every is_foreign events ≡ true
      rest = ground arith
  spends-Within (call name ∷ events) state n u e le f =
      elim (Bool-cases (name == run_python_tool_name)) [
        | inr q ↦
            subst (Within b n) (sym (spends-other name state events q))
              (spends-Within events state n u e le f)
        | inl q ↦ elim (Bool-cases (leb_ℤ workbench_max_executions (used_of state))) [
          | inl l ↦
              subst (Within b n)
                (sym (spends-call name state events _ q (guard-spent_count state name q l)))
                (spends-Within events state n u e le f)
          | inr l ↦ elim (Bool-cases (leb_ℤ workbench_max_tokens (tokens_spent state -ℤ b))) [
            | inl m ↦
                subst (Within b n)
                  (sym
                    (spends-call name state events _ q (guard-spent_tokens state name q b l e m)))
                  (spends-Within events state n u e le f)
            | inr m ↦
                subst (Within b n)
                  (sym (spends-call name state events _ q (guard-later state name q b l e m)))
                  (one_spend _ (under_max _ m) (
                    spends-Within events (charge (used_of state) state) (suc n)
                      (ap or_zero (charge-used (used_of state) state)
                        ∙ ap (λ x. x +ℤ pos 1) u
                        ∙ one_more n)
                      (charge-baseline (used_of state) state ∙ e)
                      (has_room n (ap (leb_ℤ workbench_max_executions) (sym u) ∙ l)) f))
          ]
        ]
      ]
    where
      one_spend :
          (l : List ℤ)
          → ltb_ℤ (tokens_spent state -ℤ b) workbench_max_tokens ≡ true
          → Within b (suc n) l
          → Within b n (tokens_spent state ∷ l)
      one_spend l m (all, len) = (ground arith, omega arith)
