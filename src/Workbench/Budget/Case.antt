-- ===== src/Workbench/Budget/Case.antt =====
-- The guard of src/reverse_engineering/tools/workbench/budget.py over a case that starts afresh.
use arema.Prelude.{
  suc, ◌≤◌, true, false, ◌≡◌, refl, ap, sym, ◌∙◌, subst, inl, inr, none, some, List, [], ◌∷◌, ◌==◌,
  arith, Bool-cases, length, every,
}
use arema.Prelude.Int.{ℤ, pos, ◌+ℤ◌, ◌-ℤ◌, leb_ℤ, ltb_ℤ}
use arema.Prelude.Dict.{insert}
use arema.Prelude.Json.{int}
use arema.Workbench.State.{
  State, workbench_exec_count_key, workbench_max_executions, workbench_token_baseline_key,
  workbench_max_tokens, run_python_tool_name,
}
use arema.Workbench.Budget.{charge, tokens_spent, int_at, or_zero}
use arema.Workbench.Budget.Bounds.{
  Event, call, write, is_foreign, spends, used_of, Within, spends-Within, one_more, guard-first,
  charge-used, charge-baseline, write-used, write-baseline, spends-other, spends-call,
}
use arema.Prelude.Dict.{lookup-insert}

-- At most 100 calls, each but the first less than the ceiling above what had been spent at the first.
abbrev pub Bounded : List ℤ → Type 0
Bounded [] = Unit
Bounded (first ∷ rest) =
    (every (λ s. ltb_ℤ (s -ℤ first) workbench_max_tokens) rest ≡ true) × (suc (length rest) ≤ 100)

-- In a case that starts without the guard's two keys, and in which other code does not write them,
-- whatever tools are called and whatever else is written: the guard lets at most 100 calls of
-- `run_python` through, and each of them after the first when the tokens spent are less than
-- 16,000,000 above those spent at the first.
pub spends-Bounded :
    (events : List Event) (state : State)
    → int_at workbench_exec_count_key state ≡ none
    → int_at workbench_token_baseline_key state ≡ none
    → every is_foreign events ≡ true
    → Bounded (spends events state)
unfolding spends
spends-Bounded [] state u e f = tt
spends-Bounded (write key v ∷ events) state u e f =
    spends-Bounded events (insert key v state) (write-used key v state first ∙ u)
      (write-baseline key v state first ∙ e) rest
  where
    first : is_foreign (write key v) ≡ true
    first = ground arith

    rest : every is_foreign events ≡ true
    rest = ground arith
spends-Bounded (call name ∷ events) state u e f = elim (Bool-cases (name == run_python_tool_name)) [
  | inr q ↦
      subst Bounded (sym (spends-other name state events q)) (spends-Bounded events state u e f)
  | inl q ↦
      subst Bounded (sym (spends-call name state events _ q (guard-first state name q room e))) (
        from_first _ (
          spends-Within (tokens_spent state) events (charge (used_of state) based) 1
            (ap or_zero (charge-used (used_of state) based)
              ∙ ap (λ o. or_zero o +ℤ pos 1) u
              ∙ one_more 0)
            (charge-baseline (used_of state) based ∙ written) (omega arith) f))
]
  where
    room : leb_ℤ workbench_max_executions (used_of state) ≡ false
    room = ap (λ o. leb_ℤ workbench_max_executions (or_zero o)) u

    based : State
    based = insert workbench_token_baseline_key (int (tokens_spent state)) state

    written : int_at workbench_token_baseline_key based ≡ some (tokens_spent state)
    written =
        rw
          (lookup-insert workbench_token_baseline_key workbench_token_baseline_key
            (int (tokens_spent state)) state)
          refl

    from_first : (l : List ℤ) → Within (tokens_spent state) 1 l → Bounded (tokens_spent state ∷ l)
    from_first l (all, len) = (all, omega arith)
