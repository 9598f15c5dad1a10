-- ===== src/Runtime/TurnLimit/Exact.antt =====
-- How many model calls src/arema/runtime/callbacks/turn_limit.py leaves to each agent of a run.
use arema.Prelude.{
  ℕ, suc, ◌+◌, ◌-◌, String, true, false, ◌≡◌, refl, ap, ◌∙◌, inl, inr, List, [], ◌∷◌, ◌==◌, eq_iff,
  arith, Bool-cases, leb, if◌then◌else◌,
}
use arema.Prelude.Dict.{Dict, lookup, lookup-insert}
use arema.Runtime.TurnLimit.{
  Settings, Verdict, proceed, soft_stop, hard_stop, get_or, limit_of, verdict_at,
  enforce_turn_limit,
}

-- The calls of one agent.
unfoldable pub calls_of : String → List String → ℕ
calls_of agent [] = 0
calls_of agent (other ∷ rest) = let n = calls_of agent rest in if other == agent then suc n else n

abbrev pub with_answer : Verdict → ℕ → ℕ
with_answer proceed n = suc n
with_answer soft_stop n = suc n
with_answer hard_stop n = n

-- The calls of one agent that went to the model.
unfoldable pub model_calls : Settings → String → List String → Dict ℕ → ℕ
model_calls settings agent [] turns = 0
model_calls settings agent (other ∷ rest) turns =
    let n = model_calls settings agent rest (enforce_turn_limit settings other turns).1 in
    if other == agent then with_answer (enforce_turn_limit settings other turns).0 n else n

abbrev pub turn_of : String → Dict ℕ → ℕ
turn_of agent turns = get_or (lookup agent turns) 0

-- The smaller of two numbers.
abbrev pub smaller : ℕ → ℕ → ℕ
smaller a b = if leb a b then a else b

module _ (settings : Settings) (agent other : String) (turns : Dict ℕ) where
  turn-same :
      (other == agent) ≡ true
      → turn_of agent (enforce_turn_limit settings other turns).1 ≡ turn_of agent turns + 1
  unfolding enforce_turn_limit
  turn-same q =
      rw (lookup-insert other agent (turn_of other turns + 1) turns, q)
        (ap (λ a. turn_of a turns + 1) ((eq_iff other agent).0 q))

  turn-other :
      (other == agent) ≡ false
      → turn_of agent (enforce_turn_limit settings other turns).1 ≡ turn_of agent turns
  unfolding enforce_turn_limit
  turn-other q = rw (lookup-insert other agent (turn_of other turns + 1) turns, q) refl

  verdict-same :
      (other == agent) ≡ true
      → (enforce_turn_limit settings other turns).0
        ≡ verdict_at (turn_of agent turns + 1) (limit_of settings agent)
  unfolding enforce_turn_limit
  verdict-same q =
      ap (λ a. verdict_at (turn_of a turns + 1) (limit_of settings a)) ((eq_iff other agent).0 q)

one_call :
    (t l c : ℕ)
    → with_answer (verdict_at (t + 1) l) (smaller c (suc l - (t + 1))) ≡ smaller (suc c) (suc l - t)
one_call t l c = ground arith

-- Whatever model calls the agents of a run make, in any order: of the calls of one agent as many go to
-- the model as it makes, up to one above its limit less the turns that were counted for it before,
-- and the others are answered by the hard stop.
pub model_calls-exact :
    (settings : Settings) (agent : String) (calls : List String) (turns : Dict ℕ)
    → model_calls settings agent calls turns
      ≡ smaller (calls_of agent calls) (suc (limit_of settings agent) - turn_of agent turns)
unfolding model_calls calls_of
model_calls-exact settings agent [] turns = ground arith
model_calls-exact settings agent (other ∷ rest) turns = elim (Bool-cases (other == agent)) [
  | inr q ↦ rw q (
      model_calls-exact settings agent rest (enforce_turn_limit settings other turns).1
      ∙ ap (λ t. smaller (calls_of agent rest) (suc (limit_of settings agent) - t))
          (turn-other settings agent other turns q))
  | inl q ↦
      rw (q, verdict-same settings agent other turns q)
        (ap (with_answer (verdict_at (turn_of agent turns + 1) (limit_of settings agent))) (
            model_calls-exact settings agent rest (enforce_turn_limit settings other turns).1
            ∙ ap (λ t. smaller (calls_of agent rest) (suc (limit_of settings agent) - t))
                (turn-same settings agent other turns q))
          ∙ one_call (turn_of agent turns) (limit_of settings agent) (calls_of agent rest))
]
