-- ===== src/Registry/Acyclic/Measure.antt =====
-- A bound on the turns of the search of `_validate_acyclic_agents` (src/arema/registry/catalog.py):
-- what the unvisited agents and the frames of the stack still have to do.
use arema.Prelude.{
  ℕ, suc, ◌+◌, ◌-◌, ◌≤◌, String, true, ◌≡◌, refl, ap, sym, inl, inr, Option, none, some, List, [],
  ◌∷◌, ◌==◌, eq_iff, arith, length, Bool-cases,
}
use arema.Prelude.Dict.{Dict, lookup, insert, lookup-insert, has}
use arema.Registry.Descriptors.{Agents, children}
use arema.Registry.Acyclic.{Mark, unvisited, visiting, visited, Frame, Search}

-- The turns of one frame: one for each child and one to leave.
abbrev pub work : Agents → String → ℕ
work agents a = suc (length (children agents a))

abbrev pub if_unvisited : Option Mark → ℕ → ℕ
if_unvisited none n = 0
if_unvisited (some unvisited) n = n
if_unvisited (some visiting) n = 0
if_unvisited (some visited) n = 0

-- The work of the agents of the list that are not visited yet.
abbrev pub weight : Agents → Agents → Dict Mark → ℕ
weight agents [] states = 0
weight agents ((k, d) ∷ rest) states =
    if_unvisited (lookup k states) (work agents k) + weight agents rest states

abbrev pub stack_work : Agents → List Frame → ℕ
stack_work agents [] = 0
stack_work agents ((a, i) ∷ rest) = suc (length (children agents a) - i) + stack_work agents rest

abbrev pub measure : Agents → Search → ℕ
measure agents s = weight agents agents s.states + stack_work agents s.stack

-- One turn for each agent and one for each listed sub-agent.
abbrev pub work_of_all : Agents → Agents → ℕ
work_of_all agents [] = 0
work_of_all agents ((k, d) ∷ rest) = work agents k + work_of_all agents rest

pub weight-le :
    (agents rest : Agents) (states : Dict Mark)
    → weight agents rest states ≤ work_of_all agents rest
weight-le agents [] states = omega arith
weight-le agents ((k, d) ∷ rest) states =
    omega (arith, weight-le agents rest states, at_most (lookup k states) (work agents k))
  where
    at_most : (o : Option Mark) (n : ℕ) → if_unvisited o n ≤ n
    at_most none n = omega arith
    at_most (some unvisited) n = omega arith
    at_most (some visiting) n = omega arith
    at_most (some visited) n = omega arith

abbrev pub Marked : Mark → Type 0
Marked unvisited = ⊥
Marked visiting = Unit
Marked visited = Unit

if_unvisited-Marked : (m : Mark) (n : ℕ) → Marked m → if_unvisited (some m) n ≡ 0
if_unvisited-Marked unvisited n h = absurd h
if_unvisited-Marked visiting n h = refl
if_unvisited-Marked visited n h = refl

-- A mark other than unvisited is not more work, and the agent's own work is gone.
module _ (agents : Agents) (c : String) (m : Mark) (states : Dict Mark) (marked : Marked m) where
  at_same :
      (k : String) (n : ℕ) → (c == k) ≡ true → if_unvisited (lookup k (insert c m states)) n ≡ 0
  at_same k n q = rw (lookup-insert c k m states, q) (if_unvisited-Marked m n marked)

  at_key :
      (k : String) (n : ℕ)
      → if_unvisited (lookup k (insert c m states)) n ≤ if_unvisited (lookup k states) n
  at_key k n = elim (Bool-cases (c == k)) [
    | inl q ↦ omega (arith, at_same k n q)
    | inr q ↦ rw (lookup-insert c k m states, q) (omega arith)
  ]

  pub weight-insert :
      (rest : Agents) → weight agents rest (insert c m states) ≤ weight agents rest states
  weight-insert [] = omega arith
  weight-insert ((k, d) ∷ rest) = omega (arith, weight-insert rest, at_key k (work agents k))

  pub weight-insert_unvisited :
      (rest : Agents)
      → lookup c states ≡ some unvisited
      → has c rest ≡ true
      → weight agents rest (insert c m states) + work agents c ≤ weight agents rest states
  unfolding lookup
  weight-insert_unvisited [] u r = cc
  weight-insert_unvisited ((k, d) ∷ rest) u r = elim (Bool-cases (k == c)) [
    | inl q ↦ here ((eq_iff k c).0 q)
    | inr q ↦ omega (arith, at_key k (work agents k), weight-insert_unvisited rest u (rw q at r))
  ]
    where
      here :
          k ≡ c
          → weight agents ((k, d) ∷ rest) (insert c m states) + work agents c
            ≤ weight agents ((k, d) ∷ rest) states
      here e = omega (
        arith,
        weight-insert rest,
        at_same k (work agents k) ((eq_iff c k).1 (sym e)),
        ap (λ j. if_unvisited (lookup j states) (work agents j)) e,
        ap (λ o. if_unvisited o (work agents c)) u,
        ap (work agents) e,
      )
