-- ===== src/Registry/Acyclic/Turns.antt =====
-- Every turn of the search of `_validate_acyclic_agents` (src/arema/registry/catalog.py): it keeps
-- the invariant and lowers the measure, or it stops on a cycle.
use arema.Prelude.{
  ℕ, zero, suc, ◌+◌, ◌-◌, ◌<◌, String, true, false, ◌≡◌, refl, ap, sym, ◌∙◌, subst, inl, inr,
  Option, none, some, List, [], ◌∷◌, ◌==◌, arith, length, get_elem?, Bool-cases, Option-cases,
}
use arema.Prelude.Dict.{Dict, lookup, insert, lookup-insert, has, is_some}
use arema.Registry.Descriptors.{
  Agents, children, subs_of, CatalogError, invalid_root, frozen, invalid_descriptor,
  invalid_tool_descriptor, key_error, duplicate, unresolved, cyclic, unreachable,
}
use arema.Registry.Acyclic.{
  Mark, unvisited, visiting, visited, Frame, Search, Turn, go, stop, cycle_from, visit, advance,
  with_agent, turn,
}
use arema.Registry.Acyclic.Paths.{IsCycle}
use arema.Registry.Acyclic.Steps.{IsClosed, Inv, at_top, popped-Inv}
use arema.Registry.Acyclic.Moves.{passed-Inv, entered-Inv, visiting-IsCycle}
use arema.Registry.Acyclic.Measure.{
  Marked, stack_work, measure, weight-insert, weight-insert_unvisited,
}

-- No agent becomes unvisited again.
abbrev pub Keeps : Search → Search → Type 0
Keeps s t = (v : String) → lookup v t.states ≡ some unvisited → lookup v s.states ≡ some unvisited

abbrev pub Stops : Agents → CatalogError → Type 0
Stops agents invalid_root = ⊥
Stops agents frozen = ⊥
Stops agents invalid_descriptor = ⊥
Stops agents invalid_tool_descriptor = ⊥
Stops agents key_error = ⊥
Stops agents (duplicate k) = ⊥
Stops agents (unresolved a b c) = ⊥
Stops agents (cyclic l) = IsCycle agents l
Stops agents (unreachable l) = ⊥

abbrev pub Turned : Agents → Search → Turn → Type 0
Turned agents s (go t) = Inv agents t × (measure agents t < measure agents s) × Keeps s t
Turned agents s (stop e) = Stops agents e

pub insert-Keeps :
    (d : Dict Mark) (c v : String) (m : Mark)
    → Marked m
    → lookup v (insert c m d) ≡ some unvisited
    → lookup v d ≡ some unvisited
insert-Keeps d c v m marked h = elim (Bool-cases (c == v)) [
  | inl q ↦ absurd (clash m marked (sym (lookup-insert c v m d ∙ rw q) ∙ h))
  | inr q ↦ sym (lookup-insert c v m d ∙ rw q) ∙ h
]
  where
    clash : (m : Mark) → Marked m → some m ≡ some unvisited → ⊥
    clash unvisited marked e = marked
    clash visiting marked e = cc
    clash visited marked e = cc

get_elem?-lt_length :
    (xs : List String) (i : ℕ) (c : String) → get_elem? xs i ≡ some c → i < length xs
get_elem?-lt_length [] i c e = cc
get_elem?-lt_length (x ∷ xs) zero c e = omega arith
get_elem?-lt_length (x ∷ xs) (suc i) c e = omega (arith, get_elem?-lt_length xs i c e)

pub has-lookup :
    {V : Type 0} (k : String) (d : Dict V) → has k d ≡ true → (v : V) × (lookup k d ≡ some v)
has-lookup k d h = elim (Option-cases (lookup k d)) [
  | inl e ↦ absurd (clash (sym (ap is_some e) ∙ h))
  | inr e ↦ e
]
  where
    clash : false ≡ true → ⊥
    clash x = cc

module _ (agents : Agents) (closed : IsClosed agents) (s : Search) (a : String) (i : ℕ)
    (rest : List Frame) (h : Inv agents s) (top : s.stack ≡ (a, i) ∷ rest) where
  work_now :
      stack_work agents s.stack ≡ suc (length (children agents a) - i) + stack_work agents rest
  work_now = ap (stack_work agents) top

  module _ (c : String) (edge : get_elem? (children agents a) i ≡ some c) where
    visit-Turned :
        (o : Option Mark)
        → lookup c s.states ≡ o
        → Turned agents s (visit o c ((a, i + 1) ∷ rest) s)
    visit-Turned none e = absurd (clash (sym (ap is_some e) ∙ h.known c (closed a i c edge)))
      where
        clash : false ≡ true → ⊥
        clash x = cc
    visit-Turned (some unvisited) e = (
      entered-Inv agents s a i rest c h top edge (closed a i c edge),
      omega (
        arith,
        work_now,
        get_elem?-lt_length (children agents a) i c edge,
        weight-insert_unvisited agents c visiting s.states tt agents e (closed a i c edge),
      ),
      λ v. insert-Keeps s.states c v visiting tt,
    )
    visit-Turned (some visiting) e =
        let (p, at, cycle) = visiting-IsCycle agents s a i rest c h top edge e in
        subst (λ o. Turned agents s (cycle_from o c s)) (sym at) cycle
    visit-Turned (some visited) e = (
      passed-Inv agents s a i rest c h top edge e,
      omega (arith, work_now, get_elem?-lt_length (children agents a) i c edge),
      λ v m. m,
    )

  advance-Turned :
      (o : Option String)
      → get_elem? (children agents a) i ≡ o
      → Turned agents s (advance o a i rest s)
  advance-Turned none e = (
    popped-Inv agents s a i rest h top e,
    omega (arith, work_now, weight-insert agents a visited s.states tt agents),
    λ v. insert-Keeps s.states a v visited tt,
  )
  advance-Turned (some c) e = visit-Turned c e (lookup c s.states) refl

  pub turn-Turned : Turned agents s (turn agents (a, i) rest s)
  turn-Turned =
      let (d, e) = has-lookup a agents ((at_top agents s a i rest h top).1) in
      subst (λ o. Turned agents s (with_agent o a i rest s)) (sym e)
        (advance-Turned (get_elem? d.sub_agent_ids i) (ap (λ o. get_elem? (subs_of o) i) e))
