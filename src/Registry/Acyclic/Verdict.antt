-- ===== src/Registry/Acyclic/Verdict.antt =====
-- What `_validate_acyclic_agents` (src/arema/registry/catalog.py) decides about a catalog whose
-- sub-agents are all registered.
use arema.Prelude.{
  ℕ, ◌<◌, String, true, false, ◌≡◌, ◌⊎◌, refl, ap, sym, ◌∙◌, subst, inl, inr, Option, none, some,
  List, [], ◌∷◌, arith, get_elem?, Bool-cases, contains,
}
use arema.Prelude.Dict.{lookup, has, is_some, keys}
use arema.Registry.Descriptors.{
  AgentDescriptor, Agents, subs_of, invalid_root, frozen, invalid_descriptor,
  invalid_tool_descriptor, key_error, duplicate, unresolved, cyclic, unreachable, Checked, ok, err,
}
use arema.Registry.Acyclic.{
  Mark, unvisited, visiting, visited, Search, search_all, all_unvisited, fresh, verdict,
  validate_acyclic_agents,
}
use arema.Registry.Acyclic.Paths.{IsSafe, safe, IsCycle, safe_not-IsCycle}
use arema.Registry.Acyclic.Steps.{IsClosed, Inv, names}
use arema.Registry.Acyclic.Measure.{work_of_all, weight-le}
use arema.Registry.Acyclic.Decide.{AllEnded, search_all-AllEnded}

all_unvisited-mark :
    (ks : List String) (v : String) (m : Mark)
    → lookup v (all_unvisited ks) ≡ some m
    → m ≡ unvisited
unfolding lookup
all_unvisited-mark [] v m h = cc
all_unvisited-mark (k ∷ ks) v m h = ground (arith, all_unvisited-mark ks v m)

all_unvisited-has :
    (agents : Agents) (v : String) → has v (all_unvisited (keys agents)) ≡ has v agents
unfolding lookup
all_unvisited-has [] v = refl
all_unvisited-has ((k, d) ∷ rest) v = ground (arith, all_unvisited-has rest v)

pub has-contains : (agents : Agents) (v : String) → has v agents ≡ contains (keys agents) v
unfolding lookup
has-contains [] v = refl
has-contains ((k, d) ∷ rest) v = ground (arith, has-contains rest v)

fresh-Inv : (agents : Agents) → Inv agents (fresh agents)
fresh-Inv agents = record {
  path_eq = refl;
  located = λ v m. absurd (not_visiting (all_unvisited-mark (keys agents) v visiting m));
  finished = λ v m. absurd (not_visited (all_unvisited-mark (keys agents) v visited m));
  known = λ v r. all_unvisited-has agents v ∙ r;
  stacked = tt;
}
  where
    not_visiting : visiting ≡ unvisited → ⊥
    not_visiting x = cc

    not_visited : visited ≡ unvisited → ⊥
    not_visited x = cc

-- When the search has ended and no agent is unvisited, every agent is safe.
ended-IsSafe :
    (agents : Agents) (t : Search)
    → AllEnded agents (fresh agents) (keys agents) (some (ok t))
    → (v : String) → IsSafe agents v
ended-IsSafe agents t (inv, empty, keeps, all) v = elim (Bool-cases (has v agents)) [
  | inl r ↦ by_mark r (lookup v t.states) refl
  | inr r ↦ safe v (λ k c e. absurd (unlisted r (lookup v agents) refl k c e))
]
  where
    unlisted :
        has v agents ≡ false
        → (o : Option AgentDescriptor) → lookup v agents ≡ o
        → (k : ℕ) (c : String) → get_elem? (subs_of o) k ≡ some c
        → ⊥
    unlisted r none q k c e = cc
    unlisted r (some d) q k c e = ground (arith, sym (ap is_some q) ∙ r)

    by_mark : has v agents ≡ true → (o : Option Mark) → lookup v t.states ≡ o → IsSafe agents v
    by_mark r none q = absurd (ground (arith, sym (ap is_some q) ∙ inv.known v r))
    by_mark r (some unvisited) q = absurd (all v (sym (has-contains agents v) ∙ r) q)
    by_mark r (some visiting) q =
        let (p, at, found) = inv.located v q in
        absurd (off p (subst (λ l. get_elem? l p ≡ some v) (inv.path_eq ∙ ap names empty) found))
      where
        off : (p : ℕ) → get_elem? {A = String} [] p ≡ some v → ⊥
        off p x = cc
    by_mark r (some visited) q = inv.finished v q

-- What the validation says: nothing is wrong and no path of sub-agents is a cycle, or the cycle it
-- reports is one.
abbrev Decided : Agents → Option (Checked (Unit {0})) → Type 0
Decided agents r =
    ((r ≡ some (ok tt)) × (¬ ((l : List String) × IsCycle agents l)))
    ⊎ ((l : List String) × (r ≡ some (err (cyclic l))) × IsCycle agents l)

verdict-Decided :
    (agents : Agents) (r : Option (Checked Search))
    → AllEnded agents (fresh agents) (keys agents) r
    → Decided agents (verdict r)
verdict-Decided agents none h = absurd h
verdict-Decided agents (some (ok t)) h =
    inl (refl, λ c. safe_not-IsCycle agents c.0 (λ a. ended-IsSafe agents t h a) c.1)
verdict-Decided agents (some (err (cyclic l))) h = inr (l, refl, h)
verdict-Decided agents (some (err invalid_root)) h = absurd h
verdict-Decided agents (some (err frozen)) h = absurd h
verdict-Decided agents (some (err invalid_descriptor)) h = absurd h
verdict-Decided agents (some (err invalid_tool_descriptor)) h = absurd h
verdict-Decided agents (some (err key_error)) h = absurd h
verdict-Decided agents (some (err (duplicate k))) h = absurd h
verdict-Decided agents (some (err (unresolved a b c))) h = absurd h
verdict-Decided agents (some (err (unreachable l))) h = absurd h

-- When every listed sub-agent is registered and the fuel exceeds one turn for each agent and one
-- for each listed sub-agent, the validation ends, and either accepts, and then no path of the
-- sub-agent graph is a cycle, or reports a list of agents that is a cycle of the graph.
pub acyclic_decided :
    (agents : Agents) (fuel : ℕ)
    → IsClosed agents
    → work_of_all agents agents < fuel
    → ((validate_acyclic_agents fuel agents ≡ some (ok tt))
        × (¬ ((l : List String) × IsCycle agents l)))
      ⊎ ((l : List String) × (validate_acyclic_agents fuel agents ≡ some (err (cyclic l)))
          × IsCycle agents l)
unfolding validate_acyclic_agents
acyclic_decided agents fuel closed enough =
    verdict-Decided agents (search_all fuel agents (keys agents) (fresh agents)) (
      search_all-AllEnded agents closed fuel (fresh agents) (keys agents) (fresh-Inv agents) refl
        (λ v x. has-contains agents v ∙ x)
        (omega (arith, weight-le agents agents (all_unvisited (keys agents)))))
