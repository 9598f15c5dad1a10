-- ===== src/Registry/Acyclic/Decide.antt =====
-- `_validate_acyclic_agents` (src/arema/registry/catalog.py) as a whole: it ends, it accepts only a
-- catalog of agents that lie on no cycle, and it refuses only with a cycle.
use arema.Prelude.{
  contains, ℕ, zero, suc, ◌<◌, ◌≤◌, String, true, false, ◌≡◌, ◌≢◌, refl, ap, sym, ◌∙◌, inl, inr,
  Option, none, some, List, [], ◌∷◌, ◌==◌, eq_iff, arith, Bool-cases,
}
use arema.Prelude.Dict.{lookup, insert, lookup-insert, has, is_some}
use arema.Registry.Descriptors.{Agents, Checked, ok, err}
use arema.Registry.Acyclic.{
  Mark, unvisited, visiting, visited, Frame, Search, Turn, go, stop, enter, turn, search_from,
  search_all, start_at, continue_with,
}
use arema.Registry.Acyclic.Steps.{IsClosed, names, Inv}
use arema.Registry.Acyclic.Moves.{enter-Inv}
use arema.Registry.Acyclic.Measure.{stack_work, measure, weight-insert_unvisited}
use arema.Registry.Acyclic.Turns.{Keeps, Stops, Turned, turn-Turned, insert-Keeps}

module _ (agents : Agents) where
  -- How a search that started at `s` ends.
  abbrev pub Ended : Search → Option (Checked Search) → Type 0
  Ended s none = ⊥
  Ended s (some (ok t)) =
      Inv agents t × (t.stack ≡ []) × (measure agents t ≤ measure agents s) × Keeps s t
  Ended s (some (err e)) = Stops agents e

  Ended-later :
      (s t : Search) (r : Option (Checked Search))
      → measure agents t ≤ measure agents s
      → Keeps s t
      → Ended t r
      → Ended s r
  Ended-later s t none less keeps e = e
  Ended-later s t (some (ok u)) less keeps (inv, empty, m, k) =
      (inv, empty, omega arith, λ v x. keeps v (k v x))
  Ended-later s t (some (err x)) less keeps e = e

  module _ (closed : IsClosed agents) (fuel : ℕ)
      (later : (t : Search)
        → Inv agents t
        → measure agents t < fuel
        → Ended t (search_from fuel agents t)) where
    after_turn :
        (s : Search) (r : Turn)
        → measure agents s < suc fuel
        → Turned agents s r
        → Ended s (elim r [ go t ↦ search_from fuel agents t | stop e ↦ some (err e) ])
    after_turn s (go t) m (inv, less, keeps) =
        Ended-later s t (search_from fuel agents t) (omega arith) keeps (later t inv (omega arith))
    after_turn s (stop e) m stops = stops

    at_stack :
        (s : Search) (stack : List Frame)
        → Inv agents s
        → measure agents s < suc fuel
        → s.stack ≡ stack
        → Ended s (elim stack [
          | [] ↦ some (ok s)
          | frame ∷ rest ↦ elim (turn agents frame rest s) [
            | go t ↦ search_from fuel agents t
            | stop e ↦ some (err e)
          ]
        ])
    at_stack s [] h m e = (h, e, omega arith, λ v x. x)
    at_stack s ((a, i) ∷ rest) h m e =
        after_turn s (turn agents (a, i) rest s) m (turn-Turned agents closed s a i rest h e)

  pub search_from-Ended :
      (fuel : ℕ) (s : Search)
      → IsClosed agents
      → Inv agents s
      → measure agents s < fuel
      → Ended s (search_from fuel agents s)
  unfolding search_from
  search_from-Ended zero s closed h m = absurd (omega arith)
  search_from-Ended (suc fuel) s closed h m =
      at_stack closed fuel (λ t inv less. search_from-Ended fuel t closed inv less) s s.stack h m
        refl

  -- After the loop over the starts none of them is unvisited.
  abbrev pub AllEnded : Search → List String → Option (Checked Search) → Type 0
  AllEnded s starts none = ⊥
  AllEnded s starts (some (ok t)) =
      Inv agents t
      × (t.stack ≡ [])
      × Keeps s t
      × ((v : String) → contains starts v ≡ true → lookup v t.states ≢ some unvisited)
  AllEnded s starts (some (err e)) = Stops agents e

  abbrev Started : Search → String → Option (Checked Search) → Type 0
  Started s start none = ⊥
  Started s start (some (ok t)) =
      Inv agents t
      × (t.stack ≡ [])
      × (measure agents t ≤ measure agents s)
      × Keeps s t
      × (lookup start t.states ≢ some unvisited)
  Started s start (some (err e)) = Stops agents e

  module _ (closed : IsClosed agents) (fuel : ℕ) where
    module _ (s : Search) (start : String) (h : Inv agents s) (empty : s.stack ≡ [])
        (reg : has start agents ≡ true) (m : measure agents s < fuel) where
      start_at-Started :
          (o : Option Mark)
          → lookup start s.states ≡ o
          → Started s start (start_at o s (λ t. search_from fuel agents t) start)
      start_at-Started none e = absurd (clash (sym (ap is_some e) ∙ h.known start reg))
        where
          clash : false ≡ true → ⊥
          clash x = cc
      start_at-Started (some unvisited) e = from (search_from fuel agents (enter start [] s)) (
          search_from-Ended fuel (enter start [] s) closed
            (enter-Inv agents s start [] h (h.path_eq ∙ ap names empty) reg tt)
            (omega (arith, less)))
        where
          less : measure agents (enter start [] s) ≤ measure agents s
          less = omega (
            arith,
            weight-insert_unvisited agents start visiting s.states tt agents e reg,
            ap (stack_work agents) empty,
          )

          marked : lookup start (insert start visiting s.states) ≢ some unvisited
          marked x = ground (arith, lookup-insert start start visiting s.states, eq_iff start start)

          from : (r : Option (Checked Search)) → Ended (enter start [] s) r → Started s start r
          from none x = x
          from (some (ok t)) (inv, em, le, keeps) = (
            inv,
            em,
            omega (arith, less),
            λ v x. insert-Keeps s.states start v visiting tt (keeps v x),
            λ x. marked (keeps start x),
          )
          from (some (err x)) y = y
      start_at-Started (some visiting) e =
          (h, empty, omega arith, (λ v x. x), λ x. clash (sym e ∙ x))
        where
          clash : some visiting ≡ some unvisited → ⊥
          clash x = cc
      start_at-Started (some visited) e =
          (h, empty, omega arith, (λ v x. x), λ x. clash (sym e ∙ x))
        where
          clash : some visited ≡ some unvisited → ⊥
          clash x = cc

    pub search_all-AllEnded :
        (s : Search) (starts : List String)
        → Inv agents s
        → s.stack ≡ []
        → ((v : String) → contains starts v ≡ true → has v agents ≡ true)
        → measure agents s < fuel
        → AllEnded s starts (search_all fuel agents starts s)
    unfolding search_all
    search_all-AllEnded s [] h empty reg m = (h, empty, (λ v x. x), λ v x. absurd (clash x))
      where
        clash : false ≡ true → ⊥
        clash x = cc
    search_all-AllEnded s (start ∷ starts) h empty reg m =
        on (start_at (lookup start s.states) s (λ t. search_from fuel agents t) start)
          (start_at-Started s start h empty (reg start first) m (lookup start s.states) refl)
          (λ t inv em le. search_all-AllEnded t starts inv em rest (omega arith))
      where
        first : contains (start ∷ starts) start ≡ true
        first = ground (arith, eq_iff start start)

        rest : (v : String) → contains starts v ≡ true → has v agents ≡ true
        rest v x = reg v (ground arith)

        join :
            (t : Search) (r : Option (Checked Search))
            → Keeps s t
            → lookup start t.states ≢ some unvisited
            → AllEnded t starts r
            → AllEnded s (start ∷ starts) r
        join t none keeps ne x = x
        join t (some (ok u)) keeps ne (inv, em, k, all) = (
          inv,
          em,
          (λ v x. keeps v (k v x)),
          λ v x. elim (Bool-cases (start == v)) [
            | inl q ↦ λ y. ne (k start (ap (λ w. lookup w u.states) ((eq_iff start v).0 q) ∙ y))
            | inr q ↦ all v (rw q at x)
          ],
        )
        join t (some (err e)) keeps ne x = x

        on :
            (r : Option (Checked Search))
            → Started s start r
            → ((t : Search)
                → Inv agents t
                → t.stack ≡ []
                → measure agents t ≤ measure agents s
                → AllEnded t starts (search_all fuel agents starts t))
            → AllEnded s (start ∷ starts) (continue_with r (λ t. search_all fuel agents starts t))
        on none x later = x
        on (some (ok t)) (inv, em, le, keeps, ne) later =
            join t (search_all fuel agents starts t) keeps ne (later t inv em le)
        on (some (err e)) x later = x
