-- ===== src/Registry/Acyclic/Moves.antt =====
-- The turns of the search of `_validate_acyclic_agents` (src/arema/registry/catalog.py) that go on to
-- a child: it is finished already, it is new, or it closes a cycle.
use arema.Prelude.{
  ℕ, zero, suc, ◌+◌, String, true, ◌≡◌, refl, ap, sym, ◌∙◌, subst, inl, inr, some, List, [], ◌∷◌,
  ◌++◌, ◌==◌, eq_iff, arith, length, get_elem?, drop, Bool-cases,
}
use arema.Prelude.Dict.{lookup, lookup-insert, has}
use arema.Registry.Descriptors.{Agents, children}
use arema.Registry.Acyclic.{visiting, visited, Frame, Search, enter}
use arema.Registry.Acyclic.Paths.{IsPath, IsCycle, IsPath-snoc, IsPath-drop}
use arema.Registry.Acyclic.Steps.{
  names, Below, Inv, names-IsPath, get_elem?-snoc_left, get_elem?-snoc_last, drop-at,
  lookup-insert_same, lookup-insert_other, safe-up, at_top, path_top,
}

drop-snoc :
    (xs : List String) (x : String) (p : ℕ) (v : String)
    → get_elem? xs p ≡ some v
    → drop p (xs ++ x ∷ []) ≡ drop p xs ++ x ∷ []
drop-snoc [] x p v h = cc
drop-snoc (y ∷ xs) x zero v h = refl
drop-snoc (y ∷ xs) x (suc p) v h = drop-snoc xs x p v h

module _ (agents : Agents) where
  -- A fresh agent enters on a stack that it may stand on.
  pub enter-Inv :
      (s : Search) (c : String) (stack : List Frame)
      → Inv agents s
      → s.path ≡ names stack
      → has c agents ≡ true
      → Below agents c stack
      → Inv agents (enter c stack s)
  enter-Inv s c stack h path reg below = record {
    path_eq = ap (λ l. l ++ c ∷ []) path;
    located = λ v m. elim (Bool-cases (c == v)) [
      | inl q ↦ (
        length s.path,
        lookup-insert_same c v (length s.path) s.positions q,
        subst (λ w. get_elem? (s.path ++ c ∷ []) (length s.path) ≡ some w) ((eq_iff c v).0 q)
            (get_elem?-snoc_last s.path c),
      )
      | inr q ↦
          let (p, at, found) =
            h.located v (sym (lookup-insert_other c v visiting s.states q) ∙ m) in
          (
            p,
            lookup-insert_other c v (length s.path) s.positions q ∙ at,
            get_elem?-snoc_left s.path c v p found,
          )
    ];
    finished = λ v m. elim (Bool-cases (c == v)) [
      | inl q ↦ absurd (marks_differ (sym (lookup-insert_same c v visiting s.states q) ∙ m))
      | inr q ↦ h.finished v (sym (lookup-insert_other c v visiting s.states q) ∙ m)
    ];
    known = λ v r. ground (arith, lookup-insert c v visiting s.states, h.known v r);
    stacked = (λ k d l e. absurd (omega arith), reg, below);
  }
    where
      marks_differ : some visiting ≡ some visited → ⊥
      marks_differ x = cc

  module _ (s : Search) (a : String) (i : ℕ) (rest : List Frame) (c : String) (h : Inv agents s)
      (top : s.stack ≡ (a, i) ∷ rest) (edge : get_elem? (children agents a) i ≡ some c) where
    -- The child is finished: the top agent goes on to its next child.
    pub passed-Inv :
        lookup c s.states ≡ some visited → Inv agents (record s { stack = (a, i + 1) ∷ rest })
    passed-Inv m =
        let up = at_top agents s a i rest h top in
        record {
          path_eq = path_top agents s a i rest h top;
          located = h.located;
          finished = h.finished;
          known = h.known;
          stacked = (safe-up agents a i c up.0 edge (h.finished c m), up.1, up.2);
        }

    -- The child is new: it goes on top.
    pub entered-Inv : has c agents ≡ true → Inv agents (enter c ((a, i + 1) ∷ rest) s)
    entered-Inv reg =
        let up = at_top agents s a i rest h top in
        enter-Inv s c ((a, i + 1) ∷ rest) h (path_top agents s a i rest h top) reg
          (i, refl, edge, up.0, up.1, up.2)

    -- The child is on the path: from its position the path and the child are a cycle.
    pub visiting-IsCycle :
        lookup c s.states ≡ some visiting
        → (p : ℕ) × (lookup c s.positions ≡ some p) × IsCycle agents (drop p s.path ++ c ∷ [])
    visiting-IsCycle m =
        let (p, at, found) = h.located c m in
        let up = at_top agents s a i rest h top in
        let whole : IsPath agents (s.path ++ c ∷ []) =
          subst (λ l. IsPath agents (l ++ c ∷ [])) (sym (path_top agents s a i rest h top))
            (IsPath-snoc agents (names rest) a c (names-IsPath agents a rest up.2) (i, edge)) in
        (
          p,
          at,
          (
            c,
            drop (suc p) s.path,
            ap (λ l. l ++ c ∷ []) (drop-at s.path p c found),
            subst (IsPath agents) (drop-snoc s.path c p c found)
                (IsPath-drop agents p (s.path ++ c ∷ []) whole),
          ),
        )
