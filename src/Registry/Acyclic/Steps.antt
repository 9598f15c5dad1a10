-- ===== src/Registry/Acyclic/Steps.antt =====
-- What one turn of the search of `_validate_acyclic_agents` (src/arema/registry/catalog.py) keeps.
use arema.Prelude.{
  ℕ, zero, suc, ◌+◌, ◌<◌, String, true, false, ◌≡◌, ◌≢◌, refl, ap, sym, ◌∙◌, subst, inl, inr, none,
  some, List, [], ◌∷◌, ◌++◌, ◌==◌, eq_iff, arith, length, get_elem?, drop, Bool-cases, ltb, ltb→lt,
}
use arema.Prelude.Dict.{Dict, lookup, insert, remove, lookup-insert, lookup-remove, has}
use arema.Registry.Descriptors.{Agents, children}
use arema.Registry.Acyclic.{visiting, visited, Frame, Search, drop_last}
use arema.Registry.Acyclic.Paths.{IsPath, IsSafe, safe, IsPath-snoc}

-- Every listed sub-agent is registered.
abbrev pub IsClosed : Agents → Type 0
IsClosed agents =
    (a : String) (k : ℕ) (c : String)
    → get_elem? (children agents a) k ≡ some c
    → has c agents ≡ true

abbrev pub names : List Frame → List String
names [] = []
names ((a, i) ∷ rest) = names rest ++ a ∷ []

module _ (agents : Agents) where
  -- The first `i` children of `a` are safe.
  abbrev pub SafeUpTo : String → ℕ → Type 0
  SafeUpTo a i =
      (k : ℕ) (c : String) → k < i → get_elem? (children agents a) k ≡ some c → IsSafe agents c

  -- Below the frame of `a` stands that of an agent which has just gone on to its child `a`.
  abbrev pub Below : String → List Frame → Type 0
  Below a [] = Unit
  Below a ((p, j) ∷ rest) =
      (k : ℕ) × (j ≡ k + 1)
      × (get_elem? (children agents p) k ≡ some a)
      × SafeUpTo p k
      × (has p agents ≡ true)
      × Below p rest

  abbrev pub Stacked : List Frame → Type 0
  Stacked [] = Unit
  Stacked ((a, i) ∷ rest) = SafeUpTo a i × (has a agents ≡ true) × Below a rest

  pub record Inv (s : Search) : Type 0 where
    pub path_eq : s.path ≡ names s.stack
    pub located :
        (v : String)
        → lookup v s.states ≡ some visiting
        → (p : ℕ) × (lookup v s.positions ≡ some p) × (get_elem? s.path p ≡ some v)
    pub finished : (v : String) → lookup v s.states ≡ some visited → IsSafe agents v
    pub known : (v : String) → has v agents ≡ true → has v s.states ≡ true
    pub stacked : Stacked s.stack

  pub names-IsPath :
      (a : String) (rest : List Frame) → Below a rest → IsPath agents (names rest ++ a ∷ [])
  names-IsPath a [] h = tt
  names-IsPath a ((p, j) ∷ rest) (k, e, edge, up, reg, below) =
      IsPath-snoc agents (names rest) p a (names-IsPath p rest below) (k, edge)

drop_last-snoc : (xs : List String) (x : String) → drop_last (xs ++ x ∷ []) ≡ xs
drop_last-snoc [] x = refl
drop_last-snoc (y ∷ []) x = refl
drop_last-snoc (y ∷ z ∷ xs) x = ap (λ l. y ∷ l) (drop_last-snoc (z ∷ xs) x)

pub get_elem?-snoc_left :
    (xs : List String) (x v : String) (p : ℕ)
    → get_elem? xs p ≡ some v
    → get_elem? (xs ++ x ∷ []) p ≡ some v
get_elem?-snoc_left [] x v p h = cc
get_elem?-snoc_left (y ∷ xs) x v zero h = h
get_elem?-snoc_left (y ∷ xs) x v (suc p) h = get_elem?-snoc_left xs x v p h

pub get_elem?-snoc_last :
    (xs : List String) (x : String) → get_elem? (xs ++ x ∷ []) (length xs) ≡ some x
get_elem?-snoc_last [] x = refl
get_elem?-snoc_last (y ∷ xs) x = get_elem?-snoc_last xs x

-- Of a path without its last agent, the others keep their places.
get_elem?-snoc_ne :
    (xs : List String) (x v : String) (p : ℕ)
    → x ≢ v
    → get_elem? (xs ++ x ∷ []) p ≡ some v
    → get_elem? xs p ≡ some v
get_elem?-snoc_ne [] x v zero ne h = absurd (ne (ground arith))
get_elem?-snoc_ne [] x v (suc p) ne h = cc
get_elem?-snoc_ne (y ∷ xs) x v zero ne h = h
get_elem?-snoc_ne (y ∷ xs) x v (suc p) ne h = get_elem?-snoc_ne xs x v p ne h

pub drop-at :
    (xs : List String) (p : ℕ) (v : String)
    → get_elem? xs p ≡ some v
    → drop p xs ≡ v ∷ drop (suc p) xs
drop-at [] p v h = cc
drop-at (x ∷ xs) zero v h = ground arith
drop-at (x ∷ xs) (suc p) v h = drop-at xs p v h

get_elem?-lt :
    (xs : List String) (i k : ℕ) (c : String)
    → get_elem? xs i ≡ none
    → get_elem? xs k ≡ some c
    → k < i
get_elem?-lt [] i k c h e = cc
get_elem?-lt (x ∷ xs) zero k c h e = cc
get_elem?-lt (x ∷ xs) (suc i) zero c h e = omega arith
get_elem?-lt (x ∷ xs) (suc i) (suc k) c h e = omega (arith, get_elem?-lt xs i k c h e)

pub lookup-insert_same :
    {V : Type 0} (k v : String) (x : V) (d : Dict V)
    → (k == v) ≡ true
    → lookup v (insert k x d) ≡ some x
lookup-insert_same k v x d h = lookup-insert k v x d ∙ rw h

pub lookup-insert_other :
    {V : Type 0} (k v : String) (x : V) (d : Dict V)
    → (k == v) ≡ false
    → lookup v (insert k x d) ≡ lookup v d
lookup-insert_other k v x d h = lookup-insert k v x d ∙ rw h

module _ (agents : Agents) where
  pub safe-up :
      (a : String) (i : ℕ) (c : String)
      → SafeUpTo agents a i
      → get_elem? (children agents a) i ≡ some c
      → IsSafe agents c
      → SafeUpTo agents a (i + 1)
  safe-up a i c up e ok k d h f = elim (Bool-cases (ltb k i)) [
    | inl l ↦ up k d (ltb→lt _ _ l) f
    | inr l ↦ subst (IsSafe agents) (same (at_end l)) ok
  ]
    where
      at_end : ltb k i ≡ false → k ≡ i
      at_end l = ground arith

      same : k ≡ i → c ≡ d
      same q = ground (arith, sym e ∙ ap (get_elem? (children agents a)) (sym q) ∙ f)

  uncover :
      (a : String) (rest : List Frame) → Below agents a rest → IsSafe agents a → Stacked agents rest
  uncover a [] h ok = tt
  uncover a ((p, j) ∷ rest) (k, e, edge, up, reg, below) ok =
      (subst (SafeUpTo agents p) (sym e) (safe-up p k a up edge ok), reg, below)

  module _ (s : Search) (a : String) (i : ℕ) (rest : List Frame) (h : Inv agents s)
      (top : s.stack ≡ (a, i) ∷ rest) where
    pub at_top : Stacked agents ((a, i) ∷ rest)
    at_top = subst (Stacked agents) top h.stacked

    pub path_top : s.path ≡ names rest ++ a ∷ []
    path_top = h.path_eq ∙ ap names top

    done-IsSafe : get_elem? (children agents a) i ≡ none → IsSafe agents a
    done-IsSafe e = safe a (λ k c f. at_top.0 k c (get_elem?-lt (children agents a) i k c e f) f)

    -- The top agent is finished.
    abbrev pub popped : Search
    popped = record {
      states = insert a visited s.states;
      path = drop_last s.path;
      positions = remove a s.positions;
      stack = rest;
    }

    pub popped-Inv : get_elem? (children agents a) i ≡ none → Inv agents popped
    popped-Inv e = record {
      path_eq = ap drop_last path_top ∙ drop_last-snoc (names rest) a;
      located = λ v m. elim (Bool-cases (a == v)) [
        | inl q ↦ absurd (was_visiting (sym (lookup-insert_same a v visited s.states q) ∙ m))
        | inr q ↦
            let (p, at, found) =
              h.located v (sym (lookup-insert_other a v visited s.states q) ∙ m) in
            (
              p,
              lookup-remove a v s.positions ∙ (rw q at),
              subst (λ l. get_elem? (drop_last l) p ≡ some v) (sym path_top)
                  (subst (λ l. get_elem? l p ≡ some v) (sym (drop_last-snoc (names rest) a))
                    (get_elem?-snoc_ne (names rest) a v p (apart v q)
                      (subst (λ l. get_elem? l p ≡ some v) path_top found))),
            )
      ];
      finished = λ v m. elim (Bool-cases (a == v)) [
        | inl q ↦ subst (IsSafe agents) ((eq_iff a v).0 q) (done-IsSafe e)
        | inr q ↦ h.finished v (sym (lookup-insert_other a v visited s.states q) ∙ m)
      ];
      known = λ v r. ground (arith, lookup-insert a v visited s.states, h.known v r);
      stacked = uncover a rest at_top.2 (done-IsSafe e);
    }
      where
        was_visiting : some visited ≡ some visiting → ⊥
        was_visiting x = cc

        apart : (v : String) → (a == v) ≡ false → a ≢ v
        apart v q x = cc ((eq_iff a v).1 x)
