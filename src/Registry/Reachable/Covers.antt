-- ===== src/Registry/Reachable/Covers.antt =====
-- `_validate_reachable_agents` (src/arema/registry/catalog.py): the loop ends, and its set is that of
-- the agents a path of sub-agents leads to from the root.
use arema.Prelude.{
  ℕ, zero, suc, ◌+◌, ◌≤◌, String, Bool, true, false, ◌||◌, ◌≡◌, ◌⊎◌, refl, ap, sym, ◌∙◌, subst, inl,
  inr, some, List, [], ◌∷◌, ◌==◌, eq_iff, arith, length, get_elem?, contains, Bool-cases,
  if◌then◌else◌,
}
use arema.Prelude.Dict.{lookup, has}
use arema.Registry.Descriptors.{Agents, children}
use arema.Registry.Acyclic.Paths.{Edge}
use arema.Registry.Acyclic.Steps.{IsClosed}
use arema.Registry.Reachable.{extend}

-- A path of sub-agents leads from the root to the agent.
pub data Reaches (agents : Agents) (root : String) : String → Type 0 where
  at_root : Reaches agents root root
  through : {a b : String} → Reaches agents root a → Edge agents a b → Reaches agents root b

contains-extend :
    (ids pending : List String) (v : String)
    → contains (extend ids pending) v ≡ contains ids v || contains pending v
contains-extend [] pending v = refl
contains-extend (id ∷ ids) pending v = ground (arith, contains-extend ids (id ∷ pending) v)

pub length-extend :
    (ids pending : List String) → length (extend ids pending) ≡ length ids + length pending
length-extend [] pending = omega arith
length-extend (id ∷ ids) pending = omega (arith, length-extend ids (id ∷ pending))

pub contains-index :
    (xs : List String) (v : String) → contains xs v ≡ true → (k : ℕ) × (get_elem? xs k ≡ some v)
contains-index [] v h = cc
contains-index (x ∷ xs) v h = elim (Bool-cases (x == v)) [
  | inl q ↦ (0, ap some ((eq_iff x v).0 q))
  | inr q ↦ let (k, e) = contains-index xs v (rw q at h) in (suc k, e)
]

pub index-contains :
    (xs : List String) (k : ℕ) (v : String) → get_elem? xs k ≡ some v → contains xs v ≡ true
index-contains [] k v h = cc
index-contains (x ∷ xs) zero v h = ground (arith, eq_iff x v)
index-contains (x ∷ xs) (suc k) v h = ground (arith, index-contains xs k v h)

-- The sub-agents that the agents outside the set still have to put on the list.
abbrev pub unseen : Agents → Agents → List String → ℕ
unseen agents [] reachable = 0
unseen agents ((k, d) ∷ rest) reachable =
    let others = unseen agents rest reachable in
    if contains reachable k then others else length (children agents k) + others

abbrev pub all_edges : Agents → Agents → ℕ
all_edges agents rest = unseen agents rest []

module _ (agents : Agents) (id : String) (reachable : List String) where
  pub unseen-le :
      (rest : Agents) → unseen agents rest (id ∷ reachable) ≤ unseen agents rest reachable
  unseen-le [] = omega arith
  unseen-le ((k, d) ∷ rest) = ground (arith, unseen-le rest)

  pub unseen-lt :
      (rest : Agents)
      → contains reachable id ≡ false
      → has id rest ≡ true
      → length (children agents id) + unseen agents rest (id ∷ reachable)
        ≤ unseen agents rest reachable
  unfolding lookup
  unseen-lt [] n r = cc
  unseen-lt ((k, d) ∷ rest) n r = elim (Bool-cases (k == id)) [
    | inl q ↦ first ((eq_iff k id).0 q)
    | inr q ↦ ground (arith, unseen-le rest, unseen-lt rest n (rw q at r))
  ]
    where
      first :
          k ≡ id
          → length (children agents id) + unseen agents ((k, d) ∷ rest) (id ∷ reachable)
            ≤ unseen agents ((k, d) ∷ rest) reachable
      first e = ground (
        arith,
        unseen-le rest,
        eq_iff id k,
        ap (contains reachable) e,
        ap (λ j. length (children agents j)) e,
      )

module _ (agents : Agents) (root : String) where
  pub record Covering (reachable pending : List String) : Type 0 where
    pub seen_reached : (v : String) → contains reachable v ≡ true → Reaches agents root v
    pub pending_reached : (v : String) → contains pending v ≡ true → Reaches agents root v
    pub registered : (v : String) → contains pending v ≡ true → has v agents ≡ true
    pub spread :
        (a : String) (c : String)
        → contains reachable a ≡ true
        → contains (children agents a) c ≡ true
        → contains reachable c || contains pending c ≡ true
    pub root_in : contains reachable root || contains pending root ≡ true

  -- The agent is in the set already.
  pub skip-Covering :
      (reachable : List String) (id : String) (pending : List String)
      → contains reachable id ≡ true
      → Covering reachable (id ∷ pending)
      → Covering reachable pending
  skip-Covering reachable id pending m h = record {
    seen_reached = h.seen_reached;
    pending_reached = λ v x. h.pending_reached v (ground arith);
    registered = λ v x. h.registered v (ground arith);
    spread = λ a c x y. ground (arith, h.spread a c x y, eq_iff id c);
    root_in = ground (arith, h.root_in, eq_iff id root);
  }

  module _ (closed : IsClosed agents) (reachable : List String) (id : String)
      (pending : List String) (h : Covering reachable (id ∷ pending)) where
    id_reached : Reaches agents root id
    id_reached = h.pending_reached id (ground (arith, eq_iff id id))

    child_reached : (v : String) → contains (children agents id) v ≡ true → Reaches agents root v
    child_reached v m = through id_reached (contains-index (children agents id) v m)

    child_registered : (v : String) → contains (children agents id) v ≡ true → has v agents ≡ true
    child_registered v m = let (k, e) = contains-index (children agents id) v m in closed id k v e

    split : (b c : Bool) → b || c ≡ true → (b ≡ true) ⊎ (c ≡ true)
    split true c e = inl refl
    split false c e = inr e

    parts :
        (v : String)
        → contains (extend (children agents id) pending) v ≡ true
        → (contains (children agents id) v ≡ true) ⊎ (contains pending v ≡ true)
    parts v x = split _ _ (sym (contains-extend (children agents id) pending v) ∙ x)

    -- The agent is new: its sub-agents are put on the list.
    pub expand-Covering : Covering (id ∷ reachable) (extend (children agents id) pending)
    expand-Covering = record {
      seen_reached = λ v x. elim (Bool-cases (id == v)) [
        | inl q ↦ subst (Reaches agents root) ((eq_iff id v).0 q) id_reached
        | inr q ↦ h.seen_reached v (rw q at x)
      ];
      pending_reached = λ v x. elim (parts v x) [
        | inl m ↦ child_reached v m
        | inr m ↦ h.pending_reached v (ground arith)
      ];
      registered = λ v x. elim (parts v x) [
        | inl m ↦ child_registered v m
        | inr m ↦ h.registered v (ground arith)
      ];
      spread = λ a c x y. elim (Bool-cases (id == a)) [
        | inl q ↦
            rw (contains-extend (children agents id) pending c) (own a c ((eq_iff id a).0 q) y)
        | inr q ↦
            rw (contains-extend (children agents id) pending c)
              (ground (arith, h.spread a c (rw q at x) y, eq_iff id c))
      ];
      root_in =
          rw (contains-extend (children agents id) pending root)
            (ground (arith, h.root_in, eq_iff id root));
    }
      where
        own :
            (a c : String)
            → id ≡ a
            → contains (children agents a) c ≡ true
            → (contains (id ∷ reachable) c
                || (contains (children agents id) c || contains pending c))
              ≡ true
        own a c q y = ground (arith, ap (λ j. contains (children agents j) c) q)
