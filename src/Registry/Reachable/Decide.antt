-- ===== src/Registry/Reachable/Decide.antt =====
-- `_validate_reachable_agents` (src/arema/registry/catalog.py) as a whole: it reports exactly the
-- registered agents that no path of sub-agents from the root leads to.
use arema.Prelude.{
  ℕ, zero, suc, ◌+◌, ◌<◌, String, true, false, ◌≡◌, ◌⊎◌, refl, ap, sym, ◌∙◌, subst, inl, inr,
  Option, none, some, List, [], ◌∷◌, ◌==◌, eq_iff, arith, length, contains, Bool-cases,
  if◌then◌else◌,
}
use arema.Prelude.Dict.{lookup, has, keys}
use arema.Registry.Descriptors.{AgentDescriptor, Agents, children, subs_of, Checked, ok, err}
use arema.Registry.Acyclic.Steps.{IsClosed}
use arema.Registry.Acyclic.Turns.{has-lookup}
use arema.Registry.Acyclic.Verdict.{has-contains}
use arema.Registry.Reachable.{
  extend, visit_next, walk, missing_from, report, report_missing, validate_reachable_agents,
}
use arema.Registry.Reachable.Covers.{
  Reaches, at_root, through, Covering, skip-Covering, expand-Covering, unseen, unseen-lt, all_edges,
  length-extend, index-contains,
}

module _ (agents : Agents) (fuel : ℕ) (reachable : List String) (id : String)
    (pending : List String) where
  abbrev step : Checked (List String × List String) → Option (Checked (List String))
  step (ok (r, p)) = walk fuel agents r p
  step (err e) = some (err e)

  walk-seen :
      contains reachable id ≡ true
      → walk (suc fuel) agents reachable (id ∷ pending) ≡ walk fuel agents reachable pending
  unfolding walk
  walk-seen q = ap step (ap (λ b. visit_next b (lookup id agents) reachable id pending) q)

  walk-new :
      (d : AgentDescriptor)
      → contains reachable id ≡ false
      → lookup id agents ≡ some d
      → walk (suc fuel) agents reachable (id ∷ pending)
        ≡ walk fuel agents (id ∷ reachable) (extend (children agents id) pending)
  unfolding walk
  walk-new d q e =
      ap step (
        ap (λ b. visit_next b (lookup id agents) reachable id pending) q
        ∙ ap (λ o. visit_next false o reachable id pending) e)
      ∙ ap (λ o. walk fuel agents (id ∷ reachable) (extend (subs_of o) pending)) (sym e)

module _ (agents : Agents) (root : String) where
  abbrev Walked : Option (Checked (List String)) → Type 0
  Walked none = ⊥
  Walked (some (ok reachable)) = Covering agents root reachable []
  Walked (some (err e)) = ⊥

  walk-Walked :
      (fuel : ℕ) (reachable pending : List String)
      → IsClosed agents
      → Covering agents root reachable pending
      → length pending + unseen agents agents reachable < fuel
      → Walked (walk fuel agents reachable pending)
  unfolding walk
  walk-Walked zero reachable pending closed h m = absurd (omega arith)
  walk-Walked (suc fuel) reachable [] closed h m = h
  walk-Walked (suc fuel) reachable (id ∷ pending) closed h m =
      elim (Bool-cases (contains reachable id)) [
        | inl q ↦ subst Walked (sym (walk-seen agents fuel reachable id pending q)) (
            walk-Walked fuel reachable pending closed
              (skip-Covering agents root reachable id pending q h) (omega arith))
        | inr q ↦
            let (d, e) = has-lookup id agents known in
            subst Walked (sym (walk-new agents fuel reachable id pending d q e)) (
              walk-Walked fuel (id ∷ reachable) (extend (children agents id) pending) closed
                (expand-Covering agents root closed reachable id pending h)
                (omega (
                  arith,
                  length-extend (children agents id) pending,
                  unseen-lt agents id reachable agents q known,
                )))
      ]
    where
      known : has id agents ≡ true
      known = h.registered id (ground (arith, eq_iff id id))

  -- The set holds what the root reaches.
  Reaches-contains :
      {v : String} (reachable : List String)
      → Covering agents root reachable []
      → Reaches agents root v
      → contains reachable v ≡ true
  Reaches-contains reachable h at_root = ground (arith, h.root_in)
  Reaches-contains reachable h (through {a} {b} r (k, e)) = ground (
    arith,
    h.spread a b (Reaches-contains reachable h r) (index-contains (children agents a) k b e),
  )

contains-missing_from :
    (reachable ids : List String) (v : String)
    → contains (missing_from reachable ids) v
      ≡ (if contains reachable v then false else contains ids v)
contains-missing_from reachable [] v = ground arith
contains-missing_from reachable (id ∷ ids) v = elim (Bool-cases (id == v)) [
  | inl q ↦
      ground
        (arith, contains-missing_from reachable ids v, ap (contains reachable) ((eq_iff id v).0 q))
  | inr q ↦ ground (arith, contains-missing_from reachable ids v)
]

-- Of the list that is reported: it has only registered agents, and has those that the root does not
-- reach.
abbrev pub Exact : Agents → String → List String → Type 0
Exact agents root l =
    (v : String)
    → ((has v agents ≡ false) × (contains l v ≡ false))
      ⊎ ((contains l v ≡ false) × Reaches agents root v)
      ⊎ ((has v agents ≡ true) × (contains l v ≡ true) × (¬ Reaches agents root v))

Covering-Exact :
    (agents : Agents) (root : String) (reachable : List String)
    → Covering agents root reachable []
    → Exact agents root (missing_from reachable (keys agents))
Covering-Exact agents root reachable h v = elim (Bool-cases (has v agents)) [
  | inr n ↦
      inl
        (n, ground (arith, contains-missing_from reachable (keys agents) v, has-contains agents v))
  | inl y ↦ elim (Bool-cases (contains reachable v)) [
    | inl q ↦ inr (inl (contains-missing_from reachable (keys agents) v ∙ rw q, h.seen_reached v q))
    | inr q ↦ inr (
        inr (
          y,
          contains-missing_from reachable (keys agents) v ∙ rw q (sym (has-contains agents v) ∙ y),
          λ r. not_both (sym q ∙ Reaches-contains agents root reachable h r),
        ))
  ]
]
  where
    not_both : false ≡ true → ⊥
    not_both x = cc

-- When the root and every listed sub-agent are registered and the fuel exceeds one turn for the root
-- and one for each listed sub-agent, the validation ends; it reports a list of ids (an empty
-- list is acceptance) that contains no id that is not registered, and contains a registered agent
-- exactly when no path of sub-agents leads to it from the root.
pub reachable_decided :
    (agents : Agents) (root : String) (fuel : ℕ)
    → IsClosed agents
    → has root agents ≡ true
    → suc (all_edges agents agents) < fuel
    → (l : List String) × (validate_reachable_agents fuel agents root ≡ some (report l))
      × Exact agents root l
unfolding validate_reachable_agents
reachable_decided agents root fuel closed reg enough =
    finish (walk fuel agents [] (root ∷ []))
      (walk-Walked agents root fuel [] (root ∷ []) closed start (omega arith))
  where
    start : Covering agents root [] (root ∷ [])
    start = record {
      seen_reached = λ v x. absurd (no x);
      pending_reached = λ v x. subst (Reaches agents root) (same v x) at_root;
      registered = λ v x. subst (λ w. has w agents ≡ true) (same v x) reg;
      spread = λ a c x y. absurd (no x);
      root_in = ground (arith, eq_iff root root);
    }
      where
        no : false ≡ true → ⊥
        no x = cc

        same : (v : String) → contains (root ∷ []) v ≡ true → root ≡ v
        same v x = ground (arith, eq_iff root v)

    finish :
        (r : Option (Checked (List String)))
        → Walked agents root r
        → (l : List String) × (report_missing agents r ≡ some (report l)) × Exact agents root l
    finish none w = absurd w
    finish (some (ok reachable)) w =
        (missing_from reachable (keys agents), refl, Covering-Exact agents root reachable w)
    finish (some (err e)) w = absurd w
