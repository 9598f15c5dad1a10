-- ===== src/Registry/Graph.antt =====
-- The last three calls of `_validate_catalog` of src/arema/registry/catalog.py, which validate the
-- graph of the agents.
use arema.Prelude.{
  ℕ, zero, suc, ◌<◌, String, true, false, ◌≡◌, ◌⊎◌, refl, ap, sym, ◌∙◌, subst, inl, inr, Option,
  none, some, List, [], ◌∷◌, ◌==◌, eq_iff, arith, get_elem?, contains, Bool-cases,
}
use arema.Prelude.Dict.{Dict, has, values}
use arema.Registry.Descriptors.{
  AgentDescriptor, Agents, CatalogError, cyclic, unreachable, Checked, ok, err,
}
use arema.Registry.References.{
  validate_references, IsResolved, Misses, AgentResolved, EachResolved, AgentMisses,
  references_decided, resolved-IsClosed,
}
use arema.Registry.Acyclic.{validate_acyclic_agents}
use arema.Registry.Acyclic.Paths.{IsCycle}
use arema.Registry.Acyclic.Steps.{IsClosed}
use arema.Registry.Acyclic.Measure.{work_of_all}
use arema.Registry.Acyclic.Verdict.{acyclic_decided}
use arema.Registry.Reachable.{report, validate_reachable_agents}
use arema.Registry.Reachable.Covers.{Reaches, all_edges}
use arema.Registry.Reachable.Decide.{Exact, reachable_decided}

abbrev pub and_then :
    Option (Checked (Unit {0})) → Option (Checked (Unit {0})) → Option (Checked (Unit {0}))
and_then none next = none
and_then (some (ok _)) next = next
and_then (some (err e)) next = some (err e)

module _ {P T M : Type 0} (agents : Agents) (runtime_profiles : Dict P) (tools : Dict T)
    (mcp_servers : Dict M) where
  unfoldable pub validate_graph : ℕ → String → Option (Checked (Unit {0}))
  validate_graph fuel root_agent_id =
      and_then (some (validate_references agents runtime_profiles tools mcp_servers)) (
        and_then (validate_acyclic_agents fuel agents)
          (validate_reachable_agents fuel agents root_agent_id))

  -- Every reference is resolved, no path of sub-agents is a cycle, and the root reaches every
  -- registered agent.
  abbrev pub IsGoodGraph : String → Type 0
  IsGoodGraph root =
      EachResolved agents runtime_profiles tools mcp_servers (values agents)
      × (¬ ((l : List String) × IsCycle agents l))
      × ((v : String) → (has v agents ≡ false) ⊎ Reaches agents root v)

  EachResolved-index :
      (l : List AgentDescriptor) (i : ℕ) (a : AgentDescriptor)
      → EachResolved agents runtime_profiles tools mcp_servers l
      → get_elem? l i ≡ some a
      → AgentResolved agents runtime_profiles tools mcp_servers a
  EachResolved-index [] i a h e = cc
  EachResolved-index (b ∷ l) zero a h e =
      subst (AgentResolved agents runtime_profiles tools mcp_servers) (same e) h.0
    where
      same : some b ≡ some a → b ≡ a
      same x = cc
  EachResolved-index (b ∷ l) (suc i) a h e = EachResolved-index l i a h.1 e

  IsResolved-contains :
      {V : Type 0} (d : Dict V) (ids : List String) (v : String)
      → IsResolved d ids
      → contains ids v ≡ true
      → has v d ≡ true
  IsResolved-contains d [] v h m = cc
  IsResolved-contains d (id ∷ ids) v h m = elim (Bool-cases (id == v)) [
    | inl q ↦ subst (λ w. has w d ≡ true) ((eq_iff id v).0 q) h.0
    | inr q ↦ IsResolved-contains d ids v h.1 (rw q at m)
  ]

  missed_not_resolved :
      {V : Type 0} (d : Dict V) (agent_id kind : String) (ids : List String) (e : CatalogError)
      → Misses d agent_id kind ids e
      → IsResolved d ids
      → ⊥
  missed_not_resolved d agent_id kind ids e (id, q, m, n) h =
      clash (sym n ∙ IsResolved-contains d ids id h m)
    where
      clash : false ≡ true → ⊥
      clash x = cc

  AgentMisses-not_resolved :
      (a : AgentDescriptor) (e : CatalogError)
      → AgentMisses agents runtime_profiles tools mcp_servers a e
      → AgentResolved agents runtime_profiles tools mcp_servers a
      → ⊥
  AgentMisses-not_resolved a e (inl m) h =
      missed_not_resolved _ _ _ (a.runtime_profile_id ∷ []) e m h.0
  AgentMisses-not_resolved a e (inr (inl m)) h = missed_not_resolved _ _ _ a.tool_ids e m h.1
  AgentMisses-not_resolved a e (inr (inr (inl m))) h =
      missed_not_resolved _ _ _ a.mcp_server_ids e m h.2
  AgentMisses-not_resolved a e (inr (inr (inr m))) h =
      missed_not_resolved _ _ _ a.sub_agent_ids e m h.3

  module _ (root : String) where
    abbrev GraphDecided : Option (Checked (Unit {0})) → Type 0
    GraphDecided r =
        ((r ≡ some (ok tt)) × IsGoodGraph root)
        ⊎ ((e : CatalogError) × (r ≡ some (err e)) × (¬ IsGoodGraph root))

    -- What the list of the last validation says of the graph.
    report-GraphDecided :
        (l : List String)
        → EachResolved agents runtime_profiles tools mcp_servers (values agents)
        → (¬ ((c : List String) × IsCycle agents c))
        → Exact agents root l
        → GraphDecided (some (report l))
    report-GraphDecided [] x y exact = inl (refl, (x, y, all))
      where
        all : (v : String) → (has v agents ≡ false) ⊎ Reaches agents root v
        all v = elim (exact v) [
          | inl n ↦ inl n.0
          | inr (inl r) ↦ inr r.1
          | inr (inr r) ↦ absurd (clash r.1)
        ]
          where
            clash : false ≡ true → ⊥
            clash x = cc
    report-GraphDecided (id ∷ ids) x y exact =
        inr (unreachable (id ∷ ids), refl, λ g. by_exact g (exact id) (g.2 id))
      where
        clash : false ≡ true → ⊥
        clash x = cc

        listed : contains (id ∷ ids) id ≡ false → ⊥
        listed m = ground (arith, eq_iff id id)

        by_exact :
            IsGoodGraph root
            → ((has id agents ≡ false) × (contains (id ∷ ids) id ≡ false))
              ⊎ ((contains (id ∷ ids) id ≡ false) × Reaches agents root id)
              ⊎ ((has id agents ≡ true)
                  × (contains (id ∷ ids) id ≡ true)
                  × (¬ Reaches agents root id))
            → (has id agents ≡ false) ⊎ Reaches agents root id
            → ⊥
        by_exact g (inl n) r = listed n.1
        by_exact g (inr (inl n)) r = listed n.0
        by_exact g (inr (inr n)) (inl u) = clash (sym u ∙ n.0)
        by_exact g (inr (inr n)) (inr r) = n.2 r

  -- When the root is registered and the fuel exceeds the turns that both searches need (one for each
  -- agent and one for each listed sub-agent), the graph validation ends; it accepts when every
  -- reference is resolved, no path of sub-agents is a cycle and the root reaches every registered
  -- agent, and otherwise it ends in an error.
  pub graph_decided :
      (fuel : ℕ) (root : String)
      → has root agents ≡ true
      → work_of_all agents agents < fuel
      → suc (all_edges agents agents) < fuel
      → ((validate_graph fuel root ≡ some (ok tt)) × IsGoodGraph root)
        ⊎ ((e : CatalogError) × (validate_graph fuel root ≡ some (err e)) × (¬ IsGoodGraph root))
  unfolding validate_graph
  graph_decided fuel root reg work edges =
      elim (references_decided agents runtime_profiles tools mcp_servers) [
        | inr (e, i, a, q, at, m) ↦ inr (
          e,
          ap (λ r. and_then (some r) rest) q,
          λ g. AgentMisses-not_resolved a e m (EachResolved-index (values agents) i a g.0 at),
        )
        | inl (q, each) ↦
            subst (GraphDecided root) (sym (ap (λ r. and_then (some r) rest) q))
              (by_search each (resolved-IsClosed _ _ _ _ each))
      ]
    where
      rest : Option (Checked (Unit {0}))
      rest =
          and_then (validate_acyclic_agents fuel agents)
            (validate_reachable_agents fuel agents root)

      by_search :
          EachResolved agents runtime_profiles tools mcp_servers (values agents)
          → IsClosed agents
          → GraphDecided root rest
      by_search each closed = elim (acyclic_decided agents fuel closed work) [
        | inr (l, q, cycle) ↦ inr (
          cyclic l,
          ap (λ r. and_then r (validate_reachable_agents fuel agents root)) q,
          λ g. g.1 (l, cycle),
        )
        | inl (q, no_cycle) ↦
            let (l, p, exact) = reachable_decided agents root fuel closed reg edges in
            subst (GraphDecided root)
              (sym (ap (λ r. and_then r (validate_reachable_agents fuel agents root)) q ∙ p))
              (report-GraphDecided root l each no_cycle exact)
      ]
