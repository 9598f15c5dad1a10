-- ===== src/Registry/References.antt =====
-- `_validate_references` of src/arema/registry/catalog.py. The registries are read only for their
-- keys, so that what they hold is left open.
use arema.Prelude.{
  ℕ, zero, suc, String, true, false, ◌≡◌, ◌⊎◌, refl, ap, ◌∙◌, subst, inl, inr, Option, none, some,
  List, [], ◌∷◌, ◌==◌, eq_iff, arith, get_elem?, Bool-cases, contains, if◌then◌else◌,
}
use arema.Prelude.Dict.{Dict, lookup, has, values}
use arema.Registry.Descriptors.{
  AgentDescriptor, Agents, subs_of, CatalogError, unresolved, Checked, ok, err, ◌>>=◌,
}
use arema.Registry.Acyclic.Steps.{IsClosed}

-- The loop over the ids that one agent lists of one kind.
unfoldable pub check_ids :
    {V : Type 0} → Dict V → String → String → List String → Checked (Unit {0})
check_ids registry agent_id kind [] = ok tt
check_ids registry agent_id kind (id ∷ ids) =
    let rest = check_ids registry agent_id kind ids in
    if has id registry then rest else err (unresolved agent_id kind id)

module _ {P T M : Type 0} (agents : Agents) (runtime_profiles : Dict P) (tools : Dict T)
    (mcp_servers : Dict M) where
  -- The loop over the four registries.
  abbrev pub check_agent : AgentDescriptor → Checked (Unit {0})
  check_agent agent =
      check_ids runtime_profiles agent.id "runtime profile" (agent.runtime_profile_id ∷ []) >>= λ _.
      check_ids tools agent.id "tool" agent.tool_ids >>= λ _.
      check_ids mcp_servers agent.id "MCP server" agent.mcp_server_ids >>= λ _.
      check_ids agents agent.id "sub-agent" agent.sub_agent_ids

  unfoldable pub check_agents : List AgentDescriptor → Checked (Unit {0})
  check_agents [] = ok tt
  check_agents (agent ∷ rest) = check_agent agent >>= λ _. check_agents rest

  unfoldable pub validate_references : Checked (Unit {0})
  validate_references = check_agents (values agents)

-- Every id of the list is a key.
abbrev pub IsResolved : {V : Type 0} → Dict V → List String → Type 0
IsResolved registry [] = Unit
IsResolved registry (id ∷ ids) = (has id registry ≡ true) × IsResolved registry ids

-- The error names the agent, the kind and an id of the list that is no key.
abbrev pub Misses : {V : Type 0} → Dict V → String → String → List String → CatalogError → Type 0
Misses registry agent_id kind ids e =
    (id : String) × (e ≡ unresolved agent_id kind id)
    × (contains ids id ≡ true)
    × (has id registry ≡ false)

abbrev pub Checks :
    {V : Type 0} → Dict V → String → String → List String → Checked (Unit {0}) → Type 0
Checks registry agent_id kind ids (ok _) = IsResolved registry ids
Checks registry agent_id kind ids (err e) = Misses registry agent_id kind ids e

check_ids-Checks :
    {V : Type 0} (registry : Dict V) (agent_id kind : String) (ids : List String)
    → Checks registry agent_id kind ids (check_ids registry agent_id kind ids)
unfolding check_ids
check_ids-Checks registry agent_id kind [] = tt
check_ids-Checks registry agent_id kind (id ∷ ids) = elim (Bool-cases (has id registry)) [
  | inl h ↦
      rw h (
        later h (check_ids registry agent_id kind ids)
          (check_ids-Checks registry agent_id kind ids))
  | inr h ↦ rw h (id, refl, ground (arith, eq_iff id id), h)
]
  where
    later :
        has id registry ≡ true
        → (r : Checked (Unit {0})) → Checks registry agent_id kind ids r
        → Checks registry agent_id kind (id ∷ ids) r
    later h (ok _) c = (h, c)
    later h (err e) (j, q, m, n) = (j, q, ground arith, n)

module _ {P T M : Type 0} (agents : Agents) (runtime_profiles : Dict P) (tools : Dict T)
    (mcp_servers : Dict M) where
  abbrev pub AgentResolved : AgentDescriptor → Type 0
  AgentResolved a =
      IsResolved runtime_profiles (a.runtime_profile_id ∷ [])
      × IsResolved tools a.tool_ids
      × IsResolved mcp_servers a.mcp_server_ids
      × IsResolved agents a.sub_agent_ids

  abbrev pub EachResolved : List AgentDescriptor → Type 0
  EachResolved [] = Unit
  EachResolved (a ∷ rest) = AgentResolved a × EachResolved rest

  abbrev pub AgentMisses : AgentDescriptor → CatalogError → Type 0
  AgentMisses a e =
      Misses runtime_profiles a.id "runtime profile" (a.runtime_profile_id ∷ []) e
      ⊎ Misses tools a.id "tool" a.tool_ids e
      ⊎ Misses mcp_servers a.id "MCP server" a.mcp_server_ids e
      ⊎ Misses agents a.id "sub-agent" a.sub_agent_ids e

  abbrev pub ListDecided : List AgentDescriptor → Checked (Unit {0}) → Type 0
  ListDecided l r =
      ((r ≡ ok tt) × EachResolved l)
      ⊎ ((e : CatalogError) × (i : ℕ) × (a : AgentDescriptor) × (r ≡ err e)
          × (get_elem? l i ≡ some a)
          × AgentMisses a e)

  abbrev AgentDecided : AgentDescriptor → Checked (Unit {0}) → Type 0
  AgentDecided a r =
      ((r ≡ ok tt) × AgentResolved a) ⊎ ((e : CatalogError) × (r ≡ err e) × AgentMisses a e)

  check_agent-decided :
      (a : AgentDescriptor)
      → AgentDecided a (check_agent agents runtime_profiles tools mcp_servers a)
  check_agent-decided a =
      in_order _ _ _ _
        (check_ids-Checks runtime_profiles a.id "runtime profile" (a.runtime_profile_id ∷ []))
        (check_ids-Checks tools a.id "tool" a.tool_ids)
        (check_ids-Checks mcp_servers a.id "MCP server" a.mcp_server_ids)
        (check_ids-Checks agents a.id "sub-agent" a.sub_agent_ids)
    where
      in_order :
          (p t m s : Checked (Unit {0}))
          → Checks runtime_profiles a.id "runtime profile" (a.runtime_profile_id ∷ []) p
          → Checks tools a.id "tool" a.tool_ids t
          → Checks mcp_servers a.id "MCP server" a.mcp_server_ids m
          → Checks agents a.id "sub-agent" a.sub_agent_ids s
          → AgentDecided a (p >>= λ _. t >>= λ _. m >>= λ _. s)
      in_order (ok u) (ok v) (ok t) (ok w) x y z h = inl (refl, (x, y, z, h))
      in_order (ok _) (ok _) (ok _) (err e) x y z w = inr (e, refl, inr (inr (inr w)))
      in_order (ok _) (ok _) (err e) s x y z w = inr (e, refl, inr (inr (inl z)))
      in_order (ok _) (err e) m s x y z w = inr (e, refl, inr (inl y))
      in_order (err e) t m s x y z w = inr (e, refl, inl x)

  check_agents-decided :
      (l : List AgentDescriptor)
      → ListDecided l (check_agents agents runtime_profiles tools mcp_servers l)
  unfolding check_agents
  check_agents-decided [] = inl (refl, tt)
  check_agents-decided (a ∷ rest) = both _ _ (check_agent-decided a) (check_agents-decided rest)
    where
      both :
          (r t : Checked (Unit {0}))
          → AgentDecided a r
          → ListDecided rest t
          → ListDecided (a ∷ rest) (r >>= λ _. t)
      both r t (inl (q, x)) (inl (q', y)) = inl (ap (λ r. r >>= λ _. t) q ∙ q', (x, y))
      both r t (inl (q, x)) (inr (e, i, b, q', at, m)) =
          inr (e, suc i, b, ap (λ r. r >>= λ _. t) q ∙ q', at, m)
      both r t (inr (e, q, m)) y = inr (e, 0, a, ap (λ r. r >>= λ _. t) q, refl, m)

  -- The validation accepts, and then every id that a registered agent lists is a key of the registry
  -- of its kind; or its error names a registered agent and a listed id that is no key of that registry.
  pub references_decided :
      ((validate_references agents runtime_profiles tools mcp_servers ≡ ok tt)
        × EachResolved (values agents))
      ⊎ ((e : CatalogError) × (i : ℕ) × (a : AgentDescriptor) × (validate_references agents
              runtime_profiles tools mcp_servers
            ≡ err e)
          × (get_elem? (values agents) i ≡ some a)
          × AgentMisses a e)
  unfolding validate_references
  references_decided = check_agents-decided (values agents)

  IsResolved-at :
      {V : Type 0} (d : Dict V) (ids : List String) (k : ℕ) (c : String)
      → IsResolved d ids
      → get_elem? ids k ≡ some c
      → has c d ≡ true
  IsResolved-at d [] k c h e = cc
  IsResolved-at d (id ∷ ids) zero c h e = ground (arith, h.0)
  IsResolved-at d (id ∷ ids) (suc k) c h e = IsResolved-at d ids k c h.1 e

  EachResolved-at :
      (rest : Agents) (a : String) (d : AgentDescriptor)
      → EachResolved (values rest)
      → lookup a rest ≡ some d
      → AgentResolved d
  unfolding lookup
  EachResolved-at [] a d h e = cc
  EachResolved-at ((k, b) ∷ rest) a d h e = elim (Bool-cases (k == a)) [
    | inl q ↦ subst (λ o. AgentResolved (get_or b o)) (rw q at e) h.0
    | inr q ↦ EachResolved-at rest a d h.1 (rw q at e)
  ]
    where
      get_or : AgentDescriptor → Option AgentDescriptor → AgentDescriptor
      get_or b none = b
      get_or b (some d) = d

  pub resolved-IsClosed : EachResolved (values agents) → IsClosed agents
  resolved-IsClosed h a k c e = by_lookup (lookup a agents) refl e
    where
      by_lookup :
          (o : Option AgentDescriptor)
          → lookup a agents ≡ o
          → get_elem? (subs_of o) k ≡ some c
          → has c agents ≡ true
      by_lookup none q e = cc
      by_lookup (some d) q e =
          IsResolved-at agents d.sub_agent_ids k c (EachResolved-at agents a d h q).3 e
