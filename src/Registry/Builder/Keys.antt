-- ===== src/Registry/Builder/Keys.antt =====
-- What a `CatalogBuilder` (src/arema/registry/catalog.py) holds after any calls that add, those that
-- raise included.
use arema.Prelude.{
  String, Bool, true, false, ◌≡◌, refl, ap, sym, ◌∙◌, inl, inr, Option, none, some, List, [], ◌∷◌,
  ◌==◌, eq_iff, arith, Bool-cases, Option-cases, if◌then◌else◌,
}
use arema.Prelude.Dict.{Dict, lookup, insert, lookup-insert, has}
use arema.Registry.Descriptors.{AgentDescriptor, Agents, invalid_descriptor, ok, err}
use arema.Registry.Builder.{
  HasId, CatalogBuilder, new_builder, add, validate_registry_keys, agent_ids, kept,
  add_runtime_profile, add_agent, add_tool, add_mcp_server,
}

-- A call of one of the four methods.
pub data Addition (P T M : Type 0) : Type 0 where
  profile : P → Addition P T M
  agent : AgentDescriptor → Addition P T M
  tool : T → Addition P T M
  server : M → Addition P T M

insert-keys :
    {D : Type 0} (h : HasId D) (d : D) (registry : Dict D)
    → validate_registry_keys h registry ≡ ok tt
    → validate_registry_keys h (insert (h.id_of d) d registry) ≡ ok tt
unfolding validate_registry_keys insert
insert-keys h d [] v = ground (arith, eq_iff (h.id_of d) (h.id_of d))
insert-keys h d ((k, e) ∷ rest) v = elim (Bool-cases (k == h.id_of e)) [
  | inl q ↦ elim (Bool-cases (k == h.id_of d)) [
    | inl p ↦ rw (p, p) (rw q at v)
    | inr p ↦ rw (p, q) (insert-keys h d rest (rw q at v))
  ]
  | inr q ↦ absurd (clash (rw q at v))
]
  where
    clash : err invalid_descriptor ≡ ok tt → ⊥
    clash x = cc

kept-keys :
    {D : Type 0} (h : HasId D) (f : Bool) (d : D) (registry : Dict D)
    → validate_registry_keys h registry ≡ ok tt
    → validate_registry_keys h (kept (add h f d registry) registry) ≡ ok tt
unfolding add
kept-keys h true d registry v = v
kept-keys h false d registry v = elim (Bool-cases (has (h.id_of d) registry)) [
  | inl q ↦ rw q v
  | inr q ↦ rw q (insert-keys h d registry v)
]

module _ {P T M : Type 0} (profile_ids : HasId P) (tool_ids : HasId T) (server_ids : HasId M) where
  abbrev pub apply : Addition P T M → CatalogBuilder P T M → CatalogBuilder P T M
  apply (profile p) b = add_runtime_profile profile_ids tool_ids server_ids p b
  apply (agent a) b = add_agent profile_ids tool_ids server_ids a b
  apply (tool t) b = add_tool profile_ids tool_ids server_ids t b
  apply (server m) b = add_mcp_server profile_ids tool_ids server_ids m b

  unfoldable pub build : List (Addition P T M) → CatalogBuilder P T M → CatalogBuilder P T M
  build [] b = b
  build (x ∷ xs) b = build xs (apply x b)

  -- The first agent that is added under an id.
  unfoldable pub first_agent : String → List (Addition P T M) → Option AgentDescriptor
  first_agent id [] = none
  first_agent id (profile p ∷ xs) = first_agent id xs
  first_agent id (tool t ∷ xs) = first_agent id xs
  first_agent id (server m ∷ xs) = first_agent id xs
  first_agent id (agent a ∷ xs) =
      let later = first_agent id xs in if a.id == id then some a else later

  abbrev HasKeys : CatalogBuilder P T M → Type 0
  HasKeys b =
      (validate_registry_keys profile_ids b.runtime_profiles ≡ ok tt)
      × (validate_registry_keys agent_ids b.agents ≡ ok tt)
      × (validate_registry_keys tool_ids b.tools ≡ ok tt)
      × (validate_registry_keys server_ids b.mcp_servers ≡ ok tt)

  apply-HasKeys : (x : Addition P T M) (b : CatalogBuilder P T M) → HasKeys b → HasKeys (apply x b)
  apply-HasKeys (profile p) b (h, i, j, k) =
      (kept-keys profile_ids b.is_frozen p b.runtime_profiles h, i, j, k)
  apply-HasKeys (agent a) b (h, i, j, k) = (h, kept-keys agent_ids b.is_frozen a b.agents i, j, k)
  apply-HasKeys (tool t) b (h, i, j, k) = (h, i, kept-keys tool_ids b.is_frozen t b.tools j, k)
  apply-HasKeys (server m) b (h, i, j, k) =
      (h, i, j, kept-keys server_ids b.is_frozen m b.mcp_servers k)

  build-HasKeys :
      (xs : List (Addition P T M)) (b : CatalogBuilder P T M) → HasKeys b → HasKeys (build xs b)
  unfolding build
  build-HasKeys [] b h = h
  build-HasKeys (x ∷ xs) b h = build-HasKeys xs (apply x b) (apply-HasKeys x b h)

  abbrev or_else : Option AgentDescriptor → Option AgentDescriptor → Option AgentDescriptor
  or_else none o = o
  or_else (some a) o = some a

  or_else-none : (o : Option AgentDescriptor) → or_else o none ≡ o
  or_else-none none = refl
  or_else-none (some a) = refl

  or_else_assoc :
      (o p q : Option AgentDescriptor) → or_else (or_else o p) q ≡ or_else o (or_else p q)
  or_else_assoc none p q = refl
  or_else_assoc (some a) p q = refl

  module _ (id : String) (a : AgentDescriptor) (registry : Agents) where
    same_id : (a.id == id) ≡ true → lookup id registry ≡ lookup a.id registry
    same_id q = ap (λ k. lookup k registry) (sym ((eq_iff a.id id).0 q))

    lookup-kept :
        lookup id (kept (add agent_ids false a registry) registry)
        ≡ or_else (lookup id registry) (if a.id == id then some a else none)
    unfolding add
    lookup-kept = elim (Option-cases (lookup a.id registry)) [
      | inl n ↦ elim (Bool-cases (a.id == id)) [
        | inl q ↦ rw (n, lookup-insert a.id id a registry, q, same_id q, n) refl
        | inr q ↦
            rw (n, lookup-insert a.id id a registry, q) (sym (or_else-none (lookup id registry)))
      ]
      | inr (d, e) ↦ elim (Bool-cases (a.id == id)) [
        | inl q ↦ rw (e, q, same_id q, e) refl
        | inr q ↦ rw (e, q) (sym (or_else-none (lookup id registry)))
      ]
    ]

  build-lookup :
      (xs : List (Addition P T M)) (b : CatalogBuilder P T M) (id : String)
      → b.is_frozen ≡ false
      → lookup id (build xs b).agents ≡ or_else (lookup id b.agents) (first_agent id xs)
  unfolding build first_agent
  build-lookup [] b id f = sym (or_else-none (lookup id b.agents))
  build-lookup (profile p ∷ xs) b id f = build-lookup xs (apply (profile p) b) id f
  build-lookup (tool t ∷ xs) b id f = build-lookup xs (apply (tool t) b) id f
  build-lookup (server m ∷ xs) b id f = build-lookup xs (apply (server m) b) id f
  build-lookup (agent a ∷ xs) b id f =
      build-lookup xs (apply (agent a) b) id f
      ∙ ap (λ o. or_else o (first_agent id xs))
          (ap (λ g. lookup id (kept (add agent_ids g a b.agents) b.agents)) f
            ∙ lookup-kept id a b.agents)
      ∙ or_else_assoc (lookup id b.agents) _ (first_agent id xs)
      ∙ ap (or_else (lookup id b.agents)) (choose (a.id == id) (first_agent id xs))
    where
      choose :
          (c : Bool) (o : Option AgentDescriptor)
          → or_else (if c then some a else none) o ≡ (if c then some a else o)
      choose true o = refl
      choose false o = refl

  -- Whatever is added to a new builder, in calls that raise or not: every registry passes the check of
  -- its keys, and an id names the agent that was first added under it, if any was.
  pub built :
      (xs : List (Addition P T M)) (id : String)
      → (validate_registry_keys profile_ids (build xs new_builder).runtime_profiles ≡ ok tt)
        × (validate_registry_keys agent_ids (build xs new_builder).agents ≡ ok tt)
        × (validate_registry_keys tool_ids (build xs new_builder).tools ≡ ok tt)
        × (validate_registry_keys server_ids (build xs new_builder).mcp_servers ≡ ok tt)
        × (lookup id (build xs new_builder).agents ≡ first_agent id xs)
  unfolding validate_registry_keys lookup
  built xs id =
      let (p, a, t, m) = build-HasKeys xs new_builder (refl, refl, refl, refl) in
      (p, a, t, m, build-lookup xs new_builder id refl)
