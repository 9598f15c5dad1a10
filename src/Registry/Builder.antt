-- ===== src/Registry/Builder.antt =====
-- `CatalogBuilder` of src/arema/registry/catalog.py as far as descriptors are added, and
-- `_validate_registry_keys`. Profiles, tools and servers are known by their ids only.
pub mod Keys
use arema.Prelude.{String, Bool, true, false, List, [], ◌∷◌, ◌==◌, if◌then◌else◌}
use arema.Prelude.Dict.{Dict, lookup, insert, has}
use arema.Registry.Descriptors.{
  AgentDescriptor, Agents, CatalogError, frozen, duplicate, invalid_descriptor, Checked, ok, err,
}

-- `_HasId`
pub record HasId (D : Type 0) : Type 0 where
  pub id_of : D → String

pub record CatalogBuilder (P T M : Type 0) : Type 0 where
  pub runtime_profiles : Dict P
  pub agents : Agents
  pub tools : Dict T
  pub mcp_servers : Dict M
  pub is_frozen : Bool

abbrev pub new_builder : {P T M : Type 0} → CatalogBuilder P T M
new_builder = record {
  runtime_profiles = [];
  agents = [];
  tools = [];
  mcp_servers = [];
  is_frozen = false;
}

-- `_ensure_mutable` and `_add`: the registry with the descriptor, or the error that is raised.
unfoldable pub add : {D : Type 0} → HasId D → Bool → D → Dict D → Checked (Dict D)
add h is_frozen descriptor registry =
    if is_frozen
    then err frozen
    else if has (h.id_of descriptor) registry
    then err (duplicate (h.id_of descriptor))
    else ok (insert (h.id_of descriptor) descriptor registry)

unfoldable pub validate_registry_keys : {D : Type 0} → HasId D → Dict D → Checked (Unit {0})
validate_registry_keys h [] = ok tt
validate_registry_keys h ((key, descriptor) ∷ registry) =
    let rest = validate_registry_keys h registry in
    if key == h.id_of descriptor then rest else err invalid_descriptor

abbrev pub agent_ids : HasId AgentDescriptor
agent_ids = record { id_of = λ a. a.id }

-- A registry after a call of `_add`, which leaves it alone when it raises.
abbrev pub kept : {D : Type 0} → Checked (Dict D) → Dict D → Dict D
kept (ok registry) old = registry
kept (err e) old = old

module _ {P T M : Type 0} (profile_ids : HasId P) (tool_ids : HasId T) (server_ids : HasId M) where
  -- The four methods that add.
  abbrev pub add_runtime_profile : P → CatalogBuilder P T M → CatalogBuilder P T M
  add_runtime_profile p b = record b {
    runtime_profiles = kept (add profile_ids b.is_frozen p b.runtime_profiles) b.runtime_profiles;
  }

  abbrev pub add_agent : AgentDescriptor → CatalogBuilder P T M → CatalogBuilder P T M
  add_agent a b = record b { agents = kept (add agent_ids b.is_frozen a b.agents) b.agents }

  abbrev pub add_tool : T → CatalogBuilder P T M → CatalogBuilder P T M
  add_tool t b = record b { tools = kept (add tool_ids b.is_frozen t b.tools) b.tools }

  abbrev pub add_mcp_server : M → CatalogBuilder P T M → CatalogBuilder P T M
  add_mcp_server m b = record b {
    mcp_servers = kept (add server_ids b.is_frozen m b.mcp_servers) b.mcp_servers;
  }
