-- ===== src/Registry/Descriptors.antt =====
-- src/arema/registry/descriptors.py and errors.py. A callable is known only by whether it can be
-- called, and a prompt loader or an output schema by whether it is there.
use arema.Prelude.{
  String, Bool, true, false, not, ◌&&◌, ◌||◌, every, if◌then◌else◌, Option, none, some, List, [],
  ◌∷◌,
}
use arema.Prelude.Dict.{Dict, lookup, is_some}
use arema.Prelude.Json.{Fields}

pub data AgentKind : Type 0 where
  auto llm composite deterministic : AgentKind

pub record AgentDescriptor : Type 0 where
  pub id : String
  pub name : String
  pub description : String
  pub prompt_id : Option String
  pub factory_callable : Bool
  pub runtime_profile_id : String
  pub has_prompt_loader : Bool
  pub tool_ids : List String
  pub mcp_server_ids : List String
  pub sub_agent_ids : List String
  pub output_key : Option String
  pub has_output_schema : Bool
  pub after_agent_callbacks : List Bool
  pub metadata : Fields
  pub version : String
  pub kind : AgentKind

abbrev pub Agents : Type 0
Agents = Dict AgentDescriptor

pub data CatalogError : Type 0 where
  invalid_root frozen invalid_descriptor invalid_tool_descriptor key_error : CatalogError
  duplicate : String → CatalogError
  unresolved : String → String → String → CatalogError
  cyclic : List String → CatalogError
  unreachable : List String → CatalogError

pub data Checked (A : Type 0) : Type 0 where
  ok : A → Checked A
  err : CatalogError → Checked A

infixl 10 ◌>>=◌
abbrev pub ◌>>=◌ : {A B : Type 0} → Checked A → (A → Checked B) → Checked B
ok a >>= f = f a
err e >>= f = err e

-- What the constructor of the descriptor refuses: a callback that cannot be called, and an output schema without
-- an output key, or together with tools or servers.
unfoldable pub post_init : AgentDescriptor → Checked AgentDescriptor
post_init agent =
    if not (every (λ callable. callable) agent.after_agent_callbacks)
    then err invalid_descriptor
    else if agent.has_output_schema && not (is_some agent.output_key)
    then err invalid_descriptor
    else if agent.has_output_schema
        && (is_nonempty agent.tool_ids || is_nonempty agent.mcp_server_ids)
    then err invalid_descriptor
    else ok agent
  where
    is_nonempty : List String → Bool
    is_nonempty [] = false
    is_nonempty (x ∷ xs) = true

abbrev pub subs_of : Option AgentDescriptor → List String
subs_of none = []
subs_of (some a) = a.sub_agent_ids

-- The sub-agents of an agent that is registered.
abbrev pub children : Agents → String → List String
children agents id = subs_of (lookup id agents)
