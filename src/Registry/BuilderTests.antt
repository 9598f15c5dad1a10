-- ===== src/Registry/BuilderTests.antt =====
-- A small builder (src/arema/registry/catalog.py) with an id that is added twice, and a tool.
use arema.Prelude.{String, true, false, ◌≡◌, ◌⊎◌, refl, none, some, List, [], ◌∷◌, every, is_blank}
use arema.Prelude.Int.{pos, leb_ℤ}
use arema.Prelude.Dict.{lookup, insert}
use arema.Prelude.Json.{end}
use arema.Registry.Descriptors.{AgentDescriptor, deterministic, ok}
use arema.Registry.AgentChecks.{validate_string_tuple, validate_metadata}
use arema.Registry.AgentChecks.Shape.{IsDistinct}
use arema.Registry.ToolChecks.{ToolDescriptor, validate_tool}
use arema.Registry.ToolChecks.Accepted.{validate_tool-accepted}
use arema.Registry.Builder.{HasId, new_builder, add, validate_registry_keys, agent_ids}
use arema.Registry.Builder.Keys.{Addition, profile, agent, tool, build, first_agent, built}

-- Profiles, tools and servers that are no more than their ids.
abbrev names : HasId String
names = record { id_of = λ s. s }

abbrev gate : String → AgentDescriptor
gate text = record {
  id = "gate";
  name = "gate";
  description = text;
  prompt_id = none;
  factory_callable = true;
  runtime_profile_id = "default";
  has_prompt_loader = false;
  tool_ids = [];
  mcp_server_ids = [];
  sub_agent_ids = [];
  output_key = none;
  has_output_schema = false;
  after_agent_callbacks = [];
  metadata = end;
  version = "1";
  kind = deterministic;
}

abbrev additions : List (Addition String String String)
additions = profile "default" ∷ agent (gate "first") ∷ tool "floss" ∷ agent (gate "second") ∷ []

first_kept :
    lookup "gate" (build names names names additions new_builder).agents ≡ some (gate "first")
unfolding build add lookup insert
first_kept = refl

built_example :
    (validate_registry_keys names (build names names names additions new_builder).runtime_profiles
      ≡ ok tt)
    × (validate_registry_keys agent_ids (build names names names additions new_builder).agents
        ≡ ok tt)
    × (validate_registry_keys names (build names names names additions new_builder).tools ≡ ok tt)
    × (validate_registry_keys names (build names names names additions new_builder).mcp_servers
        ≡ ok tt)
    × (lookup "gate" (build names names names additions new_builder).agents
        ≡ first_agent names names names "gate" additions)
built_example = built names names names additions "gate"

abbrev floss : ToolDescriptor
floss = record {
  id = "floss";
  description = "strings";
  tool = some true;
  factory = none;
  output_policy = record {
    max_chars = pos 15000;
    max_list_items = pos 30;
    drop_fields = "raw" ∷ [];
    preserve_fields = [];
  };
  memory_codec_ids = [];
  callbacks = record { before = true ∷ []; after = []; on_error = []; memory = true ∷ [] };
  metadata = end;
  version = "1";
}

floss_accepted : validate_tool floss ≡ ok tt
unfolding validate_tool is_blank validate_string_tuple validate_metadata
floss_accepted = refl

validate_tool-accepted_example :
    (((floss.tool ≡ some true) × (floss.factory ≡ none))
      ⊎ ((floss.tool ≡ none) × (floss.factory ≡ some true)))
    × (leb_ℤ (pos 15000) (pos 0) ≡ false)
    × (leb_ℤ (pos 30) (pos 0) ≡ false)
    × IsDistinct ("raw" ∷ [])
    × IsDistinct []
    × IsDistinct []
    × (every (λ c. c) floss.callbacks.before ≡ true)
    × (every (λ c. c) floss.callbacks.after ≡ true)
    × (every (λ c. c) floss.callbacks.on_error ≡ true)
    × (every (λ c. c) floss.callbacks.memory ≡ true)
validate_tool-accepted_example = validate_tool-accepted floss floss_accepted
