-- ===== src/Registry/AgentChecks.antt =====
-- `_validate_agent` of src/arema/registry/catalog.py and the checks it calls. The fields have the
-- types of the descriptor, so that the `isinstance` tests on them hold.
pub mod Shape
use arema.Prelude.{
  ℕ, String, Bool, true, false, ◌&&◌, ◌||◌, Option, none, some, List, [], ◌∷◌, ◌==◌, eqb, leb,
  contains, if◌then◌else◌,
}
use arema.Prelude.{is_blank}
use arema.Prelude.Json.{
  Json, null, bool, int, float, str, arr, obj, Items, nil, item, Fields, end, field,
}
use arema.Registry.Descriptors.{
  AgentKind, auto, llm, composite, deterministic, AgentDescriptor, invalid_descriptor, Checked, ok,
  err, ◌>>=◌,
}

abbrev pub refuse : Checked (Unit {0})
refuse = err invalid_descriptor

-- `if refused: raise InvalidCapabilityDescriptorError`
abbrev pub refuse_if : Bool → Checked (Unit {0})
refuse_if true = refuse
refuse_if false = ok tt

abbrev pub require_non_empty : String → Checked (Unit {0})
require_non_empty value = refuse_if (is_blank value)

-- `unique=True`; `seen` is the set.
unfoldable pub validate_string_tuple : List String → List String → Checked (Unit {0})
validate_string_tuple [] seen = ok tt
validate_string_tuple (value ∷ values) seen = require_non_empty value >>= λ _.
    refuse_if (contains seen value) >>= λ _. validate_string_tuple values (value ∷ seen)

-- math.isfinite, of a float that is carried by its text
abbrev pub is_finite : String → Bool
is_finite text = if text == "nan" || (text == "inf" || text == "-inf") then false else true

unfoldable mutual
  pub validate_json_value : Json → Checked (Unit {0})
  validate_json_value null = ok tt
  validate_json_value (bool b) = ok tt
  validate_json_value (int n) = ok tt
  validate_json_value (str s) = ok tt
  validate_json_value (float text) = if is_finite text then ok tt else refuse
  validate_json_value (arr items) = validate_items items
  validate_json_value (obj fields) = validate_fields fields

  pub validate_items : Items → Checked (Unit {0})
  validate_items nil = ok tt
  validate_items (item v rest) = validate_json_value v >>= λ _. validate_items rest

  pub validate_fields : Fields → Checked (Unit {0})
  validate_fields end = ok tt
  validate_fields (field k v rest) =
      refuse_if (k == "") >>= λ _. validate_json_value v >>= λ _. validate_fields rest

unfoldable pub validate_metadata : Fields → Checked (Unit {0})
validate_metadata end = ok tt
validate_metadata (field key value rest) =
    require_non_empty key >>= λ _. validate_json_value value >>= λ _. validate_metadata rest

abbrev pub is_set : Option String → Bool
is_set none = false
is_set (some s) = true

abbrev pub is_filled : List String → Bool
is_filled [] = false
is_filled (x ∷ xs) = true

abbrev pub effective_agent_kind : AgentKind → Option String → AgentKind
effective_agent_kind auto none = composite
effective_agent_kind auto (some prompt) = llm
effective_agent_kind llm prompt = llm
effective_agent_kind composite prompt = composite
effective_agent_kind deterministic prompt = deterministic

abbrev pub validate_composite_agent : AgentDescriptor → Checked (Unit {0})
validate_composite_agent agent = refuse_if (is_filled agent.tool_ids) >>= λ _.
    refuse_if (is_filled agent.mcp_server_ids) >>= λ _. refuse_if (is_set agent.output_key) >>= λ _.
    if is_filled agent.sub_agent_ids then ok tt else refuse

abbrev pub validate_deterministic_agent : AgentDescriptor → Checked (Unit {0})
validate_deterministic_agent agent = refuse_if (is_set agent.prompt_id) >>= λ _.
    refuse_if agent.has_prompt_loader >>= λ _. refuse_if (is_filled agent.tool_ids) >>= λ _.
    refuse_if (is_filled agent.mcp_server_ids) >>= λ _.
    refuse_if (is_set agent.output_key) >>= λ _. refuse_if (is_filled agent.sub_agent_ids)

abbrev pub require_prompt : Option String → Checked (Unit {0})
require_prompt none = refuse
require_prompt (some prompt) = require_non_empty prompt

abbrev pub require_if_set : Option String → Checked (Unit {0})
require_if_set none = ok tt
require_if_set (some value) = require_non_empty value

-- The branches on the effective kind.
abbrev pub validate_kind : AgentKind → AgentDescriptor → Checked (Unit {0})
validate_kind llm agent = require_prompt agent.prompt_id
validate_kind composite agent =
    refuse_if (is_set agent.prompt_id) >>= λ _. validate_composite_agent agent
validate_kind deterministic agent = validate_deterministic_agent agent
validate_kind auto agent = refuse

unfoldable pub validate_agent : AgentDescriptor → Checked (Unit {0})
validate_agent agent = require_non_empty agent.id >>= λ _. require_non_empty agent.name >>= λ _.
    require_non_empty agent.description >>= λ _. require_non_empty agent.runtime_profile_id >>= λ _.
    require_non_empty agent.version >>= λ _.
    validate_kind (effective_agent_kind agent.kind agent.prompt_id) agent >>= λ _.
    (if agent.factory_callable then ok tt else refuse) >>= λ _.
    require_if_set agent.output_key >>= λ _. validate_string_tuple agent.tool_ids [] >>= λ _.
    validate_string_tuple agent.mcp_server_ids [] >>= λ _.
    validate_string_tuple agent.sub_agent_ids [] >>= λ _. validate_metadata agent.metadata
