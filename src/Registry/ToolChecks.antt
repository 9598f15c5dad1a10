-- ===== src/Registry/ToolChecks.antt =====
-- `_validate_tool` and `_validate_runtime_profile` of src/arema/registry/catalog.py, with the descriptors
-- they check (src/arema/registry/descriptors.py). A callback is known by whether it can be called, and a
-- tool or factory by whether it is usable. Fields have their declared types, so that the `isinstance`
-- tests on them hold.
pub mod Accepted
use arema.Prelude.{
  String, Bool, true, false, Option, none, some, List, [], ◌∷◌, every, if◌then◌else◌,
}
use arema.Prelude.Int.{ℤ, pos, leb_ℤ}
use arema.Prelude.Json.{Fields}
use arema.Registry.Descriptors.{
  CatalogError, invalid_descriptor, invalid_tool_descriptor, Checked, ok, err, ◌>>=◌,
}
use arema.Registry.AgentChecks.{require_non_empty, validate_string_tuple, validate_metadata}

pub record OutputPolicy : Type 0 where
  pub max_chars : ℤ
  pub max_list_items : ℤ
  pub drop_fields : List String
  pub preserve_fields : List String

pub record ToolLifecycleCallbacks : Type 0 where
  pub before : List Bool
  pub after : List Bool
  pub on_error : List Bool
  pub memory : List Bool

pub record ToolDescriptor : Type 0 where
  pub id : String
  pub description : String
  pub tool : Option Bool
  pub factory : Option Bool
  pub output_policy : OutputPolicy
  pub memory_codec_ids : List String
  pub callbacks : ToolLifecycleCallbacks
  pub metadata : Fields
  pub version : String

-- A helper's check with its `error_type`.
abbrev pub raising : CatalogError → Checked (Unit {0}) → Checked (Unit {0})
raising e (ok _) = ok tt
raising e (err _) = err e

abbrev pub require_positive_integer : CatalogError → ℤ → Checked (Unit {0})
require_positive_integer e value = if leb_ℤ value (pos 0) then err e else ok tt

-- A callback is `true` when it can be called.
abbrev pub validate_callbacks : CatalogError → List Bool → Checked (Unit {0})
validate_callbacks e callbacks = if every (λ callable. callable) callbacks then ok tt else err e

abbrev pub validate_output_policy : OutputPolicy → Checked (Unit {0})
validate_output_policy policy =
    require_positive_integer invalid_tool_descriptor policy.max_chars >>= λ _.
    require_positive_integer invalid_tool_descriptor policy.max_list_items >>= λ _.
    raising invalid_tool_descriptor (validate_string_tuple policy.drop_fields []) >>= λ _.
    raising invalid_tool_descriptor (validate_string_tuple policy.preserve_fields [])

abbrev pub validate_tool_callbacks : ToolLifecycleCallbacks → Checked (Unit {0})
validate_tool_callbacks callbacks =
    validate_callbacks invalid_tool_descriptor callbacks.before >>= λ _.
    validate_callbacks invalid_tool_descriptor callbacks.after >>= λ _.
    validate_callbacks invalid_tool_descriptor callbacks.on_error >>= λ _.
    validate_callbacks invalid_tool_descriptor callbacks.memory

-- The tests on `tool` and `factory`: exactly one is given, and it is usable.
abbrev pub validate_source : Option Bool → Option Bool → Checked (Unit {0})
validate_source none none = err invalid_tool_descriptor
validate_source (some tool) (some factory) = err invalid_tool_descriptor
validate_source (some true) none = ok tt
validate_source (some false) none = err invalid_tool_descriptor
validate_source none (some true) = ok tt
validate_source none (some false) = err invalid_tool_descriptor

unfoldable pub validate_tool : ToolDescriptor → Checked (Unit {0})
validate_tool tool = raising invalid_tool_descriptor (require_non_empty tool.id) >>= λ _.
    raising invalid_tool_descriptor (require_non_empty tool.description) >>= λ _.
    raising invalid_tool_descriptor (require_non_empty tool.version) >>= λ _.
    validate_source tool.tool tool.factory >>= λ _.
    validate_output_policy tool.output_policy >>= λ _.
    raising invalid_tool_descriptor (validate_string_tuple tool.memory_codec_ids []) >>= λ _.
    validate_tool_callbacks tool.callbacks >>= λ _.
    raising invalid_tool_descriptor (validate_metadata tool.metadata)

pub data ContextMode : Type 0 where
  history isolated : ContextMode

pub record RuntimeProfile : Type 0 where
  pub id : String
  pub context_mode : ContextMode
  pub capture_request : Bool
  pub throttle_model : Bool
  pub retry_model : Bool
  pub enforce_turn_limit : Bool
  pub enforce_context_budget : Bool
  pub record_metrics : Bool
  pub guard_tools : Bool
  pub record_memory : Bool
  pub compact_tool_output : Bool
  pub recover_tool_errors : Bool
  pub extra_before_model : List Bool
  pub extra_before_tool : List Bool
  pub extra_after_tool : List Bool

unfoldable pub validate_runtime_profile : RuntimeProfile → Checked (Unit {0})
validate_runtime_profile profile = require_non_empty profile.id >>= λ _.
    validate_callbacks invalid_descriptor profile.extra_before_model >>= λ _.
    validate_callbacks invalid_descriptor profile.extra_before_tool >>= λ _.
    validate_callbacks invalid_descriptor profile.extra_after_tool
