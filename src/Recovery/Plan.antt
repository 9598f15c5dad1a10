-- ===== src/Recovery/Plan.antt =====
-- src/reverse_engineering/tools/deobfuscation/state.py: the classification that the loop works by. A
-- `ValueError` is `none`; a set of keys has no order, so that a snapshot is a record.
pub mod RoundTrip
pub mod Reset
use arema.Prelude.{
  ℕ, String, Bool, true, false, ◌&&◌, ◌||◌, Option, none, some, List, [], ◌∷◌, ◌==◌, eqb, leb,
  contains, every_char, text_length, if◌then◌else◌,
}
use arema.Prelude.Int.{pos}
use arema.Prelude.Dict.{lookup, insert}
use arema.Prelude.Json.{
  Json, null, bool, int, str, arr, obj, nil, Fields, end, field, as_bool, as_nat, as_str, as_obj,
  get_or_null, has_exactly,
}
use arema.Workbench.State.{
  State, current_artifact_key, thrash_signature_key, thrash_repeat_count_key, thrash_artifact_key,
}
use arema.Recovery.Keys
use arema.Recovery.ModelJson.{JsonTools, ◌>>=◌, require, loads_model_json, max_model_json_chars}

-- `state.get(key)`, which is None where the key is missing
abbrev pub value_at : String → State → Json
value_at key state = or_null (lookup key state)
  where
    or_null : Option Json → Json
    or_null none = null
    or_null (some v) = v

-- `_ARTIFACT_ID_PATTERN`
abbrev pub is_hex_digit : ℕ → Bool
is_hex_digit n = leb 48 n && leb n 57 || leb 97 n && leb n 102

abbrev pub is_artifact_id : String → Bool
is_artifact_id s = eqb (text_length s) 64 && every_char is_hex_digit s

pub record Snapshot : Type 0 where
  pub size : ℕ
  pub function_count : ℕ
  pub import_count : ℕ
  pub string_count : ℕ
  pub section_count : ℕ

pub record DeobfPlan : Type 0 where
  pub artifact_id : String
  pub upx : Bool
  pub floss : Bool
  pub pcode_preferred : Bool
  pub obf_class : String
  pub pre_snapshot : Snapshot

abbrev pub snapshot_json : Snapshot → Json
snapshot_json s = obj (
    field "size" (int (pos s.size)) (
      field "function_count" (int (pos s.function_count)) (
        field "import_count" (int (pos s.import_count)) (
          field "string_count" (int (pos s.string_count))
            (field "section_count" (int (pos s.section_count)) end)))))

-- The five metrics of an object, each a nonnegative integer.
abbrev pub snapshot_of : Fields → Option Snapshot
snapshot_of raw = do
  size ← as_nat (get_or_null "size" raw)
  function_count ← as_nat (get_or_null "function_count" raw)
  import_count ← as_nat (get_or_null "import_count" raw)
  string_count ← as_nat (get_or_null "string_count" raw)
  section_count ← as_nat (get_or_null "section_count" raw)
  some (record {
    size = size;
    function_count = function_count;
    import_count = import_count;
    string_count = string_count;
    section_count = section_count;
  })

abbrev pub snapshot_keys : List String
snapshot_keys = "size" ∷ "function_count" ∷ "import_count" ∷ "string_count" ∷ "section_count" ∷ []

abbrev pub top_level_keys : List String
top_level_keys =
    "artifact_id" ∷ "deobf_plan" ∷ "pcode_preferred" ∷ "obf_class" ∷ "pre_snapshot" ∷ []

-- The checks on the decoded payload, in the order of the source.
unfoldable pub plan_of : Fields → Option DeobfPlan
plan_of payload = do
  _ ← require (has_exactly top_level_keys payload)
  artifact_id ← as_str (get_or_null "artifact_id" payload)
  _ ← require (is_artifact_id artifact_id)
  plan ← as_obj (get_or_null "deobf_plan" payload)
  _ ← require (has_exactly ("upx" ∷ "floss" ∷ []) plan)
  upx ← as_bool (get_or_null "upx" plan)
  floss ← as_bool (get_or_null "floss" plan)
  pcode_preferred ← as_bool (get_or_null "pcode_preferred" payload)
  obf_class ← as_str (get_or_null "obf_class" payload)
  _ ← require (contains Keys.obf_classes obf_class)
  pre_snapshot ← as_obj (get_or_null "pre_snapshot" payload)
  _ ← require (has_exactly snapshot_keys pre_snapshot)
  snapshot ← snapshot_of pre_snapshot
  some (record {
    artifact_id = artifact_id;
    upx = upx;
    floss = floss;
    pcode_preferred = pcode_preferred;
    obf_class = obf_class;
    pre_snapshot = snapshot;
  })

abbrev pub validate_current_classification : State → DeobfPlan → Option (Unit {0})
validate_current_classification state plan = do
  current ← as_str (value_at current_artifact_key state)
  _ ← require (is_artifact_id current)
  require (current == plan.artifact_id)

abbrev pub classification_json : DeobfPlan → String → Json
classification_json plan artifact_id = obj (
    field "artifact_id" (str artifact_id) (
      field "deobf_plan" (obj (field "upx" (bool plan.upx) (field "floss" (bool plan.floss) end))) (
        field "pcode_preferred" (bool plan.pcode_preferred) (
          field "obf_class" (str plan.obf_class)
            (field "pre_snapshot" (snapshot_json plan.pre_snapshot) end)))))

module _ (tools : JsonTools) where
  unfoldable pub parse_classification : State → Option DeobfPlan
  parse_classification state = do
    decoded ← loads_model_json tools max_model_json_chars (value_at Keys.classification_key state)
    payload ← as_obj decoded
    plan_of payload

  unfoldable pub parse_current_classification : State → Option DeobfPlan
  parse_current_classification state = do
    plan ← parse_classification state
    _ ← validate_current_classification state plan
    some plan

  unfoldable pub advance_classification_artifact : State → DeobfPlan → String → Option State
  advance_classification_artifact state plan artifact_id = do
    _ ← require (is_artifact_id artifact_id)
    some (
        insert Keys.classification_key (str (tools.dumps (classification_json plan artifact_id)))
          state)

-- for key, value in items: state[key] = value
abbrev pub write_all : List (String × Json) → State → State
write_all [] state = state
write_all ((key, value) ∷ items) state = write_all items (insert key value state)

abbrev pub cleared : String → List (String × Json)
cleared artifact_id =
    (Keys.classification_key, null)
    ∷ (Keys.current_artifact_prompt_key, str "")
    ∷ (Keys.deobf_baseline_prompt_key, str "")
    ∷ (Keys.pcode_preferred_prompt_key, str "")
    ∷ (Keys.upx_provenance_prompt_key, str "")
    ∷ (Keys.deep_decompile_targets_prompt_key, str "")
    ∷ (Keys.upx_changed_key, bool false)
    ∷ (Keys.upx_degraded_key, bool false)
    ∷ (Keys.upx_called_key, bool false)
    ∷ (Keys.upx_result_key, null)
    ∷ (Keys.de4dot_called_key, bool false)
    ∷ (Keys.de4dot_result_key, null)
    ∷ (Keys.floss_count_key, int (pos 0))
    ∷ (Keys.floss_degraded_key, bool false)
    ∷ (Keys.floss_called_key, bool false)
    ∷ (Keys.floss_result_key, null)
    ∷ (Keys.floss_seen_fingerprints_key, arr nil)
    ∷ (Keys.retriage_snapshot_key, null)
    ∷ (Keys.previous_snapshot_key, null)
    ∷ (Keys.recovery_summary_key, null)
    ∷ (Keys.recovery_evidence_key, null)
    ∷ (Keys.deobf_iteration_key, int (pos 0))
    ∷ (Keys.scripted_result_key, null)
    ∷ (Keys.scripted_attempted_key, bool false)
    ∷ (Keys.gate_error_key, null)
    ∷ (thrash_signature_key, str "")
    ∷ (thrash_repeat_count_key, int (pos 0))
    ∷ (thrash_artifact_key, str "")
    ∷ (current_artifact_key, str artifact_id)
    ∷ []

unfoldable pub reset_deobfuscation_state : State → String → Option State
reset_deobfuscation_state state artifact_id = do
  _ ← require (is_artifact_id artifact_id)
  some (write_all (cleared artifact_id) state)
