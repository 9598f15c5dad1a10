-- ===== src/Recovery/Gate/Summary.antt =====
-- `_summary`, `_summary_limitations` and `_parse_summary` of src/reverse_engineering/agents/deobf_gate.py.
use arema.Prelude.{
  not, ◌||◌, ◌&&◌, false, true, ℕ, String, Bool, Option, none, some, List, [], ◌∷◌, ◌==◌, leb,
  length, contains, map, if◌then◌else◌,
}
use arema.Prelude.Int.{pos}
use arema.Prelude.Dict.{is_some}
use arema.Prelude.Json.{
  Json, null, bool, int, str, arr, obj, Fields, end, field, as_bool, as_nat, as_str, as_obj,
  get_or_null, has_exactly, list_items,
}
use arema.Recovery.ModelJson.{JsonTools, ◌>>=◌, require, loads_model_json, max_model_json_chars}
use arema.Evidence.Envelope.{EvidenceEnvelope, max_limitations}
use arema.Evidence.Envelope.Parse.{as_arr, all_texts}
use arema.Recovery.Gate.{
  ToolOutcome, ToolStatus, success, non_applicable, degraded, status_name, stable_extend,
}

pub record UpxSummary : Type 0 where
  pub status : ToolStatus
  pub changed : Bool
  pub error_code : String

pub record FlossSummary : Type 0 where
  pub status : ToolStatus
  pub new_count : ℕ
  pub error_code : String

pub record RecoverySummary : Type 0 where
  pub artifact_id : String
  pub exit_reason : String
  pub upx : UpxSummary
  pub floss : FlossSummary
  pub limitations : List String

-- `_summary`
abbrev pub summary_of : String → String → ToolOutcome → ToolOutcome → List String → RecoverySummary
summary_of artifact_id reason upx floss limitations = record {
  artifact_id = artifact_id;
  exit_reason = reason;
  upx = record { status = upx.status; changed = upx.changed; error_code = upx.error_code };
  floss = record {
    status = floss.status;
    new_count = floss.new_count;
    error_code = floss.error_code;
  };
  limitations = limitations;
}

-- As the dict that it is.
abbrev pub summary_json : RecoverySummary → Json
summary_json s = obj (
    field "artifact_id" (str s.artifact_id) (
      field "exit_reason" (str s.exit_reason) (
        field "upx"
          (obj (
            field "status" (str (status_name s.upx.status)) (
              field "changed" (bool s.upx.changed)
                (field "error_code" (str s.upx.error_code) end))))
          (field "floss"
            (obj (
              field "status" (str (status_name s.floss.status)) (
                field "new_count" (int (pos s.floss.new_count))
                  (field "error_code" (str s.floss.error_code) end))))
            (field "limitations" (arr (list_items (map str s.limitations))) end)))))

-- The reasons that are read back.
abbrev pub read_reasons : List String
read_reasons = "complete" ∷ "no_progress" ∷ "degraded" ∷ "pcode_handoff" ∷ "iteration_cap" ∷ []

abbrev pub tool_status_of : String → Option ToolStatus
tool_status_of s =
    if s == "success"
    then some success
    else if s == "non_applicable"
    then some non_applicable
    else if s == "degraded"
    then some degraded
    else none

abbrev pub upx_summary_of : Fields → Option UpxSummary
upx_summary_of raw = do
  _ ← require (has_exactly ("status" ∷ "changed" ∷ "error_code" ∷ []) raw)
  status ← as_str (get_or_null "status" raw) >>= tool_status_of
  changed ← as_bool (get_or_null "changed" raw)
  error_code ← as_str (get_or_null "error_code" raw)
  some (record { status = status; changed = changed; error_code = error_code })

abbrev pub floss_summary_of : Fields → Option FlossSummary
floss_summary_of raw = do
  _ ← require (has_exactly ("status" ∷ "new_count" ∷ "error_code" ∷ []) raw)
  status ← as_str (get_or_null "status" raw) >>= tool_status_of
  new_count ← as_nat (get_or_null "new_count" raw)
  error_code ← as_str (get_or_null "error_code" raw)
  some (record { status = status; new_count = new_count; error_code = error_code })

abbrev pub summary_keys : List String
summary_keys = "artifact_id" ∷ "exit_reason" ∷ "upx" ∷ "floss" ∷ "limitations" ∷ []

-- Of the decoded dict.
abbrev pub read_summary : Fields → String → Option RecoverySummary
read_summary raw artifact_id = do
  _ ← require (has_exactly summary_keys raw)
  own_id ← as_str (get_or_null "artifact_id" raw)
  _ ← require (own_id == artifact_id)
  reason ← as_str (get_or_null "exit_reason" raw)
  _ ← require (contains read_reasons reason)
  raw_upx ← as_obj (get_or_null "upx" raw)
  upx ← upx_summary_of raw_upx
  raw_floss ← as_obj (get_or_null "floss" raw)
  floss ← floss_summary_of raw_floss
  items ← as_arr (get_or_null "limitations" raw)
  _ ← require (leb (length items) max_limitations)
  limitations ← all_texts items
  some (record {
    artifact_id = own_id;
    exit_reason = reason;
    upx = upx;
    floss = floss;
    limitations = limitations;
  })

-- A dict or a list cannot be sought in a set: `in` raises a TypeError.
abbrev pub is_hashable : Json → Bool
is_hashable (obj fields) = false
is_hashable (arr items) = false
is_hashable v = true

-- Whether the seeking of the status in a dict with these keys raises so.
abbrev pub status_raises : List String → Json → Bool
status_raises names (obj raw) =
    has_exactly names raw && not (is_hashable (get_or_null "status" raw))
status_raises names v = false

abbrev pub is_upx_summary : Json → Bool
is_upx_summary (obj raw) = is_some (upx_summary_of raw)
is_upx_summary v = false

abbrev pub is_read_reason : Json → Bool
is_read_reason (str s) = contains read_reasons s
is_read_reason v = false

-- The tests of the decoded dict up to the one that raises a TypeError, if one does.
abbrev pub summary_raises : Fields → String → Bool
summary_raises raw artifact_id =
    has_exactly summary_keys raw
    && (is_own (get_or_null "artifact_id" raw)
        && (not (is_hashable (get_or_null "exit_reason" raw))
            || is_read_reason (get_or_null "exit_reason" raw)
              && (status_raises ("status" ∷ "changed" ∷ "error_code" ∷ []) (get_or_null "upx" raw)
                  || is_upx_summary (get_or_null "upx" raw)
                    && status_raises ("status" ∷ "new_count" ∷ "error_code" ∷ [])
                        (get_or_null "floss" raw))))
  where
    is_own : Json → Bool
    is_own (str s) = s == artifact_id
    is_own v = false

-- Whether the exception of `_parse_summary`, where it raises one, is a TypeError, which no handler catches.
abbrev pub raises_type_error : JsonTools → Json → String → Bool
raises_type_error tools null artifact_id = false
raises_type_error tools raw artifact_id =
    raises (loads_model_json tools max_model_json_chars raw >>= as_obj)
  where
    raises : Option Fields → Bool
    raises none = false
    raises (some fields) = summary_raises fields artifact_id

-- No summary yet, a summary, or `none` for one at which it raises.
unfoldable pub parse_summary : JsonTools → Json → String → Option (Option RecoverySummary)
parse_summary tools null artifact_id = some none
parse_summary tools raw artifact_id = do
  decoded ← loads_model_json tools max_model_json_chars raw
  fields ← as_obj decoded
  s ← read_summary fields artifact_id
  some (some s)

abbrev pub limitations_of : Option RecoverySummary → List String
limitations_of none = []
limitations_of (some s) = s.limitations

-- `_summary_limitations`
abbrev pub summary_limitations : Option RecoverySummary → EvidenceEnvelope → List String
summary_limitations summary evidence =
    stable_extend (stable_extend [] (limitations_of summary) max_limitations)
      evidence.coverage.limitations max_limitations
