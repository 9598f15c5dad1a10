-- ===== src/Recovery/Gate/Outcomes.antt =====
-- `_upx_outcome`, `_floss_outcome`, `_scripted_outcome` and `_de4dot_outcome` of
-- src/reverse_engineering/agents/deobf_gate.py.
use arema.Prelude.{
  String, Bool, true, false, not, ◌&&◌, Option, none, some, List, [], ◌∷◌, if◌then◌else◌,
}
use arema.Prelude.Json.{Json, str, obj, Fields, end, field, get_field, get_or_null}
use arema.Recovery.Cached.{is_true, is_false, is_text}
use arema.Recovery.Cached.Upx.{is_valid_upx, same_truth}
use arema.Recovery.Cached.Floss.{is_valid_floss, number_at, records_at}
use arema.Recovery.Cached.De4dot.{is_valid_de4dot}
use arema.Recovery.Gate.{GateTools, ToolOutcome, success, skipped, degraded_with}

abbrev pub text_or : String → Json → String
text_or default (str s) = s
text_or default v = default

-- The dicts of a list.
abbrev pub dicts : List Json → List Fields
dicts [] = []
dicts (obj fields ∷ vs) = fields ∷ dicts vs
dicts (v ∷ vs) = dicts vs

-- An applicable result that is not degraded.
abbrev pub is_applied : Fields → Bool
is_applied r =
    is_true (get_or_null "success" r)
    && (is_true (get_or_null "applicable" r) && is_false (get_or_null "degraded" r))

abbrev pub is_skip : Fields → Bool
is_skip r = is_true (get_or_null "success" r) && is_false (get_or_null "applicable" r)

abbrev pub error_of : Fields → ToolOutcome
error_of r = degraded_with (text_or "result_invalid" (get_or_null "error_code" r))

-- Of a dict, with what the state says.
abbrev pub upx_result_outcome : Fields → Bool → Bool → ToolOutcome
upx_result_outcome r changed_state degraded_state =
    if not (is_valid_upx r)
    then degraded_with "result_invalid"
    else if not (
        same_truth degraded_state (is_true (get_or_null "degraded" r))
        && same_truth changed_state (is_true (get_or_null "changed" r)))
    then degraded_with "result_invalid"
    else if is_skip r
    then skipped
    else if is_applied r
    then record skipped { status = success; changed = is_true (get_or_null "changed" r) }
    else error_of r

unfoldable pub upx_outcome : Json → Bool → Bool → Bool → ToolOutcome
upx_outcome raw false changed_state degraded_state = skipped
upx_outcome (obj r) true changed_state degraded_state =
    upx_result_outcome r changed_state degraded_state
upx_outcome raw true changed_state degraded_state = degraded_with "result_invalid"

module _ (tools : GateTools) where
  abbrev pub floss_result_outcome : Fields → Bool → String → ToolOutcome
  floss_result_outcome r degraded_state artifact_id =
      if not (is_valid_floss tools.fingerprint r)
      then degraded_with "result_invalid"
      else if not (same_truth degraded_state (is_true (get_or_null "degraded" r)))
      then degraded_with "result_invalid"
      else if is_skip r
      then skipped
      else if is_applied r
      then if is_text artifact_id (get_or_null "source_artifact_id" r)
        then record skipped {
          status = success;
          new_count = number_at "new_count" r;
          records = dicts (records_at r);
        }
        else degraded_with "result_invalid"
      else error_of r

  unfoldable pub floss_outcome : Json → Bool → Bool → String → ToolOutcome
  floss_outcome raw false degraded_state artifact_id = skipped
  floss_outcome (obj r) true degraded_state artifact_id =
      floss_result_outcome r degraded_state artifact_id
  floss_outcome raw true degraded_state artifact_id = degraded_with "result_invalid"

  -- str(raw.get(k, default))
  abbrev pub str_at : String → String → Fields → String
  str_at k default r = shown (get_field k r)
    where
      shown : Option Json → String
      shown none = default
      shown (some v) = tools.py_str v

  abbrev pub scripted_record : Fields → Fields
  scripted_record r = field "method" (str (str_at "method" "" r)) (
      field "format" (str (str_at "format" "" r)) (
        field "entropy_before" (get_or_null "entropy_before" r)
          (field "entropy_after" (get_or_null "entropy_after" r) end)))

  unfoldable pub scripted_outcome : Json → String → ToolOutcome
  scripted_outcome (obj r) artifact_id =
      if is_text artifact_id (get_or_null "artifact_id" r)
      then record skipped { status = success; records = scripted_record r ∷ [] }
      else skipped
  scripted_outcome raw artifact_id = skipped

  abbrev pub de4dot_result_outcome : Fields → String → ToolOutcome
  de4dot_result_outcome r artifact_id =
      if not (is_valid_de4dot r)
      then skipped
      else if is_applied r && is_true (get_or_null "changed" r)
      then if is_text artifact_id (get_or_null "recovered_artifact_id" r)
        then record skipped {
          status = success;
          records = field "obfuscator" (str (str_at "obfuscator_name" "unknown" r)) end ∷ [];
        }
        else skipped
      else if is_true (get_or_null "degraded" r)
      then error_of r
      else skipped

  unfoldable pub de4dot_outcome : Json → String → ToolOutcome
  de4dot_outcome (obj r) artifact_id = de4dot_result_outcome r artifact_id
  de4dot_outcome raw artifact_id = skipped
