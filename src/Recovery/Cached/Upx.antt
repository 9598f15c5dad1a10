-- ===== src/Recovery/Cached/Upx.antt =====
-- `_valid_cached_result` and `_degraded_result` of src/reverse_engineering/tools/deobfuscation/upx.py.
use arema.Prelude.{String, Bool, true, false, not, ◌&&◌, List, [], ◌∷◌, ◌++◌, if◌then◌else◌}
use arema.Prelude.Json.{Json, str, Fields, get_field, get_or_null, has_exactly}
use arema.Recovery.Cached.{
  is_true, is_false, is_bool, is_id, is_nonnegative_int, is_text, is_one_of, absent_or, has_between,
  is_error,
}

abbrev pub upx_version : String
upx_version = "5.2.0"

abbrev pub upx_errors : List (String × String)
upx_errors =
    ("invalid_classification", "The deobfuscation classification is invalid.")
    ∷ ("artifact_unavailable", "The artifact is unavailable.")
    ∷ ("sandbox_unavailable", "The deobfuscation sandbox is unavailable.")
    ∷ ("output_invalid", "The recovered output is invalid.")
    ∷ ("upx_failed", "UPX could not unpack the artifact.")
    ∷ []

abbrev pub base_keys : List String
base_keys = "success" ∷ "applicable" ∷ "degraded" ∷ "changed" ∷ "tool_version" ∷ []

-- The ids of a result differ.
abbrev pub ids_differ : Json → Json → Bool
ids_differ (str source) recovered = not (is_text source recovered)
ids_differ v recovered = true

abbrev pub is_failed_upx : Fields → Bool
is_failed_upx r =
    has_between (base_keys ++ ("error_code" ∷ "error" ∷ []))
      ("source_artifact_id" ∷ "source_size" ∷ "recovered_size" ∷ []) r
    && (is_true (get_or_null "applicable" r)
        && (is_true (get_or_null "degraded" r)
            && (is_false (get_or_null "changed" r)
                && (is_error upx_errors (get_or_null "error_code" r) (get_or_null "error" r)
                    && (absent_or is_id (get_field "source_artifact_id" r)
                        && (absent_or is_nonnegative_int (get_field "source_size" r)
                            && absent_or is_nonnegative_int (get_field "recovered_size" r)))))))

abbrev pub same_truth : Bool → Bool → Bool
same_truth true b = b
same_truth false b = not b

abbrev pub is_applied_upx : Fields → Bool
is_applied_upx r =
    has_exactly
      (base_keys
        ++ ("source_artifact_id" ∷ "recovered_artifact_id" ∷ "source_size" ∷ "recovered_size" ∷ []))
      r
    && (is_false (get_or_null "degraded" r)
        && (is_id (get_or_null "source_artifact_id" r)
            && (is_id (get_or_null "recovered_artifact_id" r)
                && (is_nonnegative_int (get_or_null "source_size" r)
                    && (is_nonnegative_int (get_or_null "recovered_size" r)
                        && same_truth (is_true (get_or_null "changed" r)) (
                            ids_differ (get_or_null "source_artifact_id" r)
                              (get_or_null "recovered_artifact_id" r)))))))

abbrev pub is_skipped_upx : Fields → Bool
is_skipped_upx r =
    is_false (get_or_null "degraded" r)
    && (is_false (get_or_null "changed" r)
        && ((if is_one_of ("input_too_large" ∷ "not_packed" ∷ []) (get_or_null "reason" r)
              then has_exactly (base_keys ++ ("reason" ∷ "source_artifact_id" ∷ "source_size" ∷ []))
                  r
              else is_text "plan_disabled" (get_or_null "reason" r)
                && has_exactly (base_keys ++ ("reason" ∷ "source_artifact_id" ∷ [])) r)
            && (is_id (get_or_null "source_artifact_id" r)
                && absent_or is_nonnegative_int (get_field "source_size" r))))

unfoldable pub is_valid_upx : Fields → Bool
is_valid_upx r =
    is_bool (get_or_null "success" r)
    && (is_bool (get_or_null "applicable" r)
        && (is_bool (get_or_null "degraded" r)
            && (is_bool (get_or_null "changed" r)
                && (is_text upx_version (get_or_null "tool_version" r)
                    && (if is_false (get_or_null "success" r)
                        then is_failed_upx r
                        else if is_true (get_or_null "applicable" r)
                        then is_applied_upx r
                        else is_skipped_upx r)))))
