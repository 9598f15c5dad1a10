-- ===== src/Recovery/Cached/De4dot.antt =====
-- `_valid_cached_result` of src/reverse_engineering/tools/deobfuscation/dotnet.py.
use arema.Prelude.{
  String, Bool, true, false, ◌&&◌, Option, none, some, List, [], ◌∷◌, ◌++◌, if◌then◌else◌,
}
use arema.Prelude.Json.{Json, Fields, get_field, get_or_null, has_exactly}
use arema.Recovery.Cached.{
  is_true, is_false, is_bool, is_id, is_nonempty_string, is_nonnegative_int, is_text, is_one_of,
  absent_or, has_between, is_error,
}
use arema.Recovery.Cached.Upx.{base_keys, ids_differ}

abbrev pub de4dot_version : String
de4dot_version = "de4dot-cex-4.0.0"

abbrev pub de4dot_errors : List (String × String)
de4dot_errors =
    ("invalid_classification", "The deobfuscation classification is invalid.")
    ∷ ("artifact_unavailable", "The artifact is unavailable.")
    ∷ ("sandbox_unavailable", "The deobfuscation sandbox is unavailable.")
    ∷ ("output_invalid", "The recovered output is not a valid .NET assembly.")
    ∷ ("de4dot_failed", "de4dot could not process the assembly.")
    ∷ []

abbrev pub is_failed_de4dot : Fields → Bool
is_failed_de4dot r =
    has_between (base_keys ++ ("error_code" ∷ "error" ∷ []))
      ("source_artifact_id" ∷ "source_size" ∷ "recovered_size" ∷ []) r
    && (is_true (get_or_null "applicable" r)
        && (is_true (get_or_null "degraded" r)
            && (is_false (get_or_null "changed" r)
                && (is_error de4dot_errors (get_or_null "error_code" r) (get_or_null "error" r)
                    && (absent_or is_id (get_field "source_artifact_id" r)
                        && (absent_or is_nonnegative_int (get_field "source_size" r)
                            && absent_or is_nonnegative_int (get_field "recovered_size" r)))))))

abbrev pub is_applied_de4dot : Fields → Bool
is_applied_de4dot r =
    has_exactly
      (base_keys
        ++ ("source_artifact_id" ∷ "recovered_artifact_id" ∷ "source_size" ∷ "recovered_size"
            ∷ "obfuscator_name" ∷ []))
      r
    && (is_false (get_or_null "degraded" r)
        && (is_true (get_or_null "changed" r)
            && (is_id (get_or_null "source_artifact_id" r)
                && (is_id (get_or_null "recovered_artifact_id" r)
                    && (ids_differ (get_or_null "source_artifact_id" r)
                          (get_or_null "recovered_artifact_id" r)
                        && (is_nonempty_string (get_or_null "obfuscator_name" r)
                            && (is_nonnegative_int (get_or_null "source_size" r)
                                && is_nonnegative_int (get_or_null "recovered_size" r))))))))

-- The keys that a reason asks for.
abbrev pub skipped_keys : Json → Option (List String)
skipped_keys reason =
    if is_one_of ("input_too_large" ∷ "no_obfuscator" ∷ "no_change" ∷ []) reason
    then some ("source_size" ∷ [])
    else if is_text "protector_unsupported" reason
    then some ("source_size" ∷ "protector_name" ∷ [])
    else if is_text "not_dotnet" reason
    then some []
    else none

abbrev pub has_keys_of : Option (List String) → Fields → Bool
has_keys_of none r = false
has_keys_of (some more) r = has_exactly (base_keys ++ ("reason" ∷ "source_artifact_id" ∷ more)) r

abbrev pub is_skipped_de4dot : Fields → Bool
is_skipped_de4dot r =
    is_false (get_or_null "degraded" r)
    && (is_false (get_or_null "changed" r)
        && (has_keys_of (skipped_keys (get_or_null "reason" r)) r
            && (is_id (get_or_null "source_artifact_id" r)
                && ((if is_text "protector_unsupported" (get_or_null "reason" r)
                      then is_nonempty_string (get_or_null "protector_name" r)
                      else true)
                    && absent_or is_nonnegative_int (get_field "source_size" r)))))

unfoldable pub is_valid_de4dot : Fields → Bool
is_valid_de4dot r =
    is_bool (get_or_null "success" r)
    && (is_bool (get_or_null "applicable" r)
        && (is_bool (get_or_null "degraded" r)
            && (is_bool (get_or_null "changed" r)
                && (is_text de4dot_version (get_or_null "tool_version" r)
                    && (if is_false (get_or_null "success" r)
                        then is_failed_de4dot r
                        else if is_true (get_or_null "applicable" r)
                        then is_applied_de4dot r
                        else is_skipped_de4dot r)))))
