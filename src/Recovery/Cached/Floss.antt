-- ===== src/Recovery/Cached/Floss.antt =====
-- `_valid_cached_result` of src/reverse_engineering/tools/deobfuscation/floss.py.
use arema.Prelude.{
  ℕ, ◌+◌, min, String, Bool, true, false, ◌&&◌, Option, none, some, List, [], ◌∷◌, ◌++◌, leb, ltb,
  eqb, length, keep, every, contains, map, if◌then◌else◌,
}
use arema.Prelude.Json.{
  Json, obj, arr, Fields, get_field, get_or_null, has_exactly, items_list, as_nat,
}
use arema.Recovery.Cached.{
  is_true, is_false, is_bool, is_id, is_nonempty_string, is_nonnegative_int, is_text, is_one_of,
  absent_or, has_between, is_error,
}

abbrev pub floss_version : String
floss_version = "3.1.1"

abbrev pub max_strings : ℕ
max_strings = 200

abbrev pub floss_errors : List (String × String)
floss_errors =
    ("invalid_classification", "The deobfuscation classification is invalid.")
    ∷ ("artifact_unavailable", "The artifact is unavailable.")
    ∷ ("sandbox_unavailable", "The deobfuscation sandbox is unavailable.")
    ∷ ("result_invalid", "The FLOSS result is invalid.")
    ∷ ("floss_failed", "FLOSS could not recover strings from the artifact.")
    ∷ ("invalid_seen_state", "The FLOSS progress state is invalid.")
    ∷ ("seen_state_overflow", "The FLOSS progress state exceeded its safe bound.")
    ∷ []

abbrev pub common_keys : List String
common_keys =
    "success" ∷ "applicable" ∷ "degraded" ∷ "format" ∷ "tool_version" ∷ "new_count" ∷ "counts"
    ∷ "records" ∷ "truncated" ∷ []

abbrev pub string_kinds : List String
string_kinds = "decoded" ∷ "stack" ∷ "tight" ∷ []

-- `_valid_public_record`
abbrev pub is_valid_public_record : Json → Bool
is_valid_public_record (obj r) =
    has_exactly ("type" ∷ "string" ∷ "encoding" ∷ "function" ∷ "location" ∷ []) r
    && (is_one_of string_kinds (get_or_null "type" r)
        && (is_nonempty_string (get_or_null "string" r)
            && (is_nonempty_string (get_or_null "encoding" r)
                && (is_nonempty_string (get_or_null "function" r)
                    && is_nonempty_string (get_or_null "location" r)))))
is_valid_public_record v = false

-- A number of a validated result.
abbrev pub number_at : String → Fields → ℕ
number_at k fields = or_zero (as_nat (get_or_null k fields))
  where
    or_zero : Option ℕ → ℕ
    or_zero none = 0
    or_zero (some n) = n

abbrev pub records_at : Fields → List Json
records_at r = records (get_or_null "records" r)
  where
    records : Json → List Json
    records (arr items) = items_list items
    records v = []

abbrev pub counts_at : Fields → Fields
counts_at r = counts (get_or_null "counts" r)
  where
    counts : Json → Fields
    counts (obj fields) = fields
    counts v = Fields.end

abbrev pub are_valid_counts : Json → Bool
are_valid_counts (obj counts) =
    has_exactly string_kinds counts
    && (is_nonnegative_int (get_or_null "decoded" counts)
        && (is_nonnegative_int (get_or_null "stack" counts)
            && is_nonnegative_int (get_or_null "tight" counts)))
are_valid_counts v = false

abbrev pub are_valid_records : Json → Bool
are_valid_records (arr items) =
    leb (length (items_list items)) max_strings && every is_valid_public_record (items_list items)
are_valid_records v = false

abbrev pub total_count : Fields → ℕ
total_count counts =
    number_at "decoded" counts + (number_at "stack" counts + number_at "tight" counts)

-- counts == _COUNTS_EMPTY, of valid counts
abbrev pub are_zero_counts : Fields → Bool
are_zero_counts counts =
    eqb (number_at "decoded" counts) 0
    && (eqb (number_at "stack" counts) 0 && eqb (number_at "tight" counts) 0)

-- No strings, no counts, not truncated.
abbrev pub is_empty_result : Fields → Bool
is_empty_result r =
    eqb (number_at "new_count" r) 0
    && (eqb (length (records_at r)) 0
        && (are_zero_counts (counts_at r) && is_false (get_or_null "truncated" r)))

abbrev pub is_of_kind : String → Json → Bool
is_of_kind kind (obj r) = is_text kind (get_or_null "type" r)
is_of_kind kind v = false

abbrev pub counted : String → Fields → Bool
counted kind r = leb (length (keep (is_of_kind kind) (records_at r))) (number_at kind (counts_at r))

abbrev pub is_failed_floss : Fields → Bool
is_failed_floss r =
    has_between (common_keys ++ ("error_code" ∷ "error" ∷ []))
      ("source_artifact_id" ∷ "source_size" ∷ []) r
    && (is_true (get_or_null "applicable" r)
        && (is_true (get_or_null "degraded" r)
            && (is_one_of ("unknown" ∷ "pe" ∷ []) (get_or_null "format" r)
                && (is_error floss_errors (get_or_null "error_code" r) (get_or_null "error" r)
                    && (is_empty_result r
                        && (absent_or is_id (get_field "source_artifact_id" r)
                            && absent_or is_nonnegative_int (get_field "source_size" r)))))))

-- The formats and the further keys that a reason asks for.
abbrev pub skip_formats : Json → Option (List String × List String)
skip_formats reason =
    if is_text "plan_disabled" reason
    then some ("unknown" ∷ [], [])
    else if is_text "input_too_large" reason
    then some ("unknown" ∷ "pe" ∷ [], "source_size" ∷ [])
    else if is_text "not_pe" reason
    then some ("unsupported" ∷ [], "source_size" ∷ [])
    else none

abbrev pub is_skip_of : Option (List String × List String) → Fields → Bool
is_skip_of none r = false
is_skip_of (some (formats, more)) r =
    has_exactly (common_keys ++ ("reason" ∷ "source_artifact_id" ∷ more)) r
    && is_one_of formats (get_or_null "format" r)

abbrev pub is_skipped_floss : Fields → Bool
is_skipped_floss r =
    is_false (get_or_null "degraded" r)
    && (is_skip_of (skip_formats (get_or_null "reason" r)) r
        && (is_id (get_or_null "source_artifact_id" r)
            && (is_empty_result r && absent_or is_nonnegative_int (get_field "source_size" r))))

-- How many texts differ.
abbrev pub count_distinct : List String → ℕ
count_distinct [] = 0
count_distinct (x ∷ xs) = let rest = count_distinct xs in if contains xs x then rest else 1 + rest

abbrev pub same_flag : Bool → Json → Bool
same_flag true v = is_true v
same_flag false v = is_false v

-- `fingerprint` is `_record_fingerprint`, the SHA-256 of a record's JSON.
module _ (fingerprint : Json → String) where
  abbrev pub is_applied_floss : Fields → Bool
  is_applied_floss r =
      has_exactly (common_keys ++ ("source_artifact_id" ∷ "source_size" ∷ [])) r
      && (is_false (get_or_null "degraded" r)
          && (is_text "pe" (get_or_null "format" r)
              && (is_id (get_or_null "source_artifact_id" r)
                  && (is_nonnegative_int (get_or_null "source_size" r)
                      && (every (λ kind. counted kind r) string_kinds
                          && (same_flag (ltb max_strings (total_count (counts_at r)))
                                (get_or_null "truncated" r)
                              && (eqb (length (records_at r))
                                    (min (total_count (counts_at r)) max_strings)
                                  && leb (number_at "new_count" r)
                                      (count_distinct (map fingerprint (records_at r))))))))))

  unfoldable pub is_valid_floss : Fields → Bool
  is_valid_floss r =
      is_bool (get_or_null "success" r)
      && (is_bool (get_or_null "applicable" r)
          && (is_bool (get_or_null "degraded" r)
              && (is_text floss_version (get_or_null "tool_version" r)
                  && (is_nonnegative_int (get_or_null "new_count" r)
                      && (is_bool (get_or_null "truncated" r)
                          && (are_valid_counts (get_or_null "counts" r)
                              && (are_valid_records (get_or_null "records" r)
                                  && (leb (number_at "new_count" r) (length (records_at r))
                                      && (if is_false (get_or_null "success" r)
                                          then is_failed_floss r
                                          else if is_true (get_or_null "applicable" r)
                                          then is_applied_floss r
                                          else is_skipped_floss r)))))))))
