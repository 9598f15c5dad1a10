-- ===== src/Recovery/Floss.antt =====
-- src/reverse_engineering/tools/deobfuscation/floss.py: the normalization of FLOSS output and the results that the
-- tool gives. A `ValueError` is `none`; what runs in the sandbox is left out.

pub mod Counted
pub mod Cacheable
use arema.Prelude.{
  ℕ, ◌+◌, String, Bool, true, false, not, ◌&&◌, ◌||◌, Option, none, some, List, [], ◌∷◌, ◌==◌,
  append_one, leb, ltb, length, contains, strip, map, if◌then◌else◌,
}
use arema.Prelude.Dict.{lookup}
use arema.Prelude.Int.{ℤ, pos, negsuc}
use arema.Prelude.Json.{
  Json, bool, int, str, arr, obj, Fields, end, field, as_int, as_str, as_obj, get_field,
  get_or_null, items_list, list_items,
}
use arema.Recovery.ModelJson.{◌>>=◌, require}
use arema.Recovery.Hex.{hex}
use arema.Evidence.Envelope.Parse.{as_arr}
use arema.Recovery.Cached.Floss.{floss_version, floss_errors, max_strings}

abbrev pub max_unsigned_64 : ℕ
max_unsigned_64 = 18446744073709551615

abbrev pub max_signed_64 : ℕ
max_signed_64 = 9223372036854775807

-- `_require_object` and `_require_list`
abbrev pub require_object : Fields → String → Option Fields
require_object raw key = as_obj (get_or_null key raw)

abbrev pub require_list : Fields → String → Option (List Json)
require_list raw key = as_arr (get_or_null key raw)

-- `_require_string`, `_require_nonempty_string`, `_require_uint64` and `_require_int64`
abbrev pub require_string : Fields → String → Option String
require_string raw key = as_str (get_or_null key raw)

abbrev pub require_nonempty_string : Fields → String → Option String
require_nonempty_string raw key = require_string raw key >>= nonblank
  where
    nonblank : String → Option String
    nonblank s = if strip s == "" then none else some s

abbrev pub in_uint64 : ℤ → Option ℕ
in_uint64 (pos n) = if leb n max_unsigned_64 then some n else none
in_uint64 (negsuc n) = none

abbrev pub require_uint64 : Fields → String → Option ℕ
require_uint64 raw key = as_int (get_or_null key raw) >>= in_uint64

-- The smallest one is -(n + 1) with the greatest n.
abbrev pub in_int64 : ℤ → Option ℤ
in_int64 (pos n) = if leb n max_signed_64 then some (pos n) else none
in_int64 (negsuc n) = if leb n max_signed_64 then some (negsuc n) else none

abbrev pub require_int64 : Fields → String → Option ℤ
require_int64 raw key = as_int (get_or_null key raw) >>= in_int64

-- `_validate_metadata`
abbrev pub validate_metadata : Fields → Option (Unit {0})
validate_metadata metadata = do
  _ ← require_nonempty_string metadata "file_path"
  version ← require_string metadata "version"
  _ ← require (version == floss_version)
  _ ← require_uint64 metadata "imagebase"
  some tt

pub data StringKind : Type 0 where
  decoded stack tight : StringKind

abbrev pub kind_name : StringKind → String
kind_name decoded = "decoded"
kind_name stack = "stack"
kind_name tight = "tight"

-- Where a string is: its function and its location.
pub record Place : Type 0 where
  pub function : ℕ
  pub location : ℕ

abbrev pub caller_place : Fields → Option Place
caller_place r = do
  function ← require_uint64 r "function"
  location ← require_uint64 r "program_counter"
  some (record { function = function; location = location })

abbrev pub address_types : List String
address_types = "STACK" ∷ "GLOBAL" ∷ "HEAP" ∷ []

abbrev pub optional_int64 : Fields → String → Option (Unit {0})
optional_int64 r key = elim (get_field key r) [
  | none ↦ some tt
  | some v ↦ require_int64 r key >>= (λ n. some tt)
]

-- What `_validate_record` asks of a record of a kind.
abbrev pub place_of : StringKind → Fields → Option Place
place_of decoded r = do
  _ ← require_uint64 r "address"
  address_type ← require_string r "address_type"
  _ ← require (contains address_types address_type)
  function ← require_uint64 r "decoding_routine"
  location ← require_uint64 r "decoded_at"
  some (record { function = function; location = location })
place_of stack r = do
  place ← caller_place r
  _ ← require_uint64 r "stack_pointer"
  _ ← require_uint64 r "original_stack_pointer"
  _ ← require_uint64 r "offset"
  _ ← require_int64 r "frame_offset"
  some place
place_of tight r = do place ← caller_place r; _ ← optional_int64 r "frame_offset"; some place

-- `_public_record`
abbrev pub public_record : StringKind → String → String → Place → Json
public_record kind text encoding place = obj (
    field "type" (str (kind_name kind)) (
      field "string" (str text) (
        field "encoding" (str encoding) (
          field "function" (str (hex place.function))
            (field "location" (str (hex place.location)) end)))))

-- `_validate_record`, and the public record of what it returns
unfoldable pub normalized_record : StringKind → Json → Option Json
normalized_record kind v = do
  r ← as_obj v
  text ← require_nonempty_string r "string"
  encoding ← require_nonempty_string r "encoding"
  place ← place_of kind r
  some (public_record kind text encoding place)

-- The loop over the records of a kind, after the records before: all are validated, and the first 200 kept.
unfoldable pub add_group : StringKind → List Json → List Json → Option (List Json)
add_group kind [] records = some records
add_group kind (v ∷ vs) records = normalized_record kind v >>= (λ r.
    add_group kind vs (if ltb (length records) max_strings then append_one records r else records))

-- The records, and how many of each kind there were.
pub record FlossStrings : Type 0 where
  pub records : List Json
  pub decoded_total : ℕ
  pub stack_total : ℕ
  pub tight_total : ℕ

abbrev pub grand_total : FlossStrings → ℕ
grand_total s = s.decoded_total + (s.stack_total + s.tight_total)

-- The three groups, in order.
abbrev pub normalize_groups : List Json → List Json → List Json → Option FlossStrings
normalize_groups raw_decoded raw_stack raw_tight = do
  first ← add_group decoded raw_decoded []
  second ← add_group stack raw_stack first
  third ← add_group tight raw_tight second
  some (record {
    records = third;
    decoded_total = length raw_decoded;
    stack_total = length raw_stack;
    tight_total = length raw_tight;
  })

unfoldable pub normalize_result : Json → Option FlossStrings
normalize_result v = do
  payload ← as_obj v
  metadata ← require_object payload "metadata"
  _ ← validate_metadata metadata
  _ ← require_object payload "analysis"
  strings ← require_object payload "strings"
  raw_decoded ← require_list strings "decoded_strings"
  raw_stack ← require_list strings "stack_strings"
  raw_tight ← require_list strings "tight_strings"
  normalize_groups raw_decoded raw_stack raw_tight

abbrev pub counts_json : ℕ → ℕ → ℕ → Json
counts_json d s t =
    obj (
      field "decoded" (int (pos d)) (field "stack" (int (pos s)) (field "tight" (int (pos t)) end)))

-- The result of a run that succeeds.
abbrev pub strings_result : String → ℕ → ℕ → FlossStrings → Fields
strings_result artifact_id source_size new_count s = field "success" (bool true) (
    field "applicable" (bool true) (
      field "degraded" (bool false) (
        field "source_artifact_id" (str artifact_id) (
          field "source_size" (int (pos source_size)) (
            field "format" (str "pe") (
              field "tool_version" (str floss_version) (
                field "new_count" (int (pos new_count)) (
                  field "counts" (counts_json s.decoded_total s.stack_total s.tight_total) (
                    field "records" (arr (list_items s.records))
                      (field "truncated" (bool (ltb max_strings (grand_total s))) end))))))))))
