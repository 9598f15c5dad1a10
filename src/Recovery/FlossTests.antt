-- ===== src/Recovery/FlossTests.antt =====
-- FLOSS output with one decoded string (src/reverse_engineering/tools/deobfuscation/floss.py).
use arema.Prelude.{true, ◌≡◌, refl, arith, some, [], ◌∷◌, every_char, lstrip, rstrip, is_blank}
use arema.Prelude.Int.{pos}
use arema.Prelude.Json.{Json, int, str, arr, obj, nil, item, end, field, get_field}
use arema.Recovery.Tests.{id_a}
use arema.Recovery.Cached.Floss.{is_valid_floss}
use arema.Recovery.Hex.{hex, hex_digits}
use arema.Recovery.Floss.{
  decoded, public_record, FlossStrings, normalize_result, strings_result, normalized_record,
  add_group,
}
use arema.Recovery.Floss.Cacheable.{strings_result-IsCacheable}

abbrev floss_output : Json
floss_output = obj (
    field "metadata"
      (obj (
        field "file_path" (str "/work/input")
          (field "version" (str "3.1.1") (field "imagebase" (int (pos 4194304)) end))))
      (field "analysis" (obj end) (
        field "strings"
          (obj (
            field "decoded_strings" (arr (item found nil))
              (field "stack_strings" (arr nil) (field "tight_strings" (arr nil) end))))
          end)))
  where
    found : Json
    found = obj (
        field "string" (str "http://c2.test") (
          field "encoding" (str "ASCII") (
            field "address" (int (pos 4096)) (
              field "address_type" (str "HEAP") (
                field "decoding_routine" (int (pos 4198400))
                  (field "decoded_at" (int (pos 4198416)) end))))))

abbrev one_string : FlossStrings
one_string = record {
  records =
      public_record decoded "http://c2.test" "ASCII"
        (record { function = 4198400; location = 4198416 })
      ∷ [];
  decoded_total = 1;
  stack_total = 0;
  tight_total = 0;
}

normalized_output : normalize_result floss_output ≡ some one_string
unfolding normalize_result add_group normalized_record get_field lstrip rstrip is_blank
normalized_output = refl

hex_address : hex 4198400 ≡ "0x401000"
unfolding hex hex_digits
hex_address = refl

strings_result-IsCacheable_example :
    is_valid_floss (λ v. "print") (strings_result id_a 8192 1 one_string) ≡ true
unfolding every_char
strings_result-IsCacheable_example =
    strings_result-IsCacheable (λ v. "print") floss_output one_string id_a 8192 1 normalized_output
      refl (omega arith)
