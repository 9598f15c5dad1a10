-- ===== src/Recovery/Floss/Cacheable.antt =====
-- What src/reverse_engineering/tools/deobfuscation/floss.py makes of FLOSS output passes its own cache validation.
use arema.Prelude.{
  ℕ, ◌+◌, ◌≤◌, min, String, Bool, true, false, ◌≡◌, refl, subst, arith, Option, some, List, [], ◌∷◌,
  leb, ltb, eqb, length, keep, map,
}
use arema.Prelude.Json.{Json, bool, Fields, as_obj, get_field}
use arema.Recovery.ModelJson.{◌>>=◌, Given, bind-Given}
use arema.Evidence.Envelope.Parsed.{after-Given}
use arema.Recovery.Cached.Floss.{is_of_kind, max_strings, count_distinct, same_flag, is_valid_floss}
use arema.Recovery.Plan.{is_artifact_id}
use arema.Evidence.Envelope.RoundTrip.{items_list-list_items}
use arema.Recovery.Floss.{
  StringKind, decoded, stack, tight, kind_name, add_group, FlossStrings, grand_total,
  require_object, require_list, validate_metadata, normalize_groups, normalize_result,
  strings_result,
}
use arema.Recovery.Floss.Counted.{amount, Counted, add_group-Counted}

-- Totals by kind.
abbrev pub totals : ℕ → ℕ → ℕ → StringKind → ℕ
totals d s t decoded = d
totals d s t stack = s
totals d s t tight = t

-- What a normalization that succeeds has counted.
abbrev pub AllCounted : FlossStrings → Type 0
AllCounted s =
    Counted (totals s.decoded_total s.stack_total s.tight_total) (grand_total s) s.records

normalize_groups-AllCounted : (ds ss ts : List Json) → Given AllCounted (normalize_groups ds ss ts)
normalize_groups-AllCounted ds ss ts =
    bind-Given (Counted (totals d 0 0) (0 + d)) AllCounted (add_group decoded ds []) of_first
      (add_group-Counted decoded ds (totals 0 0 0) (totals d 0 0) 0 [] first_room
        (refl, omega arith, λ k. omega arith))
      (λ first c₁.
        bind-Given (Counted (totals d s 0) ((0 + d) + s)) AllCounted (add_group stack ss first)
          of_second
          (add_group-Counted stack ss (totals d 0 0) (totals d s 0) (0 + d) first second_room c₁)
          (λ second c₂.
            bind-Given (Counted (totals d s t) (((0 + d) + s) + t)) AllCounted
              (add_group tight ts second) of_third
              (add_group-Counted tight ts (totals d s 0) (totals d s t) ((0 + d) + s) second
                third_room c₂)
              (λ third c₃. all third c₃)))
  where
    d : ℕ
    d = length ds

    s : ℕ
    s = length ss

    t : ℕ
    t = length ts

    strings : List Json → FlossStrings
    strings third = record { records = third; decoded_total = d; stack_total = s; tight_total = t }

    of_third : List Json → Option FlossStrings
    of_third third = some (strings third)

    of_second : List Json → Option FlossStrings
    of_second second = add_group tight ts second >>= of_third

    of_first : List Json → Option FlossStrings
    of_first first = add_group stack ss first >>= of_second

    first_room : (k : StringKind) → totals 0 0 0 k + amount decoded k d ≤ totals d 0 0 k
    first_room decoded = omega arith
    first_room stack = omega arith
    first_room tight = omega arith

    second_room : (k : StringKind) → totals d 0 0 k + amount stack k s ≤ totals d s 0 k
    second_room decoded = omega arith
    second_room stack = omega arith
    second_room tight = omega arith

    third_room : (k : StringKind) → totals d s 0 k + amount tight k t ≤ totals d s t k
    third_room decoded = omega arith
    third_room stack = omega arith
    third_room tight = omega arith

    all :
        (third : List Json)
        → Counted (totals d s t) (((0 + d) + s) + t) third
        → AllCounted (strings third)
    all third (valid, len, counts) = (valid, omega (arith, len), counts)

normalize_result-AllCounted : (v : Json) → Given AllCounted (normalize_result v)
unfolding normalize_result
normalize_result-AllCounted v = after-Given AllCounted (as_obj v) of_payload (λ p.
    after-Given AllCounted (require_object p "metadata") (of_metadata p) (λ m.
      after-Given AllCounted (validate_metadata m) (of_valid p) (λ u.
        after-Given AllCounted (require_object p "analysis") (of_analysis p) (λ a.
          after-Given AllCounted (require_object p "strings") of_strings (λ r.
            after-Given AllCounted (require_list r "decoded_strings") (of_decoded r) (λ ds.
              after-Given AllCounted (require_list r "stack_strings") (of_stack r ds) (λ ss.
                after-Given AllCounted (require_list r "tight_strings") (normalize_groups ds ss)
                  (normalize_groups-AllCounted ds ss))))))))
  where
    of_stack : Fields → List Json → List Json → Option FlossStrings
    of_stack r ds ss = require_list r "tight_strings" >>= normalize_groups ds ss

    of_decoded : Fields → List Json → Option FlossStrings
    of_decoded r ds = require_list r "stack_strings" >>= of_stack r ds

    of_strings : Fields → Option FlossStrings
    of_strings r = require_list r "decoded_strings" >>= of_decoded r

    of_analysis : Fields → Fields → Option FlossStrings
    of_analysis p a = require_object p "strings" >>= of_strings

    of_valid : Fields → Unit {0} → Option FlossStrings
    of_valid p u = require_object p "analysis" >>= of_analysis p

    of_metadata : Fields → Fields → Option FlossStrings
    of_metadata p m = validate_metadata m >>= of_valid p

    of_payload : Fields → Option FlossStrings
    of_payload p = require_object p "metadata" >>= of_metadata p

count_distinct-≤ : (xs : List String) → count_distinct xs ≤ length xs
count_distinct-≤ [] = omega arith
count_distinct-≤ (x ∷ xs) = ground (arith, count_distinct-≤ xs)

length-map : (f : Json → String) (vs : List Json) → length (map f vs) ≡ length vs
length-map f [] = refl
length-map f (v ∷ vs) = omega (arith, length-map f vs)

same_flag-bool : (b : Bool) → same_flag b (bool b) ≡ true
same_flag-bool true = refl
same_flag-bool false = refl

-- The result of a run whose output is normalized is one that the cache validation takes, for a canonical
-- artifact, when the new strings that it reports are no more than the distinct ones.
pub strings_result-IsCacheable :
    (fingerprint : Json → String) (output : Json) (s : FlossStrings) (artifact_id : String)
    (source_size new_count : ℕ)
    → normalize_result output ≡ some s
    → is_artifact_id artifact_id ≡ true
    → new_count ≤ count_distinct (map fingerprint s.records)
    → is_valid_floss fingerprint (strings_result artifact_id source_size new_count s) ≡ true
unfolding is_valid_floss get_field
strings_result-IsCacheable fingerprint output s artifact_id source_size new_count e c new =
    by_counts (subst (Given AllCounted) e (normalize_result-AllCounted output))
  where
    by_counts :
        AllCounted s
        → is_valid_floss fingerprint (strings_result artifact_id source_size new_count s) ≡ true
    by_counts (valid, len, counts) =
        rw
          (
            items_list-list_items s.records,
            few,
            valid,
            within,
            c,
            counts_ok decoded,
            counts_ok stack,
            counts_ok tight,
            exact,
            distinct,
            same_flag-bool (ltb max_strings (grand_total s)),
          )
          refl
      where
        few : leb (length s.records) max_strings ≡ true
        few = ground (arith, len)

        within : leb new_count (length s.records) ≡ true
        within = ground (
          arith,
          new,
          count_distinct-≤ (map fingerprint s.records),
          length-map fingerprint s.records,
        )

        counts_ok :
            (k : StringKind)
            → leb
                (length (keep (is_of_kind (kind_name k)) s.records))
                (totals s.decoded_total s.stack_total s.tight_total k)
              ≡ true
        counts_ok k = ground (arith, counts k)

        exact : eqb (length s.records) (min (grand_total s) max_strings) ≡ true
        exact = ground (arith, len)

        distinct : leb new_count (count_distinct (map fingerprint s.records)) ≡ true
        distinct = ground (arith, new)
