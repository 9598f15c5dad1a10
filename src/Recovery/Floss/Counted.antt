-- ===== src/Recovery/Floss/Counted.antt =====
-- The records that src/reverse_engineering/tools/deobfuscation/floss.py normalizes are valid and counted.
use arema.Prelude.{
  ℕ, suc, ◌+◌, ◌≤◌, min, String, Bool, true, false, ◌≡◌, refl, ap, sym, ◌∙◌, inl, inr, arith,
  Bool-cases, Option, none, some, List, [], ◌∷◌, ◌==◌, eq_iff, append_one, ltb, length, keep, every,
  strip, lstrip, rstrip, if◌then◌else◌,
}
use arema.Prelude.Json.{Json, Fields, as_obj, as_str, get_or_null, get_field}
use arema.Recovery.ModelJson.{◌>>=◌, Given, bind-Given}
use arema.Evidence.Envelope.Parsed.{after-Given}
use arema.Recovery.Cached.Floss.{is_valid_public_record, is_of_kind, max_strings}
use arema.Recovery.Hex.{hex-nonempty}
use arema.Recovery.Floss.{
  StringKind, decoded, stack, tight, kind_name, Place, place_of, public_record,
  require_nonempty_string, normalized_record, add_group,
}

-- A public record of that kind.
abbrev IsRecordOf : StringKind → Json → Type 0
IsRecordOf kind v =
    (is_valid_public_record v ≡ true)
    × ((k : StringKind) → is_of_kind (kind_name k) v ≡ (kind_name kind == kind_name k))

nonblank-Given :
    (r : Fields) (key : String) → Given (λ s. (s == "") ≡ false) (require_nonempty_string r key)
unfolding lstrip rstrip
nonblank-Given r key = by_text (as_str (get_or_null key r))
  where
    blank : false ≡ (strip "" == "") → ⊥
    blank x = cc

    nonempty : (s : String) → (strip s == "") ≡ false → (s == "") ≡ false
    nonempty s h = elim (Bool-cases (s == "")) [
      | inl q ↦ absurd (blank (sym h ∙ ap (λ t. strip t == "") ((eq_iff s "").0 q)))
      | inr q ↦ q
    ]

    by_text :
        (o : Option String)
        → Given (λ s. (s == "") ≡ false) (o >>= (λ s. if strip s == "" then none else some s))
    by_text none = tt
    by_text (some s) = elim (Bool-cases (strip s == "")) [
      | inl q ↦ rw q tt
      | inr q ↦ rw q (nonempty s q)
    ]

public_record-IsRecordOf :
    (kind : StringKind) (text encoding : String) (place : Place)
    → (text == "") ≡ false
    → (encoding == "") ≡ false
    → IsRecordOf kind (public_record kind text encoding place)
unfolding get_field
public_record-IsRecordOf kind text encoding place h k = (valid kind, λ j. refl)
  where
    valid :
        (kind : StringKind) → is_valid_public_record (public_record kind text encoding place) ≡ true
    valid decoded = rw (h, k, hex-nonempty place.function, hex-nonempty place.location) refl
    valid stack = rw (h, k, hex-nonempty place.function, hex-nonempty place.location) refl
    valid tight = rw (h, k, hex-nonempty place.function, hex-nonempty place.location) refl

normalized_record-Given :
    (kind : StringKind) (v : Json) → Given (IsRecordOf kind) (normalized_record kind v)
unfolding normalized_record
normalized_record-Given kind v = after-Given (IsRecordOf kind) (as_obj v) of_fields (λ r.
    bind-Given (λ s. (s == "") ≡ false) (IsRecordOf kind) (require_nonempty_string r "string")
      (of_text r) (nonblank-Given r "string")
      (λ text h.
        bind-Given (λ s. (s == "") ≡ false) (IsRecordOf kind) (require_nonempty_string r "encoding")
          (of_encoding r text) (nonblank-Given r "encoding")
          (λ encoding k.
            after-Given (IsRecordOf kind) (place_of kind r) (of_place text encoding)
              (λ place. public_record-IsRecordOf kind text encoding place h k))))
  where
    of_place : String → String → Place → Option Json
    of_place text encoding place = some (public_record kind text encoding place)

    of_encoding : Fields → String → String → Option Json
    of_encoding r text encoding = place_of kind r >>= of_place text encoding

    of_text : Fields → String → Option Json
    of_text r text = require_nonempty_string r "encoding" >>= of_encoding r text

    of_fields : Fields → Option Json
    of_fields r = require_nonempty_string r "string" >>= of_text r

abbrev one_if : Bool → ℕ
one_if b = if b then 1 else 0

-- So many of a kind.
abbrev pub amount : StringKind → StringKind → ℕ → ℕ
amount kind k m = if kind_name kind == kind_name k then m else 0

amount-suc :
    (kind k : StringKind) (m : ℕ) → amount kind k 1 + amount kind k m ≡ amount kind k (suc m)
amount-suc kind k m = by_test (kind_name kind == kind_name k)
  where
    by_test : (b : Bool) → (if b then 1 else 0) + (if b then m else 0) ≡ (if b then suc m else 0)
    by_test true = omega arith
    by_test false = omega arith

-- Valid records: those that are kept of n, with so many of each kind at most.
abbrev pub Counted : (StringKind → ℕ) → ℕ → List Json → Type 0
Counted c n records =
    (every is_valid_public_record records ≡ true)
    × (length records ≡ min n max_strings)
    × ((k : StringKind) → length (keep (is_of_kind (kind_name k)) records) ≤ c k)

every-append_one :
    (xs : List Json) (x : Json)
    → every is_valid_public_record xs ≡ true
    → is_valid_public_record x ≡ true
    → every is_valid_public_record (append_one xs x) ≡ true
every-append_one [] x h k = rw k refl
every-append_one (y ∷ ys) x h k = ground (arith, every-append_one ys x)

length-append_one : (xs : List Json) (x : Json) → length (append_one xs x) ≡ length xs + 1
length-append_one [] x = omega arith
length-append_one (y ∷ ys) x = omega (arith, length-append_one ys x)

length-keep-append_one :
    (p : Json → Bool) (xs : List Json) (x : Json)
    → length (keep p (append_one xs x)) ≡ length (keep p xs) + (if p x then 1 else 0)
length-keep-append_one p [] x = elim (Bool-cases (p x)) [
  | inl q ↦ rw q (omega arith)
  | inr q ↦ rw q (omega arith)
]
length-keep-append_one p (y ∷ ys) x = elim (Bool-cases (p y)) [
  | inl q ↦ rw q (omega (arith, length-keep-append_one p ys x))
  | inr q ↦ rw q (length-keep-append_one p ys x)
]

grown :
    (l n : ℕ) → ltb l max_strings ≡ true → l ≡ min n max_strings → l + 1 ≡ min (n + 1) max_strings
grown l n q e = ground arith

full : (l n : ℕ) → ltb l max_strings ≡ false → l ≡ min n max_strings → l ≡ min (n + 1) max_strings
full l n q e = ground arith

step-Counted :
    (kind : StringKind) (r : Json) (records : List Json) (c : StringKind → ℕ) (n : ℕ)
    → IsRecordOf kind r
    → Counted c n records
    → Counted
        (λ k. c k + amount kind k 1)
        (n + 1)
        (if ltb (length records) max_strings then append_one records r else records)
step-Counted kind r records c n (valid, kinds) (all_valid, len, counts) =
    elim (Bool-cases (ltb (length records) max_strings)) [
      | inl q ↦ rw q (
        every-append_one records r all_valid valid,
        length-append_one records r ∙ grown (length records) n q len,
        more,
      )
      | inr q ↦ rw q (all_valid, full (length records) n q len, same)
    ]
  where
    more :
        (k : StringKind)
        → length (keep (is_of_kind (kind_name k)) (append_one records r)) ≤ c k + amount kind k 1
    more k = omega (
      arith,
      counts k,
      length-keep-append_one (is_of_kind (kind_name k)) records r,
      ap one_if (kinds k),
    )

    same :
        (k : StringKind) → length (keep (is_of_kind (kind_name k)) records) ≤ c k + amount kind k 1
    same k = omega (arith, counts k)

pub add_group-Counted :
    (kind : StringKind) (vs : List Json) (c c' : StringKind → ℕ) (n : ℕ) (records : List Json)
    → ((k : StringKind) → c k + amount kind k (length vs) ≤ c' k)
    → Counted c n records
    → Given (Counted c' (n + length vs)) (add_group kind vs records)
unfolding add_group
add_group-Counted kind [] c c' n records room (valid, len, counts) =
    (valid, ground (arith, len), λ k. omega (arith, counts k, room k))
add_group-Counted kind (v ∷ vs) c c' n records room counted =
    bind-Given (IsRecordOf kind) (Counted c' (n + suc (length vs))) (normalized_record kind v) next
      (normalized_record-Given kind v)
      (λ r is_record. shifted (next r) (
        add_group-Counted kind vs (λ k. c k + amount kind k 1) c' (n + 1) (kept r) fits
          (step-Counted kind r records c n is_record counted)))
  where
    kept : Json → List Json
    kept r = if ltb (length records) max_strings then append_one records r else records

    next : Json → Option (List Json)
    next r = add_group kind vs (kept r)

    fits : (k : StringKind) → (c k + amount kind k 1) + amount kind k (length vs) ≤ c' k
    fits k = omega (arith, room k, amount-suc kind k (length vs))

    shifted :
        (o : Option (List Json))
        → Given (Counted c' ((n + 1) + length vs)) o
        → Given (Counted c' (n + suc (length vs))) o
    shifted none g = tt
    shifted (some rs) (valid, len, counts) = (valid, omega (arith, len), counts)
