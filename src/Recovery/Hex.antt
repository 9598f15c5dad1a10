-- ===== src/Recovery/Hex.antt =====
-- Hexadecimal addresses, as src/reverse_engineering/agents/deobf_gate.py reads them and
-- src/reverse_engineering/tools/deobfuscation/floss.py writes them.
use Prim.Native.Char.{code}
use Prim.Native.String.{String, [], ◌∷◌, ◌++◌}
use text.Mathlib.TextLemmas.{length-append}
use arema.Prelude.{
  ◌≡◌, ap, false, inl, inr, arith, Bool-cases, ◌==◌, eq_iff, text_length, ℕ, zero, suc, ◌+◌, ◌*◌,
  ◌-◌, ◌/◌, ◌%◌, ◌&&◌, Option, none, some, leb, ltb, eqb, if◌then◌else◌,
}

-- The value of a hexadecimal digit.
abbrev pub digit_value : ℕ → Option ℕ
digit_value n =
    if leb 48 n && leb n 57
    then some (n - 48)
    else if leb 97 n && leb n 102
    then some (n - 87)
    else if leb 65 n && leb n 70
    then some (n - 55)
    else none

-- The value of hexadecimal digits that follow a number.
unfoldable pub hex_after : ℕ → String → Option ℕ
hex_after n [] = some n
hex_after n (c ∷ s) = elim (digit_value (code c)) [
  | none ↦ none
  | some d ↦ hex_after (n * 16 + d) s
]

-- `int(address, 16)` of a text that `_HEX_ADDRESS_PATTERN` matches
unfoldable pub hex_value : String → Option ℕ
hex_value (z ∷ (x ∷ (c ∷ s))) =
    if eqb (code z) 48 && eqb (code x) 120 then hex_after 0 (c ∷ s) else none
hex_value s = none

-- A digit's code.
abbrev digit_text : ℕ → String
digit_text d =
    if eqb d 0
    then "0"
    else if eqb d 1
    then "1"
    else if eqb d 2
    then "2"
    else if eqb d 3
    then "3"
    else if eqb d 4
    then "4"
    else if eqb d 5
    then "5"
    else if eqb d 6
    then "6"
    else if eqb d 7
    then "7"
    else if eqb d 8
    then "8"
    else if eqb d 9
    then "9"
    else if eqb d 10
    then "a"
    else if eqb d 11
    then "b"
    else if eqb d 12
    then "c"
    else if eqb d 13
    then "d"
    else if eqb d 14
    then "e"
    else "f"

-- The last digits of a number, so many at most, before a text. Sixteen are enough for 64 bits.
unfoldable pub hex_digits : ℕ → ℕ → String → String
hex_digits zero n rest = rest
hex_digits (suc digits) n rest =
    let more = hex_digits digits (n / 16) (digit_text (n % 16) ++ rest) in
    if ltb n 16 then digit_text n ++ rest else more

-- f"0x{n:x}" of a 64-bit number
unfoldable pub hex : ℕ → String
hex n = "0x" ++ hex_digits 16 n ""

-- A hexadecimal number is not empty.
pub hex-nonempty : (n : ℕ) → (hex n == "") ≡ false
unfolding hex
hex-nonempty n = elim (Bool-cases (hex n == "")) [
  | inl q ↦ absurd (no (ap text_length ((eq_iff (hex n) "").0 q)))
  | inr q ↦ q
]
  where
    no : text_length ("0x" ++ hex_digits 16 n "") ≡ text_length "" → ⊥
    no e = omega (arith, e, length-append "0x" (hex_digits 16 n ""))
