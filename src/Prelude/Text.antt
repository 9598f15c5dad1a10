-- ===== src/Prelude/Text.antt =====
-- The order of texts by code points, as Python compares `str` values, and blank texts.
use Prim.Native.Char.{code}
use Prim.Native.Nat.{ℕ, zero, suc, ◌≤◌}
use Prim.Native.String.{String, [], ◌∷◌, count}
use mathlib.Core.Path.{◌≡◌, refl, ap₂, sym, ◌∙◌}
use mathlib.Core.Bool.{Bool, true, false, ◌&&◌, ◌||◌}
use native.Mathlib.Omega.{arith}
use text.Mathlib.Text.{◌==◌}
use text.Mathlib.TextEquality.{Char-path}
use text.Mathlib.TextLemmas.{length-cons}
use text.Mathlib.TextPositions.{eq_refl}
use arema.Prelude.Tests.{ltb, leb, eqb, if◌then◌else◌}

-- s < t
unfoldable pub str_lt : String → String → Bool
str_lt [] [] = false
str_lt [] (d ∷ t) = true
str_lt (c ∷ s) [] = false
str_lt (c ∷ s) (d ∷ t) =
    if ltb (code c) (code d) then true else if eqb (code c) (code d) then str_lt s t else false

pub str_lt_irrefl : (s : String) → str_lt s s ≡ false
unfolding str_lt
str_lt_irrefl [] = refl
str_lt_irrefl (c ∷ s) = ground (arith, str_lt_irrefl s)

pub str_lt_trans : (s t u : String) → str_lt s t ≡ true → str_lt t u ≡ true → str_lt s u ≡ true
unfolding str_lt
str_lt_trans [] [] u h k = ground arith
str_lt_trans [] (d ∷ t) [] h k = ground arith
str_lt_trans [] (d ∷ t) (e ∷ u) h k = refl
str_lt_trans (c ∷ s) [] u h k = ground arith
str_lt_trans (c ∷ s) (d ∷ t) [] h k = ground arith
str_lt_trans (c ∷ s) (d ∷ t) (e ∷ u) h k = ground (arith, str_lt_trans s t u)

-- Two texts of which neither is below the other are one text.
pub str_lt_total : (s t : String) → str_lt s t ≡ false → str_lt t s ≡ false → s ≡ t
unfolding str_lt
str_lt_total [] [] h k = refl
str_lt_total [] (d ∷ t) h k = ground arith
str_lt_total (c ∷ s) [] h k = ground arith
str_lt_total (c ∷ s) (d ∷ t) h k =
    ap₂ (λ x y. x ∷ y) (Char-path c d (ground arith))
      (str_lt_total s t (ground arith) (ground arith))

-- The characters that `str.strip` removes.
abbrev pub is_space : ℕ → Bool
is_space n =
    leb 9 n && leb n 13
    || (leb 28 n && leb n 32
        || (eqb n 133
            || (eqb n 160
                || (eqb n 5760
                    || (leb 8192 n && leb n 8202
                        || (eqb n 8232
                            || (eqb n 8233 || (eqb n 8239 || (eqb n 8287 || eqb n 12288)))))))))

-- `not s.strip()`
unfoldable pub is_blank : String → Bool
is_blank [] = true
is_blank (c ∷ s) = let rest = is_blank s in is_space (code c) && rest

-- len(s)
abbrev pub text_length : String → ℕ
text_length s = count s

-- Every code point passes the test.
unfoldable pub every_char : (ℕ → Bool) → String → Bool
every_char p [] = true
every_char p (c ∷ s) = let rest = every_char p s in p (code c) && rest

-- s.lstrip()
unfoldable pub lstrip : String → String
lstrip [] = []
lstrip (c ∷ s) = let rest = lstrip s in if is_space (code c) then rest else c ∷ s

-- s.rstrip()
unfoldable pub rstrip : String → String
rstrip [] = []
rstrip (c ∷ s) = let rest = rstrip s in if is_blank (c ∷ s) then [] else c ∷ rest

-- s.strip()
abbrev pub strip : String → String
strip s = lstrip (rstrip s)

-- s[:n]
unfoldable pub take_text : ℕ → String → String
take_text zero s = []
take_text (suc n) [] = []
take_text (suc n) (c ∷ s) = c ∷ take_text n s

-- A text that is not empty has a character.
pub text_length-positive : (s : String) → (s == "") ≡ false → 1 ≤ text_length s
text_length-positive [] h = absurd (no (sym h ∙ eq_refl ""))
  where
    no : false ≡ true → ⊥
    no x = cc
text_length-positive (c ∷ s) h = omega (arith, length-cons c s)
