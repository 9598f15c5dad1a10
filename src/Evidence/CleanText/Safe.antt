-- ===== src/Evidence/CleanText/Safe.antt =====
-- What `_clean` (src/reverse_engineering/execution_flow.py and verdict.py) lets through.
use Prim.Native.Char.{code}
use Prim.Native.String.{String, [], ◌∷◌}
use text.Mathlib.TextLemmas.{length-nil, length-cons}
use arema.Prelude.{
  ℕ, zero, suc, ◌≤◌, Bool, true, false, ◌≡◌, refl, inl, inr, arith, Bool-cases, is_blank, strip,
  lstrip, rstrip, take_text, text_length, every_char,
}
use arema.Evidence.CleanText.{is_kept, blank_out, collapse, clean_text}

module _ (p : ℕ → Bool) where
  every_char-lstrip : (s : String) → every_char p s ≡ true → every_char p (lstrip s) ≡ true
  unfolding every_char lstrip
  every_char-lstrip [] h = h
  every_char-lstrip (c ∷ s) h = ground (arith, every_char-lstrip s)

  every_char-rstrip : (s : String) → every_char p s ≡ true → every_char p (rstrip s) ≡ true
  unfolding every_char rstrip
  every_char-rstrip [] h = h
  every_char-rstrip (c ∷ s) h = elim (Bool-cases (is_blank (c ∷ s))) [
    | inl q ↦ rw q refl
    | inr q ↦ rw q (ground (arith, every_char-rstrip s))
  ]

  every_char-take_text :
      (n : ℕ) (s : String) → every_char p s ≡ true → every_char p (take_text n s) ≡ true
  unfolding every_char take_text
  every_char-take_text zero s h = refl
  every_char-take_text (suc n) [] h = refl
  every_char-take_text (suc n) (c ∷ s) h = ground (arith, every_char-take_text n s)

  every_char-collapse :
      (after : Bool) (s : String)
      → p 32 ≡ true
      → every_char p s ≡ true
      → every_char p (collapse after s) ≡ true
  unfolding every_char collapse
  every_char-collapse after [] b h = refl
  every_char-collapse after (c ∷ s) b h =
      ground (arith, every_char-collapse true s b, every_char-collapse false s b)

  every_char-strip : (s : String) → every_char p s ≡ true → every_char p (strip s) ≡ true
  every_char-strip s h = every_char-lstrip (rstrip s) (every_char-rstrip s h)

length-lstrip : (s : String) → text_length (lstrip s) ≤ text_length s
unfolding lstrip
length-lstrip [] = omega arith
length-lstrip (c ∷ s) = ground (arith, length-lstrip s, length-cons c s)

length-rstrip : (s : String) → text_length (rstrip s) ≤ text_length s
unfolding rstrip
length-rstrip [] = omega arith
length-rstrip (c ∷ s) = elim (Bool-cases (is_blank (c ∷ s))) [
  | inl q ↦ rw q (omega (arith, length-nil))
  | inr q ↦ rw q (omega (arith, length-rstrip s, length-cons c s, length-cons c (rstrip s)))
]

length-take_text : (n : ℕ) (s : String) → text_length (take_text n s) ≤ n
unfolding take_text
length-take_text zero s = omega (arith, length-nil)
length-take_text (suc n) [] = omega (arith, length-nil)
length-take_text (suc n) (c ∷ s) =
    omega (arith, length-take_text n s, length-cons c (take_text n s))

module _ (unsafe : ℕ → Bool) where
  every_char-blank_out :
      (s : String) → unsafe 32 ≡ false → every_char (is_kept unsafe) (blank_out unsafe s) ≡ true
  unfolding every_char blank_out
  every_char-blank_out [] h = refl
  every_char-blank_out (c ∷ s) h = elim (Bool-cases (is_kept unsafe (code c))) [
    | inl q ↦ rw (q, q) (every_char-blank_out s h)
    | inr q ↦ rw (q, h) (every_char-blank_out s h)
  ]

  -- A cleaned text is no longer than the bound, and has only printable ASCII characters that are not
  -- unsafe, when the blank is not.
  pub clean_text-safe :
      (max_chars : ℕ) (s : String)
      → unsafe 32 ≡ false
      → (text_length (clean_text unsafe max_chars s) ≤ max_chars)
        × (every_char (is_kept unsafe) (clean_text unsafe max_chars s) ≡ true)
  unfolding clean_text
  clean_text-safe max_chars s h =
      let spaced = strip (collapse false (blank_out unsafe s)) in
      (
        omega (
          arith,
          length-lstrip (rstrip (take_text max_chars spaced)),
          length-rstrip (take_text max_chars spaced),
          length-take_text max_chars spaced,
        ),
        every_char-strip (is_kept unsafe) _ (
            every_char-take_text (is_kept unsafe) max_chars spaced (
              every_char-strip (is_kept unsafe) _
                (every_char-collapse (is_kept unsafe) false _ blank (every_char-blank_out s h)))),
      )
    where
      blank : is_kept unsafe 32 ≡ true
      blank = rw h refl
