-- ===== src/Evidence/CleanText.antt =====
-- `_clean` of src/reverse_engineering/execution_flow.py and verdict.py, which differ in the characters
-- they take for unsafe and in the bound.
pub mod Safe
use Prim.Native.Char.{code}
use Prim.Native.String.{String, [], ◌∷◌}
use arema.Prelude.{
  ℕ, Bool, true, false, not, ◌&&◌, ◌||◌, Option, none, some, leb, eqb, is_space, strip, take_text,
  text_length, if◌then◌else◌,
}
use arema.Prelude.Json.{Json, str, as_str}

-- isascii() and isprintable()
abbrev pub is_printable : ℕ → Bool
is_printable n = leb 32 n && leb n 126

-- `{`, `}` and the backtick
abbrev pub unsafe_in_rationale : ℕ → Bool
unsafe_in_rationale n = eqb n 123 || (eqb n 125 || eqb n 96)

-- These, `"`, `<`, `>`, `|` and the backslash
abbrev pub unsafe_in_label : ℕ → Bool
unsafe_in_label n =
    eqb n 123
    || (eqb n 125
        || (eqb n 96 || (eqb n 34 || (eqb n 60 || (eqb n 62 || (eqb n 124 || eqb n 92))))))

-- re.sub(r"\s+", " ", s), after a white space or not
unfoldable pub collapse : Bool → String → String
collapse after [] = []
collapse after (c ∷ s) =
    let skipped = collapse true s in
    let kept = collapse false s in
    if is_space (code c) then (if after then skipped else " " ∷ skipped) else c ∷ kept

module _ (unsafe : ℕ → Bool) where
  abbrev pub is_kept : ℕ → Bool
  is_kept n = is_printable n && not (unsafe n)

  -- The unsafe and the unprintable characters become blanks.
  unfoldable pub blank_out : String → String
  blank_out [] = []
  blank_out (c ∷ s) = let rest = blank_out s in if is_kept (code c) then c ∷ rest else " " ∷ rest

  unfoldable pub clean_text : ℕ → String → String
  clean_text max_chars s = strip (take_text max_chars (strip (collapse false (blank_out s))))

  -- What is not a text is empty.
  abbrev pub clean : ℕ → Json → String
  clean max_chars value = of_text (as_str value)
    where
      of_text : Option String → String
      of_text none = ""
      of_text (some s) = clean_text max_chars s
