-- ===== src/Workbench/Thrash/Streak.antt =====
-- The streak of src/reverse_engineering/tools/workbench/thrash.py against the runs that made it.
use arema.Prelude.{
  ℕ, suc, String, true, false, not, ◌||◌, ◌≡◌, refl, sym, ◌∙◌, subst, inl, inr, ◌==◌, eq_iff, arith,
  Bool-cases, if◌then◌else◌,
}
use arema.Prelude.Int.{pos}
use arema.Prelude.Dict.{lookup, insert, lookup-insert}
use arema.Prelude.Json.{Json, int, str}
use arema.Workbench.State.{
  State, thrash_signature_key, thrash_repeat_count_key, thrash_artifact_key, current_artifact_key,
}
use arema.Workbench.Budget.Bounds.{one_more}
use arema.Workbench.Thrash.{int_or_zero, str_or_empty, sync_artifact, count_signature}

-- What the three keys of the detector read as.
abbrev pub Reads : State → String → String → ℕ → Type 0
Reads state artifact signature count =
    (str_or_empty (lookup thrash_artifact_key state) ≡ artifact)
    × (str_or_empty (lookup thrash_signature_key state) ≡ signature)
    × (int_or_zero (lookup thrash_repeat_count_key state) ≡ pos count)

insert_count-Reads :
    (state : State) (n m : ℕ) (a s : String)
    → Reads state a s n
    → Reads (insert thrash_repeat_count_key (int (pos m)) state) a s m
insert_count-Reads state n m a s (x, y, z) = (
  rw (lookup-insert thrash_repeat_count_key thrash_artifact_key (int (pos m)) state) x,
  rw (lookup-insert thrash_repeat_count_key thrash_signature_key (int (pos m)) state) y,
  rw (lookup-insert thrash_repeat_count_key thrash_repeat_count_key (int (pos m)) state) refl,
)

insert_signature-Reads :
    (state : State) (n : ℕ) (a s t : String)
    → Reads state a s n
    → Reads (insert thrash_signature_key (str t) state) a t n
insert_signature-Reads state n a s t (x, y, z) = (
  rw (lookup-insert thrash_signature_key thrash_artifact_key (str t) state) x,
  rw (lookup-insert thrash_signature_key thrash_signature_key (str t) state) refl,
  rw (lookup-insert thrash_signature_key thrash_repeat_count_key (str t) state) z,
)

insert_artifact-Reads :
    (state : State) (n : ℕ) (a b s : String)
    → Reads state a s n
    → Reads (insert thrash_artifact_key (str b) state) b s n
insert_artifact-Reads state n a b s (x, y, z) = (
  rw (lookup-insert thrash_artifact_key thrash_artifact_key (str b) state) refl,
  rw (lookup-insert thrash_artifact_key thrash_signature_key (str b) state) y,
  rw (lookup-insert thrash_artifact_key thrash_repeat_count_key (str b) state) z,
)

pub sync_artifact-Reads :
    (state : State) (n : ℕ) (a s c : String)
    → Reads state a s n
    → str_or_empty (lookup current_artifact_key state) ≡ c
    → Reads (sync_artifact state) c (if c == a then s else "") (if c == a then n else 0)
unfolding sync_artifact
sync_artifact-Reads state n a s c h e = elim (Bool-cases (c == a)) [
  | inl q ↦ rw (e, h.0, q) (subst (λ b. Reads state b s n) (sym ((eq_iff c a).0 q)) h)
  | inr q ↦
      rw (e, h.0, q)
        (insert_count-Reads _ n 0 c ""
          (insert_signature-Reads _ n c s "" (insert_artifact-Reads state n a c s h)))
]

pub count_signature-Reads :
    (state : State) (n : ℕ) (a s g : String)
    → Reads state a s n
    → Reads (count_signature g state) a g (if g == "" then 0 else if g == s then suc n else 1)
unfolding count_signature
count_signature-Reads state n a s g h = elim (Bool-cases (g == "")) [
  | inl q ↦ rw q (
      subst
        (λ t.
          Reads
            (insert thrash_repeat_count_key (int (pos 0))
              (insert thrash_signature_key (str "") state))
            a t 0)
        (sym ((eq_iff g "").0 q))
        (insert_count-Reads _ n 0 a "" (insert_signature-Reads state n a s "" h)))
  | inr q ↦ elim (Bool-cases (g == s)) [
    | inl p ↦
        rw (q, h.1, p, h.2, one_more n)
          (subst (λ t. Reads (insert thrash_repeat_count_key (int (pos (suc n))) state) a t (suc n))
            (sym ((eq_iff g s).0 p)) (insert_count-Reads state n (suc n) a s h))
    | inr p ↦ rw (q, h.1, p) (insert_count-Reads _ n 1 a g (insert_signature-Reads state n a s g h))
  ]
]

-- The detector does not write the current artifact.
module _ (state : State) where
  count-current :
      (v : Json)
      → lookup current_artifact_key (insert thrash_repeat_count_key v state)
        ≡ lookup current_artifact_key state
  count-current v = rw (lookup-insert thrash_repeat_count_key current_artifact_key v state) refl

  signature-current :
      (v : Json)
      → lookup current_artifact_key (insert thrash_signature_key v state)
        ≡ lookup current_artifact_key state
  signature-current v = rw (lookup-insert thrash_signature_key current_artifact_key v state) refl

  artifact-current :
      (v : Json)
      → lookup current_artifact_key (insert thrash_artifact_key v state)
        ≡ lookup current_artifact_key state
  artifact-current v = rw (lookup-insert thrash_artifact_key current_artifact_key v state) refl

pub sync_artifact-current :
    (state : State)
    → lookup current_artifact_key (sync_artifact state) ≡ lookup current_artifact_key state
unfolding sync_artifact
sync_artifact-current state =
    elim (Bool-cases (
      str_or_empty (lookup current_artifact_key state)
      == str_or_empty (lookup thrash_artifact_key state))) [
        | inl q ↦ rw q refl
        | inr q ↦ rw q (count-current _ _ ∙ signature-current _ _ ∙ artifact-current _ _)
      ]

pub count_signature-current :
    (g : String) (state : State)
    → lookup current_artifact_key (count_signature g state) ≡ lookup current_artifact_key state
unfolding count_signature
count_signature-current g state = elim (Bool-cases (g == "")) [
  | inl q ↦ rw q (count-current _ _ ∙ signature-current _ _)
  | inr q ↦ elim (Bool-cases (g == str_or_empty (lookup thrash_signature_key state))) [
    | inl p ↦ rw (q, p) (count-current _ _)
    | inr p ↦ rw (q, p) (count-current _ _ ∙ signature-current _ _)
  ]
]

-- Another's write leaves what the three keys read as.
pub insert-Reads :
    (state : State) (key : String) (v : Json) (n : ℕ) (a s : String)
    → not (
        key == thrash_artifact_key
        || (key == thrash_signature_key || key == thrash_repeat_count_key))
      ≡ true
    → Reads state a s n
    → Reads (insert key v state) a s n
insert-Reads state key v n a s f (x, y, z) = (
  rw (lookup-insert key thrash_artifact_key v state, apart.0) x,
  rw (lookup-insert key thrash_signature_key v state, apart.1) y,
  rw (lookup-insert key thrash_repeat_count_key v state, apart.2) z,
)
  where
    apart :
        ((key == thrash_artifact_key) ≡ false)
        × ((key == thrash_signature_key) ≡ false)
        × ((key == thrash_repeat_count_key) ≡ false)
    apart = (ground arith, ground arith, ground arith)
