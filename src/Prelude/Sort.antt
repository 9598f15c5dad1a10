-- ===== src/Prelude/Sort.antt =====
-- `list.sort(key=…)`: a stable sort by a strict order of the keys, and what it returns.
use mathlib.Core.List.Perm
use mathlib.Core.List.{Perm}
use arema.Prelude.{
  Bool, true, false, List, [], ◌∷◌, ◌≡◌, ◌⊎◌, inl, inr, All, keep, Bool-cases, if◌then◌else◌,
}

module _ {ℓ} {A : Type ℓ} (lt : A → A → Bool) where
  -- An item goes before the first one that is not below it: it stood before that one.
  unfoldable pub insert_sorted : A → List A → List A
  insert_sorted x [] = x ∷ []
  insert_sorted x (y ∷ ys) = if lt y x then y ∷ insert_sorted x ys else x ∷ y ∷ ys

  unfoldable pub sort_by : List A → List A
  unfolding insert_sorted
  sort_by [] = []
  sort_by (x ∷ xs) = insert_sorted x (sort_by xs)

  abbrev pub Ascending : List A → Type 0
  Ascending [] = Unit
  Ascending (x ∷ xs) = All (λ y. lt x y ≡ true) xs × Ascending xs

  -- The keys of two items differ.
  abbrev pub Apart : A → A → Type 0
  Apart x y = (lt x y ≡ true) ⊎ (lt y x ≡ true)

  abbrev pub AllApart : List A → Type 0
  AllApart [] = Unit
  AllApart (x ∷ xs) = All (Apart x) xs × AllApart xs

module _ {ℓ} {A : Type ℓ} where
  pub All-keep {κ} : (P : A → Type κ) (p : A → Bool) (xs : List A) → All P xs → All P (keep p xs)
  All-keep P p [] h = tt
  All-keep P p (x ∷ xs) h = elim (Bool-cases (p x)) [
    | inl e ↦ rw e (h.0, All-keep P p xs h.1)
    | inr e ↦ rw e (All-keep P p xs h.1)
  ]

  pub All-map {κ μ} :
      {P : A → Type κ} {Q : A → Type μ} (f : (a : A) → P a → Q a) (xs : List A)
      → All P xs
      → All Q xs
  All-map f [] h = tt
  All-map {P} {Q} f (x ∷ xs) h = (f x h.0, All-map {P = P} {Q = Q} f xs h.1)

module _ {ℓ} {A : Type ℓ} (lt : A → A → Bool) where
  pub AllApart-keep : (p : A → Bool) (xs : List A) → AllApart lt xs → AllApart lt (keep p xs)
  AllApart-keep p [] h = tt
  AllApart-keep p (x ∷ xs) h = elim (Bool-cases (p x)) [
    | inl e ↦ rw e (All-keep (Apart lt x) p xs h.0, AllApart-keep p xs h.1)
    | inr e ↦ rw e (AllApart-keep p xs h.1)
  ]

  All-insert_sorted {κ} :
      (P : A → Type κ) (x : A) (ys : List A) → P x → All P ys → All P (insert_sorted lt x ys)
  unfolding insert_sorted
  All-insert_sorted P x [] px h = (px, tt)
  All-insert_sorted P x (y ∷ ys) px h = elim (Bool-cases (lt y x)) [
    | inl e ↦ rw e (h.0, All-insert_sorted P x ys px h.1)
    | inr e ↦ rw e (px, h)
  ]

  pub All-sort_by {κ} : (P : A → Type κ) (xs : List A) → All P xs → All P (sort_by lt xs)
  unfolding sort_by
  All-sort_by P [] h = tt
  All-sort_by P (x ∷ xs) h = All-insert_sorted P x (sort_by lt xs) h.0 (All-sort_by P xs h.1)

  perm-insert_sorted : (x : A) (ys : List A) → Perm (insert_sorted lt x ys) (x ∷ ys)
  unfolding insert_sorted
  perm-insert_sorted x [] = Perm.refl _
  perm-insert_sorted x (y ∷ ys) = elim (Bool-cases (lt y x)) [
    | inl e ↦ rw e (Perm.trans (Perm.cons y (perm-insert_sorted x ys)) (Perm.swap _ _ _))
    | inr e ↦ rw e (Perm.refl _)
  ]

  pub sort_by-perm : (xs : List A) → Perm (sort_by lt xs) xs
  unfolding sort_by
  sort_by-perm [] = Perm.refl _
  sort_by-perm (x ∷ xs) =
      Perm.trans (perm-insert_sorted x (sort_by lt xs)) (Perm.cons x (sort_by-perm xs))

module _ {ℓ} {A : Type ℓ} (lt : A → A → Bool)
    (trans : (x y z : A) → lt x y ≡ true → lt y z ≡ true → lt x z ≡ true) where
  above : (x y : A) → Apart lt x y → lt y x ≡ false → lt x y ≡ true
  above x y (inl p) q = p
  above x y (inr p) q = cc

  Ascending-insert_sorted :
      (x : A) (ys : List A)
      → All (Apart lt x) ys
      → Ascending lt ys
      → Ascending lt (insert_sorted lt x ys)
  unfolding insert_sorted
  Ascending-insert_sorted x [] a h = (tt, tt)
  Ascending-insert_sorted x (y ∷ ys) a h = elim (Bool-cases (lt y x)) [
    | inl e ↦
        rw e (
          All-insert_sorted lt (λ z. lt y z ≡ true) x ys e h.0,
          Ascending-insert_sorted x ys a.1 h.1,
        )
    | inr e ↦ rw e (
      (
        above x y a.0 e,
        All-map {P = λ z. lt y z ≡ true} {Q = λ z. lt x z ≡ true}
            (λ z k. trans x y z (above x y a.0 e) k) ys h.0,
      ),
      h,
    )
  ]

  pub sort_by-Ascending : (xs : List A) → AllApart lt xs → Ascending lt (sort_by lt xs)
  unfolding sort_by
  sort_by-Ascending [] h = tt
  sort_by-Ascending (x ∷ xs) h =
      Ascending-insert_sorted x (sort_by lt xs) (All-sort_by lt (Apart lt x) xs h.0)
        (sort_by-Ascending xs h.1)
