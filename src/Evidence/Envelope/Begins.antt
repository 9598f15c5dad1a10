-- ===== src/Evidence/Envelope/Begins.antt =====
-- Lists of findings (src/reverse_engineering/evidence_envelope.py) of which one begins the other.
use arema.Prelude.{◌≡◌, refl, ap, ◌∙◌, List, [], ◌∷◌, ◌++◌}
use arema.Evidence.Envelope.{EvidenceFinding}

-- The first list begins the second.
abbrev pub Begins : List EvidenceFinding → List EvidenceFinding → Type 0
Begins xs ys = (zs : List EvidenceFinding) × (ys ≡ xs ++ zs)

pub append_nil : (xs : List EvidenceFinding) → xs ≡ xs ++ []
append_nil [] = refl
append_nil (x ∷ xs) = ap (λ ys. x ∷ ys) (append_nil xs)

pub append_assoc : (xs ys zs : List EvidenceFinding) → (xs ++ ys) ++ zs ≡ xs ++ (ys ++ zs)
append_assoc [] ys zs = refl
append_assoc (x ∷ xs) ys zs = ap (λ ws. x ∷ ws) (append_assoc xs ys zs)

pub Begins-trans : (xs ys zs : List EvidenceFinding) → Begins xs ys → Begins ys zs → Begins xs zs
Begins-trans xs ys zs (us, e) (vs, f) =
    (us ++ vs, f ∙ ap (λ ws. ws ++ vs) e ∙ append_assoc xs us vs)
