-- ===== src/Evidence/Envelope/Salvage.antt =====
-- What `salvage_evidence_envelope` of src/reverse_engineering/evidence_envelope.py recovers.
pub mod Sound
use arema.Prelude.{
  ℕ, zero, suc, ◌+◌, ◌-◌, ◌≤◌, String, Bool, true, false, not, ◌&&◌, ◌≡◌, ◌≢◌, ◌⊎◌, refl, ap, sym,
  ◌∙◌, subst, inl, inr, arith, Bool-cases, Option, none, some, List, [], ◌∷◌, ◌==◌, eq_iff, eq_refl,
  every, keep, take, map, leb, length, min, length-take, strip, text_length, text_length-positive,
  if◌then◌else◌,
}
use arema.Prelude.Json.{Json, Fields, obj, as_str, as_obj, get_or_null, list_or_empty}
use arema.Recovery.ModelJson.{◌>>=◌, require}
use arema.Recovery.Plan.{is_artifact_id}
use arema.Evidence.CleanText.{clean, unsafe_in_rationale}
use arema.Evidence.Flow.{is_within, sanitize_execution_flow}
use arema.Evidence.Flow.Cited.{every-keep}
use arema.Evidence.Flow.Valid.{sanitize_execution_flow-valid}
use arema.Evidence.Flow.Collected.{HoldsOf, bind-HoldsOf}
use arema.Evidence.Verdict.{
  VerdictClass, SampleVerdict, max_rationale_chars, declared_class, with_rationale,
  sanitize_verdict,
}
use arema.Evidence.Envelope.{
  Floats, CoverageStatus, complete, EvidenceCoverage, EvidenceFinding, EvidenceEnvelope,
  are_bounded, max_findings, is_valid_coverage, is_valid_finding, is_finding_of, is_valid_envelope,
  has_valid_flow, has_valid_verdict, checked_finding, rebind_evidence_envelope,
}
use arema.Evidence.Envelope.Rebind.{rebound, rebind_evidence_envelope-rebound}
use arema.Evidence.Envelope.Parse.{Readers}
use arema.Evidence.Envelope.Salvaging.{
  SalvagedFindings, SalvagedEnvelope, bounded_strings, kept_texts, salvaged_coverage,
  fields_or_empty, anchor_of, coerced_finding, salvaged_finding, salvage_findings, salvage_from,
  salvage_object, lowered,
}

pub sanitized-HasValidFlow : (raw : Json) → has_valid_flow (sanitize_execution_flow raw) ≡ true
unfolding sanitize_execution_flow
sanitized-HasValidFlow (obj fields) = elim (sanitize_execution_flow-valid fields) [
  | inl (_, e) ↦ ap has_valid_flow e
  | inr (f, e, _, v) ↦ ap has_valid_flow e ∙ v
]
sanitized-HasValidFlow raw = refl

with_rationale-HoldsOf :
    (parsed : VerdictClass) (r : String)
    → HoldsOf (λ v. is_within max_rationale_chars v.rationale) (with_rationale parsed r)
with_rationale-HoldsOf parsed r = elim (Bool-cases (r == "")) [
  | inl q ↦ rw q tt
  | inr q ↦ rw q (elim (Bool-cases (leb (text_length r) max_rationale_chars)) [
    | inl k ↦ rw k (ground (arith, text_length-positive r q))
    | inr k ↦ rw k tt
  ])
]

pub sanitized-HasValidVerdict :
    (lower : String → String) (raw : Json) → has_valid_verdict (sanitize_verdict lower raw) ≡ true
unfolding sanitize_verdict
sanitized-HasValidVerdict lower raw = valid _ (
    bind-HoldsOf IsBounded (as_obj raw) of_object (λ fields.
      bind-HoldsOf IsBounded (as_str (get_or_null "classification" fields)) (of_class fields) (λ c.
        bind-HoldsOf IsBounded (declared_class (lower (strip c)))
          (λ parsed. with_rationale parsed (rationale fields))
          (λ parsed. with_rationale-HoldsOf parsed (rationale fields)))))
  where
    IsBounded : SampleVerdict → Bool
    IsBounded v = is_within max_rationale_chars v.rationale

    rationale : Fields → String
    rationale fields =
        clean unsafe_in_rationale max_rationale_chars (get_or_null "rationale" fields)

    of_class : Fields → String → Option SampleVerdict
    of_class fields c =
        declared_class (lower (strip c)) >>= (λ parsed. with_rationale parsed (rationale fields))

    of_object : Fields → Option SampleVerdict
    of_object fields = as_str (get_or_null "classification" fields) >>= of_class fields

    valid : (o : Option SampleVerdict) → HoldsOf IsBounded o → has_valid_verdict o ≡ true
    valid none h = refl
    valid (some v) h = h

every-take :
    (p : String → Bool) (n : ℕ) (xs : List String) → every p xs ≡ true → every p (take n xs) ≡ true
every-take p zero xs h = refl
every-take p (suc n) [] h = refl
every-take p (suc n) (x ∷ xs) h = ground (arith, every-take p n xs)

pub bounded_strings-AreBounded :
    (max_chars cap : ℕ) (v : Json)
    → are_bounded max_chars cap (bounded_strings max_chars cap v) ≡ true
unfolding bounded_strings
bounded_strings-AreBounded max_chars cap v = ground (
  arith,
  length-take cap kept,
  every-take (is_within max_chars) cap kept
      (every-keep (is_within max_chars) (kept_texts (list_or_empty v))),
)
  where
    kept : List String
    kept = keep (is_within max_chars) (kept_texts (list_or_empty v))

-- The id under which a salvage judges is canonical.
pub anchor_of-IsArtifactId :
    (raw : Fields) (id : String)
    → is_artifact_id id ≡ true
    → is_artifact_id (anchor_of raw id) ≡ true
anchor_of-IsArtifactId raw id h = by_own (as_str (get_or_null "artifact_id" raw))
  where
    by_own :
        (o : Option String)
        → is_artifact_id
            (elim o [ none ↦ id | some own_id ↦ if is_artifact_id own_id then own_id else id ])
          ≡ true
    by_own none = h
    by_own (some own_id) = elim (Bool-cases (is_artifact_id own_id)) [
      | inl q ↦ rw q q
      | inr q ↦ rw q h
    ]

module _ (readers : Readers) where
  checked_finding-HoldsOf :
      (anchor : String) (f : EvidenceFinding)
      → HoldsOf
          (is_finding_of readers.floats anchor)
          (require (f.artifact_id == anchor) >>= (λ _. checked_finding readers.floats f))
  checked_finding-HoldsOf anchor f = elim (Bool-cases (f.artifact_id == anchor)) [
    | inl q ↦ rw q (elim (Bool-cases (is_valid_finding readers.floats f)) [
      | inl k ↦ rw k (rw (k, q) refl)
      | inr k ↦ rw k tt
    ])
    | inr q ↦ rw q tt
  ]

  salvaged_finding-HoldsOf :
      (anchor : String) (v : Json)
      → HoldsOf (is_finding_of readers.floats anchor) (salvaged_finding readers anchor v)
  unfolding salvaged_finding
  salvaged_finding-HoldsOf anchor v =
      bind-HoldsOf (is_finding_of readers.floats anchor) (coerced_finding readers v)
        (λ f. require (f.artifact_id == anchor) >>= (λ _. checked_finding readers.floats f))
        (checked_finding-HoldsOf anchor)

  -- Each raw finding is kept, in order, or counted as dropped.
  unfoldable pub Accounts : String → ℕ → ℕ → SalvagedFindings → Type 0
  Accounts anchor n dropped s =
      (length s.findings + s.dropped ≡ n + dropped)
      × (length s.findings ≤ n)
      × (every (is_finding_of readers.floats anchor) s.findings ≡ true)

  pub salvage_findings-Accounts :
      (anchor : String) (dropped : ℕ) (vs : List Json)
      → Accounts anchor (length vs) dropped (salvage_findings readers anchor dropped vs)
  unfolding salvage_findings Accounts
  salvage_findings-Accounts anchor dropped [] = (omega arith, omega arith, refl)
  salvage_findings-Accounts anchor dropped (v ∷ vs) =
      by_finding (salvaged_finding readers anchor v) (salvaged_finding-HoldsOf anchor v)
        (salvage_findings-Accounts anchor (dropped + 1) vs)
        (salvage_findings-Accounts anchor dropped vs)
    where
      by_finding :
          (o : Option EvidenceFinding)
          → HoldsOf (is_finding_of readers.floats anchor) o
          → Accounts anchor
              (length vs)
              (dropped + 1)
              (salvage_findings readers anchor (dropped + 1) vs)
          → Accounts anchor (length vs) dropped (salvage_findings readers anchor dropped vs)
          → Accounts anchor (suc (length vs)) dropped (elim o [
            | none ↦ salvage_findings readers anchor (dropped + 1) vs
            | some f ↦ record {
              findings = f ∷ (salvage_findings readers anchor dropped vs).findings;
              dropped = (salvage_findings readers anchor dropped vs).dropped;
            }
          ])
      by_finding none v (n, l, h) k = (omega arith, omega arith, h)
      by_finding (some f) v h (n, l, k) = (omega arith, omega arith, ground arith)
