-- ===== src/Evidence/Envelope/Parsed.antt =====
-- What the parsers of src/reverse_engineering/evidence_envelope.py give is valid and bound to the artifact.
use arema.Prelude.{
  String, Bool, true, false, ◌≡◌, ◌⊎◌, inl, inr, arith, Bool-cases, Option, none, some, List, [],
  ◌∷◌, ◌==◌, eq_iff,
}
use arema.Prelude.Json.{Json, obj, Fields, as_str, as_obj, get_or_null, has_exactly}
use arema.Recovery.ModelJson.{◌>>=◌, require, Given, bind-Given, loads_model_json}
use arema.Recovery.Plan.{is_artifact_id}
use arema.Evidence.Flow.{sanitize_execution_flow}
use arema.Evidence.Verdict.{sanitize_verdict}
use arema.Evidence.Envelope.{
  EvidenceCoverage, EvidenceFinding, EvidenceEnvelope, is_valid_envelope, checked_envelope,
}
use arema.Evidence.Envelope.Parse.{
  Readers, as_arr, coverage_of, findings_of, envelope_of, has_judgement, without, judgement_keys,
  judged_envelope, sole_object_with, parse_evidence_envelope, max_raw_evidence_json_chars,
}
use arema.Evidence.Envelope.Salvaging.{SalvagedEnvelope, salvage_object, salvage_evidence_envelope}
use arema.Evidence.Envelope.Salvage.{sanitized-HasValidFlow, sanitized-HasValidVerdict}
use arema.Evidence.Envelope.Salvage.Sound.{salvage_object_sound}

-- Whatever goes before, what is made in the end satisfies the predicate.
pub after-Given :
    {A B : Type 0} (P : B → Type 0) (o : Option A) (f : A → Option B)
    → ((a : A) → Given P (f a))
    → Given P (o >>= f)
after-Given P none f h = tt
after-Given P (some a) f h = h a

module _ (readers : Readers) where
  abbrev pub IsValid : EvidenceEnvelope → Type 0
  IsValid e = is_valid_envelope readers.floats e ≡ true

  -- Valid, and of that artifact.
  abbrev pub IsValidOf : String → EvidenceEnvelope → Type 0
  IsValidOf id e = (is_valid_envelope readers.floats e ≡ true) × (e.artifact_id ≡ id)

  checked-Given : (e : EvidenceEnvelope) → Given IsValid (checked_envelope readers.floats e)
  checked-Given e = elim (Bool-cases (is_valid_envelope readers.floats e)) [
    | inl q ↦ rw q q
    | inr q ↦ rw q tt
  ]

  envelope_of-Given : (v : Json) → Given IsValid (envelope_of readers v)
  unfolding envelope_of
  envelope_of-Given v = after-Given IsValid (as_obj v) of_fields (λ fields.
      after-Given IsValid (require (has_exactly keys fields)) (of_keys fields) (λ u.
        after-Given IsValid (as_str (get_or_null "artifact_id" fields)) (of_id fields) (λ id.
          after-Given IsValid (coverage_of (get_or_null "coverage" fields)) (of_coverage fields id)
            (λ c.
              after-Given IsValid (as_arr (get_or_null "findings" fields)) (of_raw id c) (λ raws.
                after-Given IsValid (findings_of readers raws) (of_findings id c)
                  (λ fs. checked-Given (envelope id c fs)))))))
    where
      keys : List String
      keys = "artifact_id" ∷ "coverage" ∷ "findings" ∷ []

      envelope : String → EvidenceCoverage → List EvidenceFinding → EvidenceEnvelope
      envelope id c fs = record {
        artifact_id = id;
        coverage = c;
        findings = fs;
        flow = none;
        verdict = none;
      }

      of_findings : String → EvidenceCoverage → List EvidenceFinding → Option EvidenceEnvelope
      of_findings id c fs = checked_envelope readers.floats (envelope id c fs)

      of_raw : String → EvidenceCoverage → List Json → Option EvidenceEnvelope
      of_raw id c raws = findings_of readers raws >>= of_findings id c

      of_coverage : Fields → String → EvidenceCoverage → Option EvidenceEnvelope
      of_coverage fields id c = as_arr (get_or_null "findings" fields) >>= of_raw id c

      of_id : Fields → String → Option EvidenceEnvelope
      of_id fields id = coverage_of (get_or_null "coverage" fields) >>= of_coverage fields id

      of_keys : Fields → Unit {0} → Option EvidenceEnvelope
      of_keys fields u = as_str (get_or_null "artifact_id" fields) >>= of_id fields

      of_fields : Fields → Option EvidenceEnvelope
      of_fields fields = require (has_exactly keys fields) >>= of_keys fields

  judged-Given : (v : Json) → Given IsValid (judged_envelope readers v)
  judged-Given (obj raw) = by_judgement (has_judgement raw)
    where
      attached : EvidenceEnvelope → Option EvidenceEnvelope
      attached e = some (record e {
        flow = sanitize_execution_flow (get_or_null "flow" raw);
        verdict = sanitize_verdict readers.lower (get_or_null "verdict" raw);
      })

      by_judgement :
          (b : Bool)
          → Given IsValid (elim b [
            | true ↦ envelope_of readers (obj (without judgement_keys raw)) >>= attached
            | false ↦ envelope_of readers (obj raw)
          ])
      by_judgement true =
          bind-Given IsValid IsValid (envelope_of readers (obj (without judgement_keys raw)))
            attached (envelope_of-Given (obj (without judgement_keys raw)))
            (λ e h. ground (
              arith,
              sanitized-HasValidFlow (get_or_null "flow" raw),
              sanitized-HasValidVerdict readers.lower (get_or_null "verdict" raw),
            ))
      by_judgement false = envelope_of-Given (obj raw)
  judged-Given v = envelope_of-Given v

  pub parse_evidence_envelope-Given :
      (raw : Json) (id : String) → Given (IsValidOf id) (parse_evidence_envelope readers raw id)
  unfolding parse_evidence_envelope
  parse_evidence_envelope-Given raw id =
      after-Given (IsValidOf id) (require (is_artifact_id id)) of_id (λ u.
        after-Given (IsValidOf id) (loads_model_json readers.json max_raw_evidence_json_chars raw)
          of_decoded
          (λ v.
            bind-Given IsValid (IsValidOf id)
              (judged_envelope readers (sole_object_with ("coverage" ∷ "findings" ∷ []) v)) own
              (judged-Given (sole_object_with ("coverage" ∷ "findings" ∷ []) v)) own-Given))
    where
      own : EvidenceEnvelope → Option EvidenceEnvelope
      own e = require (e.artifact_id == id) >>= (λ u. some e)

      of_decoded : Json → Option EvidenceEnvelope
      of_decoded v =
          judged_envelope readers (sole_object_with ("coverage" ∷ "findings" ∷ []) v) >>= own

      of_id : Unit {0} → Option EvidenceEnvelope
      of_id u = loads_model_json readers.json max_raw_evidence_json_chars raw >>= of_decoded

      own-Given : (e : EvidenceEnvelope) → IsValid e → Given (IsValidOf id) (own e)
      own-Given e h = elim (Bool-cases (e.artifact_id == id)) [
        | inl q ↦ rw q (h, (eq_iff e.artifact_id id).0 q)
        | inr q ↦ rw q tt
      ]

  -- The same of a salvage.
  abbrev pub SalvagedOf : String → SalvagedEnvelope → Type 0
  SalvagedOf id s = IsValidOf id s.envelope

  pub salvage_evidence_envelope-Given :
      (raw : Json) (id : String) → Given (SalvagedOf id) (salvage_evidence_envelope readers raw id)
  unfolding salvage_evidence_envelope
  salvage_evidence_envelope-Given raw id = by_id (Bool-cases (is_artifact_id id))
    where
      of_decoded : Json → Option SalvagedEnvelope
      of_decoded v =
          as_obj (sole_object_with ("coverage" ∷ "findings" ∷ []) v)
          >>= (λ fields. salvage_object readers fields id)

      of_id : Unit {0} → Option SalvagedEnvelope
      of_id u = loads_model_json readers.json max_raw_evidence_json_chars raw >>= of_decoded

      sound :
          is_artifact_id id ≡ true
          → (fields : Fields) → Given (SalvagedOf id) (salvage_object readers fields id)
      sound c fields = elim (salvage_object_sound readers fields id c) [
        | inl (_, e) ↦ rw e tt
        | inr (r, e, valid, own, found, count, status) ↦ rw e (valid, own)
      ]

      by_id :
          (is_artifact_id id ≡ true) ⊎ (is_artifact_id id ≡ false)
          → Given (SalvagedOf id) (require (is_artifact_id id) >>= of_id)
      by_id (inl c) = after-Given (SalvagedOf id) (require (is_artifact_id id)) of_id (λ u.
          after-Given (SalvagedOf id)
            (loads_model_json readers.json max_raw_evidence_json_chars raw) of_decoded
            (λ v.
              after-Given (SalvagedOf id)
                (as_obj (sole_object_with ("coverage" ∷ "findings" ∷ []) v))
                (λ fields. salvage_object readers fields id) (sound c)))
      by_id (inr c) = rw c tt
