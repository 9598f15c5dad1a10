-- ===== src/Evidence/Output/Merge.antt =====
-- The merge of src/reverse_engineering/agents/evidence_output.py keeps the prior evidence.
use arema.Prelude.{
  ℕ, zero, suc, ◌≤◌, String, Bool, true, false, ◌&&◌, ◌≡◌, refl, ap, sym, ◌∙◌, ◌⊎◌, inl, inr, arith,
  Bool-cases, Option, none, some, List, [], ◌∷◌, ◌++◌, append_one, every, contains, length, take,
  length-take, leb, if◌then◌else◌,
}
use arema.Recovery.ModelJson.{◌>>=◌, Given}
use arema.Recovery.Plan.{is_artifact_id}
use arema.Evidence.Flow.{is_within}
use arema.Evidence.Envelope.{
  EvidenceCoverage, EvidenceFinding, EvidenceEnvelope, max_findings, max_surfaces,
  max_surface_chars, max_limitations, max_limitation_chars, are_bounded, is_valid_coverage,
  is_finding_of, is_valid_envelope, has_valid_flow, has_valid_verdict,
}
use arema.Evidence.Envelope.Begins.{Begins, append_nil, Begins-trans}
use arema.Evidence.Envelope.Parse.{Readers}
use arema.Evidence.Envelope.Parsed.{IsValidOf}
use arema.Evidence.Output.{
  has_seen, append_new, append_unseen, bounded_union, checked_coverage, merge_evidence_envelopes,
  with_limitations,
}

module _ {A : Type 0} (p : A → Bool) where
  every-append_one :
      (xs : List A) (x : A) → every p xs ≡ true → p x ≡ true → every p (append_one xs x) ≡ true
  every-append_one [] x h k = rw k refl
  every-append_one (y ∷ ys) x h k = ground (arith, every-append_one ys x)

  every-take : (n : ℕ) (xs : List A) → every p xs ≡ true → every p (take n xs) ≡ true
  every-take zero xs h = refl
  every-take (suc n) [] h = refl
  every-take (suc n) (x ∷ xs) h = ground (arith, every-take n xs)

every-append_new :
    (p : String → Bool) (merged items : List String)
    → every p merged ≡ true
    → every p items ≡ true
    → every p (append_new merged items) ≡ true
unfolding append_new
every-append_new p merged [] h k = h
every-append_new p merged (i ∷ items) h k =
    by_seen (contains merged i) (every-append_new p merged items h rest)
      (every-append_new p (append_one merged i) items (every-append_one p merged i h first) rest)
  where
    first : p i ≡ true
    first = ground arith

    rest : every p items ≡ true
    rest = ground arith

    by_seen :
        (b : Bool)
        → every p (append_new merged items) ≡ true
        → every p (append_new (append_one merged i) items) ≡ true
        → every p (elim b [
          | true ↦ append_new merged items
          | false ↦ append_new (append_one merged i) items
        ])
          ≡ true
    by_seen true x y = x
    by_seen false x y = y

bounded_union-AreBounded :
    (max_chars cap : ℕ) (first second : List String)
    → every (is_within max_chars) first ≡ true
    → every (is_within max_chars) second ≡ true
    → are_bounded max_chars cap (bounded_union first second cap) ≡ true
bounded_union-AreBounded max_chars cap first second h k = ground (
  arith,
  length-take cap (append_new (append_new [] first) second),
  every-take (is_within max_chars) cap (append_new (append_new [] first) second) (
      every-append_new (is_within max_chars) (append_new [] first) second
        (every-append_new (is_within max_chars) [] first refl h) k),
)

append_unseen-Begins :
    (findings fs : List EvidenceFinding) → Begins findings (append_unseen findings fs)
unfolding append_unseen
append_unseen-Begins findings [] = ([], append_nil findings)
append_unseen-Begins findings (f ∷ fs) =
    by_seen (has_seen findings f) (append_unseen-Begins findings fs) (
      Begins-trans findings (append_one findings f) (append_unseen (append_one findings f) fs)
        (f ∷ [], refl) (append_unseen-Begins (append_one findings f) fs))
  where
    by_seen :
        (b : Bool)
        → Begins findings (append_unseen findings fs)
        → Begins findings (append_unseen (append_one findings f) fs)
        → Begins findings (elim b [
          | true ↦ append_unseen findings fs
          | false ↦ append_unseen (append_one findings f) fs
        ])
    by_seen true x y = x
    by_seen false x y = y

every-append_unseen :
    (p : EvidenceFinding → Bool) (findings fs : List EvidenceFinding)
    → every p findings ≡ true
    → every p fs ≡ true
    → every p (append_unseen findings fs) ≡ true
unfolding append_unseen
every-append_unseen p findings [] h k = h
every-append_unseen p findings (f ∷ fs) h k =
    by_seen (has_seen findings f) (every-append_unseen p findings fs h rest) (
      every-append_unseen p (append_one findings f) fs (every-append_one p findings f h first) rest)
  where
    first : p f ≡ true
    first = ground arith

    rest : every p fs ≡ true
    rest = ground arith

    by_seen :
        (b : Bool)
        → every p (append_unseen findings fs) ≡ true
        → every p (append_unseen (append_one findings f) fs) ≡ true
        → every p (elim b [
          | true ↦ append_unseen findings fs
          | false ↦ append_unseen (append_one findings f) fs
        ])
          ≡ true
    by_seen true x y = x
    by_seen false x y = y

-- A cut that is long enough leaves what a list begins with.
Begins-take :
    (n : ℕ) (xs ys : List EvidenceFinding) → length xs ≤ n → Begins xs ys → Begins xs (take n ys)
Begins-take n [] ys l b = (take n ys, refl)
Begins-take zero (x ∷ xs) ys l b = absurd (no l)
  where
    no : suc (length xs) ≤ 0 → ⊥
    no h = omega arith
Begins-take (suc n) (x ∷ xs) ys l (zs, e) =
    let (ws, g) = Begins-take n xs (xs ++ zs) (omega (arith, l)) (zs, refl) in
    (ws, ap (take (suc n)) e ∙ ap (λ us. x ∷ us) g)

take_few : (n : ℕ) (fs : List EvidenceFinding) → leb (length (take n fs)) n ≡ true
take_few n fs = ground (arith, length-take n fs)

-- The parts of a valid envelope.
valid_parts :
    (readers : Readers) (e : EvidenceEnvelope)
    → is_valid_envelope readers.floats e ≡ true
    → (every (is_within max_surface_chars) e.coverage.surfaces ≡ true)
      × (every (is_within max_limitation_chars) e.coverage.limitations ≡ true)
      × (every (is_finding_of readers.floats e.artifact_id) e.findings ≡ true)
      × (length e.findings ≤ max_findings)
valid_parts readers e h = (ground arith, ground arith, ground arith, ground arith)

remade-IsValid :
    (readers : Readers) (e : EvidenceEnvelope) (c : EvidenceCoverage) (fs : List EvidenceFinding)
    → is_valid_envelope readers.floats e ≡ true
    → is_valid_coverage c ≡ true
    → leb (length fs) max_findings ≡ true
    → every (is_finding_of readers.floats e.artifact_id) fs ≡ true
    → is_valid_envelope readers.floats (record e { coverage = c; findings = fs }) ≡ true
remade-IsValid readers e c fs h hc few hf = rw (id_ok, hc, few, hf, flow_ok, verdict_ok) refl
  where
    id_ok : is_artifact_id e.artifact_id ≡ true
    id_ok = ground arith

    flow_ok : has_valid_flow e.flow ≡ true
    flow_ok = ground arith

    verdict_ok : has_valid_verdict e.verdict ≡ true
    verdict_ok = ground arith

module _ (readers : Readers) where
  -- Two valid envelopes of one artifact are always merged; the result is valid, of that artifact, and has
  -- all the findings of the prior one first.
  pub merge_evidence_envelopes-some :
      (id : String) (prior new : EvidenceEnvelope)
      → IsValidOf readers id prior
      → IsValidOf readers id new
      → (e : EvidenceEnvelope) × (merge_evidence_envelopes prior new ≡ some e)
        × IsValidOf readers id e
        × Begins prior.findings e.findings
  unfolding merge_evidence_envelopes
  merge_evidence_envelopes-some id prior new (hp, ip) (hn, in_new) =
      merged_of (valid_parts readers prior hp) (valid_parts readers new hn)
    where
      coverage : EvidenceCoverage
      coverage = record {
        status = new.coverage.status;
        surfaces = bounded_union prior.coverage.surfaces new.coverage.surfaces max_surfaces;
        limitations =
            bounded_union prior.coverage.limitations new.coverage.limitations max_limitations;
      }

      all_findings : List EvidenceFinding
      all_findings = append_unseen prior.findings new.findings

      merged : EvidenceEnvelope
      merged = record new { coverage = coverage; findings = take max_findings all_findings }

      is_new : EvidenceFinding → Bool
      is_new = is_finding_of readers.floats new.artifact_id

      few : leb (length (take max_findings all_findings)) max_findings ≡ true
      few = take_few max_findings all_findings

      finish : EvidenceCoverage → Option EvidenceEnvelope
      finish c = some (record new { coverage = c; findings = take max_findings all_findings })

      merged_of :
          ((every (is_within max_surface_chars) prior.coverage.surfaces ≡ true)
            × (every (is_within max_limitation_chars) prior.coverage.limitations ≡ true)
            × (every (is_finding_of readers.floats prior.artifact_id) prior.findings ≡ true)
            × (length prior.findings ≤ max_findings))
          → ((every (is_within max_surface_chars) new.coverage.surfaces ≡ true)
              × (every (is_within max_limitation_chars) new.coverage.limitations ≡ true)
              × (every is_new new.findings ≡ true)
              × (length new.findings ≤ max_findings))
          → (e : EvidenceEnvelope) × ((checked_coverage coverage >>= finish) ≡ some e)
            × IsValidOf readers id e
            × Begins prior.findings e.findings
      merged_of (ps, pl, pf, plen) (ns, nl, nf, nlen) = (
        merged,
        ap (λ b. (if b then some coverage else none) >>= finish) valid_coverage,
        (
          remade-IsValid readers new coverage (take max_findings all_findings) hn valid_coverage few
              (every-take is_new max_findings all_findings
                (every-append_unseen is_new prior.findings new.findings prior_ok nf)),
          in_new,
        ),
        Begins-take max_findings prior.findings all_findings plen
            (append_unseen-Begins prior.findings new.findings),
      )
        where
          valid_coverage : is_valid_coverage coverage ≡ true
          valid_coverage =
              ap (λ b. b && are_bounded max_limitation_chars max_limitations coverage.limitations)
                (bounded_union-AreBounded max_surface_chars max_surfaces prior.coverage.surfaces
                  new.coverage.surfaces ps ns)
              ∙ bounded_union-AreBounded max_limitation_chars max_limitations
                  prior.coverage.limitations new.coverage.limitations pl nl

          prior_ok : every is_new prior.findings ≡ true
          prior_ok =
              ap (λ i. every (is_finding_of readers.floats i) prior.findings) (in_new ∙ sym ip) ∙ pf

  -- Limitations that are added leave the rest, and a valid envelope valid.
  pub with_limitations-Given :
      (id : String) (e : EvidenceEnvelope) (extra : List String)
      → IsValidOf readers id e
      → Given (IsValidOf readers id) (with_limitations e extra)
  unfolding with_limitations
  with_limitations-Given id e extra (h, i) = by_valid (Bool-cases (is_valid_coverage coverage))
    where
      coverage : EvidenceCoverage
      coverage = record {
        status = e.coverage.status;
        surfaces = e.coverage.surfaces;
        limitations = take max_limitations (append_new e.coverage.limitations extra);
      }

      finish : EvidenceCoverage → Option EvidenceEnvelope
      finish c = some (record e { coverage = c })

      by_valid :
          (is_valid_coverage coverage ≡ true) ⊎ (is_valid_coverage coverage ≡ false)
          → Given (IsValidOf readers id) (checked_coverage coverage >>= finish)
      by_valid (inl q) = rw q (ground (arith, q), i)
      by_valid (inr q) = rw q tt
