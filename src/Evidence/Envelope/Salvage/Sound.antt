-- ===== src/Evidence/Envelope/Salvage/Sound.antt =====
-- The outcome of `salvage_evidence_envelope` (src/reverse_engineering/evidence_envelope.py) on an object.
use arema.Prelude.{
  ℕ, zero, suc, ◌+◌, ◌-◌, ◌≤◌, String, true, not, ◌≡◌, ◌≢◌, ◌⊎◌, refl, ap, ◌∙◌, inl, inr, arith,
  Option, none, some, List, [], ◌∷◌, ◌==◌, every, take, map, length, length-take, if◌then◌else◌,
}
use arema.Prelude.Json.{Json, Fields, get_or_null, list_or_empty}
use arema.Recovery.ModelJson.{◌>>=◌}
use arema.Recovery.Plan.{is_artifact_id}
use arema.Evidence.Flow.{sanitize_execution_flow}
use arema.Evidence.Verdict.{sanitize_verdict}
use arema.Evidence.Envelope.{
  CoverageStatus, complete, partial, failed, EvidenceFinding, EvidenceEnvelope, max_findings,
  max_surface_chars, max_surfaces, max_limitation_chars, max_limitations, is_finding_of,
  is_valid_coverage, is_valid_envelope, rebind_evidence_envelope, anchored,
}
use arema.Evidence.Envelope.Rebind.{rebound, rebind_evidence_envelope-rebound}
use arema.Evidence.Envelope.Parse.{Readers}
use arema.Evidence.Envelope.Salvaging.{
  SalvagedFindings, SalvagedEnvelope, salvaged_coverage, fields_or_empty, anchor_of,
  salvage_findings, salvage_from, salvage_object, lowered,
}
use arema.Evidence.Envelope.Salvage.{
  sanitized-HasValidFlow, sanitized-HasValidVerdict, bounded_strings-AreBounded,
  anchor_of-IsArtifactId, Accounts, salvage_findings-Accounts,
}

lowered-complete :
    (dropped : ℕ) (status : CoverageStatus) → (dropped ≡ 0) ⊎ (lowered dropped status ≢ complete)
lowered-complete zero status = inl refl
lowered-complete (suc n) complete = inr (λ x. cc)
lowered-complete (suc n) partial = inr (λ x. cc)
lowered-complete (suc n) failed = inr (λ x. cc)

salvaged_coverage-IsValid :
    (coverage : Fields) (dropped : ℕ)
    → is_valid_coverage (salvaged_coverage coverage dropped) ≡ true
salvaged_coverage-IsValid coverage dropped =
    rw
      (
        bounded_strings-AreBounded max_surface_chars max_surfaces (get_or_null "surfaces" coverage),
        bounded_strings-AreBounded max_limitation_chars max_limitations
            (get_or_null "limitations" coverage),
      )
      refl

module _ (readers : Readers) (raw : Fields) (id : String) where
  abbrev raw_findings : List Json
  raw_findings = list_or_empty (get_or_null "findings" raw)

  -- The findings that survive.
  abbrev pub survivors : SalvagedFindings
  survivors =
      salvage_findings readers (anchor_of raw id) (length raw_findings - max_findings)
        (take max_findings raw_findings)

  -- The envelope that is made of them.
  abbrev made : SalvagedFindings → EvidenceEnvelope
  made s = record {
    artifact_id = anchor_of raw id;
    coverage = salvaged_coverage (fields_or_empty (get_or_null "coverage" raw)) s.dropped;
    findings = s.findings;
    flow = sanitize_execution_flow (get_or_null "flow" raw);
    verdict = sanitize_verdict readers.lower (get_or_null "verdict" raw);
  }

  -- What a salvage gives of survivors: nothing where there are none.
  abbrev Recovered : SalvagedFindings → Option SalvagedEnvelope → Type 0
  Recovered s o =
      ((s.findings ≡ []) × (o ≡ none))
      ⊎ ((r : SalvagedEnvelope) × (o ≡ some r)
          × (is_valid_envelope readers.floats r.envelope ≡ true)
          × (r.envelope.artifact_id ≡ id)
          × (r.envelope.findings ≡ map (anchored id) s.findings)
          × (r.dropped ≡ s.dropped)
          × ((r.dropped ≡ 0) ⊎ (r.envelope.coverage.status ≢ complete)))

  made-IsValid :
      (s : SalvagedFindings)
      → is_artifact_id id ≡ true
      → length s.findings ≤ max_findings
      → every (is_finding_of readers.floats (anchor_of raw id)) s.findings ≡ true
      → is_valid_envelope readers.floats (made s) ≡ true
  made-IsValid s c len h = ground (
    arith,
    anchor_of-IsArtifactId raw id c,
    salvaged_coverage-IsValid (fields_or_empty (get_or_null "coverage" raw)) s.dropped,
    sanitized-HasValidFlow (get_or_null "flow" raw),
    sanitized-HasValidVerdict readers.lower (get_or_null "verdict" raw),
  )

  salvage_from-Recovered :
      (s : SalvagedFindings)
      → is_artifact_id id ≡ true
      → length s.findings ≤ max_findings
      → every (is_finding_of readers.floats (anchor_of raw id)) s.findings ≡ true
      → Recovered s (salvage_from readers raw id (anchor_of raw id) s)
  salvage_from-Recovered s c len h = by_findings s.findings s.dropped len h
    where
      by_findings :
          (fs : List EvidenceFinding) (n : ℕ)
          → length fs ≤ max_findings
          → every (is_finding_of readers.floats (anchor_of raw id)) fs ≡ true
          → Recovered
              (record { findings = fs; dropped = n })
              (salvage_from readers raw id
                (anchor_of raw id)
                (record { findings = fs; dropped = n }))
      by_findings [] n len h = inl (refl, refl)
      by_findings (f ∷ fs) n len h = inr (
        salvaged,
        ap (λ o. o >>= rebind) (ap (λ b. if b then some e else none) valid)
            ∙ ap (λ o. o >>= finish) bound.0,
        bound.1,
        refl,
        refl,
        refl,
        lowered-complete n _,
      )
        where
          e : EvidenceEnvelope
          e = made (record { findings = f ∷ fs; dropped = n })

          finish : EvidenceEnvelope → Option SalvagedEnvelope
          finish x =
              some (record { envelope = x; dropped = n; rebound = not (anchor_of raw id == id) })

          salvaged : SalvagedEnvelope
          salvaged = record {
            envelope = rebound id e;
            dropped = n;
            rebound = not (anchor_of raw id == id);
          }

          rebind : EvidenceEnvelope → Option SalvagedEnvelope
          rebind x = rebind_evidence_envelope readers.floats x id >>= finish

          valid : is_valid_envelope readers.floats e ≡ true
          valid = made-IsValid (record { findings = f ∷ fs; dropped = n }) c len h

          bound :
              (rebind_evidence_envelope readers.floats e id ≡ some (rebound id e))
              × (is_valid_envelope readers.floats (rebound id e) ≡ true)
          bound = rebind_evidence_envelope-rebound readers.floats e id c valid

  -- A salvage to a canonical artifact gives nothing where no finding survives; else it gives an envelope
  -- that is valid and bound to the artifact. Its findings are the survivors, in order and under that
  -- id, and they and those it counts as dropped are all that the object lists. Its coverage is not
  -- complete once a finding is dropped.
  pub salvage_object_sound :
      is_artifact_id id ≡ true
      → ((survivors.findings ≡ []) × (salvage_object readers raw id ≡ none))
        ⊎ ((r : SalvagedEnvelope) × (salvage_object readers raw id ≡ some r)
            × (is_valid_envelope readers.floats r.envelope ≡ true)
            × (r.envelope.artifact_id ≡ id)
            × (r.envelope.findings ≡ map (anchored id) survivors.findings)
            × (length survivors.findings + r.dropped
                ≡ length (list_or_empty (get_or_null "findings" raw)))
            × ((r.dropped ≡ 0) ⊎ (r.envelope.coverage.status ≢ complete)))
  unfolding Accounts
  salvage_object_sound c =
      let (n, l, h) =
        salvage_findings-Accounts readers (anchor_of raw id) (length raw_findings - max_findings)
          (take max_findings raw_findings) in
      elim (salvage_from-Recovered survivors c
        (omega (arith, l, length-take max_findings raw_findings)) h) [
          | inl x ↦ inl x
          | inr (r, made_r, valid, own, found, count, status) ↦ inr (
            r,
            made_r,
            valid,
            own,
            found,
            omega (arith, n, count, length-take max_findings raw_findings),
            status,
          )
        ]
