-- ===== src/Evidence/Output/Passes.antt =====
-- What a pass of `normalize_evidence_output` of src/reverse_engineering/agents/evidence_output.py gives, and what is kept of it.
use Prim.Native.String.{◌++◌}
use arema.Prelude.{
  ℕ, String, Bool, true, false, ◌≡◌, refl, ap, ◌∙◌, Option, none, some, List, [], ◌∷◌, ◌||◌, inl,
  inr, Bool-cases, if◌then◌else◌,
}
use arema.Prelude.Dict.{insert, is_some}
use arema.Prelude.Json.{Json, null}
use arema.Workbench.State.{State}
use arema.Recovery.ModelJson.{◌>>=◌, require, Given, bind-Given}
use arema.Recovery.Plan.{is_artifact_id, value_at}
use arema.Evidence.Flow.{is_within}
use arema.Evidence.Envelope.{
  failed, EvidenceFinding, EvidenceEnvelope, max_limitation_chars, is_valid_envelope, envelope_json,
  failed_evidence_envelope,
}
use arema.Evidence.Envelope.Begins.{Begins, append_nil}
use arema.Evidence.Envelope.Parse.{Readers, parse_evidence_envelope}
use arema.Evidence.Envelope.Salvaging.{salvage_evidence_envelope}
use arema.Evidence.Envelope.Parsed.{
  IsValidOf, SalvagedOf, parse_evidence_envelope-Given, salvage_evidence_envelope-Given,
}
use arema.Evidence.Output.{
  Normalized, salvage_codes, with_limitations, salvaged, normalized, as_valid, accumulator_key,
  kept_pass, prior_evidence, accumulated, merge_evidence_envelopes,
}
use arema.Evidence.Output.Merge.{merge_evidence_envelopes-some, with_limitations-Given}

-- The findings of the running best, where the stage accumulates.
abbrev pub best_findings : Bool → Option EvidenceEnvelope → List EvidenceFinding
best_findings false prior = []
best_findings true none = []
best_findings true (some e) = e.findings

-- The pass gave evidence: what the model wrote is read strictly, or is salvaged.
abbrev pub is_usable : Readers → (ℕ → String) → String → String → Json → Bool
is_usable readers show id stage raw =
    is_some (parse_evidence_envelope readers raw id) || is_some (salvaged readers show raw id stage)

module _ (readers : Readers) (show : ℕ → String) (id stage : String)
    (canonical : is_artifact_id id ≡ true)
    (short : is_within max_limitation_chars (stage ++ (":" ++ "evidence_envelope_invalid"))
      ≡ true) where
  salvaged-Given : (raw : Json) → Given (IsValidOf readers id) (salvaged readers show raw id stage)
  salvaged-Given raw =
      bind-Given (SalvagedOf readers id) (IsValidOf readers id)
        (salvage_evidence_envelope readers raw id)
        (λ s. with_limitations s.envelope (salvage_codes show stage s.dropped s.rebound))
        (salvage_evidence_envelope-Given readers raw id)
        (λ s v.
          with_limitations-Given readers id s.envelope
            (salvage_codes show stage s.dropped s.rebound) v)

  failed_envelope : EvidenceEnvelope
  failed_envelope = record {
    artifact_id = id;
    coverage = record {
      status = failed;
      surfaces = [];
      limitations = (stage ++ (":" ++ "evidence_envelope_invalid")) ∷ [];
    };
    findings = [];
    flow = none;
    verdict = none;
  }

  failed-some :
      (failed_evidence_envelope readers.floats id stage "evidence_envelope_invalid"
        ≡ some failed_envelope)
      × IsValidOf readers id failed_envelope
  unfolding failed_evidence_envelope failed_envelope
  failed-some = (
    ap (λ b. require b >>= make) canonical
        ∙ ap (λ b. if b then some failed_envelope else none) valid,
    (valid, refl),
  )
    where
      valid : is_valid_envelope readers.floats failed_envelope ≡ true
      valid = rw (canonical, short) refl

      make : Unit {0} → Option EvidenceEnvelope
      make u =
          if is_valid_envelope readers.floats failed_envelope then some failed_envelope else none

  pub normalized-some :
      (raw : Json)
      → (new : Normalized) × (normalized readers show raw id stage ≡ some new)
        × IsValidOf readers id new.envelope
        × (new.is_valid ≡ is_usable readers show id stage raw)
  normalized-some raw =
      by_strict (parse_evidence_envelope readers raw id)
        (parse_evidence_envelope-Given readers raw id)
    where
      fallback : Option Normalized
      fallback =
          failed_evidence_envelope readers.floats id stage "evidence_envelope_invalid"
          >>= (λ e. some (record { envelope = e; is_valid = false }))

      by_salvage :
          (o : Option EvidenceEnvelope)
          → Given (IsValidOf readers id) o
          → (new : Normalized) × ((elim o [
            | some e ↦ some (as_valid readers show e)
            | none ↦ fallback
          ])
              ≡ some new)
            × IsValidOf readers id new.envelope
            × (new.is_valid ≡ is_some o)
      by_salvage (some e) v = (as_valid readers show e, refl, v, refl)
      by_salvage none v = (
        record { envelope = failed_envelope; is_valid = false },
        ap (λ o. o >>= (λ e. some (record { envelope = e; is_valid = false }))) failed-some.0,
        failed-some.1,
        refl,
      )

      by_strict :
          (o : Option EvidenceEnvelope)
          → Given (IsValidOf readers id) o
          → (new : Normalized) × ((elim o [
            | some e ↦ some (as_valid readers show e)
            | none ↦ elim (salvaged readers show raw id stage) [
              | some e ↦ some (as_valid readers show e)
              | none ↦ fallback
            ]
          ])
              ≡ some new)
            × IsValidOf readers id new.envelope
            × (new.is_valid ≡ (is_some o || is_some (salvaged readers show raw id stage)))
      by_strict (some e) v = (as_valid readers show e, refl, v, refl)
      by_strict none v = by_salvage (salvaged readers show raw id stage) (salvaged-Given raw)

  -- What is kept of a pass.
  unfoldable pub Accumulates : Option EvidenceEnvelope → EvidenceEnvelope → Type 0
  Accumulates prior e = IsValidOf readers id e × Begins (best_findings true prior) e.findings

  if-Kept :
      (prior : Option EvidenceEnvelope) (b : Bool) (x y : EvidenceEnvelope × State)
      → Accumulates prior x.0
      → Accumulates prior y.0
      → Accumulates prior (if b then x else y).0
  if-Kept prior true x y h k = h
  if-Kept prior false x y h k = k

  pub accumulated-Accumulates :
      (state : State) (output_key : String) (prior : Option EvidenceEnvelope) (new : Normalized)
      → Given (IsValidOf readers id) prior
      → IsValidOf readers id new.envelope
      → Accumulates prior (accumulated readers show state output_key prior new).0
  unfolding Accumulates
  accumulated-Accumulates state output_key none new p v =
      if-Kept none new.is_valid
        (kept_pass readers show state output_key new.envelope (some new.envelope))
        (new.envelope, state) (v, (new.envelope.findings, refl)) (v, (new.envelope.findings, refl))
  accumulated-Accumulates state output_key (some prior) new p v =
      if-Kept (some prior) new.is_valid
        (kept_pass readers show state output_key new.envelope
          (merge_evidence_envelopes prior new.envelope))
        (prior, state)
        (merged_pass (merge_evidence_envelopes-some readers id prior new.envelope p v))
        (p, ([], append_nil prior.findings))
    where
      merged_pass :
          ((e : EvidenceEnvelope) × (merge_evidence_envelopes prior new.envelope ≡ some e)
            × IsValidOf readers id e
            × Begins prior.findings e.findings)
          → IsValidOf readers id
              (kept_pass readers show state output_key new.envelope
                (merge_evidence_envelopes prior new.envelope)).0
            × Begins prior.findings
                (kept_pass readers show state output_key new.envelope
                  (merge_evidence_envelopes prior new.envelope)).0.findings
      merged_pass (e, m, ve, be) = rw m (ve, be)

  -- A usable pass is kept as the running best; any other leaves it.
  pub accumulated-writes :
      (state : State) (output_key : String) (prior : Option EvidenceEnvelope) (new : Normalized)
      → Given (IsValidOf readers id) prior
      → IsValidOf readers id new.envelope
      → (accumulated readers show state output_key prior new).1 ≡ (
          if new.is_valid
          then insert
              (accumulator_key output_key)
              (envelope_json (accumulated readers show state output_key prior new).0)
              state
          else state)
  accumulated-writes state output_key none new p v = elim (Bool-cases new.is_valid) [
    | inl q ↦ rw q refl
    | inr q ↦ rw q refl
  ]
  accumulated-writes state output_key (some prior) new p v =
      let (e, m, _, _) = merge_evidence_envelopes-some readers id prior new.envelope p v in
      elim (Bool-cases new.is_valid) [ inl q ↦ rw (q, m) refl | inr q ↦ rw q refl ]

  pub prior-Given :
      (state : State) (output_key : String)
      → Given (IsValidOf readers id) (prior_evidence readers show state output_key id)
  prior-Given state output_key = by_raw (value_at (accumulator_key output_key) state)
    where
      by_raw :
          (raw : Json)
          → Given
              (IsValidOf readers id)
              (elim raw [ null ↦ none | v ↦ parse_evidence_envelope readers v id ])
      by_raw null = tt
      by_raw v = parse_evidence_envelope-Given readers v id
