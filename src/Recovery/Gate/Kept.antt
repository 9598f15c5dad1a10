-- ===== src/Recovery/Gate/Kept.antt =====
-- The evidence that src/reverse_engineering/agents/deobf_gate.py builds keeps what was found before.
use arema.Prelude.{
  ℕ, arith, every, length-append, if◌then◌else◌, append_one, String, Bool, true, false, ◌||◌, ◌≡◌,
  refl, ap, subst, ◌∙◌, inl, inr, Option, none, some, List, [], ◌∷◌, leb, length, Bool-cases,
}
use arema.Prelude.Json.{obj, Fields}
use arema.Recovery.ModelJson.{◌>>=◌, Given, bind-Given, made}
use arema.Evidence.Flow.{is_within}
use arema.Evidence.Envelope.{
  are_bounded, max_limitation_chars, max_limitations, EvidenceFinding, EvidenceEnvelope,
  max_findings, is_valid_envelope, checked_finding, checked_envelope,
}
use arema.Evidence.Envelope.Begins.{Begins, append_nil, Begins-trans}
use arema.Recovery.Gate.{GateTools, ToolOutcome, stable_append}
use arema.Recovery.Gate.Evidence.{
  has_identity, prior_findings, floss_claim, scripted_claim, de4dot_claim, record_finding,
  add_records, records_of, assembled, plain_envelope, limited_envelope, status_for, is_nonempty,
  evidence_limitations, evidence_surfaces, evidence_findings, build_evidence, add_limitation,
}
use arema.Recovery.Gate.Decide.{limited}

every-append_one :
    (p : String → Bool) (xs : List String) (x : String)
    → every p xs ≡ true
    → p x ≡ true
    → every p (append_one xs x) ≡ true
every-append_one p [] x h q = ground arith
every-append_one p (y ∷ xs) x h q = ground (arith, every-append_one p xs x)

stable_append-are_bounded :
    (max_chars cap : ℕ) (items : List String) (v : String)
    → is_within max_chars v ≡ true
    → are_bounded max_chars cap items ≡ true
    → are_bounded max_chars cap (stable_append items v cap) ≡ true
stable_append-are_bounded max_chars cap items v w h =
    ground (arith, every-append_one (is_within max_chars) items v, length-append items (v ∷ []))

module _ (tools : GateTools) where
  -- A valid envelope of that artifact, whose findings begin with the prior ones.
  abbrev pub Keeps : String → List EvidenceFinding → EvidenceEnvelope → Type 0
  Keeps artifact_id prior e =
      (is_valid_envelope tools.readers.floats e ≡ true)
      × (e.artifact_id ≡ artifact_id)
      × Begins prior e.findings

  add_records-Begins :
      (artifact_id tool : String) (claim : Fields → String) (rs : List Fields)
      (findings : List EvidenceFinding)
      → Given (Begins findings) (add_records tools artifact_id tool claim rs findings)
  unfolding add_records
  add_records-Begins artifact_id tool claim [] findings = ([], append_nil findings)
  add_records-Begins artifact_id tool claim (r ∷ rs) findings =
      by_seen
        (has_identity findings tool (tools.sorted_dumps (obj r))
          || leb max_findings (length findings))
        (add_records-Begins artifact_id tool claim rs findings)
        (λ fs. add_records-Begins artifact_id tool claim rs fs)
    where
      longer :
          (f : EvidenceFinding) (o : Option (List EvidenceFinding))
          → Given (Begins (append_one findings f)) o
          → Given (Begins findings) o
      longer f none g = tt
      longer f (some fs) g = Begins-trans findings (append_one findings f) fs (f ∷ [], refl) g

      by_seen :
          (b : Bool)
          → Given (Begins findings) (add_records tools artifact_id tool claim rs findings)
          → ((fs : List EvidenceFinding)
              → Given (Begins fs) (add_records tools artifact_id tool claim rs fs))
          → Given (Begins findings) (elim b [
            | true ↦ add_records tools artifact_id tool claim rs findings
            | false ↦
                checked_finding tools.readers.floats (record_finding tools artifact_id tool claim r)
                >>= (λ f. add_records tools artifact_id tool claim rs (append_one findings f))
          ])
      by_seen true same more = same
      by_seen false same more =
          bind-Given (λ _. Unit {0}) (Begins findings)
            (checked_finding tools.readers.floats (record_finding tools artifact_id tool claim r))
            (λ f. add_records tools artifact_id tool claim rs (append_one findings f))
            (made (
              checked_finding tools.readers.floats (record_finding tools artifact_id tool claim r)))
            (λ f _.
              longer f (add_records tools artifact_id tool claim rs (append_one findings f))
                (more (append_one findings f)))

  checked_envelope-Given :
      (e : EvidenceEnvelope)
      → Given
          (λ e'. (e' ≡ e) × (is_valid_envelope tools.readers.floats e' ≡ true))
          (checked_envelope tools.readers.floats e)
  checked_envelope-Given e = elim (Bool-cases (is_valid_envelope tools.readers.floats e)) [
    | inl q ↦ rw q (refl, q)
    | inr q ↦ rw q tt
  ]

  -- A made envelope with these findings keeps what they begin with.
  checked_envelope-Keeps :
      (prior : List EvidenceFinding) (e : EvidenceEnvelope)
      → Begins prior e.findings
      → Given (Keeps e.artifact_id prior) (checked_envelope tools.readers.floats e)
  checked_envelope-Keeps prior e b =
      keep (checked_envelope tools.readers.floats e) (checked_envelope-Given e)
    where
      keep :
          (o : Option EvidenceEnvelope)
          → Given (λ e'. (e' ≡ e) × (is_valid_envelope tools.readers.floats e' ≡ true)) o
          → Given (Keeps e.artifact_id prior) o
      keep none g = tt
      keep (some e') (same, valid) =
          (valid, ap (λ x. x.artifact_id) same, (b.0, ap (λ x. x.findings) same ∙ b.1))

  evidence_findings-Begins :
      (artifact_id : String) (previous : Option EvidenceEnvelope)
      (floss scripted de4dot : ToolOutcome)
      → Given
          (Begins (prior_findings previous))
          (evidence_findings tools artifact_id previous floss scripted de4dot)
  evidence_findings-Begins artifact_id previous floss scripted de4dot =
      bind-Given (Begins prior) (Begins prior)
        (add_records tools artifact_id "floss_decode" floss_claim (records_of tools floss) prior)
        (λ fs.
          add_records tools artifact_id "scripted_recover" scripted_claim
            (records_of tools scripted) fs
          >>= (λ gs.
              add_records tools artifact_id "de4dot" de4dot_claim (records_of tools de4dot) gs))
        (add_records-Begins artifact_id "floss_decode" floss_claim (records_of tools floss) prior)
        (λ fs b.
          bind-Given (Begins prior) (Begins prior)
            (add_records tools artifact_id "scripted_recover" scripted_claim
              (records_of tools scripted) fs)
            (λ gs. add_records tools artifact_id "de4dot" de4dot_claim (records_of tools de4dot) gs)
            (from _ fs b (
              add_records-Begins artifact_id "scripted_recover" scripted_claim
                (records_of tools scripted) fs))
            (λ gs c.
              from _ gs c (
                add_records-Begins artifact_id "de4dot" de4dot_claim (records_of tools de4dot) gs)))
    where
      prior : List EvidenceFinding
      prior = prior_findings previous

      from :
          (o : Option (List EvidenceFinding)) (fs : List EvidenceFinding)
          → Begins prior fs
          → Given (Begins fs) o
          → Given (Begins prior) o
      from none fs b g = tt
      from (some gs) fs b g = Begins-trans prior fs gs b g

  pub build_evidence-Keeps :
      (artifact_id : String) (previous : Option EvidenceEnvelope) (summary : List String)
      (upx floss scripted de4dot : ToolOutcome)
      → Given
          (Keeps artifact_id (prior_findings previous))
          (build_evidence tools artifact_id previous summary upx floss scripted de4dot)
  unfolding build_evidence
  build_evidence-Keeps artifact_id previous summary upx floss scripted de4dot =
      bind-Given (Begins (prior_findings previous)) (Keeps artifact_id (prior_findings previous))
        (evidence_findings tools artifact_id previous floss scripted de4dot)
        (assembled tools artifact_id (evidence_surfaces tools previous floss scripted de4dot)
          (evidence_limitations tools summary previous upx floss de4dot))
        (evidence_findings-Begins artifact_id previous floss scripted de4dot)
        (λ fs b.
          checked_envelope-Keeps (prior_findings previous)
            (plain_envelope artifact_id
              (status_for limitations (is_nonempty fs || is_nonempty surfaces)) surfaces limitations
              fs)
            b)
    where
      surfaces : List String
      surfaces = evidence_surfaces tools previous floss scripted de4dot

      limitations : List String
      limitations = evidence_limitations tools summary previous upx floss de4dot

  pub limited-Keeps :
      (b : Bool) (limitation artifact_id : String) (prior : List EvidenceFinding)
      (e : EvidenceEnvelope)
      → Keeps artifact_id prior e
      → Given (Keeps artifact_id prior) (limited tools b limitation e)
  unfolding add_limitation
  limited-Keeps false limitation artifact_id prior e k = k
  limited-Keeps true limitation artifact_id prior e (valid, own, b) =
      subst (λ id. Given (Keeps id prior) (add_limitation tools e limitation)) own
        (checked_envelope-Keeps prior (limited_envelope e limitation) b)

  -- A limitation that fits is always added.
  pub limited-made :
      (b : Bool) (limitation : String) (e : EvidenceEnvelope)
      → is_within max_limitation_chars limitation ≡ true
      → is_valid_envelope tools.readers.floats e ≡ true
      → (e' : EvidenceEnvelope) × (limited tools b limitation e ≡ some e')
  unfolding add_limitation
  limited-made false limitation e w h = (e, refl)
  limited-made true limitation e w h = (
    limited_envelope e limitation,
    ap (λ b. if b then some (limited_envelope e limitation) else none) valid,
  )
    where
      limitations : List String
      limitations = e.coverage.limitations

      bounded :
          are_bounded max_limitation_chars max_limitations
            (stable_append limitations limitation max_limitations)
          ≡ true
      bounded =
          stable_append-are_bounded max_limitation_chars max_limitations limitations limitation w
            (ground arith)

      valid : is_valid_envelope tools.readers.floats (limited_envelope e limitation) ≡ true
      valid = ground (arith, bounded)
