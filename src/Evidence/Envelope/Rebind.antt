-- ===== src/Evidence/Envelope/Rebind.antt =====
-- `rebind_evidence_envelope` of src/reverse_engineering/evidence_envelope.py on valid envelopes.
use arema.Prelude.{
  String, true, ◌≡◌, refl, ap, sym, ◌∙◌, inl, inr, arith, Bool-cases, none, some, List, [], ◌∷◌,
  ◌==◌, eq_iff, eq_refl, every, map, length, if◌then◌else◌,
}
use arema.Recovery.ModelJson.{◌>>=◌, require}
use arema.Recovery.Plan.{is_artifact_id}
use arema.Evidence.Envelope.{
  Floats, EvidenceFinding, EvidenceEnvelope, is_finding_of, is_valid_envelope, checked_envelope,
  anchored, rebind_evidence_envelope,
}

-- The envelope, with its findings, under another id.
abbrev pub rebound : String → EvidenceEnvelope → EvidenceEnvelope
rebound id e = record e { artifact_id = id; findings = map (anchored id) e.findings }

length-map : (id : String) (fs : List EvidenceFinding) → length (map (anchored id) fs) ≡ length fs
length-map id [] = refl
length-map id (f ∷ fs) = omega (arith, length-map id fs)

anchored-anchored :
    (a b : String) (fs : List EvidenceFinding)
    → map (anchored b) (map (anchored a) fs) ≡ map (anchored b) fs
anchored-anchored a b [] = refl
anchored-anchored a b (f ∷ fs) = ap (λ gs. anchored b f ∷ gs) (anchored-anchored a b fs)

every-own :
    (id : String) (fs : List EvidenceFinding)
    → every (λ (f : EvidenceFinding). f.artifact_id == id) (map (anchored id) fs) ≡ true
every-own id [] = refl
every-own id (f ∷ fs) = rw (eq_refl id) (every-own id fs)

module _ (floats : Floats) where
  every-anchored :
      (old id : String) (fs : List EvidenceFinding)
      → is_artifact_id id ≡ true
      → every (is_finding_of floats old) fs ≡ true
      → every (is_finding_of floats id) (map (anchored id) fs) ≡ true
  every-anchored old id [] c h = refl
  every-anchored old id (f ∷ fs) c h = ground (arith, every-anchored old id fs, eq_refl id)

  anchored-same :
      (id : String) (fs : List EvidenceFinding)
      → every (is_finding_of floats id) fs ≡ true
      → map (anchored id) fs ≡ fs
  anchored-same id [] h = refl
  anchored-same id (f ∷ fs) h =
      ap (λ i. record f { artifact_id = i } ∷ map (anchored id) fs)
        (sym ((eq_iff f.artifact_id id).0 (ground arith)))
      ∙ ap (λ gs. f ∷ gs) (anchored-same id fs (ground arith))

  rebound-IsValid :
      (e : EvidenceEnvelope) (id : String)
      → is_artifact_id id ≡ true
      → is_valid_envelope floats e ≡ true
      → is_valid_envelope floats (rebound id e) ≡ true
  rebound-IsValid e id c h =
      ground (arith, every-anchored e.artifact_id id e.findings, length-map id e.findings)

  -- A valid envelope is bound to any canonical artifact, whether or not that is its own: the result is
  -- the envelope with that id in it and in each finding, else as it was, and it is valid.
  pub rebind_evidence_envelope-rebound :
      (e : EvidenceEnvelope) (id : String)
      → is_artifact_id id ≡ true
      → is_valid_envelope floats e ≡ true
      → (rebind_evidence_envelope floats e id ≡ some (rebound id e))
        × (is_valid_envelope floats (rebound id e) ≡ true)
  unfolding rebind_evidence_envelope
  rebind_evidence_envelope-rebound e id c h = (
    ap
          (λ o. o >>= (λ _.
            if e.artifact_id == id then some e else checked_envelope floats (rebound id e)))
          (ap require c)
        ∙ bound,
    rebound-IsValid e id c h,
  )
    where
      made : checked_envelope floats (rebound id e) ≡ some (rebound id e)
      made = ap (λ b. if b then some (rebound id e) else none) (rebound-IsValid e id c h)

      same : (e.artifact_id == id) ≡ true → e ≡ rebound id e
      same q =
          let at : e.artifact_id ≡ id = (eq_iff e.artifact_id id).0 q in
          ap (λ fs. record e { findings = fs })
            (sym (anchored-same e.artifact_id e.findings (ground arith)))
          ∙ ap (λ i. rebound i e) at

      bound :
          (if e.artifact_id == id then some e else checked_envelope floats (rebound id e))
          ≡ some (rebound id e)
      bound = elim (Bool-cases (e.artifact_id == id)) [
        | inl q ↦ rw q (ap some (same q))
        | inr q ↦ rw q made
      ]

  -- A valid envelope is bound to any canonical artifact `a`: the result and each of its findings have that id,
  -- the findings are the old ones but for their ids, the coverage, the flow and the verdict are the old ones,
  -- and it is valid. Bound to a second artifact, it is what the old envelope bound to that one is.
  pub rebind-rebind :
      (e : EvidenceEnvelope) (a b : String)
      → is_artifact_id a ≡ true
      → is_artifact_id b ≡ true
      → is_valid_envelope floats e ≡ true
      → (e' : EvidenceEnvelope) × (rebind_evidence_envelope floats e a ≡ some e')
        × (e'.artifact_id ≡ a)
        × (every (λ f. f.artifact_id == a) e'.findings ≡ true)
        × (map (anchored e.artifact_id) e'.findings ≡ e.findings)
        × (e'.coverage ≡ e.coverage)
        × (e'.flow ≡ e.flow)
        × (e'.verdict ≡ e.verdict)
        × (is_valid_envelope floats e' ≡ true)
        × (rebind_evidence_envelope floats e' b ≡ rebind_evidence_envelope floats e b)
  rebind-rebind e a b ca cb h = (
    rebound a e,
    (rebind_evidence_envelope-rebound e a ca h).0,
    refl,
    every-own a e.findings,
    anchored-anchored a e.artifact_id e.findings
        ∙ anchored-same e.artifact_id e.findings (ground arith),
    refl,
    refl,
    refl,
    rebound-IsValid e a ca h,
    (rebind_evidence_envelope-rebound (rebound a e) b cb (rebound-IsValid e a ca h)).0
        ∙ ap (λ fs. some (record e { artifact_id = b; findings = fs }))
            (anchored-anchored a b e.findings)
        ∙ sym (rebind_evidence_envelope-rebound e b cb h).0,
  )
