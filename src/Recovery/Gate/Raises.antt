-- ===== src/Recovery/Gate/Raises.antt =====
-- A record whose JSON is longer than a finding's detail may be, in src/reverse_engineering/agents/deobf_gate.py.
use arema.Prelude.{
  append_one, ◌<◌, String, true, false, ◌||◌, ◌≡◌, refl, ap, ◌∙◌, arith, Option, none, some, List,
  ◌∷◌, leb, length, text_length, if◌then◌else◌,
}
use arema.Prelude.Json.{obj, Fields}
use arema.Recovery.ModelJson.{◌>>=◌}
use arema.Evidence.Envelope.{
  EvidenceFinding, EvidenceEnvelope, max_findings, max_detail_chars, is_valid_finding,
  checked_finding,
}
use arema.Recovery.Gate.{GateTools, ToolOutcome, success}
use arema.Recovery.Gate.Evidence.{
  has_identity, prior_findings, floss_claim, scripted_claim, de4dot_claim, record_finding,
  add_records, records_of, evidence_surfaces, evidence_limitations, assembled, build_evidence,
}

module _ (tools : GateTools) where
  long_is_refused :
      (artifact_id tool : String) (claim : Fields → String) (r : Fields)
      → max_detail_chars < text_length (tools.sorted_dumps (obj r))
      → checked_finding tools.readers.floats (record_finding tools artifact_id tool claim r) ≡ none
  long_is_refused artifact_id tool claim r h =
      ap (λ b. if b then some (record_finding tools artifact_id tool claim r) else none) invalid
    where
      invalid :
          is_valid_finding tools.readers.floats (record_finding tools artifact_id tool claim r)
          ≡ false
      invalid = ground arith

  add_records_raises :
      (artifact_id tool : String) (claim : Fields → String) (r : Fields) (rs : List Fields)
      (findings : List EvidenceFinding)
      → has_identity findings tool (tools.sorted_dumps (obj r)) ≡ false
      → length findings < max_findings
      → max_detail_chars < text_length (tools.sorted_dumps (obj r))
      → add_records tools artifact_id tool claim (r ∷ rs) findings ≡ none
  unfolding add_records
  add_records_raises artifact_id tool claim r rs findings fresh room long =
      ap
        (λ b. elim b [
          | true ↦ add_records tools artifact_id tool claim rs findings
          | false ↦ added
        ])
        is_new
      ∙ ap (λ o. o >>= rest) (long_is_refused artifact_id tool claim r long)
    where
      rest : EvidenceFinding → Option (List EvidenceFinding)
      rest f = add_records tools artifact_id tool claim rs (append_one findings f)

      added : Option (List EvidenceFinding)
      added =
          checked_finding tools.readers.floats (record_finding tools artifact_id tool claim r)
          >>= rest

      full : leb max_findings (length findings) ≡ false
      full = ground arith

      is_new :
          (has_identity findings tool (tools.sorted_dumps (obj r))
            || leb max_findings (length findings))
          ≡ false
      is_new = rw (fresh, full) refl

  -- Where FLOSS succeeded and its first record is new, room is left, and the record's JSON has more than 8000
  -- characters, no evidence is built: the constructor of the finding raises.
  pub build_evidence_raises :
      (artifact_id : String) (previous : Option EvidenceEnvelope) (summary : List String)
      (upx floss scripted de4dot : ToolOutcome) (r : Fields) (rs : List Fields)
      → floss.status ≡ success
      → floss.records ≡ r ∷ rs
      → has_identity (prior_findings previous) "floss_decode" (tools.sorted_dumps (obj r)) ≡ false
      → length (prior_findings previous) < max_findings
      → max_detail_chars < text_length (tools.sorted_dumps (obj r))
      → build_evidence tools artifact_id previous summary upx floss scripted de4dot ≡ none
  unfolding build_evidence
  build_evidence_raises artifact_id previous summary upx floss scripted de4dot r rs ok first fresh
        room long =
      ap (λ o. o >>= with_floss >>= finish)
        (ap (λ records. add_records tools artifact_id "floss_decode" floss_claim records prior) new
          ∙ add_records_raises artifact_id "floss_decode" floss_claim r rs prior fresh room long)
    where
      prior : List EvidenceFinding
      prior = prior_findings previous

      new : records_of tools floss ≡ r ∷ rs
      new = rw (ok, first) refl

      with_floss : List EvidenceFinding → Option (List EvidenceFinding)
      with_floss fs =
          add_records tools artifact_id "scripted_recover" scripted_claim
            (records_of tools scripted) fs
          >>= (λ gs.
              add_records tools artifact_id "de4dot" de4dot_claim (records_of tools de4dot) gs)

      finish : List EvidenceFinding → Option EvidenceEnvelope
      finish =
          assembled tools artifact_id (evidence_surfaces tools previous floss scripted de4dot)
            (evidence_limitations tools summary previous upx floss de4dot)
