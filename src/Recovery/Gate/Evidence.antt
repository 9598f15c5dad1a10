-- ===== src/Recovery/Gate/Evidence.antt =====
-- `_build_evidence` and `_add_limitation` of src/reverse_engineering/agents/deobf_gate.py.
use Prim.Native.String.{◌++◌}
use arema.Prelude.{
  append_one, String, Bool, true, false, ◌&&◌, ◌||◌, Option, none, some, List, [], ◌∷◌, ◌==◌, leb,
  length, if◌then◌else◌,
}
use arema.Prelude.Json.{obj, Fields, get_or_null}
use arema.Recovery.ModelJson.{◌>>=◌}
use arema.Evidence.Envelope.{
  CoverageStatus, complete, partial, failed, metadata, EvidenceFinding, EvidenceEnvelope,
  max_findings, max_limitations, max_surfaces, checked_finding, checked_envelope,
}
use arema.Recovery.Gate.{
  GateTools, ToolOutcome, is_success, is_degraded, stable_append, stable_extend,
}
use arema.Recovery.Gate.Outcomes.{text_or}

-- An identity that a finding has already.
abbrev pub has_identity : List EvidenceFinding → String → String → Bool
has_identity [] tool detail = false
has_identity (f ∷ fs) tool detail =
    f.tool == tool && f.detail == detail || has_identity fs tool detail

abbrev pub prior_findings : Option EvidenceEnvelope → List EvidenceFinding
prior_findings none = []
prior_findings (some e) = e.findings

abbrev pub prior_surfaces : Option EvidenceEnvelope → List String
prior_surfaces none = []
prior_surfaces (some e) = e.coverage.surfaces

abbrev pub prior_limitations : Option EvidenceEnvelope → List String
prior_limitations none = []
prior_limitations (some e) = e.coverage.limitations

-- `f"{prefix}:{outcome.error_code}"` of a degraded outcome
abbrev pub note_degraded : String → ToolOutcome → List String → List String
note_degraded prefix outcome limitations =
    if is_degraded outcome.status
    then stable_append limitations (prefix ++ (":" ++ outcome.error_code)) max_limitations
    else limitations

abbrev pub note_surface : String → ToolOutcome → List String → List String
note_surface surface outcome surfaces =
    if is_success outcome.status then stable_append surfaces surface max_surfaces else surfaces

abbrev pub floss_claim : Fields → String
floss_claim r = "FLOSS recovered a " ++ (text_or "" (get_or_null "type" r) ++ " string.")

abbrev pub scripted_claim : Fields → String
scripted_claim r =
    "Recovered the packed payload via "
    ++ (text_or "" (get_or_null "format" r) ++ " static unpacking.")

abbrev pub de4dot_claim : Fields → String
de4dot_claim r =
    "de4dot deobfuscated a "
    ++ (text_or "" (get_or_null "obfuscator" r) ++ "-protected .NET assembly.")

abbrev pub is_nonempty {ℓ} : {A : Type ℓ} → List A → Bool
is_nonempty [] = false
is_nonempty (x ∷ xs) = true

abbrev pub status_for : List String → Bool → CoverageStatus
status_for [] usable = complete
status_for (l ∷ limitations) true = partial
status_for (l ∷ limitations) false = failed

-- An envelope without judgements.
abbrev pub plain_envelope :
    String → CoverageStatus → List String → List String → List EvidenceFinding → EvidenceEnvelope
plain_envelope artifact_id status surfaces limitations findings = record {
  artifact_id = artifact_id;
  coverage = record { status = status; surfaces = surfaces; limitations = limitations };
  findings = findings;
  flow = none;
  verdict = none;
}

abbrev pub limited_envelope : EvidenceEnvelope → String → EvidenceEnvelope
limited_envelope e limitation =
    plain_envelope e.artifact_id
      (if is_nonempty e.findings || is_nonempty e.coverage.surfaces then partial else failed)
      e.coverage.surfaces (stable_append e.coverage.limitations limitation max_limitations)
      e.findings

module _ (tools : GateTools) where
  -- The finding of one record.
  abbrev pub record_finding : String → String → (Fields → String) → Fields → EvidenceFinding
  record_finding artifact_id tool claim r = record {
    artifact_id = artifact_id;
    claim = claim r;
    tool = tool;
    confidence = "1.0";
    detail = tools.sorted_dumps (obj r);
    kind = metadata;
  }

  -- The loop over the records of a tool: an identity that is there, or a full list, is passed over.
  unfoldable pub add_records :
      String
      → String
      → (Fields → String)
      → List Fields
      → List EvidenceFinding
      → Option (List EvidenceFinding)
  add_records artifact_id tool claim [] findings = some findings
  add_records artifact_id tool claim (r ∷ rs) findings =
      elim (has_identity findings tool (tools.sorted_dumps (obj r))
        || leb max_findings (length findings)) [
          | true ↦ add_records artifact_id tool claim rs findings
          | false ↦
              checked_finding tools.readers.floats (record_finding artifact_id tool claim r)
              >>= (λ f. add_records artifact_id tool claim rs (append_one findings f))
        ]

  abbrev pub records_of : ToolOutcome → List Fields
  records_of outcome = if is_success outcome.status then outcome.records else []

  abbrev pub evidence_limitations :
      List String → Option EvidenceEnvelope → ToolOutcome → ToolOutcome → ToolOutcome → List String
  evidence_limitations summary previous upx floss de4dot = note_degraded "de4dot" de4dot (
      note_degraded "floss" floss (
        note_degraded "upx" upx (
          stable_extend (stable_extend [] summary max_limitations) (prior_limitations previous)
            max_limitations)))

  abbrev pub evidence_surfaces :
      Option EvidenceEnvelope → ToolOutcome → ToolOutcome → ToolOutcome → List String
  evidence_surfaces previous floss scripted de4dot = note_surface "de4dot" de4dot (
      note_surface "scripted_recover" scripted
        (note_surface "floss_decode" floss (prior_surfaces previous)))

  -- The envelope, validated.
  abbrev pub assembled :
      String → List String → List String → List EvidenceFinding → Option EvidenceEnvelope
  assembled artifact_id surfaces limitations findings = checked_envelope tools.readers.floats (
      plain_envelope artifact_id
        (status_for limitations (is_nonempty findings || is_nonempty surfaces)) surfaces limitations
        findings)

  abbrev pub evidence_findings :
      String
      → Option EvidenceEnvelope
      → ToolOutcome
      → ToolOutcome
      → ToolOutcome
      → Option (List EvidenceFinding)
  evidence_findings artifact_id previous floss scripted de4dot = do
    with_floss ←
        add_records artifact_id "floss_decode" floss_claim (records_of floss)
          (prior_findings previous)
    with_scripted ←
        add_records artifact_id "scripted_recover" scripted_claim (records_of scripted) with_floss
    add_records artifact_id "de4dot" de4dot_claim (records_of de4dot) with_scripted

  unfoldable pub build_evidence :
      String
      → Option EvidenceEnvelope
      → List String
      → ToolOutcome
      → ToolOutcome
      → ToolOutcome
      → ToolOutcome
      → Option EvidenceEnvelope
  build_evidence artifact_id previous summary upx floss scripted de4dot =
      evidence_findings artifact_id previous floss scripted de4dot
      >>= assembled artifact_id (evidence_surfaces previous floss scripted de4dot)
          (evidence_limitations summary previous upx floss de4dot)

  unfoldable pub add_limitation : EvidenceEnvelope → String → Option EvidenceEnvelope
  add_limitation e limitation =
      checked_envelope tools.readers.floats (limited_envelope e limitation)
