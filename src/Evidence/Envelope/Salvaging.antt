-- ===== src/Evidence/Envelope/Salvaging.antt =====
-- The salvaging parser of src/reverse_engineering/evidence_envelope.py. A `ValueError` is `none`.
use arema.Prelude.{
  ℕ, zero, suc, ◌+◌, ◌-◌, String, Bool, not, Option, none, some, List, [], ◌∷◌, ◌==◌, leb, take,
  length, keep, text_length, if◌then◌else◌,
}
use arema.Prelude.Json.{
  Json, null, str, obj, Fields, end, as_str, as_obj, get_or_null, list_or_empty,
}
use arema.Recovery.ModelJson.{◌>>=◌, require, loads_model_json}
use arema.Recovery.Plan.{is_artifact_id}
use arema.Evidence.Flow.{is_within, sanitize_execution_flow}
use arema.Evidence.Verdict.{sanitize_verdict}
use arema.Evidence.Envelope.{
  CoverageStatus, complete, partial, status_of, EvidenceCoverage, EvidenceFinding, EvidenceEnvelope,
  max_findings, max_surfaces, max_limitations, max_claim_chars, max_detail_chars, max_surface_chars,
  max_limitation_chars, max_tool_chars, checked_finding, checked_envelope, rebind_evidence_envelope,
}
use arema.Evidence.Envelope.Parse.{max_raw_evidence_json_chars, Readers, kind_at, sole_object_with}

-- A text that is read as empty where it is left out.
abbrev pub text_or_empty : Json → Option String
text_or_empty null = some ""
text_or_empty v = as_str v

-- Salvaged findings, and how many were dropped.
pub record SalvagedFindings : Type 0 where
  pub findings : List EvidenceFinding
  pub dropped : ℕ

pub record SalvagedEnvelope : Type 0 where
  pub envelope : EvidenceEnvelope
  pub dropped : ℕ
  pub rebound : Bool

abbrev pub kept_texts : List Json → List String
kept_texts [] = []
kept_texts (str s ∷ vs) = s ∷ kept_texts vs
kept_texts (v ∷ vs) = kept_texts vs

-- `_bounded_strings`
unfoldable pub bounded_strings : ℕ → ℕ → Json → List String
bounded_strings max_chars cap v =
    take cap (keep (is_within max_chars) (kept_texts (list_or_empty v)))

abbrev pub status_or_partial : Option CoverageStatus → CoverageStatus
status_or_partial none = partial
status_or_partial (some status) = status

-- A complete coverage is partial once a finding was dropped.
abbrev pub lowered : ℕ → CoverageStatus → CoverageStatus
lowered zero status = status
lowered (suc dropped) complete = partial
lowered (suc dropped) status = status

abbrev pub fields_or_empty : Json → Fields
fields_or_empty (obj fields) = fields
fields_or_empty v = end

abbrev pub salvaged_coverage : Fields → ℕ → EvidenceCoverage
salvaged_coverage coverage dropped = record {
  status =
      lowered dropped (status_or_partial (as_str (get_or_null "status" coverage) >>= status_of));
  surfaces = bounded_strings max_surface_chars max_surfaces (get_or_null "surfaces" coverage);
  limitations =
      bounded_strings max_limitation_chars max_limitations (get_or_null "limitations" coverage);
}

-- The envelope's own id where it is canonical, else the session's.
abbrev pub anchor_of : Fields → String → String
anchor_of raw id = own (as_str (get_or_null "artifact_id" raw))
  where
    own : Option String → String
    own none = id
    own (some own_id) = if is_artifact_id own_id then own_id else id

module _ (readers : Readers) where
  -- `_FindingInput.model_validate`; a null entry is one that is left out.
  abbrev pub coerced_finding : Json → Option EvidenceFinding
  coerced_finding v = do
    fields ← as_obj v
    artifact_id ← as_str (get_or_null "artifact_id" fields)
    _ ← require (is_artifact_id artifact_id)
    claim ← as_str (get_or_null "claim" fields)
    _ ← require (leb (text_length claim) max_claim_chars)
    tool ← as_str (get_or_null "tool" fields)
    _ ← require (leb (text_length tool) max_tool_chars)
    confidence ← readers.floats.to_float (get_or_null "confidence" fields)
    _ ← require (readers.floats.is_unit confidence)
    detail ← text_or_empty (get_or_null "detail" fields)
    _ ← require (leb (text_length detail) max_detail_chars)
    kind ← kind_at fields
    some (record {
      artifact_id = artifact_id;
      claim = claim;
      tool = tool;
      confidence = confidence;
      detail = detail;
      kind = kind;
    })

  -- The body of the loop over the raw findings; `none` is a finding that is dropped.
  unfoldable pub salvaged_finding : String → Json → Option EvidenceFinding
  salvaged_finding anchor v = do
    f ← coerced_finding v
    _ ← require (f.artifact_id == anchor)
    checked_finding readers.floats f

  unfoldable pub salvage_findings : String → ℕ → List Json → SalvagedFindings
  salvage_findings anchor dropped [] = record { findings = []; dropped = dropped }
  salvage_findings anchor dropped (v ∷ vs) = elim (salvaged_finding anchor v) [
    | none ↦ salvage_findings anchor (dropped + 1) vs
    | some f ↦
        let rest = salvage_findings anchor dropped vs in
        record { findings = f ∷ rest.findings; dropped = rest.dropped }
  ]

  -- From the findings that survive on.
  abbrev pub salvage_from : Fields → String → String → SalvagedFindings → Option SalvagedEnvelope
  salvage_from raw id anchor s = elim s.findings [
    | [] ↦ none
    | f ∷ fs ↦ do
      made ← checked_envelope readers.floats (record {
        artifact_id = anchor;
        coverage = salvaged_coverage (fields_or_empty (get_or_null "coverage" raw)) s.dropped;
        findings = f ∷ fs;
        flow = sanitize_execution_flow (get_or_null "flow" raw);
        verdict = sanitize_verdict readers.lower (get_or_null "verdict" raw);
      })
      e ← rebind_evidence_envelope readers.floats made id
      some (record { envelope = e; dropped = s.dropped; rebound = not (anchor == id) })
  ]

  abbrev pub salvage_object : Fields → String → Option SalvagedEnvelope
  salvage_object raw id = salvage_from raw id (anchor_of raw id) (
      salvage_findings (anchor_of raw id)
        (length (list_or_empty (get_or_null "findings" raw)) - max_findings)
        (take max_findings (list_or_empty (get_or_null "findings" raw))))

  unfoldable pub salvage_evidence_envelope : Json → String → Option SalvagedEnvelope
  salvage_evidence_envelope raw id = do
    _ ← require (is_artifact_id id)
    decoded ← loads_model_json readers.json max_raw_evidence_json_chars raw
    fields ← as_obj (sole_object_with ("coverage" ∷ "findings" ∷ []) decoded)
    salvage_object fields id
