-- ===== src/Evidence/Envelope/Parse.antt =====
-- The strict parser of src/reverse_engineering/evidence_envelope.py. A `ValueError` is
-- `none`.
use arema.Prelude.{
  ℕ, String, Bool, true, false, ◌||◌, Option, none, some, List, [], ◌∷◌, ◌==◌, keep, every,
  contains, if◌then◌else◌,
}
use arema.Prelude.Json.{
  Json, arr, obj, Fields, end, field, field_names, as_str, as_obj, get_or_null, has_exactly,
  items_list,
}
use arema.Recovery.ModelJson.{JsonTools, ◌>>=◌, require, loads_model_json}
use arema.Recovery.Plan.{is_artifact_id}
use arema.Evidence.Flow.{sanitize_execution_flow}
use arema.Evidence.Verdict.{sanitize_verdict}
use arema.Evidence.Envelope.{
  Floats, status_of, FindingKind, kind_of, EvidenceCoverage, EvidenceFinding, EvidenceEnvelope,
  are_bounded, max_surfaces, max_limitations, max_surface_chars, max_limitation_chars,
  checked_finding, checked_envelope,
}

-- MAX_EVIDENCE_STRING_CODEPOINTS * 12 + MAX_ENVELOPE_JSON_STRUCTURE_CHARS
abbrev pub max_raw_evidence_json_chars : ℕ
max_raw_evidence_json_chars = 22593372

-- What the parsers call: the JSON tools, the floats, and `str.lower`.
pub record Readers : Type 0 where
  pub json : JsonTools
  pub floats : Floats
  pub lower : String → String

abbrev pub as_arr : Json → Option (List Json)
as_arr (arr items) = some (items_list items)
as_arr v = none

-- A list of texts only.
abbrev pub all_texts : List Json → Option (List String)
all_texts [] = some []
all_texts (v ∷ vs) = do text ← as_str v; texts ← all_texts vs; some (text ∷ texts)

abbrev pub texts_within : ℕ → ℕ → Json → Option (List String)
texts_within max_chars cap v = do
  items ← as_arr v
  texts ← all_texts items
  _ ← require (are_bounded max_chars cap texts)
  some texts

abbrev pub kind_at : Fields → Option FindingKind
kind_at fields = as_str (get_or_null "kind" fields) >>= kind_of

-- EvidenceCoverage.model_validate
unfoldable pub coverage_of : Json → Option EvidenceCoverage
coverage_of v = do
  fields ← as_obj v
  _ ← require (has_exactly ("status" ∷ "surfaces" ∷ "limitations" ∷ []) fields)
  status ← as_str (get_or_null "status" fields) >>= status_of
  surfaces ← texts_within max_surface_chars max_surfaces (get_or_null "surfaces" fields)
  limitations ← texts_within max_limitation_chars max_limitations (get_or_null "limitations" fields)
  some (record { status = status; surfaces = surfaces; limitations = limitations })

abbrev pub finding_keys : List String
finding_keys = "artifact_id" ∷ "claim" ∷ "tool" ∷ "confidence" ∷ "detail" ∷ "kind" ∷ []

-- A strict float: pydantic takes an integer for one, but no Boolean and no text.
abbrev pub as_float : Floats → Json → Option String
as_float floats (Json.float text) = some text
as_float floats (Json.int n) = floats.of_int n
as_float floats v = none

-- The one object of a list that has the keys; else the value as it is.
abbrev pub has_keys : List String → Json → Bool
has_keys names (obj fields) = every (contains (field_names fields)) names
has_keys names v = false

abbrev pub sole_object_with : List String → Json → Json
sole_object_with names (arr items) = sole (keep (has_keys names) (items_list items))
  where
    sole : List Json → Json
    sole (candidate ∷ []) = candidate
    sole candidates = arr items
sole_object_with names v = v

abbrev pub judgement_keys : List String
judgement_keys = "flow" ∷ "verdict" ∷ []

-- {key: value for key, value in raw.items() if key not in names}
unfoldable pub without : List String → Fields → Fields
without names end = end
without names (field k v fields) =
    let rest = without names fields in if contains names k then rest else field k v rest

-- Whether a judgement is there to be split off.
abbrev pub has_judgement : Fields → Bool
has_judgement fields =
    contains (field_names fields) "flow" || contains (field_names fields) "verdict"

module _ (readers : Readers) where
  -- EvidenceFinding.model_validate
  unfoldable pub finding_of : Json → Option EvidenceFinding
  finding_of v = do
    fields ← as_obj v
    _ ← require (has_exactly finding_keys fields)
    artifact_id ← as_str (get_or_null "artifact_id" fields)
    claim ← as_str (get_or_null "claim" fields)
    tool ← as_str (get_or_null "tool" fields)
    confidence ← as_float readers.floats (get_or_null "confidence" fields)
    detail ← as_str (get_or_null "detail" fields)
    kind ← kind_at fields
    checked_finding readers.floats (record {
      artifact_id = artifact_id;
      claim = claim;
      tool = tool;
      confidence = confidence;
      detail = detail;
      kind = kind;
    })

  abbrev pub findings_of : List Json → Option (List EvidenceFinding)
  findings_of [] = some []
  findings_of (v ∷ vs) = do f ← finding_of v; fs ← findings_of vs; some (f ∷ fs)

  -- EvidenceEnvelope.model_validate, of a value that has no judgement
  unfoldable pub envelope_of : Json → Option EvidenceEnvelope
  envelope_of v = do
    fields ← as_obj v
    _ ← require (has_exactly ("artifact_id" ∷ "coverage" ∷ "findings" ∷ []) fields)
    artifact_id ← as_str (get_or_null "artifact_id" fields)
    coverage ← coverage_of (get_or_null "coverage" fields)
    raw_findings ← as_arr (get_or_null "findings" fields)
    findings ← findings_of raw_findings
    checked_envelope readers.floats (record {
      artifact_id = artifact_id;
      coverage = coverage;
      findings = findings;
      flow = none;
      verdict = none;
    })

  -- `_split_judgements`, the validation of the remainder, and the judgements that are put back
  abbrev pub judged_envelope : Json → Option EvidenceEnvelope
  judged_envelope (obj raw) = elim (has_judgement raw) [
    | true ↦ do
      e ← envelope_of (obj (without judgement_keys raw))
      some (record e {
        flow = sanitize_execution_flow (get_or_null "flow" raw);
        verdict = sanitize_verdict readers.lower (get_or_null "verdict" raw);
      })
    | false ↦ envelope_of (obj raw)
  ]
  judged_envelope raw = envelope_of raw

  unfoldable pub parse_evidence_envelope : Json → String → Option EvidenceEnvelope
  parse_evidence_envelope raw id = do
    _ ← require (is_artifact_id id)
    decoded ← loads_model_json readers.json max_raw_evidence_json_chars raw
    e ← judged_envelope (sole_object_with ("coverage" ∷ "findings" ∷ []) decoded)
    _ ← require (e.artifact_id == id)
    some e
