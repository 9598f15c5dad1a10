-- ===== src/Evidence/Envelope.antt =====
-- The envelope of src/reverse_engineering/evidence_envelope.py and what its constructors refuse. A
-- `ValidationError` is `none`.
pub mod Begins
pub mod Parse
pub mod Parsed
pub mod Salvaging
pub mod Salvage
pub mod Rebind
pub mod RoundTrip
use Prim.Native.String.{◌++◌}
use arema.Prelude.{
  ℕ, String, Bool, true, false, ◌&&◌, ◌||◌, Option, none, some, List, [], ◌∷◌, ◌==◌, leb, eqb,
  length, every, every_char, text_length, if◌then◌else◌, map,
}
use arema.Prelude.Int.{ℤ}
use arema.Prelude.Json.{
  Json, null, float, str, arr, obj, Fields, end, field, as_str, as_obj, get_or_null, has_exactly,
  list_items, items_list,
}
use arema.Recovery.ModelJson.{◌>>=◌, require}
use arema.Recovery.Plan.{is_artifact_id}
use arema.Evidence.Flow.{ExecutionNode, ExecutionEdge, ExecutionFlow, is_within, is_valid_flow}
use arema.Evidence.Verdict.{
  VerdictClass, benign, grayware, malicious, undetermined, SampleVerdict, max_rationale_chars,
}

-- Floats: the test that one, given by its text, is in [0, 1], the float of an integer, if it has one, and the
-- float that pydantic reads from a value when it is not strict.
pub record Floats : Type 0 where
  pub is_unit : String → Bool
  pub of_int : ℤ → Option String
  pub to_float : Json → Option String

abbrev pub max_findings : ℕ
max_findings = 200

abbrev pub max_surfaces : ℕ
max_surfaces = 64

abbrev pub max_limitations : ℕ
max_limitations = 64

abbrev pub max_claim_chars : ℕ
max_claim_chars = 1000

abbrev pub max_detail_chars : ℕ
max_detail_chars = 8000

abbrev pub max_surface_chars : ℕ
max_surface_chars = 128

abbrev pub max_limitation_chars : ℕ
max_limitation_chars = 500

abbrev pub max_tool_chars : ℕ
max_tool_chars = 128

pub data CoverageStatus : Type 0 where
  complete partial failed : CoverageStatus

pub data FindingKind : Type 0 where
  metadata host_ioc network_ioc behavior attack limitation intel : FindingKind

abbrev pub status_text : CoverageStatus → String
status_text complete = "complete"
status_text partial = "partial"
status_text failed = "failed"

-- The enum by its value.
abbrev pub status_of : String → Option CoverageStatus
status_of s =
    if s == "complete"
    then some complete
    else if s == "partial"
    then some partial
    else if s == "failed"
    then some failed
    else none

abbrev pub kind_text : FindingKind → String
kind_text metadata = "metadata"
kind_text host_ioc = "host_ioc"
kind_text network_ioc = "network_ioc"
kind_text behavior = "behavior"
kind_text attack = "attack"
kind_text limitation = "limitation"
kind_text intel = "intel"

abbrev pub kind_of : String → Option FindingKind
kind_of s =
    if s == "metadata"
    then some metadata
    else if s == "host_ioc"
    then some host_ioc
    else if s == "network_ioc"
    then some network_ioc
    else if s == "behavior"
    then some behavior
    else if s == "attack"
    then some attack
    else if s == "limitation"
    then some limitation
    else if s == "intel"
    then some intel
    else none

pub record EvidenceCoverage : Type 0 where
  pub status : CoverageStatus
  pub surfaces : List String
  pub limitations : List String

pub record EvidenceFinding : Type 0 where
  pub artifact_id : String
  pub claim : String
  pub tool : String
  pub confidence : String
  pub detail : String
  pub kind : FindingKind

pub record EvidenceEnvelope : Type 0 where
  pub artifact_id : String
  pub coverage : EvidenceCoverage
  pub findings : List EvidenceFinding
  pub flow : Option ExecutionFlow
  pub verdict : Option SampleVerdict

-- So many texts at most, each of one character at least and so many at most.
abbrev pub are_bounded : ℕ → ℕ → List String → Bool
are_bounded max_chars cap texts = leb (length texts) cap && every (is_within max_chars) texts

abbrev pub is_valid_coverage : EvidenceCoverage → Bool
is_valid_coverage c =
    are_bounded max_surface_chars max_surfaces c.surfaces
    && are_bounded max_limitation_chars max_limitations c.limitations

abbrev pub has_valid_flow : Option ExecutionFlow → Bool
has_valid_flow none = true
has_valid_flow (some f) = is_valid_flow f.nodes f.edges

abbrev pub has_valid_verdict : Option SampleVerdict → Bool
has_valid_verdict none = true
has_valid_verdict (some v) = is_within max_rationale_chars v.rationale

-- `finding.model_copy(update={"artifact_id": artifact_id})`
abbrev pub anchored : String → EvidenceFinding → EvidenceFinding
anchored id f = record f { artifact_id = id }

module _ (floats : Floats) where
  abbrev pub is_valid_finding : EvidenceFinding → Bool
  is_valid_finding f =
      is_artifact_id f.artifact_id
      && (is_within max_claim_chars f.claim
          && (is_within max_tool_chars f.tool
              && (floats.is_unit f.confidence && leb (text_length f.detail) max_detail_chars)))

  -- A finding that an envelope of that artifact takes.
  abbrev pub is_finding_of : String → EvidenceFinding → Bool
  is_finding_of id f = is_valid_finding f && f.artifact_id == id

  abbrev pub is_valid_envelope : EvidenceEnvelope → Bool
  is_valid_envelope e =
      is_artifact_id e.artifact_id
      && (is_valid_coverage e.coverage
          && (leb (length e.findings) max_findings
              && (every (is_finding_of e.artifact_id) e.findings
                  && (has_valid_flow e.flow && has_valid_verdict e.verdict))))

  -- The constructor, which validates.
  abbrev pub checked_envelope : EvidenceEnvelope → Option EvidenceEnvelope
  checked_envelope e = if is_valid_envelope e then some e else none

  abbrev pub checked_finding : EvidenceFinding → Option EvidenceFinding
  checked_finding f = if is_valid_finding f then some f else none

  unfoldable pub rebind_evidence_envelope : EvidenceEnvelope → String → Option EvidenceEnvelope
  rebind_evidence_envelope e id = do
    _ ← require (is_artifact_id id)
    if e.artifact_id == id
        then some e
        else checked_envelope
            (record e { artifact_id = id; findings = map (anchored id) e.findings })

  unfoldable pub failed_evidence_envelope : String → String → String → Option EvidenceEnvelope
  failed_evidence_envelope id stage reason = do
    _ ← require (is_artifact_id id)
    checked_envelope (record {
      artifact_id = id;
      coverage = record {
        status = failed;
        surfaces = [];
        limitations = (stage ++ (":" ++ reason)) ∷ [];
      };
      findings = [];
      flow = none;
      verdict = none;
    })

-- model_dump(mode="json")
abbrev pub texts_json : List String → Json
texts_json texts = arr (list_items (map str texts))

abbrev pub finding_json : EvidenceFinding → Json
finding_json f = obj (
    field "artifact_id" (str f.artifact_id) (
      field "claim" (str f.claim) (
        field "tool" (str f.tool) (
          field "confidence" (float f.confidence)
            (field "detail" (str f.detail) (field "kind" (str (kind_text f.kind)) end))))))

abbrev pub coverage_json : EvidenceCoverage → Json
coverage_json c = obj (
    field "status" (str (status_text c.status)) (
      field "surfaces" (texts_json c.surfaces)
        (field "limitations" (texts_json c.limitations) end)))

abbrev pub flow_json : Option ExecutionFlow → Json
flow_json none = null
flow_json (some f) = obj (
    field "nodes" (arr (list_items (map node_json f.nodes)))
      (field "edges" (arr (list_items (map edge_json f.edges))) end))
  where
    node_json : ExecutionNode → Json
    node_json n =
        obj (field "id" (str n.id) (field "label" (str n.label) (field "tool" (str n.tool) end)))

    edge_json : ExecutionEdge → Json
    edge_json e =
        obj (field "src" (str e.src) (field "dst" (str e.dst) (field "label" (str e.label) end)))

abbrev pub verdict_json : Option SampleVerdict → Json
verdict_json none = null
verdict_json (some v) = obj (
    field "classification" (str (class_text v.classification))
      (field "rationale" (str v.rationale) end))
  where
    class_text : VerdictClass → String
    class_text benign = "benign"
    class_text grayware = "grayware"
    class_text malicious = "malicious"
    class_text undetermined = "undetermined"

abbrev pub envelope_fields : EvidenceEnvelope → Fields
envelope_fields e = field "artifact_id" (str e.artifact_id) (
    field "coverage" (coverage_json e.coverage) (
      field "findings" (arr (list_items (map finding_json e.findings)))
        (field "flow" (flow_json e.flow) (field "verdict" (verdict_json e.verdict) end))))

abbrev pub envelope_json : EvidenceEnvelope → Json
envelope_json e = obj (envelope_fields e)
