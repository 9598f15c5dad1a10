-- ===== src/Evidence/Output.antt =====
-- The after-agent normalization of src/reverse_engineering/agents/evidence_output.py: the strict parse, the
-- salvage or the failed envelope, and the accumulation over the passes of a loop. An exception is `none`;
-- what is only logged is left out.
pub mod Merge
pub mod Passes
pub mod Sound
use Prim.Native.String.{◌++◌}
use arema.Prelude.{
  ℕ, String, Bool, true, false, not, ◌&&◌, ◌||◌, Option, none, some, List, [], ◌∷◌, ◌==◌, eqb,
  append_one, take, contains, if◌then◌else◌,
}
use arema.Prelude.Dict.{lookup, insert}
use arema.Prelude.Json.{Json, null, str, as_str}
use arema.Workbench.State.{State, current_artifact_key}
use arema.Recovery.ModelJson.{◌>>=◌}
use arema.Recovery.Plan.{value_at}
use arema.Evidence.Envelope.{
  EvidenceCoverage, EvidenceFinding, EvidenceEnvelope, max_findings, max_surfaces, max_limitations,
  kind_text, is_valid_coverage, failed_evidence_envelope, envelope_json,
}
use arema.Evidence.Envelope.Parse.{Readers, parse_evidence_envelope}
use arema.Evidence.Envelope.Salvaging.{SalvagedEnvelope, salvage_evidence_envelope}

-- `_dedupe_identity` of two findings is the same.
abbrev pub same_identity : EvidenceFinding → EvidenceFinding → Bool
same_identity f g =
    f.tool == g.tool
    && (f.claim == g.claim && (f.detail == g.detail && kind_text f.kind == kind_text g.kind))

abbrev pub has_seen : List EvidenceFinding → EvidenceFinding → Bool
has_seen [] f = false
has_seen (g ∷ gs) f = same_identity g f || has_seen gs f

-- The items that are not there yet, each once and in order, after a list.
unfoldable pub append_new : List String → List String → List String
append_new merged [] = merged
append_new merged (item ∷ items) = elim (contains merged item) [
  | true ↦ append_new merged items
  | false ↦ append_new (append_one merged item) items
]

-- `_bounded_union`
abbrev pub bounded_union : List String → List String → ℕ → List String
bounded_union first second cap = take cap (append_new (append_new [] first) second)

-- Findings whose identity is not there yet, after those of a list.
unfoldable pub append_unseen : List EvidenceFinding → List EvidenceFinding → List EvidenceFinding
append_unseen findings [] = findings
append_unseen findings (f ∷ fs) = elim (has_seen findings f) [
  | true ↦ append_unseen findings fs
  | false ↦ append_unseen (append_one findings f) fs
]

-- The constructor of a coverage, which validates.
abbrev pub checked_coverage : EvidenceCoverage → Option EvidenceCoverage
checked_coverage c = if is_valid_coverage c then some c else none

-- `_merge_evidence_envelopes`
unfoldable pub merge_evidence_envelopes :
    EvidenceEnvelope → EvidenceEnvelope → Option EvidenceEnvelope
merge_evidence_envelopes prior new = do
  coverage ← checked_coverage (record {
    status = new.coverage.status;
    surfaces = bounded_union prior.coverage.surfaces new.coverage.surfaces max_surfaces;
    limitations = bounded_union prior.coverage.limitations new.coverage.limitations max_limitations;
  })
  some (record new {
    coverage = coverage;
    findings = take max_findings (append_unseen prior.findings new.findings);
  })

-- `_with_limitations`
unfoldable pub with_limitations : EvidenceEnvelope → List String → Option EvidenceEnvelope
with_limitations e extra = do
  coverage ← checked_coverage (record {
    status = e.coverage.status;
    surfaces = e.coverage.surfaces;
    limitations = take max_limitations (append_new e.coverage.limitations extra);
  })
  some (record e { coverage = coverage })

-- `show` is `str` of a number.
abbrev pub salvage_codes : (ℕ → String) → String → ℕ → Bool → List String
salvage_codes show stage dropped rebound =
    let moved = if rebound then (stage ++ ":evidence_rebound") ∷ [] else [] in
    if eqb dropped 0 then moved else (stage ++ (":findings_dropped:" ++ show dropped)) ∷ moved

-- The envelope to store, and whether it is the model's.
pub record Normalized : Type 0 where
  pub envelope : EvidenceEnvelope
  pub is_valid : Bool

abbrev pub accumulator_key : String → String
accumulator_key output_key = "temp:evidence_accum:" ++ output_key

module _ (readers : Readers) (show : ℕ → String) where
  -- `_salvaged`
  abbrev pub salvaged : Json → String → String → Option EvidenceEnvelope
  salvaged raw artifact_id stage = do
    s ← salvage_evidence_envelope readers raw artifact_id
    with_limitations s.envelope (salvage_codes show stage s.dropped s.rebound)

  abbrev pub as_valid : EvidenceEnvelope → Normalized
  as_valid e = record { envelope = e; is_valid = true }

  -- The strict parse, else the salvage, else the failed envelope.
  abbrev pub normalized : Json → String → String → Option Normalized
  normalized raw artifact_id stage = elim (parse_evidence_envelope readers raw artifact_id) [
    | some e ↦ some (as_valid e)
    | none ↦ elim (salvaged raw artifact_id stage) [
      | some e ↦ some (as_valid e)
      | none ↦ do
        e ← failed_evidence_envelope readers.floats artifact_id stage "evidence_envelope_invalid"
        some (record { envelope = e; is_valid = false })
    ]
  ]

  -- The running best of the loop, if there is one that is usable.
  abbrev pub prior_evidence : State → String → String → Option EvidenceEnvelope
  prior_evidence state output_key artifact_id = prior (value_at (accumulator_key output_key) state)
    where
      prior : Json → Option EvidenceEnvelope
      prior null = none
      prior raw = parse_evidence_envelope readers raw artifact_id

  -- A pass of a loop that is kept. An exception in the merge keeps the new envelope, and the state.
  abbrev pub kept_pass :
      State → String → EvidenceEnvelope → Option EvidenceEnvelope → EvidenceEnvelope × State
  kept_pass state output_key new none = (new, state)
  kept_pass state output_key new (some e) =
      (e, insert (accumulator_key output_key) (envelope_json e) state)

  -- `_accumulate_stage_evidence`: the envelope and the state.
  abbrev pub accumulated :
      State → String → Option EvidenceEnvelope → Normalized → EvidenceEnvelope × State
  accumulated state output_key none new =
      if new.is_valid
      then kept_pass state output_key new.envelope (some new.envelope)
      else (new.envelope, state)
  accumulated state output_key (some prior) new =
      if new.is_valid
      then kept_pass state output_key new.envelope (merge_evidence_envelopes prior new.envelope)
      else (prior, state)

  abbrev pub stored : State → String → String → Bool → Normalized → State
  stored state output_key artifact_id false new =
      insert output_key (envelope_json new.envelope) state
  stored state output_key artifact_id true new =
      let (e, next) =
        accumulated state output_key (prior_evidence state output_key artifact_id) new in
      insert output_key (envelope_json e) next

  -- Without an artifact id, or with one that no envelope can have, the state is left as it is.
  unfoldable pub normalize_evidence_output : State → String → String → Bool → State
  normalize_evidence_output state output_key stage accumulate =
      elim (as_str (value_at current_artifact_key state)) [
        | none ↦ state
        | some artifact_id ↦ elim (normalized (value_at output_key state) artifact_id stage) [
          | none ↦ state
          | some new ↦ stored state output_key artifact_id accumulate new
        ]
      ]
