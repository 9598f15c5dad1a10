-- ===== src/Evidence/Envelope/RoundTrip.antt =====
-- Evidence that src/reverse_engineering/evidence_envelope.py reads back from its own dump.
use arema.Prelude.{
  ℕ, String, true, ◌≡◌, refl, ap, arith, none, some, List, [], ◌∷◌, eq_refl, every, map,
}
use arema.Prelude.Json.{Json, str, arr, obj, get_field, list_items, items_list}
use arema.Recovery.ModelJson.{loads_model_json}
use arema.Recovery.Plan.{is_artifact_id}
use arema.Evidence.Flow.{sanitize_execution_flow}
use arema.Evidence.Verdict.{sanitize_verdict}
use arema.Evidence.Envelope.{
  CoverageStatus, complete, partial, failed, status_text, status_of, FindingKind, metadata,
  host_ioc, network_ioc, behavior, attack, limitation, intel, kind_text, kind_of, EvidenceCoverage,
  EvidenceFinding, EvidenceEnvelope, are_bounded, is_valid_coverage, is_valid_finding,
  is_finding_of, max_surface_chars, max_surfaces, max_limitation_chars, max_limitations,
  is_valid_envelope, finding_json, coverage_json, flow_json, verdict_json, envelope_fields,
  envelope_json,
}
use arema.Evidence.Envelope.Parse.{
  Readers, all_texts, texts_within, coverage_of, finding_of, findings_of, envelope_of, without,
  judgement_keys, parse_evidence_envelope,
}

pub items_list-list_items : (vs : List Json) → items_list (list_items vs) ≡ vs
items_list-list_items [] = refl
items_list-list_items (v ∷ vs) = ap (λ ws. v ∷ ws) (items_list-list_items vs)

pub all_texts-map : (texts : List String) → all_texts (map str texts) ≡ some texts
all_texts-map [] = refl
all_texts-map (t ∷ ts) = rw (all_texts-map ts) refl

status_of-status_text : (s : CoverageStatus) → status_of (status_text s) ≡ some s
status_of-status_text complete = refl
status_of-status_text partial = refl
status_of-status_text failed = refl

kind_of-kind_text : (k : FindingKind) → kind_of (kind_text k) ≡ some k
kind_of-kind_text metadata = refl
kind_of-kind_text host_ioc = refl
kind_of-kind_text network_ioc = refl
kind_of-kind_text behavior = refl
kind_of-kind_text attack = refl
kind_of-kind_text limitation = refl
kind_of-kind_text intel = refl

texts_within-dump :
    (max_chars cap : ℕ) (texts : List String)
    → are_bounded max_chars cap texts ≡ true
    → texts_within max_chars cap (arr (list_items (map str texts))) ≡ some texts
texts_within-dump max_chars cap texts h =
    rw (items_list-list_items (map str texts), all_texts-map texts, h) refl

coverage_of-dump :
    (c : EvidenceCoverage) → is_valid_coverage c ≡ true → coverage_of (coverage_json c) ≡ some c
unfolding coverage_of get_field
coverage_of-dump c h =
    rw
      (
        status_of-status_text c.status,
        texts_within-dump max_surface_chars max_surfaces c.surfaces (ground arith),
        texts_within-dump max_limitation_chars max_limitations c.limitations (ground arith),
      )
      refl

module _ (readers : Readers) where
  finding_of-dump :
      (f : EvidenceFinding)
      → is_valid_finding readers.floats f ≡ true
      → finding_of readers (finding_json f) ≡ some f
  unfolding finding_of get_field
  finding_of-dump f h = rw (kind_of-kind_text f.kind, h) refl

  findings_of-dump :
      (id : String) (fs : List EvidenceFinding)
      → every (is_finding_of readers.floats id) fs ≡ true
      → findings_of readers (map finding_json fs) ≡ some fs
  findings_of-dump id [] h = refl
  findings_of-dump id (f ∷ fs) h =
      rw (finding_of-dump f (ground arith), findings_of-dump id fs (ground arith)) refl

  envelope_of-dump :
      (e : EvidenceEnvelope)
      → is_valid_envelope readers.floats e ≡ true
      → envelope_of readers (obj (without judgement_keys (envelope_fields e)))
        ≡ some (record e { flow = none; verdict = none })
  unfolding envelope_of get_field without
  envelope_of-dump e h =
      rw
        (
          coverage_of-dump e.coverage (ground arith),
          items_list-list_items (map finding_json e.findings),
          findings_of-dump e.artifact_id e.findings (ground arith),
          bare,
        )
        refl
    where
      bare : is_valid_envelope readers.floats (record e { flow = none; verdict = none }) ≡ true
      bare = ground arith

  -- The dump of a valid envelope is read back, under its own artifact id, as that envelope, but for the
  -- flow and the verdict, which are those that are recovered from their dumps.
  pub parse_evidence_envelope-dump :
      (e : EvidenceEnvelope)
      → is_valid_envelope readers.floats e ≡ true
      → parse_evidence_envelope readers (envelope_json e) e.artifact_id
        ≡ some (record e {
          flow = sanitize_execution_flow (flow_json e.flow);
          verdict = sanitize_verdict readers.lower (verdict_json e.verdict);
        })
  unfolding parse_evidence_envelope loads_model_json get_field
  parse_evidence_envelope-dump e h =
      rw (canonical, envelope_of-dump e h, eq_refl e.artifact_id) refl
    where
      canonical : is_artifact_id e.artifact_id ≡ true
      canonical = ground arith
