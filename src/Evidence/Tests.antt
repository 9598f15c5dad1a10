-- ===== src/Evidence/Tests.antt =====
-- An envelope with one finding that is malformed, its strict parse and its salvage; a flow with a node
-- that is declared twice; and texts that are cleaned (src/reverse_engineering).
use arema.Prelude.{
  ◌+◌, ◌≤◌, String, true, ◌≡◌, ◌≢◌, ◌⊎◌, refl, Option, none, some, [], ◌∷◌, ◌==◌, every, every_char,
  keep, take, contains, map, length, text_length, lstrip, rstrip, is_blank, take_text,
  if◌then◌else◌,
}
use arema.Prelude.Int.{ℤ, pos}
use arema.Prelude.Json.{
  Json, null, int, float, str, arr, obj, nil, item, Fields, end, field, get_or_null, list_or_empty,
  get_field,
}
use arema.Recovery.ModelJson.{JsonTools, loads_model_json}
use arema.Evidence.CleanText.{unsafe_in_label, is_kept, clean_text, collapse, blank_out}
use arema.Evidence.CleanText.Safe.{clean_text-safe}
use arema.Evidence.Flow.{
  ExecutionFlow, collect_nodes, collect_edges, max_flow_nodes, is_valid_flow,
  sanitize_execution_flow, no_flow, flow, filter_flow_by_cited_tools,
}
use arema.Evidence.Flow.Valid.{sanitize_execution_flow-valid}
use arema.Evidence.Flow.Cited.{filter_flow_by_cited_tools-valid}
use arema.Evidence.Verdict.{grayware, sanitize_verdict, verdict_label}
use arema.Evidence.Envelope.{
  Floats, complete, partial, metadata, EvidenceFinding, EvidenceEnvelope, finding_json,
  coverage_json, envelope_json, flow_json, verdict_json, is_valid_envelope, anchored,
  rebind_evidence_envelope,
}
use arema.Evidence.Envelope.Parse.{
  Readers, parse_evidence_envelope, envelope_of, coverage_of, finding_of, without,
}
use arema.Evidence.Envelope.Salvaging.{
  SalvagedEnvelope, salvage_evidence_envelope, salvage_object, salvage_findings, salvaged_finding,
  bounded_strings,
}
use arema.Evidence.Envelope.RoundTrip.{parse_evidence_envelope-dump}
use arema.Evidence.Envelope.Rebind.{rebind-rebind}
use arema.Evidence.Envelope.Salvage.Sound.{survivors, salvage_object_sound}

-- The floats that the tests have.
abbrev pub two_floats : Floats
two_floats = record { is_unit = λ s. s == "0.5"; of_int = half; to_float = unit_or_none }
  where
    half : ℤ → Option String
    half n = some "0.5"

    unit_or_none : Json → Option String
    unit_or_none (float s) = some s
    unit_or_none (int (pos n)) = some "0.5"
    unit_or_none v = none

abbrev plain_json : JsonTools
plain_json = record {
  fence_body = λ s. none;
  loads = λ s. none;
  repair_json = λ s. "";
  dumps = λ v. "";
}

abbrev pub readers : Readers
readers = record {
  json = plain_json;
  floats = two_floats;
  lower = λ s. if s == "GRAYWARE" then "grayware" else s;
}

abbrev pub id_a : String
id_a = "aaaaaaaaaaaaaaaaaaaaaaaaaaaaaaaaaaaaaaaaaaaaaaaaaaaaaaaaaaaaaaaa"

abbrev pub id_b : String
id_b = "bbbbbbbbbbbbbbbbbbbbbbbbbbbbbbbbbbbbbbbbbbbbbbbbbbbbbbbbbbbbbbbb"

abbrev pub strings_found : EvidenceFinding
strings_found = record {
  artifact_id = id_a;
  claim = "It is packed.";
  tool = "detect_it_easy";
  confidence = "0.5";
  detail = "UPX";
  kind = metadata;
}

abbrev pub one_finding : EvidenceEnvelope
one_finding = record {
  artifact_id = id_a;
  coverage = record { status = complete; surfaces = "headers" ∷ []; limitations = [] };
  findings = strings_found ∷ [];
  flow = none;
  verdict = none;
}

-- A finding without a detail, which is salvaged, and one of another artifact, which is not.
abbrev pub loose_fields : Fields
loose_fields = field "artifact_id" (str id_a) (
    field "coverage" (coverage_json one_finding.coverage) (
      field "findings" (arr (item lenient (item (finding_json (anchored id_b strings_found)) nil)))
        (field "verdict"
          (obj (field "classification" (str " GRAYWARE ") (field "rationale" (str "{packed}") end)))
          end)))
  where
    lenient : Json
    lenient = obj (
        field "artifact_id" (str id_a) (
          field "claim" (str "It is packed.") (
            field "tool" (str "detect_it_easy") (
              field "confidence" (int (pos 1))
                (field "detail" null (field "kind" (str "metadata") end))))))

-- The strict parser refuses the detail that is left out, and takes a whole number for the confidence.
strict_refuses : parse_evidence_envelope readers (obj loose_fields) id_a ≡ none
unfolding parse_evidence_envelope envelope_of coverage_of finding_of every_char loads_model_json
    get_field without
strict_refuses = refl

whole_confidence :
    finding_of readers (
      obj (
        field "artifact_id" (str id_a) (
          field "claim" (str "It is packed.") (
            field "tool" (str "detect_it_easy") (
              field "confidence"
                (int (pos 1))
                (field "detail" (str "UPX") (field "kind" (str "metadata") end)))))))
    ≡ some strings_found
unfolding finding_of every_char get_field
whole_confidence = refl

salvaged_packed :
    salvage_evidence_envelope readers (obj loose_fields) id_b
    ≡ some (record {
      envelope = record {
        artifact_id = id_b;
        coverage = record { status = partial; surfaces = "headers" ∷ []; limitations = [] };
        findings = record strings_found { artifact_id = id_b; detail = "" } ∷ [];
        flow = none;
        verdict = some (record { classification = grayware; rationale = "packed" });
      };
      dropped = 1;
      rebound = true;
    })
unfolding salvage_evidence_envelope every_char loads_model_json salvage_findings get_field
    salvaged_finding bounded_strings sanitize_execution_flow sanitize_verdict lstrip rstrip is_blank
    clean_text take_text collapse blank_out rebind_evidence_envelope collect_edges collect_nodes
salvaged_packed = refl

salvage_object_sound_example :
    ((survivors readers loose_fields id_b).findings ≡ [])
      × (salvage_object readers loose_fields id_b ≡ none)
    ⊎ ((r : SalvagedEnvelope) × (salvage_object readers loose_fields id_b ≡ some r)
        × (is_valid_envelope two_floats r.envelope ≡ true)
        × (r.envelope.artifact_id ≡ id_b)
        × (r.envelope.findings ≡ map (anchored id_b) (survivors readers loose_fields id_b).findings)
        × (length (survivors readers loose_fields id_b).findings + r.dropped
            ≡ length (list_or_empty (get_or_null "findings" loose_fields)))
        × ((r.dropped ≡ 0) ⊎ (r.envelope.coverage.status ≢ complete)))
unfolding every_char
salvage_object_sound_example = salvage_object_sound readers loose_fields id_b refl

parse_evidence_envelope-dump_example :
    parse_evidence_envelope readers (envelope_json one_finding) id_a
    ≡ some (record one_finding {
      flow = sanitize_execution_flow (flow_json none);
      verdict = sanitize_verdict readers.lower (verdict_json none);
    })
unfolding every_char
parse_evidence_envelope-dump_example = parse_evidence_envelope-dump readers one_finding refl

rebind-rebind_example :
    (e : EvidenceEnvelope) × (rebind_evidence_envelope two_floats one_finding id_b ≡ some e)
    × (e.artifact_id ≡ id_b)
    × (every (λ f. f.artifact_id == id_b) e.findings ≡ true)
    × (map (anchored id_a) e.findings ≡ strings_found ∷ [])
    × (e.coverage ≡ one_finding.coverage)
    × (e.flow ≡ none)
    × (e.verdict ≡ none)
    × (is_valid_envelope two_floats e ≡ true)
    × (rebind_evidence_envelope two_floats e id_a
        ≡ rebind_evidence_envelope two_floats one_finding id_a)
unfolding every_char
rebind-rebind_example = rebind-rebind two_floats one_finding id_b id_a refl refl refl

-- A flow whose second node has the id of the first, and an edge to a node that is not there.
abbrev drawn : Fields
drawn =
    field "nodes"
      (arr (
        item (node "a" "Unpack <UPX>" "floss")
          (item (node "a" "again" "floss") (item (node "b" "Connect" "radare2") nil))))
      (field "edges" (arr (item (edge "a" "b") (item (edge "a" "c") nil))) end)
  where
    node : String → String → String → Json
    node id label tool =
        obj (field "id" (str id) (field "label" (str label) (field "tool" (str tool) end)))

    edge : String → String → Json
    edge src dst = obj (field "src" (str src) (field "dst" (str dst) end))

abbrev drawn_flow : ExecutionFlow
drawn_flow = record {
  nodes =
      record { id = "a"; label = "Unpack UPX"; tool = "floss" }
      ∷ record { id = "b"; label = "Connect"; tool = "radare2" }
      ∷ [];
  edges = record { src = "a"; dst = "b"; label = "" } ∷ [];
}

sanitized_drawing : sanitize_execution_flow (obj drawn) ≡ some drawn_flow
unfolding sanitize_execution_flow collect_nodes collect_edges get_field every_char clean_text
    take_text collapse blank_out lstrip rstrip is_blank
sanitized_drawing = refl

sanitize_execution_flow-valid_example :
    (collect_nodes (take max_flow_nodes (list_or_empty (get_or_null "nodes" drawn))) [] ≡ [])
      × (sanitize_execution_flow (obj drawn) ≡ none)
    ⊎ ((f : ExecutionFlow) × (sanitize_execution_flow (obj drawn) ≡ some f)
        × (f.nodes
            ≡ collect_nodes (take max_flow_nodes (list_or_empty (get_or_null "nodes" drawn))) [])
        × (is_valid_flow f.nodes f.edges ≡ true))
sanitize_execution_flow-valid_example = sanitize_execution_flow-valid drawn

filter_flow_by_cited_tools-valid_example :
    (keep (λ n. contains ("floss" ∷ []) n.tool) drawn_flow.nodes ≡ [])
      × (filter_flow_by_cited_tools (some drawn_flow) ("floss" ∷ []) ≡ no_flow)
    ⊎ ((g : ExecutionFlow) × (filter_flow_by_cited_tools (some drawn_flow) ("floss" ∷ []) ≡ flow g)
        × (g.nodes ≡ keep (λ n. contains ("floss" ∷ []) n.tool) drawn_flow.nodes)
        × (every (λ n. contains ("floss" ∷ []) n.tool) g.nodes ≡ true)
        × (is_valid_flow g.nodes g.edges ≡ true))
unfolding every_char
filter_flow_by_cited_tools-valid_example =
    filter_flow_by_cited_tools-valid drawn_flow ("floss" ∷ []) refl

clean_text-safe_example :
    (text_length (clean_text unsafe_in_label 6 "a{ b  \"c\"") ≤ 6)
    × (every_char (is_kept unsafe_in_label) (clean_text unsafe_in_label 6 "a{ b  \"c\"") ≡ true)
clean_text-safe_example = clean_text-safe unsafe_in_label 6 "a{ b  \"c\"" refl

bare_label : verdict_label none ≡ "UNDETERMINED"
bare_label = refl
