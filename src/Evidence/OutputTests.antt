-- ===== src/Evidence/OutputTests.antt =====
-- A looped stage (src/reverse_engineering/agents/evidence_output.py) whose last pass wrote prose.
use arema.Prelude.{ℕ, String, [], ◌∷◌}
use arema.Prelude.Json.{str}
use arema.Workbench.State.{State, current_artifact_key}
use arema.Evidence.Tests.{id_a, one_finding}
use arema.Evidence.Envelope.{envelope_json}
use arema.Evidence.Envelope.Begins.{Begins}

abbrev show_some : ℕ → String
show_some n = "some"

abbrev prose : State
prose =
    (current_artifact_key, str id_a)
    ∷ ("deep_evidence_json", str "Analysis complete.")
    ∷ ("temp:evidence_accum:deep_evidence_json", envelope_json one_finding)
    ∷ []
