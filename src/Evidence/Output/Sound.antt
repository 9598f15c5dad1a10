-- ===== src/Evidence/Output/Sound.antt =====
-- What `normalize_evidence_output` of src/reverse_engineering/agents/evidence_output.py stores.
use arema.Prelude.{String}
use arema.Prelude.Json.{Json}
use arema.Workbench.State.{State}
use arema.Evidence.Envelope.Begins.{Begins}
