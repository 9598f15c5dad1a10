-- ===== src/Recovery/Plan/RoundTrip.antt =====
-- The classification that src/reverse_engineering/tools/deobfuscation/state.py writes and reads.
use arema.Prelude.{String, true, ◌≡◌, refl, some, contains}
use arema.Prelude.Dict.{insert, lookup-insert}
use arema.Prelude.Json.{Json, str, as_obj, get_field}
use arema.Workbench.State.{State}
use arema.Recovery.Keys
use arema.Recovery.ModelJson.{JsonTools, ◌>>=◌, loads_model_json, max_model_json_chars}
use arema.Recovery.Plan.{
  DeobfPlan, is_artifact_id, classification_json, plan_of, parse_classification,
  advance_classification_artifact,
}

plan_of-classification :
    (plan : DeobfPlan) (id : String)
    → is_artifact_id id ≡ true
    → contains Keys.obf_classes plan.obf_class ≡ true
    → (as_obj (classification_json plan id) >>= plan_of) ≡ some (record plan { artifact_id = id })
unfolding plan_of get_field
plan_of-classification plan id h k = rw (h, k) refl

-- A classification with a known class, advanced to another artifact, reads back as it was but for the
-- artifact, when the JSON tools read back the text that they wrote for it.
pub advance-parse :
    (tools : JsonTools) (state : State) (plan : DeobfPlan) (id : String)
    → is_artifact_id id ≡ true
    → contains Keys.obf_classes plan.obf_class ≡ true
    → loads_model_json tools max_model_json_chars (str (tools.dumps (classification_json plan id)))
      ≡ some (classification_json plan id)
    → (next : State) × (advance_classification_artifact tools state plan id ≡ some next)
      × (parse_classification tools next ≡ some (record plan { artifact_id = id }))
unfolding advance_classification_artifact parse_classification
advance-parse tools state plan id h k read = (
  insert Keys.classification_key written state,
  rw h refl,
  rw (lookup-insert Keys.classification_key Keys.classification_key written state, read)
      (plan_of-classification plan id h k),
)
  where
    written : Json
    written = str (tools.dumps (classification_json plan id))
