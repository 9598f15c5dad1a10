-- ===== src/Runtime/Tests.antt =====
-- The turn limit of src/arema/runtime/callbacks/turn_limit.py on a short run of two agents.
use arema.Prelude.{suc, ◌-◌, String, ◌≡◌, refl, List, [], ◌∷◌}
use arema.Prelude.Dict.{lookup, insert}
use arema.Runtime.TurnLimit.{Settings, enforce_turn_limit, limit_of}
use arema.Runtime.TurnLimit.Exact.{model_calls, calls_of, smaller, turn_of, model_calls-exact}

abbrev settings : Settings
settings = record { default_turn_limit = 100; agent_turn_limits = ("triage", 2) ∷ [] }

abbrev short_run : List String
short_run = "triage" ∷ "report" ∷ "triage" ∷ "triage" ∷ "triage" ∷ "report" ∷ "triage" ∷ []

triage_stopped : model_calls settings "triage" short_run [] ≡ 3
unfolding model_calls enforce_turn_limit lookup insert
triage_stopped = refl

model_calls-exact_example :
    model_calls settings "triage" short_run []
    ≡ smaller (calls_of "triage" short_run) (suc (limit_of settings "triage") - turn_of "triage" [])
model_calls-exact_example = model_calls-exact settings "triage" short_run []
