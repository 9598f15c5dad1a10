-- ===== src/Runtime/TurnLimit.antt =====
-- src/arema/runtime/callbacks/turn_limit.py: the callback that runs before every model call. Of the
-- session state only the turn counters are kept, by agent; `Settings` has limits of one and more.
pub mod Exact
use arema.Prelude.{ℕ, ◌+◌, String, Option, none, some, ltb, if◌then◌else◌}
use arema.Prelude.Dict.{Dict, lookup, insert}

pub record Settings : Type 0 where
  pub default_turn_limit : ℕ
  pub agent_turn_limits : Dict ℕ

-- What the callback does: nothing, append the directive to the request, or answer for the model.
pub data Verdict : Type 0 where
  proceed soft_stop hard_stop : Verdict

abbrev pub grace_turns : ℕ
grace_turns = 2

-- d.get(k, default)
abbrev pub get_or : Option ℕ → ℕ → ℕ
get_or none d = d
get_or (some n) d = n

abbrev pub limit_of : Settings → String → ℕ
limit_of settings agent_name =
    get_or (lookup agent_name settings.agent_turn_limits) settings.default_turn_limit

abbrev pub verdict_at : ℕ → ℕ → Verdict
verdict_at turn_count limit =
    if ltb turn_count limit
    then proceed
    else if ltb turn_count (limit + grace_turns)
    then soft_stop
    else hard_stop

unfoldable pub enforce_turn_limit : Settings → String → Dict ℕ → Verdict × Dict ℕ
enforce_turn_limit settings agent_name turns =
    let turn_count = get_or (lookup agent_name turns) 0 + 1 in
    (verdict_at turn_count (limit_of settings agent_name), insert agent_name turn_count turns)
