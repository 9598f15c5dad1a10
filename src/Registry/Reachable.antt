-- ===== src/Registry/Reachable.antt =====
-- `_validate_reachable_agents` of src/arema/registry/catalog.py. `pending` has its last element, the
-- one that `pop` takes, at the head; the set `reachable` is the list of its elements.
pub mod Covers
pub mod Decide
use arema.Prelude.{
  ℕ, zero, suc, String, Bool, true, false, Option, none, some, List, [], ◌∷◌, ◌==◌, contains,
  if◌then◌else◌,
}
use arema.Prelude.Dict.{lookup, keys}
use arema.Registry.Descriptors.{AgentDescriptor, Agents, key_error, unreachable, Checked, ok, err}

-- pending.extend(ids)
abbrev pub extend : List String → List String → List String
extend [] pending = pending
extend (id ∷ ids) pending = extend ids (id ∷ pending)

-- One turn of the loop: the set and the list after it.
abbrev pub visit_next :
    Bool
    → Option AgentDescriptor
    → List String
    → String
    → List String
    → Checked (List String × List String)
visit_next true agent reachable agent_id pending = ok (reachable, pending)
visit_next false none reachable agent_id pending = err key_error
visit_next false (some agent) reachable agent_id pending =
    ok (agent_id ∷ reachable, extend agent.sub_agent_ids pending)

-- The `while pending` loop; `none` is a loop that ran out of fuel.
unfoldable pub walk : ℕ → Agents → List String → List String → Option (Checked (List String))
walk zero agents reachable pending = none
walk (suc fuel) agents reachable [] = some (ok reachable)
walk (suc fuel) agents reachable (agent_id ∷ pending) =
    elim (visit_next (contains reachable agent_id) (lookup agent_id agents) reachable agent_id
      pending) [
        | ok (reachable', pending') ↦ walk fuel agents reachable' pending'
        | err e ↦ some (err e)
      ]

-- The ids that are not in the set.
abbrev pub missing_from : List String → List String → List String
missing_from reachable [] = []
missing_from reachable (id ∷ ids) =
    let rest = missing_from reachable ids in if contains reachable id then rest else id ∷ rest

abbrev pub report : List String → Checked (Unit {0})
report [] = ok tt
report (id ∷ ids) = err (unreachable (id ∷ ids))

abbrev pub report_missing : Agents → Option (Checked (List String)) → Option (Checked (Unit {0}))
report_missing agents none = none
report_missing agents (some (ok reachable)) = some (report (missing_from reachable (keys agents)))
report_missing agents (some (err e)) = some (err e)

unfoldable pub validate_reachable_agents : ℕ → Agents → String → Option (Checked (Unit {0}))
validate_reachable_agents fuel agents root_agent_id =
    report_missing agents (walk fuel agents [] (root_agent_id ∷ []))
