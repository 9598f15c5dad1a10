-- ===== src/Registry/Acyclic.antt =====
-- `_validate_acyclic_agents` of src/arema/registry/catalog.py: an iterative depth-first search with
-- its four tables. The stack has its top at the head, and `path` grows at its end, as in the source.
pub mod Paths
pub mod Steps
pub mod Moves
pub mod Measure
pub mod Turns
pub mod Decide
pub mod Verdict
use arema.Prelude.{
  ℕ, zero, suc, ◌+◌, String, Bool, Option, none, some, List, [], ◌∷◌, ◌++◌, ◌==◌, length, drop,
  get_elem?, if◌then◌else◌,
}
use arema.Prelude.Dict.{Dict, lookup, insert, remove, keys}
use arema.Registry.Descriptors.{
  AgentDescriptor, Agents, CatalogError, key_error, cyclic, Checked, ok, err,
}

pub data Mark : Type 0 where
  unvisited visiting visited : Mark

abbrev pub Frame : Type 0
Frame = String × ℕ

pub record Search : Type 0 where
  pub states : Dict Mark
  pub path : List String
  pub positions : Dict ℕ
  pub stack : List Frame

-- One turn of the `while stack` loop.
pub data Turn : Type 0 where
  go : Search → Turn
  stop : CatalogError → Turn

abbrev pub drop_last : List String → List String
drop_last [] = []
drop_last (x ∷ []) = []
drop_last (x ∷ y ∷ xs) = x ∷ drop_last (y ∷ xs)

abbrev pub leave : String → List Frame → Search → Turn
leave agent_id rest s = go (record {
  states = insert agent_id visited s.states;
  path = drop_last s.path;
  positions = remove agent_id s.positions;
  stack = rest;
})

abbrev pub enter : String → List Frame → Search → Search
enter id stack s = record {
  states = insert id visiting s.states;
  path = s.path ++ id ∷ [];
  positions = insert id (length s.path) s.positions;
  stack = (id, 0) ∷ stack;
}

abbrev pub cycle_from : Option ℕ → String → Search → Turn
cycle_from none id s = stop key_error
cycle_from (some cycle_start) id s = stop (cyclic (drop cycle_start s.path ++ id ∷ []))

-- The branches on `states[sub_agent_id]`; `stack` already holds the advanced frame.
abbrev pub visit : Option Mark → String → List Frame → Search → Turn
visit none id stack s = stop key_error
visit (some unvisited) id stack s = go (enter id stack s)
visit (some visiting) id stack s = cycle_from (lookup id s.positions) id s
visit (some visited) id stack s = go (record s { stack = stack })

abbrev pub advance : Option String → String → ℕ → List Frame → Search → Turn
advance none agent_id i rest s = leave agent_id rest s
advance (some sub) agent_id i rest s = visit (lookup sub s.states) sub ((agent_id, i + 1) ∷ rest) s

abbrev pub with_agent : Option AgentDescriptor → String → ℕ → List Frame → Search → Turn
with_agent none agent_id i rest s = stop key_error
with_agent (some agent) agent_id i rest s =
    advance (get_elem? agent.sub_agent_ids i) agent_id i rest s

abbrev pub turn : Agents → Frame → List Frame → Search → Turn
turn agents (agent_id, i) rest s = with_agent (lookup agent_id agents) agent_id i rest s

-- `none` is a loop that ran out of fuel.
unfoldable pub search_from : ℕ → Agents → Search → Option (Checked Search)
search_from zero agents s = none
search_from (suc fuel) agents s = elim s.stack [
  | [] ↦ some (ok s)
  | frame ∷ rest ↦ elim (turn agents frame rest s) [
    | go s' ↦ search_from fuel agents s'
    | stop e ↦ some (err e)
  ]
]

abbrev pub continue_with :
    Option (Checked Search) → (Search → Option (Checked Search)) → Option (Checked Search)
continue_with none k = none
continue_with (some (ok s)) k = k s
continue_with (some (err e)) k = some (err e)

-- `states[start] != unvisited`
abbrev pub start_at :
    Option Mark → Search → (Search → Option (Checked Search)) → String → Option (Checked Search)
start_at none s k id = some (err key_error)
start_at (some unvisited) s k id = k (enter id [] s)
start_at (some visiting) s k id = some (ok s)
start_at (some visited) s k id = some (ok s)

unfoldable pub search_all : ℕ → Agents → List String → Search → Option (Checked Search)
unfolding search_from
search_all fuel agents [] s = some (ok s)
search_all fuel agents (start ∷ starts) s =
    continue_with (start_at (lookup start s.states) s (λ t. search_from fuel agents t) start)
      (λ t. search_all fuel agents starts t)

abbrev pub all_unvisited : List String → Dict Mark
all_unvisited [] = []
all_unvisited (k ∷ ks) = (k, unvisited) ∷ all_unvisited ks

abbrev pub fresh : Agents → Search
fresh agents = record {
  states = all_unvisited (keys agents);
  path = [];
  positions = [];
  stack = [];
}

abbrev pub verdict : Option (Checked Search) → Option (Checked (Unit {0}))
verdict none = none
verdict (some (ok s)) = some (ok tt)
verdict (some (err e)) = some (err e)

unfoldable pub validate_acyclic_agents : ℕ → Agents → Option (Checked (Unit {0}))
unfolding search_all
validate_acyclic_agents fuel agents = verdict (search_all fuel agents (keys agents) (fresh agents))
