-- ===== src/Registry/Tests.antt =====
-- A small catalog (src/arema/registry/catalog.py) on which the theorems about its graph are used.
use arema.Prelude.{
  is_blank, ℕ, suc, ◌<◌, String, Bool, true, false, ◌≡◌, ◌⊎◌, refl, none, some, List, [], ◌∷◌,
  arith, get_elem?,
}
use arema.Prelude.Dict.{Dict, lookup, insert, has, values}
use arema.Prelude.Json.{end}
use arema.Registry.Descriptors.{
  AgentDescriptor, post_init, llm, Agents, CatalogError, invalid_descriptor, cyclic, unreachable,
  ok, err,
}
use arema.Registry.References.{
  validate_references, check_agents, check_ids, AgentMisses, EachResolved, references_decided,
  resolved-IsClosed,
}
use arema.Registry.Acyclic.{validate_acyclic_agents, search_all, search_from}
use arema.Registry.Acyclic.Paths.{IsCycle}
use arema.Registry.Acyclic.Measure.{work_of_all}
use arema.Registry.Acyclic.Verdict.{acyclic_decided}
use arema.Registry.Reachable.{validate_reachable_agents, walk, report}
use arema.Registry.Reachable.Covers.{all_edges}
use arema.Registry.Reachable.Decide.{Exact, reachable_decided}
use arema.Registry.AgentChecks.{validate_agent, validate_string_tuple, validate_metadata}
use arema.Registry.AgentChecks.Shape.{HasShape, IsDistinct, validate_agent-HasShape}
use arema.Registry.Graph.{validate_graph, IsGoodGraph, graph_decided}

abbrev agent : String → List String → AgentDescriptor
agent id subs = record {
  id = id;
  name = id;
  description = "an agent";
  prompt_id = some "prompt";
  factory_callable = true;
  runtime_profile_id = "default";
  has_prompt_loader = false;
  tool_ids = "floss" ∷ [];
  mcp_server_ids = [];
  sub_agent_ids = subs;
  output_key = none;
  has_output_schema = false;
  after_agent_callbacks = [];
  metadata = end;
  version = "1";
  kind = llm;
}

-- A schema without a key for the output, and one beside a tool, are refused.
keyless_refused :
    post_init (record (agent "triage" []) { has_output_schema = true; tool_ids = [] })
    ≡ err invalid_descriptor
unfolding post_init
keyless_refused = refl

schema_with_tool_refused :
    post_init (record (agent "triage" []) { has_output_schema = true; output_key = some "out" })
    ≡ err invalid_descriptor
unfolding post_init
schema_with_tool_refused = refl

-- The root lists two agents, and the first lists the second.
abbrev team : Agents
team =
    ("root", agent "root" ("triage" ∷ "report" ∷ []))
    ∷ ("triage", agent "triage" ("report" ∷ []))
    ∷ ("report", agent "report" [])
    ∷ []

-- Two agents that list each other.
abbrev loop : Agents
loop = ("root", agent "root" ("triage" ∷ [])) ∷ ("triage", agent "triage" ("root" ∷ [])) ∷ []

abbrev profiles : Dict Bool
profiles = ("default", true) ∷ []

abbrev tools : Dict Bool
tools = ("floss", true) ∷ []

abbrev servers : Dict Bool
servers = []

team-EachResolved : EachResolved team profiles tools servers (values team)
unfolding lookup
team-EachResolved = (
  ((refl, tt), (refl, tt), tt, (refl, (refl, tt))),
  (((refl, tt), (refl, tt), tt, (refl, tt)), (((refl, tt), (refl, tt), tt, tt), tt)),
)

loop-EachResolved : EachResolved loop profiles tools servers (values loop)
unfolding lookup
loop-EachResolved =
    (((refl, tt), (refl, tt), tt, (refl, tt)), (((refl, tt), (refl, tt), tt, (refl, tt)), tt))

team_accepted : validate_graph team profiles tools servers 20 "root" ≡ some (ok tt)
unfolding validate_graph validate_references check_agents check_ids validate_acyclic_agents
    search_all search_from validate_reachable_agents walk lookup insert
team_accepted = refl

loop_refused :
    validate_acyclic_agents 20 loop ≡ some (err (cyclic ("root" ∷ "triage" ∷ "root" ∷ [])))
unfolding validate_acyclic_agents search_all search_from lookup insert
loop_refused = refl

stray_reported : validate_reachable_agents 20 team "triage" ≡ some (err (unreachable ("root" ∷ [])))
unfolding validate_reachable_agents walk lookup
stray_reported = refl

loop_work : work_of_all loop loop < 20
unfolding lookup
loop_work = omega arith

team_work : work_of_all team team < 20
unfolding lookup
team_work = omega arith

team_edges : suc (all_edges team team) < 20
unfolding lookup
team_edges = omega arith

team-has_root : has "root" team ≡ true
unfolding lookup
team-has_root = refl

references_decided_example :
    ((validate_references team profiles tools servers ≡ ok tt)
      × EachResolved team profiles tools servers (values team))
    ⊎ ((e : CatalogError) × (i : ℕ) × (a : AgentDescriptor) × (validate_references team profiles
            tools servers
          ≡ err e)
        × (get_elem? (values team) i ≡ some a)
        × AgentMisses team profiles tools servers a e)
references_decided_example = references_decided team profiles tools servers

acyclic_decided_example :
    ((validate_acyclic_agents 20 loop ≡ some (ok tt)) × (¬ ((l : List String) × IsCycle loop l)))
    ⊎ ((l : List String) × (validate_acyclic_agents 20 loop ≡ some (err (cyclic l)))
        × IsCycle loop l)
acyclic_decided_example =
    acyclic_decided loop 20 (resolved-IsClosed loop profiles tools servers loop-EachResolved)
      loop_work

reachable_decided_example :
    (l : List String) × (validate_reachable_agents 20 team "root" ≡ some (report l))
    × Exact team "root" l
reachable_decided_example =
    reachable_decided team "root" 20
      (resolved-IsClosed team profiles tools servers team-EachResolved) team-has_root team_edges

graph_decided_example :
    ((validate_graph team profiles tools servers 20 "root" ≡ some (ok tt))
      × IsGoodGraph team profiles tools servers "root")
    ⊎ ((e : CatalogError) × (validate_graph team profiles tools servers 20 "root" ≡ some (err e))
        × (¬ IsGoodGraph team profiles tools servers "root"))
graph_decided_example =
    graph_decided team profiles tools servers 20 "root" team-has_root team_work team_edges

accepted : validate_agent (agent "root" ("triage" ∷ "report" ∷ [])) ≡ ok tt
unfolding validate_agent validate_string_tuple is_blank validate_metadata
accepted = refl

refused_twice : validate_agent (agent "root" ("triage" ∷ "triage" ∷ [])) ≡ err invalid_descriptor
unfolding validate_agent validate_string_tuple is_blank validate_metadata
refused_twice = refl

validate_agent-HasShape_example :
    HasShape llm (agent "root" ("triage" ∷ "report" ∷ []))
    × IsDistinct ("floss" ∷ [])
    × IsDistinct []
    × IsDistinct ("triage" ∷ "report" ∷ [])
validate_agent-HasShape_example =
    validate_agent-HasShape (agent "root" ("triage" ∷ "report" ∷ [])) accepted
