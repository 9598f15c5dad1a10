-- ===== src/Evidence/Flow/Valid.antt =====
-- The flows of src/reverse_engineering/execution_flow.py are valid: the constructor never refuses one.
use arema.Prelude.{
  ℕ, ◌≤◌, true, ◌≡◌, ◌⊎◌, refl, inl, inr, arith, none, some, List, [], ◌∷◌, take, length,
  length-take,
}
use arema.Prelude.Json.{Json, Fields, obj, get_or_null, list_or_empty}
use arema.Evidence.Flow.{
  ExecutionNode, ExecutionEdge, ExecutionFlow, max_flow_nodes, max_flow_edges, node_ids,
  collect_nodes, collect_edges, is_valid_flow, make_flow, flow_of_nodes, sanitize_execution_flow,
}
use arema.Evidence.Flow.Collected.{
  NodesValid, collect_nodes-NodesValid, EdgesValid, collect_edges-EdgesValid, make_flow-some,
}

take-≤ : {A : Type 0} (n : ℕ) (xs : List A) → length (take n xs) ≤ n
take-≤ n xs = ground (arith, length-take n xs)

-- Nodes that are collected are never refused: a flow of them is made, it is valid and has them all.
flow_of_nodes-some :
    (nodes : List ExecutionNode) (raw_edges : Json)
    → 1 ≤ length nodes
    → NodesValid [] nodes max_flow_nodes
    → (f : ExecutionFlow) × (flow_of_nodes nodes raw_edges ≡ some f)
      × (f.nodes ≡ nodes)
      × (is_valid_flow f.nodes f.edges ≡ true)
unfolding EdgesValid
flow_of_nodes-some [] raw_edges l v = absurd (no l)
  where
    no : 1 ≤ 0 → ⊥
    no x = omega arith
flow_of_nodes-some (n ∷ ns) raw_edges l v =
    (record { nodes = n ∷ ns; edges = edges }, made.0, refl, made.1)
  where
    edges : List ExecutionEdge
    edges = collect_edges (node_ids (n ∷ ns)) (take max_flow_edges (list_or_empty raw_edges)) []

    widen :
        EdgesValid
          (node_ids (n ∷ ns))
          edges
          (length (take max_flow_edges (list_or_empty raw_edges)))
        → EdgesValid (node_ids (n ∷ ns)) edges max_flow_edges
    widen (len, ok, ends) =
        (ground (arith, take-≤ max_flow_edges (list_or_empty raw_edges)), ok, ends)

    made :
        (make_flow (n ∷ ns) edges ≡ some (record { nodes = n ∷ ns; edges = edges }))
        × (is_valid_flow (n ∷ ns) edges ≡ true)
    made = make_flow-some (n ∷ ns) edges l v (widen (collect_edges-EdgesValid _ _ []))

-- The nodes that a raw flow gives.
abbrev nodes_in : Fields → List ExecutionNode
nodes_in fields =
    collect_nodes (take max_flow_nodes (list_or_empty (get_or_null "nodes" fields))) []

-- Of an object, the flow is none exactly where no node is collected from it; else its nodes are all
-- that are collected, at most 24 and each id once, and it is valid.
pub sanitize_execution_flow-valid :
    (fields : Fields)
    → ((nodes_in fields ≡ []) × (sanitize_execution_flow (obj fields) ≡ none))
      ⊎ ((f : ExecutionFlow) × (sanitize_execution_flow (obj fields) ≡ some f)
          × (f.nodes ≡ nodes_in fields)
          × (is_valid_flow f.nodes f.edges ≡ true))
unfolding sanitize_execution_flow NodesValid
sanitize_execution_flow-valid fields = by_nodes (nodes_in fields) (collect_nodes-NodesValid _ [])
  where
    raw_nodes : List Json
    raw_nodes = take max_flow_nodes (list_or_empty (get_or_null "nodes" fields))

    by_nodes :
        (nodes : List ExecutionNode)
        → NodesValid [] nodes (length raw_nodes)
        → ((nodes ≡ []) × (flow_of_nodes nodes (get_or_null "edges" fields) ≡ none))
          ⊎ ((f : ExecutionFlow) × (flow_of_nodes nodes (get_or_null "edges" fields) ≡ some f)
              × (f.nodes ≡ nodes)
              × (is_valid_flow f.nodes f.edges ≡ true))
    by_nodes [] v = inl (refl, refl)
    by_nodes (n ∷ ns) (len, ok, distinct, new) = inr (
        flow_of_nodes-some (n ∷ ns) (get_or_null "edges" fields) (omega arith) (
          ground (arith, take-≤ max_flow_nodes (list_or_empty (get_or_null "nodes" fields))),
          ok,
          distinct,
          new,
        ))
