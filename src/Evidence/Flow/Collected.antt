-- ===== src/Evidence/Flow/Collected.antt =====
-- The nodes and the edges that src/reverse_engineering/execution_flow.py collects are valid.
use arema.Prelude.{
  ℕ, suc, ◌≤◌, String, Bool, true, false, ◌&&◌, ◌≡◌, refl, ap, sym, ◌∙◌, inl, inr, arith, Option,
  none, some, List, [], ◌∷◌, ◌==◌, eq_iff, length, every, contains, Bool-cases,
}
use arema.Prelude.Json.{Json, as_obj, as_str, get_or_null}
use arema.Recovery.ModelJson.{◌>>=◌}
use arema.Evidence.Flow.{
  ExecutionNode, ExecutionEdge, max_flow_nodes, max_flow_edges, is_valid_node, is_valid_edge,
  checked_node, node_of, node_with, edge_with, checked_edge, edge_of, is_declared, node_ids,
  collect_nodes, has_edge, collect_edges, are_distinct, is_valid_flow, make_flow,
}

-- What a node or an edge that is made satisfies.
abbrev pub HoldsOf : {A : Type 0} → (A → Bool) → Option A → Type 0
HoldsOf p none = Unit
HoldsOf p (some a) = p a ≡ true

pub bind-HoldsOf :
    {A B : Type 0} (p : B → Bool) (o : Option A) (f : A → Option B)
    → ((a : A) → HoldsOf p (f a))
    → HoldsOf p (o >>= f)
bind-HoldsOf p none f h = tt
bind-HoldsOf p (some a) f h = h a

checked_node-valid : (n : ExecutionNode) → HoldsOf is_valid_node (checked_node n)
checked_node-valid n = elim (Bool-cases (is_valid_node n)) [ inl q ↦ rw q q | inr q ↦ rw q tt ]

node_of-valid : (raw : Json) → HoldsOf is_valid_node (node_of raw)
node_of-valid raw =
    bind-HoldsOf is_valid_node (as_obj raw)
      (λ fields. as_str (get_or_null "id" fields) >>= (λ id. checked_node (node_with fields id)))
      (λ fields.
        bind-HoldsOf is_valid_node (as_str (get_or_null "id" fields))
          (λ id. checked_node (node_with fields id))
          (λ id. checked_node-valid (node_with fields id)))

-- An edge that is well formed and joins declared nodes.
abbrev joins : List String → ExecutionEdge → Bool
joins declared e = is_valid_edge e && is_declared declared e

checked_edge-valid :
    (declared : List String) (e : ExecutionEdge)
    → HoldsOf (joins declared) (checked_edge declared e)
checked_edge-valid declared e = elim (Bool-cases (is_valid_edge e && is_declared declared e)) [
  | inl q ↦ rw q q
  | inr q ↦ rw q tt
]

edge_of-valid :
    (declared : List String) (raw : Json) → HoldsOf (joins declared) (edge_of declared raw)
edge_of-valid declared raw =
    bind-HoldsOf (joins declared) (as_obj raw)
      (λ fields. as_str (get_or_null "src" fields) >>= (λ src.
        as_str (get_or_null "dst" fields)
        >>= (λ dst. checked_edge declared (edge_with fields src dst))))
      (λ fields.
        bind-HoldsOf (joins declared) (as_str (get_or_null "src" fields))
          (λ src.
            as_str (get_or_null "dst" fields)
            >>= (λ dst. checked_edge declared (edge_with fields src dst)))
          (λ src.
            bind-HoldsOf (joins declared) (as_str (get_or_null "dst" fields))
              (λ dst. checked_edge declared (edge_with fields src dst))
              (λ dst. checked_edge-valid declared (edge_with fields src dst))))

-- No id of the list is declared before.
abbrev Undeclared : List String → List ExecutionNode → Type 0
Undeclared declared nodes =
    (id : String) → contains (node_ids nodes) id ≡ true → contains declared id ≡ false

unfoldable pub NodesValid : List String → List ExecutionNode → ℕ → Type 0
NodesValid declared nodes n =
    (length nodes ≤ n)
    × (every is_valid_node nodes ≡ true)
    × (are_distinct (node_ids nodes) ≡ true)
    × Undeclared declared nodes

add-NodesValid :
    (declared : List String) (node : ExecutionNode) (nodes : List ExecutionNode) (n : ℕ)
    → is_valid_node node ≡ true
    → contains declared node.id ≡ false
    → NodesValid (node.id ∷ declared) nodes n
    → NodesValid declared (node ∷ nodes) (suc n)
unfolding NodesValid
add-NodesValid declared node nodes n v u (len, valid, distinct, others) =
    (omega arith, rw (v, valid) refl, rw (apart, distinct) refl, fresh)
  where
    apart : contains (node_ids nodes) node.id ≡ false
    apart = elim (Bool-cases (contains (node_ids nodes) node.id)) [
      | inl q ↦ ground (arith, others node.id q, eq_iff node.id node.id)
      | inr q ↦ q
    ]

    fresh : Undeclared declared (node ∷ nodes)
    fresh id m = elim (Bool-cases (node.id == id)) [
      | inl q ↦ ap (contains declared) (sym ((eq_iff node.id id).0 q)) ∙ u
      | inr q ↦ ground (arith, others id (rw q at m))
    ]

pub collect_nodes-NodesValid :
    (raws : List Json) (declared : List String)
    → NodesValid declared (collect_nodes raws declared) (length raws)
unfolding collect_nodes NodesValid
collect_nodes-NodesValid [] declared = (omega arith, refl, refl, λ id m. absurd (no m))
  where
    no : false ≡ true → ⊥
    no x = cc
collect_nodes-NodesValid (raw ∷ rest) declared =
    by_node (node_of raw) (node_of-valid raw) (collect_nodes-NodesValid rest declared)
      (λ d. collect_nodes-NodesValid rest d)
  where
    longer :
        (nodes : List ExecutionNode)
        → NodesValid declared nodes (length rest)
        → NodesValid declared nodes (suc (length rest))
    longer nodes (len, ok, distinct, new) = (omega arith, ok, distinct, new)

    by_node :
        (o : Option ExecutionNode)
        → HoldsOf is_valid_node o
        → NodesValid declared (collect_nodes rest declared) (length rest)
        → ((d : List String) → NodesValid d (collect_nodes rest d) (length rest))
        → NodesValid declared
            (elim o [
              | none ↦ collect_nodes rest declared
              | some node ↦ elim (contains declared node.id) [
                | true ↦ collect_nodes rest declared
                | false ↦ node ∷ collect_nodes rest (node.id ∷ declared)
              ]
            ])
            (suc (length rest))
    by_node none v h k = longer _ h
    by_node (some node) v h k = by_seen (contains declared node.id) refl
      where
        by_seen :
            (b : Bool)
            → contains declared node.id ≡ b
            → NodesValid declared
                (elim b [
                  | true ↦ collect_nodes rest declared
                  | false ↦ node ∷ collect_nodes rest (node.id ∷ declared)
                ])
                (suc (length rest))
        by_seen true e = longer _ h
        by_seen false e = add-NodesValid declared node _ (length rest) v e (k (node.id ∷ declared))

-- Edges that are well formed, joined to declared nodes, and no more than so many.
unfoldable pub EdgesValid : List String → List ExecutionEdge → ℕ → Type 0
EdgesValid declared edges n =
    (length edges ≤ n)
    × (every is_valid_edge edges ≡ true)
    × (every (is_declared declared) edges ≡ true)

pub collect_edges-EdgesValid :
    (declared : List String) (raws : List Json) (seen : List ExecutionEdge)
    → EdgesValid declared (collect_edges declared raws seen) (length raws)
unfolding collect_edges EdgesValid
collect_edges-EdgesValid declared [] seen = (omega arith, refl, refl)
collect_edges-EdgesValid declared (raw ∷ rest) seen =
    by_edge (edge_of declared raw) (edge_of-valid declared raw)
      (λ s. collect_edges-EdgesValid declared rest s)
  where
    longer :
        (edges : List ExecutionEdge)
        → EdgesValid declared edges (length rest)
        → EdgesValid declared edges (suc (length rest))
    longer edges (len, ok, ends) = (omega arith, ok, ends)

    add :
        (e : ExecutionEdge) (edges : List ExecutionEdge)
        → joins declared e ≡ true
        → EdgesValid declared edges (length rest)
        → EdgesValid declared (e ∷ edges) (suc (length rest))
    add e edges v (len, ok, ends) = (omega arith, ground arith, ground arith)

    by_edge :
        (o : Option ExecutionEdge)
        → HoldsOf (joins declared) o
        → ((s : List ExecutionEdge)
            → EdgesValid declared (collect_edges declared rest s) (length rest))
        → EdgesValid declared
            (elim o [
              | none ↦ collect_edges declared rest seen
              | some edge ↦ elim (has_edge seen edge) [
                | true ↦ collect_edges declared rest seen
                | false ↦ edge ∷ collect_edges declared rest (edge ∷ seen)
              ]
            ])
            (suc (length rest))
    by_edge none v k = longer _ (k seen)
    by_edge (some edge) v k = by_seen (has_edge seen edge)
      where
        by_seen :
            (b : Bool)
            → EdgesValid declared
                (elim b [
                  | true ↦ collect_edges declared rest seen
                  | false ↦ edge ∷ collect_edges declared rest (edge ∷ seen)
                ])
                (suc (length rest))
        by_seen true = longer _ (k seen)
        by_seen false = add edge _ v (k (edge ∷ seen))

pub make_flow-some :
    (nodes : List ExecutionNode) (edges : List ExecutionEdge)
    → 1 ≤ length nodes
    → NodesValid [] nodes max_flow_nodes
    → EdgesValid (node_ids nodes) edges max_flow_edges
    → (make_flow nodes edges ≡ some (record { nodes = nodes; edges = edges }))
      × (is_valid_flow nodes edges ≡ true)
unfolding NodesValid EdgesValid
make_flow-some nodes edges some_node (len, ok, distinct, _) (elen, eok, ends) =
    (rw valid refl, valid)
  where
    valid : is_valid_flow nodes edges ≡ true
    valid = ground arith
