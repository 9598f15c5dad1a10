-- ===== src/Evidence/Flow/Cited.antt =====
-- `filter_flow_by_cited_tools` of src/reverse_engineering/execution_flow.py on a valid flow.
use arema.Prelude.{
  ◌≤◌, String, Bool, true, false, ◌≡◌, ◌⊎◌, refl, ap, inl, inr, arith, some, List, [], ◌∷◌, length,
  keep, every, contains, Bool-cases,
}
use arema.Evidence.Flow.{
  ExecutionNode, ExecutionEdge, ExecutionFlow, max_flow_nodes, is_valid_node, is_valid_edge,
  is_declared, node_ids, are_distinct, is_valid_flow, make_flow, no_flow, flow, or_invalid,
  refilter, filter_flow_by_cited_tools,
}

module _ {A : Type 0} where
  length-keep : (p : A → Bool) (xs : List A) → length (keep p xs) ≤ length xs
  length-keep p [] = omega arith
  length-keep p (x ∷ xs) = elim (Bool-cases (p x)) [
    | inl q ↦ rw q (omega (arith, length-keep p xs))
    | inr q ↦ rw q (omega (arith, length-keep p xs))
  ]

  pub every-keep : (p : A → Bool) (xs : List A) → every p (keep p xs) ≡ true
  every-keep p [] = refl
  every-keep p (x ∷ xs) = elim (Bool-cases (p x)) [
    | inl q ↦ rw (q, q, every-keep p xs) refl
    | inr q ↦ rw q (every-keep p xs)
  ]

  every-keep_other : (q p : A → Bool) (xs : List A) → every q xs ≡ true → every q (keep p xs) ≡ true
  every-keep_other q p [] h = refl
  every-keep_other q p (x ∷ xs) h = elim (Bool-cases (p x)) [
    | inl c ↦ rw c (ground (arith, every-keep_other q p xs))
    | inr c ↦ rw c (ground (arith, every-keep_other q p xs))
  ]

module _ (p : ExecutionNode → Bool) where
  contains-keep :
      (ns : List ExecutionNode) (id : String)
      → contains (node_ids ns) id ≡ false
      → contains (node_ids (keep p ns)) id ≡ false
  contains-keep [] id h = refl
  contains-keep (n ∷ ns) id h = elim (Bool-cases (p n)) [
    | inl c ↦ rw c (ground (arith, contains-keep ns id))
    | inr c ↦ rw c (ground (arith, contains-keep ns id))
  ]

  are_distinct-keep :
      (ns : List ExecutionNode)
      → are_distinct (node_ids ns) ≡ true
      → are_distinct (node_ids (keep p ns)) ≡ true
  are_distinct-keep [] h = refl
  are_distinct-keep (n ∷ ns) h = elim (Bool-cases (p n)) [
    | inl c ↦ rw c (ground (arith, are_distinct-keep ns, contains-keep ns n.id))
    | inr c ↦ rw c (ground (arith, are_distinct-keep ns))
  ]

-- Filtering a valid flow never fails: with no cited node left there is no flow; else it is valid,
-- every node's tool is cited, and its nodes are those of the flow whose tool is.
pub filter_flow_by_cited_tools-valid :
    (f : ExecutionFlow) (tools : List String)
    → is_valid_flow f.nodes f.edges ≡ true
    → ((keep (λ n. contains tools n.tool) f.nodes ≡ [])
        × (filter_flow_by_cited_tools (some f) tools ≡ no_flow))
      ⊎ ((g : ExecutionFlow) × (filter_flow_by_cited_tools (some f) tools ≡ flow g)
          × (g.nodes ≡ keep (λ n. contains tools n.tool) f.nodes)
          × (every (λ n. contains tools n.tool) g.nodes ≡ true)
          × (is_valid_flow g.nodes g.edges ≡ true))
unfolding filter_flow_by_cited_tools
filter_flow_by_cited_tools-valid f tools valid =
    by_kept (keep is_cited f.nodes) (ground (arith, length-keep is_cited f.nodes))
      (every-keep_other is_valid_node is_cited f.nodes (ground arith))
      (are_distinct-keep is_cited f.nodes (ground arith)) (every-keep is_cited f.nodes)
  where
    is_cited : ExecutionNode → Bool
    is_cited n = contains tools n.tool

    remade :
        (n : ExecutionNode) (ns : List ExecutionNode) (edges : List ExecutionEdge)
        → is_valid_flow (n ∷ ns) edges ≡ true
        → make_flow (n ∷ ns) edges ≡ some (record { nodes = n ∷ ns; edges = edges })
    remade n ns edges v = rw v refl

    by_kept :
        (nodes : List ExecutionNode)
        → length nodes ≤ max_flow_nodes
        → every is_valid_node nodes ≡ true
        → are_distinct (node_ids nodes) ≡ true
        → every is_cited nodes ≡ true
        → ((nodes ≡ []) × (refilter nodes f.edges ≡ no_flow))
          ⊎ ((g : ExecutionFlow) × (refilter nodes f.edges ≡ flow g)
              × (g.nodes ≡ nodes)
              × (every is_cited g.nodes ≡ true)
              × (is_valid_flow g.nodes g.edges ≡ true))
    by_kept [] len ok distinct cited = inl (refl, refl)
    by_kept (n ∷ ns) len ok distinct cited = inr (
      record { nodes = n ∷ ns; edges = edges },
      ap or_invalid (remade n ns edges valid_again),
      refl,
      cited,
      valid_again,
    )
      where
        edges : List ExecutionEdge
        edges = keep (is_declared (node_ids (n ∷ ns))) f.edges

        valid_again : is_valid_flow (n ∷ ns) edges ≡ true
        valid_again = ground (
          arith,
          length-keep (is_declared (node_ids (n ∷ ns))) f.edges,
          every-keep (is_declared (node_ids (n ∷ ns))) f.edges,
          every-keep_other is_valid_edge (is_declared (node_ids (n ∷ ns))) f.edges,
        )
