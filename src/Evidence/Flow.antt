-- ===== src/Evidence/Flow.antt =====
-- src/reverse_engineering/execution_flow.py but for the rendering. A `ValidationError` is `none`.
pub mod Collected
pub mod Valid
pub mod Cited
use arema.Prelude.{
  ℕ, String, Bool, true, false, ◌&&◌, ◌||◌, Option, none, some, List, [], ◌∷◌, ◌==◌, leb, take,
  length, keep, every, contains, every_char, text_length, if◌then◌else◌, map,
}
use arema.Prelude.Json.{Json, Fields, obj, as_obj, as_str, get_or_null, list_or_empty}
use arema.Evidence.CleanText.{clean, unsafe_in_label}
use arema.Recovery.ModelJson.{◌>>=◌, require}

pub record ExecutionNode : Type 0 where
  pub id : String
  pub label : String
  pub tool : String

pub record ExecutionEdge : Type 0 where
  pub src : String
  pub dst : String
  pub label : String

pub record ExecutionFlow : Type 0 where
  pub nodes : List ExecutionNode
  pub edges : List ExecutionEdge

abbrev pub max_flow_nodes : ℕ
max_flow_nodes = 24

abbrev pub max_flow_edges : ℕ
max_flow_edges = 40

abbrev pub max_flow_label_chars : ℕ
max_flow_label_chars = 80

abbrev pub max_edge_label_chars : ℕ
max_edge_label_chars = 40

abbrev pub max_flow_tool_chars : ℕ
max_flow_tool_chars = 40

-- ^[A-Za-z0-9_]{1,32}$
abbrev pub is_word_char : ℕ → Bool
is_word_char n =
    leb 48 n && leb n 57
    || (leb 65 n && leb n 90 || (leb 97 n && leb n 122 || (leb 95 n && leb n 95)))

abbrev pub is_node_id : String → Bool
is_node_id s = leb 1 (text_length s) && (leb (text_length s) 32 && every_char is_word_char s)

-- A text of one character at least and of at most so many.
abbrev pub is_within : ℕ → String → Bool
is_within max_chars s = leb 1 (text_length s) && leb (text_length s) max_chars

abbrev pub is_valid_node : ExecutionNode → Bool
is_valid_node n =
    is_node_id n.id
    && (is_within max_flow_label_chars n.label && is_within max_flow_tool_chars n.tool)

abbrev pub is_valid_edge : ExecutionEdge → Bool
is_valid_edge e =
    is_node_id e.src && (is_node_id e.dst && leb (text_length e.label) max_edge_label_chars)

-- The constructor of a node, which validates.
abbrev pub checked_node : ExecutionNode → Option ExecutionNode
checked_node node = if is_valid_node node then some node else none

-- The node of an object with that id.
abbrev pub node_with : Fields → String → ExecutionNode
node_with fields id = record {
  id = id;
  label = clean unsafe_in_label max_flow_label_chars (get_or_null "label" fields);
  tool = clean unsafe_in_label max_flow_tool_chars (get_or_null "tool" fields);
}

-- `_node`
abbrev pub node_of : Json → Option ExecutionNode
node_of raw = do
  fields ← as_obj raw
  id ← as_str (get_or_null "id" fields)
  checked_node (node_with fields id)

abbrev pub is_declared : List String → ExecutionEdge → Bool
is_declared declared e = contains declared e.src && contains declared e.dst

-- The constructor of an edge, which validates, and the test that its ends are declared.
abbrev pub checked_edge : List String → ExecutionEdge → Option ExecutionEdge
checked_edge declared edge =
    if is_valid_edge edge && is_declared declared edge then some edge else none

-- The edge of an object with those ends.
abbrev pub edge_with : Fields → String → String → ExecutionEdge
edge_with fields src dst = record {
  src = src;
  dst = dst;
  label = clean unsafe_in_label max_edge_label_chars (get_or_null "label" fields);
}

-- `_edge`
abbrev pub edge_of : List String → Json → Option ExecutionEdge
edge_of declared raw = do
  fields ← as_obj raw
  src ← as_str (get_or_null "src" fields)
  dst ← as_str (get_or_null "dst" fields)
  checked_edge declared (edge_with fields src dst)

abbrev pub node_ids : List ExecutionNode → List String
node_ids nodes = map (λ n. n.id) nodes

-- The loop over the raw nodes; `declared` is the set of the ids so far.
unfoldable pub collect_nodes : List Json → List String → List ExecutionNode
collect_nodes [] declared = []
collect_nodes (raw ∷ rest) declared = elim (node_of raw) [
  | none ↦ collect_nodes rest declared
  | some node ↦ elim (contains declared node.id) [
    | true ↦ collect_nodes rest declared
    | false ↦ node ∷ collect_nodes rest (node.id ∷ declared)
  ]
]

abbrev pub same_edge : ExecutionEdge → ExecutionEdge → Bool
same_edge a b = a.src == b.src && (a.dst == b.dst && a.label == b.label)

abbrev pub has_edge : List ExecutionEdge → ExecutionEdge → Bool
has_edge [] e = false
has_edge (f ∷ edges) e = same_edge f e || has_edge edges e

-- The loop over the raw edges; `edges` has those so far, the newest first.
unfoldable pub collect_edges : List String → List Json → List ExecutionEdge → List ExecutionEdge
collect_edges declared [] edges = []
collect_edges declared (raw ∷ rest) edges = elim (edge_of declared raw) [
  | none ↦ collect_edges declared rest edges
  | some edge ↦ elim (has_edge edges edge) [
    | true ↦ collect_edges declared rest edges
    | false ↦ edge ∷ collect_edges declared rest (edge ∷ edges)
  ]
]

-- len(set(xs)) == len(xs)
abbrev pub are_distinct : List String → Bool
are_distinct [] = true
are_distinct (x ∷ xs) = (if contains xs x then false else true) && are_distinct xs

abbrev pub is_valid_flow : List ExecutionNode → List ExecutionEdge → Bool
is_valid_flow nodes edges =
    leb 1 (length nodes)
    && (leb (length nodes) max_flow_nodes
        && (leb (length edges) max_flow_edges
            && (every is_valid_node nodes
                && (every is_valid_edge edges
                    && (are_distinct (node_ids nodes)
                        && every (is_declared (node_ids nodes)) edges)))))

-- The constructor, which validates.
abbrev pub make_flow : List ExecutionNode → List ExecutionEdge → Option ExecutionFlow
make_flow nodes edges =
    if is_valid_flow nodes edges then some (record { nodes = nodes; edges = edges }) else none

abbrev pub flow_of_nodes : List ExecutionNode → Json → Option ExecutionFlow
flow_of_nodes [] raw_edges = none
flow_of_nodes (n ∷ ns) raw_edges =
    make_flow (n ∷ ns)
      (collect_edges (node_ids (n ∷ ns)) (take max_flow_edges (list_or_empty raw_edges)) [])

unfoldable pub sanitize_execution_flow : Json → Option ExecutionFlow
sanitize_execution_flow raw = do
  fields ← as_obj raw
  flow_of_nodes
      (collect_nodes (take max_flow_nodes (list_or_empty (get_or_null "nodes" fields))) [])
      (get_or_null "edges" fields)

-- What a filtering comes to: no flow, a flow, or the constructor's `ValidationError`.
pub data Filtered : Type 0 where
  no_flow : Filtered
  flow : ExecutionFlow → Filtered
  invalid : Filtered

abbrev pub or_invalid : Option ExecutionFlow → Filtered
or_invalid none = invalid
or_invalid (some f) = flow f

abbrev pub refilter : List ExecutionNode → List ExecutionEdge → Filtered
refilter [] edges = no_flow
refilter (n ∷ ns) edges =
    or_invalid (make_flow (n ∷ ns) (keep (is_declared (node_ids (n ∷ ns))) edges))

unfoldable pub filter_flow_by_cited_tools : Option ExecutionFlow → List String → Filtered
filter_flow_by_cited_tools none tools = no_flow
filter_flow_by_cited_tools (some f) tools =
    refilter (keep (λ n. contains tools n.tool) f.nodes) f.edges
