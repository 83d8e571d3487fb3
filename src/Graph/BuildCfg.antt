-- ===== src/Graph/BuildCfg.antt =====
-- BuildCFG (Graph/IO.cpp): the graph of a profile, from the file that the backend wrote. A file is
-- the list of its words of 32 bits. NIDMap is a list of pairs, since it is only searched and
-- extended; it, the counters of the identifiers, and the nodes are the state.
pub mod Nodes
pub mod Weights
pub mod Listed
pub mod Between
pub mod Enter
pub mod RoundTrip
use cyclebite.Base.{
  ℕ, zero, suc, ◌+◌, Bool, true, false, not, ◌&&◌, List, [], ◌∷◌, ◌++◌, Option, none, some, ◌==◌,
  if◌then◌else◌,
}
use cyclebite.Graph.{
  Graph, GraphEdge, GraphNode, add_node, add_edge, is_predecessor, add_successor, add_predecessor,
}
use cyclebite.Graph.Kernels.{insert_blocks}
use cyclebite.Graph.ControlNode.{ControlNode}
use cyclebite.HashTable.File.{fread_32, fread_64}

pub record Cfg : Type 0 where
  pub graph : Graph
  pub heap : ℕ → GraphNode
  pub control : ℕ → ControlNode
  pub frequency : ℕ → ℕ
  pub nid_map : List (List ℕ × ℕ)
  pub next_nid : ℕ
  pub next_eid : ℕ

-- The results 0 and 1, the exceptions, and what C++ does not define: an order of 0, and a file of
-- less than three words.
pub data Outcome : Type 0 where
  builds : Cfg → Outcome
  fails : Outcome
  throws : Outcome
  undefined : Outcome

abbrev pub same_list : List ℕ → List ℕ → Bool
same_list [] [] = true
same_list (x ∷ xs) (y ∷ ys) = x == y && same_list xs ys
same_list [] (y ∷ ys) = false
same_list (x ∷ xs) [] = false

unfoldable pub find_nid : List (List ℕ × ℕ) → List ℕ → Option ℕ
find_nid [] ids = none
find_nid (p ∷ ps) ids = if same_list p.0 ids then some p.1 else find_nid ps ids

-- A node is made, entered in NIDMap, and added to the graph.
unfoldable pub make_node : Cfg → List ℕ → Cfg
unfolding add_node
make_node c ids = record c {
  graph = add_node c.graph c.next_nid;
  heap = λ n. if n == c.next_nid then record { successors = []; predecessors = [] } else c.heap n;
  control = λ n.
      if n == c.next_nid
      then record { blocks = insert_blocks [] ids; original_blocks = ids }
      else c.control n;
  nid_map = (ids, c.next_nid) ∷ c.nid_map;
  next_nid = c.next_nid + 1;
}

-- The node of the blocks, and the state with it.
unfoldable pub node_of : Cfg → List ℕ → Cfg × ℕ
unfolding find_nid make_node
node_of c ids = elim (find_nid c.nid_map ids) [
  | some n ↦ (c, n)
  | none ↦ (make_node c ids, c.next_nid)
]

unfoldable pub make_edge : Cfg → ℕ → ℕ → ℕ → Cfg
unfolding add_edge add_successor add_predecessor
make_edge c source sink freq =
    let e : GraphEdge = record { eid = c.next_eid; src = source; snk = sink } in
    let heap : ℕ → GraphNode =
      λ n. if n == source then add_successor (c.heap source) e else c.heap n in
    record c {
      graph = add_edge c.graph e;
      heap = λ n. if n == sink then add_predecessor (heap sink) e else heap n;
      frequency = λ i. if i == c.next_eid then freq else c.frequency i;
      next_eid = c.next_eid + 1;
    }

-- The body of the loop over the edges, after the words have been read.
unfoldable pub enter_edge : Cfg → List ℕ → ℕ → ℕ → Outcome
unfolding node_of make_edge is_predecessor
enter_edge c [] sink freq = undefined
enter_edge c (oldest ∷ newer) sink freq =
    let from = node_of c (oldest ∷ newer) in
    let to = node_of from.0 (newer ++ sink ∷ []) in
    elim (is_predecessor ((to.0).heap from.1) to.1) [
      | some e ↦ throws
      | none ↦ builds (make_edge to.0 from.1 to.1 freq)
    ]

abbrev pub and_then : Outcome → (Cfg → Outcome) → Outcome
and_then (builds c) f = f c
and_then fails f = fails
and_then throws f = throws
and_then undefined f = undefined

abbrev pub fread_all : List ℕ → List ℕ → List ℕ × List ℕ
fread_all [] ws = ([], ws)
fread_all (old ∷ olds) ws =
    let (w, ws₁) = fread_32 old ws in let (rest, ws₂) = fread_all olds ws₁ in (w ∷ rest, ws₂)

unfoldable pub enter_edges : ℕ → List ℕ → ℕ → ℕ → List ℕ → Cfg → Outcome
unfolding enter_edge
enter_edges zero sources sink freq ws c = builds c
enter_edges (suc n) sources sink freq ws c =
    let r = fread_all sources ws in
    let s = fread_32 sink r.1 in
    let f = fread_64 freq s.1 in and_then (enter_edge c r.0 s.0 f.0) (enter_edges n r.0 s.0 f.0 f.1)

abbrev zeroes : ℕ → List ℕ
zeroes zero = []
zeroes (suc n) = 0 ∷ zeroes n

-- `none` is a file that does not open.
unfoldable pub build_cfg : Cfg → Option (List ℕ) → Bool → Outcome
unfolding enter_edges
build_cfg c none hot_code_detection = fails
build_cfg c (some (markov_order ∷ blocks ∷ num_edges ∷ ws)) hot_code_detection =
    if hot_code_detection && not (markov_order == 1)
    then fails
    else enter_edges num_edges (zeroes markov_order) 0 0 ws c
build_cfg c (some ws) hot_code_detection = undefined

-- The state of the process when it starts.
abbrev pub start_cfg : Cfg
start_cfg = record {
  graph = record { node_set = []; edge_set = [] };
  heap = λ _. record { successors = []; predecessors = [] };
  control = λ _. record { blocks = []; original_blocks = [] };
  frequency = λ _. 0;
  nid_map = [];
  next_nid = 0;
  next_eid = 0;
}
