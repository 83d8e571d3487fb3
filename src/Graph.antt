-- ===== src/Graph.antt =====
-- The graphs of the tool (Graph/Graph.cpp, Graph/GraphNode.cpp, Graph/GraphEdge.cpp). A node draws
-- its NID from a counter, so a pointer to a node is its NID: equality and order of pointers are
-- those of the NIDs. The heap gives the node at a pointer. An unsigned size is unbounded.
pub mod Containers
pub mod Cycles
pub mod Kernels
pub mod ControlNode
pub mod VirtualNode
pub mod BuildCfg
pub mod Transforms
pub mod CallGraph
use cyclebite.Base.{
  ℕ, suc, ◌+◌, Bool, true, false, ◌&&◌, ◌||◌, List, [], ◌∷◌, Option, none, some, ltb, ◌==◌,
  if◌then◌else◌, length, filter, not,
}
use cyclebite.Base.StdSet
use cyclebite.Base.NatSet.{contains}

pub record GraphEdge : Type 0 where
  pub eid : ℕ
  pub src : ℕ
  pub snk : ℕ

pub record GraphNode : Type 0 where
  pub successors : List GraphEdge
  pub predecessors : List GraphEdge

pub record Graph : Type 0 where
  pub node_set : List ℕ
  pub edge_set : List GraphEdge

-- GECompare
unfoldable pub ge_compare : GraphEdge → GraphEdge → Bool
ge_compare l r = if l.src == r.src then ltb l.snk r.snk else ltb l.src r.src

-- edges.find(e) != edges.end()
unfoldable pub has_edge : List GraphEdge → GraphEdge → Bool
has_edge [] e = false
has_edge (f ∷ fs) e = (f.src == e.src && f.snk == e.snk) || has_edge fs e

unfoldable pub is_predecessor_in : List GraphEdge → ℕ → Option GraphEdge
is_predecessor_in [] succ = none
is_predecessor_in (s ∷ ss) succ = if s.snk == succ then some s else is_predecessor_in ss succ

unfoldable pub is_successor_in : List GraphEdge → ℕ → Option GraphEdge
is_successor_in [] pred = none
is_successor_in (p ∷ ps) pred = if p.src == pred then some p else is_successor_in ps pred

unfoldable pub add_successor : GraphNode → GraphEdge → GraphNode
add_successor n e = record n { successors = StdSet.insert ge_compare n.successors e }

unfoldable pub remove_successor : GraphNode → GraphEdge → GraphNode
remove_successor n e = record n { successors = StdSet.erase ge_compare n.successors e }

unfoldable pub add_predecessor : GraphNode → GraphEdge → GraphNode
add_predecessor n e = record n { predecessors = StdSet.insert ge_compare n.predecessors e }

unfoldable pub remove_predecessor : GraphNode → GraphEdge → GraphNode
remove_predecessor n e = record n { predecessors = StdSet.erase ge_compare n.predecessors e }

unfoldable pub is_predecessor : GraphNode → ℕ → Option GraphEdge
unfolding is_predecessor_in
is_predecessor n succ = is_predecessor_in n.successors succ

unfoldable pub is_successor : GraphNode → ℕ → Option GraphEdge
unfolding is_successor_in
is_successor n pred = is_successor_in n.predecessors pred

unfoldable pub add_node : Graph → ℕ → Graph
add_node g n = record g { node_set = StdSet.insert ltb g.node_set n }

unfoldable pub remove_node : Graph → ℕ → Graph
remove_node g n = record g { node_set = StdSet.erase ltb g.node_set n }

unfoldable pub add_edge : Graph → GraphEdge → Graph
add_edge g e = record g { edge_set = StdSet.insert ge_compare g.edge_set e }

unfoldable pub remove_edge : Graph → GraphEdge → Graph
remove_edge g e = record g { edge_set = StdSet.erase ge_compare g.edge_set e }

abbrev pub node_count : Graph → ℕ
node_count g = length g.node_set

-- Graph::find, of a node and of an edge
abbrev pub find_node : Graph → ℕ → Bool
find_node g n = contains g.node_set n

abbrev pub find_edge : Graph → GraphEdge → Bool
find_edge g e = has_edge g.edge_set e

-- ControlNode::getSuccessors and getPredecessors: the UnconditionalEdges among the edges of the node.
-- Whether an edge of a control flow graph is none of them, and so imaginary, is a parameter.
abbrev pub control_edges : (GraphEdge → Bool) → List GraphEdge → List GraphEdge
control_edges imaginary es = filter (λ e. not (imaginary e)) es
