-- ===== src/Tests/Transforms.antt =====
-- The transformations of the control flow graph at concrete inputs.
use cyclebite.Base.{
  ℕ, zero, suc, ◌+◌, ◌≤◌, true, false, List, [], ◌∷◌, some, none, ◌==◌, if◌then◌else◌, All, ◌≡◌,
  ◌↔◌, refl, arith,
}
use cyclebite.Base.StdSet
use cyclebite.Base.NatSet.{contains}
use cyclebite.Graph.Transforms.Subgraph.{
  finds, subgraph_bfs, sweep, drain, visit_all, visit, exit_sources, sub_edges, insert_inside,
}
use cyclebite.Graph.{
  Graph, GraphEdge, GraphNode, ge_compare, has_edge, node_count, is_predecessor, is_successor,
  is_predecessor_in, is_successor_in, add_node, add_edge,
}
use cyclebite.Graph.Transforms.FanInFanOut.{fan_in_fan_out, Bottled, fan_in_fan_out_iff}
use cyclebite.Graph.Transforms.Trivial.{trivial_transforms, trivial_edge, merges}
use cyclebite.Graph.Transforms.Virtualize.{Space, virtualize_exit}
use cyclebite.Graph.Transforms.Virtualize.Exits.{virtualize_exit-loses}

abbrev arc : ℕ → ℕ → ℕ → GraphEdge
arc i a b = record { eid = i; src = a; snk = b }

-- 0 goes to 1, which goes to 2 and 3, which go to 4, which goes to 5, and that back to 0.
abbrev heap : ℕ → GraphNode
heap zero = record { successors = arc 0 0 1 ∷ []; predecessors = arc 6 5 0 ∷ [] }
heap (suc zero) = record { successors = arc 1 1 2 ∷ arc 2 1 3 ∷ []; predecessors = arc 0 0 1 ∷ [] }
heap (suc (suc zero)) = record { successors = arc 3 2 4 ∷ []; predecessors = arc 1 1 2 ∷ [] }
heap (suc (suc (suc zero))) = record { successors = arc 4 3 4 ∷ []; predecessors = arc 2 1 3 ∷ [] }
heap (suc (suc (suc (suc zero)))) = record {
  successors = arc 5 4 5 ∷ [];
  predecessors = arc 3 2 4 ∷ arc 4 3 4 ∷ [];
}
heap (suc (suc (suc (suc (suc zero))))) = record {
  successors = arc 6 5 0 ∷ [];
  predecessors = arc 5 4 5 ∷ [];
}
heap (suc (suc (suc (suc (suc (suc n)))))) = record { successors = []; predecessors = [] }

abbrev diamond : Graph
diamond = record {
  node_set = 1 ∷ 2 ∷ 3 ∷ 4 ∷ [];
  edge_set = arc 1 1 2 ∷ arc 2 1 3 ∷ arc 3 2 4 ∷ arc 4 3 4 ∷ [];
}

fan_in_fan_out_iff_example :
    ((fan_in_fan_out (λ e. false) heap diamond 1 4).1 ≡ diamond)
    × (((fan_in_fan_out (λ e. false) heap diamond 1 4).0 ≡ true)
        ↔ (3 ≤ node_count diamond) × All (Bottled (λ e. false) heap diamond 1 4) diamond.node_set)
fan_in_fan_out_iff_example = fan_in_fan_out_iff (λ e. false) heap diamond 1 4

-- The chain from 4 ends at 0, which goes back to no node of it; all edges are certain.
abbrev nodes : List ℕ
nodes = 0 ∷ 1 ∷ 2 ∷ 3 ∷ 4 ∷ 5 ∷ []

abbrev space : Space
space = record {
  graph = record { node_set = nodes; edge_set = [] };
  heap = heap;
  blocks = λ n. n ∷ [];
  frequency = λ i. 10 + i;
  next_eid = 7;
  node_to_vn = [];
  edge_to_ve = [];
}

-- A space in which the virtual node 6 has an edge to 5 from an exit before.
abbrev second_exit : Space
second_exit = record space {
  heap = λ n.
      if n == 6
      then record { successors = arc 7 6 5 ∷ []; predecessors = [] }
      else if n == 5
      then record { successors = arc 6 5 0 ∷ []; predecessors = arc 5 4 5 ∷ arc 7 6 5 ∷ [] }
      else heap n;
  next_eid = 8;
}

five_off : contains diamond.node_set 5 ≡ false
unfolding contains
five_off = refl

five-IsSorted : StdSet.IsSorted ge_compare (second_exit.heap 5).predecessors
unfolding ge_compare
five-IsSorted = ((refl, tt), (tt, tt))

has_succ : has_edge (second_exit.heap 6).successors (arc 8 6 5) ≡ true
unfolding has_edge
has_succ = refl

has_pred : has_edge (second_exit.heap 5).predecessors (arc 8 6 5) ≡ true
unfolding has_edge
has_pred = refl

virtualize_exit-loses_example :
    (((virtualize_exit diamond.node_set 6 second_exit (arc 5 4 5)).heap 6).successors
      ≡ (second_exit.heap 6).successors)
    × (((virtualize_exit diamond.node_set 6 second_exit (arc 5 4 5)).heap 5).predecessors
        ≡ StdSet.erase ge_compare (second_exit.heap 5).predecessors (arc 5 4 5))
    × ((virtualize_exit diamond.node_set 6 second_exit (arc 5 4 5)).frequency 5
        ≡ second_exit.frequency 5)
virtualize_exit-loses_example =
    virtualize_exit-loses diamond.node_set 6 5 second_exit (arc 5 4 5) five_off (omega arith)
      (omega arith) (tt, tt) five-IsSorted has_succ has_pred (omega arith)

-- Three nodes in a ring that nothing enters: each is merged into the one before, round after round.
abbrev ring : ℕ → GraphNode
ring zero = record { successors = arc 0 0 1 ∷ []; predecessors = arc 2 2 0 ∷ [] }
ring (suc zero) = record { successors = arc 1 1 2 ∷ []; predecessors = arc 0 0 1 ∷ [] }
ring (suc (suc n)) = record { successors = arc 2 2 0 ∷ []; predecessors = arc 1 1 2 ∷ [] }

ring_endless :
    (f : ℕ) (g : Graph)
    → (trivial_transforms (λ e. true) ring f 0 g ≡ none)
      × (trivial_transforms (λ e. true) ring f 1 g ≡ none)
      × (trivial_transforms (λ e. true) ring f 2 g ≡ none)
unfolding trivial_transforms trivial_edge merges is_predecessor is_successor is_predecessor_in
    is_successor_in
ring_endless zero g = (refl, refl, refl)
ring_endless (suc f) g = (
  (ring_endless f (add_edge (add_node (add_node g 0) 1) (arc 0 0 1))).1,
  (ring_endless f (add_edge (add_node (add_node g 1) 2) (arc 1 1 2))).2,
  (ring_endless f (add_edge (add_node (add_node g 2) 0) (arc 2 2 0))).0,
)

-- 0 → 1 → 2, where the edge to 2 leaves the subgraph.
abbrev inner : GraphEdge
inner = record { eid = 0; src = 0; snk = 1 }

abbrev outer : GraphEdge
outer = record { eid = 1; src = 1; snk = 2 }

abbrev callee_at : ℕ → GraphNode
callee_at zero = record { successors = inner ∷ []; predecessors = [] }
callee_at (suc zero) = record { successors = outer ∷ []; predecessors = inner ∷ [] }
callee_at (suc (suc n)) = record { successors = []; predecessors = outer ∷ [] }

subgraph_bfs-callee :
    subgraph_bfs callee_at 2 (outer ∷ []) 0
    ≡ some (finds (record { node_set = 0 ∷ 1 ∷ []; edge_set = inner ∷ [] }))
unfolding subgraph_bfs sweep drain visit_all visit exit_sources sub_edges insert_inside has_edge
    contains StdSet.insert ge_compare
subgraph_bfs-callee = refl
