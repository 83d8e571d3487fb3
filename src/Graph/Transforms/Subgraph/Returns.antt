-- ===== src/Graph/Transforms/Subgraph/Returns.antt =====
-- SubgraphBFS (Graph/Transforms.cpp) where the entrance reaches every exit.
use cyclebite.Base.{ℕ, true, List, length, All, Any, ◌≡◌}
use cyclebite.Base.StdSet.{IsSorted}
use cyclebite.Graph.{Graph, GraphEdge, GraphNode, ge_compare, has_edge}
use cyclebite.Graph.Transforms.Subgraph.{Bfs, start_bfs}
use cyclebite.Graph.Transforms.Subgraph.Whole.{Reached}

module _ (heap : ℕ → GraphNode) (exits : List GraphEdge) (entrance : ℕ) where
  -- The entrance reaches the source of the edge, which is one of the successors of that node.
  abbrev pub IsReachedExit : GraphEdge → Type 0
  IsReachedExit e = Reached heap exits entrance e.src × Any (λ x. x ≡ e) (heap e.src).successors

  module _ (edges : List GraphEdge)
      (all_edges : (n : ℕ) → All (λ e. has_edge edges e ≡ true) (heap n).successors)
      (sorted : IsSorted ge_compare exits) (reached_exits : All IsReachedExit exits) where
    abbrev start : Bfs
    start = start_bfs heap (length edges) exits entrance
