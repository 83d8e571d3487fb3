-- ===== src/Graph/Cycles.antt =====
-- FindCycles (Graph/Dijkstra.cpp): a depth-first search that looks for a successor in the queue.
-- The inner loop has twice the number of nodes and two more as its fuel, the outer loop one more
-- than the number of nodes.
pub mod Arcs
pub mod Reach
pub mod Depth
pub mod Verdict
pub mod Answer
use cyclebite.Base.{
  ℕ, zero, suc, ◌+◌, ◌*◌, Bool, true, false, ◌&&◌, List, [], ◌∷◌, Option, none, some, ◌>>=◌, ltb,
  ◌==◌, if◌then◌else◌, length, ◌≡◌, ◌⊎◌, inl, inr, refl,
}
use cyclebite.Base.StdSet
use cyclebite.Base.NatSet.{contains}
use cyclebite.Graph.{Graph, GraphEdge, GraphNode, find_node, find_edge, node_count}

-- What the loop over the successors of the front of the queue ends with.
pub data Scan : Type 0 where
  found : Scan
  pushes : ℕ → Scan
  finishes : Scan

unfoldable pub scan : Graph → List ℕ → List ℕ → List GraphEdge → Scan
scan g visited q [] = finishes
scan g visited q (n ∷ ns) =
    let rest = scan g visited q ns in
    if find_edge g n && find_node g n.snk
    then (if contains q n.snk then found else if contains visited n.snk then rest else pushes n.snk)
    else rest

-- What the search from one node ends with.
pub data Search : Type 0 where
  cycle : Search
  visits : List ℕ → Search

-- The first node that was not visited yet, as the queue.
unfoldable pub first_unvisited : List ℕ → List ℕ → List ℕ
first_unvisited visited [] = []
first_unvisited visited (n ∷ ns) = if contains visited n then first_unvisited visited ns else n ∷ []

module _ (heap : ℕ → GraphNode) (g : Graph) where
  unfoldable pub explore : ℕ → List ℕ → List ℕ → Option Search
  explore zero visited q = none
  explore (suc f) visited [] = some (visits visited)
  explore (suc f) visited (n ∷ q) =
      let next = StdSet.insert ltb visited n in
      elim (scan g next (n ∷ q) (heap n).successors) [
        | found ↦ some cycle
        | pushes m ↦ explore f next (m ∷ n ∷ q)
        | finishes ↦ explore f next q
      ]

  unfoldable pub search_all : ℕ → List ℕ → Option Bool
  search_all zero visited = none
  search_all (suc f) visited = elim (ltb (length visited) (node_count g)) [
    | false ↦ some false
    | true ↦ elim (explore (2 * node_count g + 2) visited (first_unvisited visited g.node_set)) [
      | none ↦ none
      | some cycle ↦ some true
      | some (visits visited') ↦ search_all f visited'
    ]
  ]

  unfoldable pub find_cycles : Option Bool
  find_cycles = search_all (suc (node_count g)) []
