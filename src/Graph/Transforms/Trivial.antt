-- ===== src/Graph/Transforms/Trivial.antt =====
-- TrivialTransforms (Graph/Transforms.cpp): the chain of nodes behind a node, each the only successor
-- and the only predecessor of the next. Whether the weight of an edge, a float, is more than 0.9999
-- is a parameter.
use cyclebite.Base.{
  ℕ, zero, suc, Bool, true, false, not, ◌&&◌, List, [], ◌∷◌, Option, none, some, ◌==◌,
  if◌then◌else◌, length, ◌≡◌,
}
use cyclebite.Base.StdSet
use cyclebite.Base.NatSet.{contains}
use cyclebite.Graph.{Graph, GraphEdge, GraphNode, is_predecessor, is_successor, add_node, add_edge}

abbrev pub is_some : Option GraphEdge → Bool
is_some none = false
is_some (some e) = true

module _ (certain : GraphEdge → Bool) (heap : ℕ → GraphNode) where
  -- The conditions on the sink, with its lists of edges.
  unfoldable pub merges : ℕ → ℕ → List GraphEdge → List GraphEdge → Bool
  unfolding is_predecessor is_successor
  merges source sink (p ∷ []) (s ∷ []) =
      is_some (is_predecessor (heap source) sink)
      && is_some (is_successor (heap sink) source)
      && certain p
      && not (is_some (is_predecessor (heap sink) source))
      && not (length (heap source).predecessors == 0)
  merges source sink ps ss = false

  -- The edge that is merged, if the source has one successor.
  unfoldable pub trivial_edge : ℕ → List GraphEdge → Option GraphEdge
  unfolding merges
  trivial_edge source (e ∷ []) =
      if certain e && merges source e.snk (heap e.snk).predecessors (heap e.snk).successors
      then some e
      else none
  trivial_edge source es = none

  -- `none` is more rounds than the fuel.
  unfoldable pub trivial_transforms : ℕ → ℕ → Graph → Option Graph
  unfolding trivial_edge add_node add_edge
  trivial_transforms zero source subgraph = none
  trivial_transforms (suc f) source subgraph = elim (trivial_edge source (heap source).successors) [
    | none ↦ some subgraph
    | some e ↦ trivial_transforms f e.snk (add_edge (add_node (add_node subgraph source) e.snk) e)
  ]

  -- What a merged edge tells of its ends.
  record Merges (source : ℕ) (e : GraphEdge) : Type 0 where
    pred : GraphEdge
    only : (heap e.snk).predecessors ≡ pred ∷ []
    from : pred.src ≡ source
    member : (heap source).successors ≡ e ∷ []

  -- The nodes that were merged, the last first: each has the one before it as its only predecessor,
  -- and the first does not have one predecessor.
  abbrev IsChain : ℕ → List ℕ → Type 0
  IsChain n [] = ¬ (length (heap n).predecessors ≡ 1)
  IsChain n (m ∷ ms) =
      (p : GraphEdge) × ((heap n).predecessors ≡ p ∷ []) × (p.src ≡ m) × IsChain m ms

  -- No node twice.
  abbrev IsPath : ℕ → List ℕ → Type 0
  IsPath n [] = Unit
  IsPath n (m ∷ ms) = (contains (m ∷ ms) n ≡ false) × IsPath m ms
