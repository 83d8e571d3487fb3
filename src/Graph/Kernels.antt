-- ===== src/Graph/Kernels.antt =====
-- Kernels of the control flow graph (Graph/MLCycle.cpp): the test that every node reaches every
-- other one, and the blocks that belong to a kernel alone. The map of colors is the set of the black
-- nodes; a node of the subgraph that is not in it is white. A set of blocks is a list of numbers.
pub mod Flood
pub mod Marks
pub mod Connected
pub mod Blocks
use cyclebite.Base.{
  ℕ, zero, suc, Bool, true, false, not, ◌&&◌, List, [], ◌∷◌, ◌++◌, Option, none, some, ltb,
  if◌then◌else◌, length,
}
use cyclebite.Base.StdSet
use cyclebite.Base.NatSet.{contains}
use cyclebite.Graph.{GraphEdge, GraphNode}

-- The loop over the successors of the front of the queue.
unfoldable pub paint : List ℕ → List ℕ → List ℕ → List GraphEdge → List ℕ × List ℕ
paint subgraph black q [] = (black, q)
paint subgraph black q (n ∷ ns) =
    paint subgraph (StdSet.insert ltb black n.snk)
      (if contains subgraph n.snk && not (contains black n.snk) then q ++ n.snk ∷ [] else q) ns

unfoldable pub all_black : List ℕ → List ℕ → Bool
all_black [] black = true
all_black (n ∷ ns) black = contains black n && all_black ns black

module _ (heap : ℕ → GraphNode) (subgraph : List ℕ) where
  unfoldable pub flood : ℕ → List ℕ → List ℕ → Option (List ℕ)
  unfolding paint
  flood zero black q = none
  flood (suc f) black [] = some black
  flood (suc f) black (n ∷ q) =
      let r = paint subgraph black q (heap n).successors in flood f r.0 r.1

  unfoldable pub connected_from : List ℕ → Option Bool
  connected_from [] = some true
  connected_from (n ∷ ns) = elim (flood (suc (suc (length subgraph))) [] (n ∷ [])) [
    | none ↦ none
    | some black ↦ elim (all_black subgraph black) [ false ↦ some false | true ↦ connected_from ns ]
  ]

  unfoldable pub fully_connected : Option Bool
  fully_connected = connected_from subgraph

-- std::set_difference
unfoldable pub set_difference : List ℕ → List ℕ → List ℕ
set_difference [] ys = []
set_difference (x ∷ xs) ys =
    let rest = set_difference xs ys in if contains ys x then rest else x ∷ rest

unfoldable pub insert_blocks : List ℕ → List ℕ → List ℕ
insert_blocks xs [] = xs
insert_blocks xs (y ∷ ys) = insert_blocks (StdSet.insert ltb xs y) ys

-- The blocks of the subgraph, from those of its nodes.
unfoldable pub gather_blocks : List ℕ → List (List ℕ) → List ℕ
unfolding insert_blocks
gather_blocks blocks [] = blocks
gather_blocks blocks (node ∷ nodes) = gather_blocks (insert_blocks blocks node) nodes

-- The loop over the child kernels, with setDiff.
unfoldable pub take_out : List ℕ → List ℕ → List (List ℕ) → List ℕ
unfolding set_difference insert_blocks
take_out blocks set_diff [] = blocks
take_out blocks set_diff (child ∷ children) =
    let next = insert_blocks set_diff (set_difference blocks child) in take_out next next children

unfoldable pub kernel_blocks : List (List ℕ) → List (List ℕ) → List ℕ
unfolding gather_blocks take_out
kernel_blocks nodes children = take_out (gather_blocks [] nodes) [] children
