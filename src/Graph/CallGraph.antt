-- ===== src/Graph/CallGraph.antt =====
-- The call graph (Graph/CallGraph.cpp, Graph/CallGraphNode.cpp): a graph whose nodes can be found by
-- their function. The pointer to a function of LLVM is a number.
pub mod Lookup
pub mod Main
use cyclebite.Base.{
  ℕ, Bool, true, false, List, [], ◌∷◌, Option, none, some, ltb, ◌==◌, if◌then◌else◌,
}
use cyclebite.Base.StdSet
use cyclebite.Graph.{Graph, GraphEdge, GraphNode, add_node}

pub record CallGraphNode : Type 0 where
  pub node : GraphNode
  pub function : ℕ

pub record CallGraph : Type 0 where
  pub graph : Graph
  pub cgn : List ℕ

-- What operator[] and getMainNode end with.
pub data Looked : Type 0 where
  gives : ℕ → Looked
  throws : Looked

abbrev pub empty_call_graph : CallGraph
empty_call_graph = record { graph = record { node_set = []; edge_set = [] }; cgn = [] }

-- nodeSet.insert(nodes.begin(), nodes.end())
unfoldable pub add_all : Graph → List ℕ → Graph
add_all g [] = g
add_all g (n ∷ ns) = add_all (add_node g n) ns

module _ (heap : ℕ → CallGraphNode) where
  unfoldable pub cgn_compare : ℕ → ℕ → Bool
  cgn_compare l r = ltb (heap l).function (heap r).function

  unfoldable pub index_all : List ℕ → List ℕ → List ℕ
  index_all cgn [] = cgn
  index_all cgn (n ∷ ns) = index_all (StdSet.insert cgn_compare cgn n) ns

  unfoldable pub call_graph : List ℕ → List GraphEdge → CallGraph
  unfolding index_all
  call_graph nodes edges = record {
    graph = record { node_set = nodes; edge_set = edges };
    cgn = index_all [] nodes;
  }

  -- CGN.find(f)
  unfoldable pub cgn_find : List ℕ → ℕ → Option ℕ
  cgn_find [] f = none
  cgn_find (n ∷ ns) f = if (heap n).function == f then some n else cgn_find ns f

  unfoldable pub find : CallGraph → ℕ → Bool
  find g f = elim (cgn_find g.cgn f) [ none ↦ false | some n ↦ true ]

  unfoldable pub at : CallGraph → ℕ → Looked
  at g f = elim (cgn_find g.cgn f) [ none ↦ throws | some n ↦ gives n ]

  unfoldable pub add_call_node : CallGraph → ℕ → CallGraph
  add_call_node g n = record { graph = add_node g.graph n; cgn = StdSet.insert cgn_compare g.cgn n }

  unfoldable pub add_call_nodes : CallGraph → List ℕ → CallGraph
  add_call_nodes g ns = record g { graph = add_all g.graph ns }

  abbrev pub is_first : ℕ → Bool
  is_first n = elim ((heap n).node).predecessors [ [] ↦ true | (e ∷ es) ↦ false ]

  -- The loop of getMainNode, with the node that it has found so far.
  unfoldable pub main_loop : Option ℕ → List ℕ → Looked
  main_loop none [] = throws
  main_loop (some m) [] = gives m
  main_loop none (n ∷ ns) = if is_first n then main_loop (some n) ns else main_loop none ns
  main_loop (some m) (n ∷ ns) = if is_first n then throws else main_loop (some m) ns

  unfoldable pub get_main_node : CallGraph → Looked
  unfolding main_loop
  get_main_node g = main_loop none (g.graph).node_set
