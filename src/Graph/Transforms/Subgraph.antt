-- ===== src/Graph/Transforms/Subgraph.antt =====
-- SubgraphBFS (Graph/Transforms.cpp). The inner loop has the length of its queue, the number of
-- edges and one more as its fuel; the outer loop counts its iterations as the code does.
pub mod Step
pub mod Sweep
pub mod Drain
pub mod Near
pub mod Edges
pub mod Start
pub mod Exits
pub mod Returns
pub mod Whole
use cyclebite.Base.{
  ℕ, zero, suc, ◌+◌, Bool, true, false, not, ◌&&◌, List, [], ◌∷◌, ◌++◌, Option, none, some, ltb,
  ◌==◌, if◌then◌else◌, length,
}
use cyclebite.Base.StdSet
use cyclebite.Base.NatSet.{contains}
use cyclebite.Graph.{Graph, GraphEdge, GraphNode, ge_compare, has_edge}

pub record Bfs : Type 0 where
  pub sub_nodes : List ℕ
  pub covered : List GraphEdge
  pub exit_cover : List GraphEdge
  pub queue : List ℕ

-- What the function ends with: the subgraph, or the exception.
pub data Subgraph : Type 0 where
  finds : Graph → Subgraph
  throws : Subgraph

unfoldable pub visit : List GraphEdge → Bfs → GraphEdge → Bfs
visit exits s succ =
    if has_edge s.covered succ
    then s
    else if has_edge exits succ
    then record s {
      covered = StdSet.insert ge_compare s.covered succ;
      exit_cover = StdSet.insert ge_compare s.exit_cover succ;
    }
    else record s {
      covered = StdSet.insert ge_compare s.covered succ;
      sub_nodes = StdSet.insert ltb s.sub_nodes succ.snk;
      queue = s.queue ++ succ.snk ∷ [];
    }

unfoldable pub visit_all : List GraphEdge → Bfs → List GraphEdge → Bfs
visit_all exits s [] = s
visit_all exits s (succ ∷ succs) = visit_all exits (visit exits s succ) succs

-- The nodes that the loops over the nodes of the subgraph push to the front of an empty queue.
unfoldable pub push_successors : List GraphEdge → ℕ → List ℕ → List GraphEdge → List ℕ
push_successors covered node q [] = q
push_successors covered node q (succ ∷ succs) =
    push_successors covered node
      (if not (has_edge covered succ) && not (contains q node) then node ∷ q else q) succs

unfoldable pub push_predecessors : List GraphEdge → ℕ → List ℕ → List GraphEdge → List ℕ
push_predecessors covered node q [] = q
push_predecessors covered node q (pred ∷ preds) =
    push_predecessors covered node
      (if not (has_edge covered pred) && not (contains q node) then pred.src ∷ q else q) preds

-- The edges of the list that lead into the set of nodes, at the given end.
unfoldable pub insert_inside :
    (GraphEdge → ℕ) → List ℕ → List GraphEdge → List GraphEdge → List GraphEdge
insert_inside end nodes edges [] = edges
insert_inside end nodes edges (e ∷ es) =
    insert_inside end nodes
      (if contains nodes (end e) then StdSet.insert ge_compare edges e else edges) es

unfoldable pub exit_sources : List ℕ → List GraphEdge → List ℕ
exit_sources nodes [] = nodes
exit_sources nodes (e ∷ es) = exit_sources (StdSet.insert ltb nodes e.src) es

module _ (heap : ℕ → GraphNode) (edge_count : ℕ) (exits : List GraphEdge) where
  unfoldable pub refill : List GraphEdge → List ℕ → List ℕ → List ℕ
  refill covered q [] = q
  refill covered q (node ∷ nodes) =
      refill covered
        (push_predecessors covered node (push_successors covered node q (heap node).successors)
          (heap node).predecessors)
        nodes

  unfoldable pub drain : ℕ → Bfs → Option Bfs
  unfolding visit_all
  drain zero s = none
  drain (suc f) s = elim s.queue [
    | [] ↦ some s
    | (n ∷ q) ↦ drain f (visit_all exits (record s { queue = q }) (heap n).successors)
  ]

  abbrev pub is_finished : Bfs → Bool
  is_finished s =
      length s.exit_cover == length exits && (elim s.queue [ [] ↦ true | (n ∷ q) ↦ false ])

  abbrev pub filled : Bfs → Bfs
  filled s = elim s.queue [
    | [] ↦ record s { queue = refill s.covered [] s.sub_nodes }
    | (n ∷ q) ↦ s
  ]

  abbrev pub pass : Bfs → Option Bfs
  pass s = drain (suc (length (filled s).queue + edge_count)) (filled s)

  unfoldable pub sub_edges : List ℕ → List GraphEdge → List ℕ → List GraphEdge
  unfolding insert_inside
  sub_edges nodes edges [] = edges
  sub_edges nodes edges (n ∷ ns) =
      sub_edges nodes
        (insert_inside (λ e. e.snk) nodes
          (insert_inside (λ e. e.src) nodes edges (heap n).predecessors) (heap n).successors)
        ns

  abbrev pub subgraph_of : Bfs → Graph
  subgraph_of s = record { node_set = s.sub_nodes; edge_set = sub_edges s.sub_nodes [] s.sub_nodes }

  -- The number is that of the iterations after which one more is too many.
  unfoldable pub sweep : ℕ → Bfs → Option Subgraph
  sweep zero s = elim (is_finished s) [
    | true ↦ some (finds (subgraph_of s))
    | false ↦ elim (pass s) [ none ↦ none | some s' ↦ some throws ]
  ]
  sweep (suc f) s = elim (is_finished s) [
    | true ↦ some (finds (subgraph_of s))
    | false ↦ elim (pass s) [ none ↦ none | some s' ↦ sweep f s' ]
  ]

  abbrev pub start_bfs : ℕ → Bfs
  start_bfs entrance = record {
    sub_nodes = exit_sources (entrance ∷ []) exits;
    covered = [];
    exit_cover = [];
    queue = entrance ∷ [];
  }

  unfoldable pub subgraph_bfs : ℕ → Option Subgraph
  unfolding sweep
  subgraph_bfs entrance = sweep 1000000 (start_bfs entrance)
