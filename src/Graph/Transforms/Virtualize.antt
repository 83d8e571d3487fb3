-- ===== src/Graph/Transforms/Virtualize.antt =====
-- VirtualizeSubgraph (Graph/Transforms.cpp): a virtual node takes the place of a subgraph. The node is
-- new: it has no nodes, edges or neighbors yet. The maps NodeToVN and EdgeToVE are the lists of their
-- pairs. The weights of the edges, which are floats, are left out; whether an edge is imaginary is a
-- parameter.
pub mod Frequency
pub mod Outside
pub mod Exits
use cyclebite.Base.{
  ℕ, ◌+◌, ◌%◌, ◌^◌, Bool, true, false, List, [], ◌∷◌, ◌++◌, map, Option, none, some, ltb, ◌==◌,
  ◌||◌, if◌then◌else◌, length, filter,
}
use cyclebite.Base.StdSet
use cyclebite.Base.NatSet.{contains}
use cyclebite.Graph.{
  Graph, GraphEdge, GraphNode, ge_compare, add_node, remove_node, add_edge, remove_edge,
  add_successor, remove_successor, add_predecessor, remove_predecessor, control_edges,
}
use cyclebite.Graph.Kernels.{insert_blocks}
use cyclebite.Graph.VirtualNode.{get_entrances, get_exits}

pub record Space : Type 0 where
  pub graph : Graph
  pub heap : ℕ → GraphNode
  pub blocks : ℕ → List ℕ
  pub frequency : ℕ → ℕ
  pub next_eid : ℕ
  pub node_to_vn : List (ℕ × ℕ)
  pub edge_to_ve : List (GraphEdge × GraphEdge)

-- The node at a pointer, written back.
abbrev pub on_node : (GraphNode → GraphNode) → ℕ → (ℕ → GraphNode) → ℕ → GraphNode
on_node f n heap m = if m == n then f (heap n) else heap m

-- The sum of the frequencies, in 64 bits.
unfoldable pub add_frequencies : (ℕ → ℕ) → ℕ → List GraphEdge → ℕ
add_frequencies freq sum [] = sum
add_frequencies freq sum (e ∷ es) = add_frequencies freq ((sum + freq e.eid) % 2 ^ 64) es

-- The sources of the entrances, but for the imaginary ones.
unfoldable pub entering_nodes : (GraphEdge → Bool) → List ℕ → List GraphEdge → List ℕ
entering_nodes imaginary nodes [] = nodes
entering_nodes imaginary nodes (ent ∷ ents) =
    entering_nodes imaginary (if imaginary ent then nodes else StdSet.insert ltb nodes ent.src) ents

unfoldable pub remove_all : Graph → List GraphEdge → Graph
unfolding remove_edge
remove_all g [] = g
remove_all g (e ∷ es) = remove_all (remove_edge g e) es

unfoldable pub remove_successors : GraphNode → List GraphEdge → GraphNode
unfolding remove_successor
remove_successors n [] = n
remove_successors n (e ∷ es) = remove_successors (remove_successor n e) es

-- One round of the loop over the nodes that enter the subgraph `sub`.
unfoldable pub virtualize_entrance : (GraphEdge → Bool) → List ℕ → ℕ → Space → ℕ → Space
unfolding add_frequencies remove_all remove_successors add_predecessor add_successor add_edge
virtualize_entrance imaginary sub vn s ent =
    let vn_edges =
      filter (λ e. contains sub e.snk) (control_edges imaginary (s.heap ent).successors) in
    let new_edge : GraphEdge = record {
      eid = s.next_eid;
      src = if contains sub ent then vn else ent;
      snk = vn;
    } in
    record s {
      graph = add_edge (remove_all s.graph vn_edges) new_edge;
      heap =
          on_node (λ n. add_successor n new_edge) ent
            (on_node (λ n. add_predecessor n new_edge) vn
              (on_node (λ n. remove_successors n vn_edges) ent s.heap));
      frequency =
          λ i. if i == s.next_eid then add_frequencies s.frequency 0 vn_edges else s.frequency i;
      next_eid = s.next_eid + 1;
      edge_to_ve = s.edge_to_ve ++ map (λ e. (e, new_edge)) vn_edges;
    }

unfoldable pub virtualize_entrances : (GraphEdge → Bool) → List ℕ → ℕ → Space → List ℕ → Space
unfolding virtualize_entrance
virtualize_entrances imaginary sub vn s [] = s
virtualize_entrances imaginary sub vn s (ent ∷ ents) =
    virtualize_entrances imaginary sub vn (virtualize_entrance imaginary sub vn s ent) ents

-- One round of the loop over the exits.
unfoldable pub virtualize_exit : List ℕ → ℕ → Space → GraphEdge → Space
unfolding add_predecessor add_successor remove_predecessor add_edge remove_edge
virtualize_exit sub vn s ex =
    let new_edge : GraphEdge = record { eid = s.next_eid; src = vn; snk = ex.snk } in
    if contains sub ex.snk then s else record s {
      graph = add_edge (remove_edge s.graph ex) new_edge;
      heap =
          on_node (λ n. add_predecessor (remove_predecessor n ex) new_edge) ex.snk
            (on_node (λ n. add_successor n new_edge) vn s.heap);
      frequency = λ i. if i == s.next_eid then s.frequency ex.eid else s.frequency i;
      next_eid = s.next_eid + 1;
      edge_to_ve = s.edge_to_ve ++ (ex, new_edge) ∷ [];
    }

unfoldable pub virtualize_exits : List ℕ → ℕ → Space → List GraphEdge → Space
unfolding virtualize_exit
virtualize_exits sub vn s [] = s
virtualize_exits sub vn s (ex ∷ exs) = virtualize_exits sub vn (virtualize_exit sub vn s ex) exs

-- addNodes, and the entries of the nodes in NodeToVN.
unfoldable pub take_nodes : ℕ → Space → List ℕ → Space
unfolding insert_blocks
take_nodes vn s [] = s
take_nodes vn s (n ∷ ns) =
    take_nodes vn
      (record s {
        blocks = λ m. if m == vn then insert_blocks (s.blocks vn) (s.blocks n) else s.blocks m;
        node_to_vn = s.node_to_vn ++ (n, vn) ∷ [];
      })
      ns

unfoldable pub remove_nodes : Graph → List ℕ → Graph
unfolding remove_node
remove_nodes g [] = g
remove_nodes g (n ∷ ns) = remove_nodes (remove_node g n) ns

-- The nodes and edges of the subgraph leave the graph, and the virtual node joins it.
unfoldable pub replace_nodes : Graph → ℕ → Space → Space
unfolding remove_nodes remove_all add_node
replace_nodes subgraph vn s = record s {
  graph = add_node (remove_all (remove_nodes s.graph subgraph.node_set) subgraph.edge_set) vn;
}

-- `none` is the exception for an empty subgraph.
unfoldable pub virtualize_subgraph : (GraphEdge → Bool) → ℕ → Graph → Space → Option Space
unfolding take_nodes entering_nodes virtualize_entrances virtualize_exits replace_nodes
    get_entrances get_exits
virtualize_subgraph imaginary vn subgraph s =
    let sub = subgraph.node_set in
    let taken = take_nodes vn s sub in
    let ents =
      entering_nodes imaginary [] (get_entrances imaginary taken.heap subgraph.edge_set sub) in
    let entered = virtualize_entrances imaginary sub vn taken ents in
    let exits = get_exits imaginary entered.heap subgraph.edge_set sub in
    if length sub == 0 || length subgraph.edge_set == 0
    then none
    else some (replace_nodes subgraph vn (virtualize_exits sub vn entered exits))
