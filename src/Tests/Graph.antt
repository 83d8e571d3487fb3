-- ===== src/Tests/Graph.antt =====
-- The graphs at concrete inputs.
use cyclebite.Base.{
  ◌⊎◌, inl, inr, filter, subst, sym, arith, ◌||◌, List, ◌++◌, not, ◌&&◌, ℕ, Bool, ◌≡◌, ◌↔◌, refl,
  false, true, [], ◌∷◌, some, ◌==◌, if◌then◌else◌,
}
use cyclebite.Base.StdSet
use cyclebite.Base.NatSet.{contains}
use cyclebite.Graph.{Graph, GraphEdge, GraphNode, control_edges, has_edge, add_node}
use cyclebite.Graph.CallGraph.{
  CallGraph, CallGraphNode, gives, empty_call_graph, at, find, add_call_node, add_call_nodes,
  add_all, is_first, get_main_node, main_loop,
}
use cyclebite.Graph.CallGraph.Main.{sole, get_main_node_lem}
use cyclebite.Graph.CallGraph.Lookup.{
  Addition, one_node, many_nodes, add, add_each, looked, is_there, first_with, all_nodes,
  add_each-reads,
}
use cyclebite.Graph.Cycles.{scan, explore, first_unvisited, search_all, find_cycles}
use cyclebite.Graph.Cycles.Answer.{HasCycle, find_cycles_iff}
use cyclebite.Graph.Cycles.Reach.{Reach}
use cyclebite.Graph.Kernels.{
  paint, flood, all_black, connected_from, fully_connected, set_difference, insert_blocks,
  gather_blocks, take_out, kernel_blocks,
}
use cyclebite.Graph.Kernels.Marks.{Step}
use cyclebite.Graph.VirtualNode.{In, IsInduced, get_entrances, get_exits, get_entrances_iff}
use cyclebite.Graph.ControlNode.{
  ControlNode, append_missing, merge_successor, IsDistinct, merge_successor-Extends,
}
use cyclebite.Graph.Kernels.Connected.{fully_connected_iff}
use cyclebite.Graph.Kernels.Blocks.{in_some, kernel_blocks-first_child}

-- The edges 0 → 1 → 2 → 0, in a graph that lacks the last one and in one that has it.
abbrev e01 : GraphEdge
e01 = record { eid = 0; src = 0; snk = 1 }

abbrev e12 : GraphEdge
e12 = record { eid = 1; src = 1; snk = 2 }

abbrev e20 : GraphEdge
e20 = record { eid = 2; src = 2; snk = 0 }

abbrev node_at : ℕ → GraphNode
node_at n =
    if n == 0
    then record { successors = e01 ∷ []; predecessors = e20 ∷ [] }
    else if n == 1
    then record { successors = e12 ∷ []; predecessors = e01 ∷ [] }
    else record { successors = e20 ∷ []; predecessors = e12 ∷ [] }

abbrev chain : Graph
chain = record { node_set = 0 ∷ 1 ∷ 2 ∷ []; edge_set = e01 ∷ e12 ∷ [] }

abbrev ring : Graph
ring = record { node_set = 0 ∷ 1 ∷ 2 ∷ []; edge_set = e01 ∷ e12 ∷ e20 ∷ [] }

find_cycles-chain : find_cycles node_at chain ≡ some false
unfolding find_cycles search_all explore scan first_unvisited has_edge contains StdSet.insert
find_cycles-chain = refl

find_cycles-ring : find_cycles node_at ring ≡ some true
unfolding find_cycles search_all explore scan first_unvisited has_edge contains StdSet.insert
find_cycles-ring = refl

find_cycles_iff_example :
    (b : Bool) × (find_cycles node_at ring ≡ some b) × ((b ≡ true) ↔ HasCycle node_at ring)
find_cycles_iff_example = find_cycles_iff node_at ring ((refl, (refl, tt)), ((refl, tt), (tt, tt)))

-- Of the three functions, 7 and 8 have a node, 8 has two, and nothing calls the node 0.
abbrev caller_at : ℕ → CallGraphNode
caller_at n =
    if n == 0
    then record { node = record { successors = e01 ∷ []; predecessors = [] }; function = 7 }
    else record { node = record { successors = []; predecessors = e01 ∷ [] }; function = 8 }

abbrev additions : List Addition
additions = one_node 0 ∷ many_nodes (3 ∷ []) ∷ one_node 2 ∷ one_node 1 ∷ []

abbrev calls : CallGraph
calls = add_each caller_at empty_call_graph additions

add_each-reads_example :
    ((f : ℕ)
      → (at caller_at calls f ≡ looked (first_with caller_at f additions))
        × (find caller_at calls f ≡ is_there (first_with caller_at f additions)))
    × ((n : ℕ) → contains (calls.graph).node_set n ≡ contains (all_nodes additions) n)
add_each-reads_example = add_each-reads caller_at additions

get_main_node_example :
    get_main_node caller_at calls ≡ sole (filter (is_first caller_at) (calls.graph).node_set)
get_main_node_example = get_main_node_lem caller_at calls

calls-main : get_main_node caller_at calls ≡ gives 0
unfolding get_main_node main_loop add_each add add_call_node add_call_nodes add_all add_node
    StdSet.insert
calls-main = refl

fully_connected-ring : fully_connected node_at (0 ∷ 1 ∷ 2 ∷ []) ≡ some true
unfolding fully_connected connected_from flood paint all_black contains StdSet.insert
fully_connected-ring = refl

fully_connected-part : fully_connected node_at (0 ∷ 1 ∷ []) ≡ some false
unfolding fully_connected connected_from flood paint all_black contains StdSet.insert
fully_connected-part = refl

fully_connected_iff_example :
    (b : Bool) × (fully_connected node_at (0 ∷ 1 ∷ 2 ∷ []) ≡ some b)
    × ((b ≡ true) ↔ (
        (u : ℕ)
        → contains (0 ∷ 1 ∷ 2 ∷ []) u ≡ true
        → (v : ℕ) → contains (0 ∷ 1 ∷ 2 ∷ []) v ≡ true
        → Reach (Step node_at (0 ∷ 1 ∷ 2 ∷ [])) u v))
fully_connected_iff_example =
    fully_connected_iff node_at (0 ∷ 1 ∷ 2 ∷ []) ((refl, (refl, tt)), ((refl, tt), (tt, tt)))

-- Block 6 is in the second child and stays in the kernel.
kernel_blocks-second_child :
    kernel_blocks ((4 ∷ 5 ∷ 6 ∷ []) ∷ []) ((5 ∷ []) ∷ (6 ∷ []) ∷ []) ≡ 4 ∷ 6 ∷ []
unfolding kernel_blocks gather_blocks take_out set_difference insert_blocks contains StdSet.insert
kernel_blocks-second_child = refl

kernel_blocks-first_child_example :
    (contains (kernel_blocks ((4 ∷ 5 ∷ 6 ∷ []) ∷ []) ((5 ∷ []) ∷ (6 ∷ []) ∷ [])) 6
      ≡ (in_some ((4 ∷ 5 ∷ 6 ∷ []) ∷ []) 6 && not (contains (5 ∷ []) 6)))
    × (contains (kernel_blocks ((4 ∷ 5 ∷ 6 ∷ []) ∷ []) []) 6 ≡ in_some ((4 ∷ 5 ∷ 6 ∷ []) ∷ []) 6)
kernel_blocks-first_child_example =
    kernel_blocks-first_child ((4 ∷ 5 ∷ 6 ∷ []) ∷ []) ((6 ∷ []) ∷ []) (5 ∷ []) 6

abbrev a_node : ControlNode
a_node = record { blocks = 1 ∷ 4 ∷ []; original_blocks = 4 ∷ 1 ∷ [] }

abbrev a_successor : ControlNode
a_successor = record { blocks = 1 ∷ 2 ∷ []; original_blocks = 1 ∷ 2 ∷ [] }

merge_successor-nodes :
    merge_successor a_node a_successor
    ≡ record { blocks = 1 ∷ 2 ∷ 4 ∷ []; original_blocks = 4 ∷ 1 ∷ 2 ∷ [] }
unfolding merge_successor append_missing insert_blocks contains StdSet.insert
merge_successor-nodes = refl

merge_successor-Extends_example :
    ((v : ℕ)
      → contains (merge_successor a_node a_successor).blocks v
        ≡ (contains (1 ∷ 4 ∷ []) v || contains (1 ∷ 2 ∷ []) v))
    × (IsDistinct (4 ∷ 1 ∷ []) → IsDistinct (merge_successor a_node a_successor).original_blocks)
    × ((added : List ℕ) × ((merge_successor a_node a_successor).original_blocks
          ≡ (4 ∷ 1 ∷ []) ++ added))
    × ((v : ℕ)
        → contains (merge_successor a_node a_successor).original_blocks v
          ≡ (contains (4 ∷ 1 ∷ []) v || contains (1 ∷ 2 ∷ []) v))
merge_successor-Extends_example = merge_successor-Extends a_node a_successor

-- Blocks 1 and 2 of the ring: 0 → 1 enters, 2 → 0 leaves.
abbrev pair : List ℕ
pair = 1 ∷ 2 ∷ []

pair_cases : (n : ℕ) → contains pair n ≡ true → (n ≡ 1) ⊎ (n ≡ 2)
unfolding contains
pair_cases n c = ground arith

abbrev Enters : ℕ → GraphEdge → Type 0
Enters n e = (e.snk ≡ n) × (has_edge (e12 ∷ []) e ≡ contains pair e.src)

abbrev Exits : ℕ → GraphEdge → Type 0
Exits n e = (e.src ≡ n) × (has_edge (e12 ∷ []) e ≡ contains pair e.snk)

only : (P : GraphEdge → Type 0) (e f : GraphEdge) → P f → In e (f ∷ []) → P e
only P e f p (inl q) = subst P (q) p
only P e f p (inr a) = absurd a

pair-IsInduced : IsInduced (λ e. false) node_at (e12 ∷ []) pair
unfolding has_edge contains
pair-IsInduced = record {
  predecessors = λ n e c i. elim (pair_cases n c) [
    | inl q ↦
        subst (λ z. Enters z e) (sym q)
          (only (Enters 1) e e01 (refl, refl)
            (subst (λ z. In e (control_edges (λ x. false) (node_at z).predecessors)) (q) i))
    | inr q ↦
        subst (λ z. Enters z e) (sym q)
          (only (Enters 2) e e12 (refl, refl)
            (subst (λ z. In e (control_edges (λ x. false) (node_at z).predecessors)) (q) i))
  ];
  successors = λ n e c i. elim (pair_cases n c) [
    | inl q ↦
        subst (λ z. Exits z e) (sym q)
          (only (Exits 1) e e12 (refl, refl)
            (subst (λ z. In e (control_edges (λ x. false) (node_at z).successors)) (q) i))
    | inr q ↦
        subst (λ z. Exits z e) (sym q)
          (only (Exits 2) e e20 (refl, refl)
            (subst (λ z. In e (control_edges (λ x. false) (node_at z).successors)) (q) i))
  ];
}

get_entrances_iff_example :
    (In e01 (get_entrances (λ e. false) node_at (e12 ∷ []) pair) ↔ (
      (contains pair 1 ≡ true)
      × In e01 (control_edges (λ x. false) (node_at 1).predecessors)
      × (contains pair 0 ≡ false)))
    × (In e01 (get_exits (λ e. false) node_at (e12 ∷ []) pair) ↔ (
        (contains pair 0 ≡ true)
        × In e01 (control_edges (λ x. false) (node_at 0).successors)
        × (contains pair 1 ≡ false)))
get_entrances_iff_example =
    get_entrances_iff (λ e. false) node_at (e12 ∷ []) e01 pair pair-IsInduced
