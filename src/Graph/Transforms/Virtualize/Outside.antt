-- ===== src/Graph/Transforms/Virtualize/Outside.antt =====
-- The nodes outside of a subgraph that is virtualized (VirtualizeSubgraph, Graph/Transforms.cpp): the
-- sum of the frequencies of their outgoing edges stays.
use cyclebite.Base.{ℕ, ◌<◌, Bool, true, false, not, List, [], filter, All, ◌≡◌, ◌⊎◌}
use cyclebite.Base.StdSet
use cyclebite.Base.NatSet.{contains}
use cyclebite.Graph.{Graph, GraphEdge}
use cyclebite.Graph.VirtualNode.{get_entrances}
use cyclebite.Graph.Transforms.Virtualize.{
  Space, add_frequencies, virtualize_entrance, entering_nodes,
}
use cyclebite.Graph.Transforms.Virtualize.Frequency.{inside}

abbrev pub out_frequency : Space → ℕ → ℕ
out_frequency s n = add_frequencies s.frequency 0 (s.heap n).successors

abbrev pub Leads : (GraphEdge → Bool) → List GraphEdge → Type 0
Leads p es = All (λ e. p e ≡ false) es

-- A node outside of the subgraph `sub`, without an imaginary edge into it, whose successors were not made by a later call: none leads
-- to the virtual node yet, or none to the subgraph any more.
pub record IsOutside (imaginary : GraphEdge → Bool) (sub : List ℕ) (vn : ℕ) (s : Space) (n : ℕ)
    : Type 0 where
  pub off : contains sub n ≡ false
  pub other : ¬ (n ≡ vn)
  pub sources : All (λ e. e.src ≡ n) (s.heap n).successors
  pub eids : All (λ e. e.eid < s.next_eid) (s.heap n).successors
  pub real : All (λ e. inside sub e ≡ true → imaginary e ≡ false) (s.heap n).successors
  pub entry :
      All (λ e. ¬ (e.snk ≡ vn)) (s.heap n).successors ⊎ Leads (inside sub) (s.heap n).successors

module _ (imaginary : GraphEdge → Bool) (sub : List ℕ) (vn : ℕ) (vn_off : contains sub vn ≡ false)
    (s : Space) where
  module _ (ent : ℕ) (h : IsOutside imaginary sub vn s ent) where
    abbrev after : Space
    after = virtualize_entrance imaginary sub vn s ent

    abbrev new_edge : GraphEdge
    new_edge = record { eid = s.next_eid; src = ent; snk = vn }

    abbrev kept : List GraphEdge
    kept = filter (λ e. not (inside sub e)) (s.heap ent).successors

    abbrev cut : List GraphEdge
    cut = filter (inside sub) (s.heap ent).successors

-- What a step does to a node outside.
abbrev pub Keeps : (GraphEdge → Bool) → List ℕ → ℕ → Space → Space → ℕ → Type 0
Keeps imaginary sub vn s t n =
    IsOutside imaginary sub vn t n
    × (out_frequency t n ≡ out_frequency s n)
    × (Leads (inside sub) (s.heap n).successors → Leads (inside sub) (t.heap n).successors)

-- The sources of the entrances of the subgraph.
abbrev pub entering : (GraphEdge → Bool) → Graph → Space → List ℕ
entering imaginary subgraph s =
    entering_nodes imaginary [] (get_entrances imaginary s.heap subgraph.edge_set subgraph.node_set)
