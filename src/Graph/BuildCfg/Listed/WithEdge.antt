-- ===== src/Graph/BuildCfg/Listed/WithEdge.antt =====
-- The edge that BuildCFG (Graph/IO.cpp) makes, in the set of edges and in the predecessors.
use cyclebite.Base.{
  ℕ, ◌<◌, true, ◌||◌, List, none, some, ◌==◌, if◌then◌else◌, ◌≡◌, refl, sym, ap, ◌∙◌, subst, arith,
  inl, inr, Bool-cases,
}
use cyclebite.Base.StdSet
use cyclebite.Graph.{
  GraphEdge, ge_compare, has_edge, is_predecessor_in, add_edge, add_successor, add_predecessor,
}
use cyclebite.Graph.Containers.{has_edge-insert, parallel}
use cyclebite.Graph.BuildCfg.{Cfg, find_nid, make_edge}
use cyclebite.Graph.BuildCfg.Nodes.{IsCfg, successors_of}
use cyclebite.Graph.BuildCfg.Weights.{successors-here, successors-there}
use cyclebite.Graph.BuildCfg.Listed.{IsListed, link, predecessors_of}

module _ (c : Cfg) (h : IsCfg c) (l : IsListed c) (from to : List ℕ) (n k freq : ℕ)
    (at_n : find_nid c.nid_map from ≡ some n) (at_k : find_nid c.nid_map to ≡ some k)
    (new : is_predecessor_in (successors_of c n) k ≡ none) where
  abbrev with_edge : Cfg
  with_edge = make_edge c n k freq

  abbrev an_edge : GraphEdge
  an_edge = record { eid = c.next_eid; src = n; snk = k }

  edges-with :
      (m j : ℕ)
      → has_edge (with_edge.graph).edge_set (link m j)
        ≡ (parallel an_edge (link m j) || has_edge (c.graph).edge_set (link m j))
  unfolding make_edge add_edge
  edges-with m j = has_edge-insert (c.graph).edge_set an_edge (link m j)

  successors-with :
      (m j : ℕ)
      → has_edge (successors_of with_edge m) (link m j)
        ≡ (parallel an_edge (link m j) || has_edge (successors_of c m) (link m j))
  successors-with m j = elim (Bool-cases (n == m)) [
    | inl here ↦
        let e : n ≡ m = ground (arith, here) in
        subst
          (λ z.
            has_edge (successors_of with_edge z) (link m j)
            ≡ (parallel an_edge (link m j) || has_edge (successors_of c z) (link m j)))
          (e)
          (ap (λ es. has_edge es (link m j)) (successors-here c h from to n k freq at_n at_k new)
            ∙ has_edge-insert (successors_of c n) an_edge (link m j))
    | inr there ↦
        let d : ¬ (m ≡ n) = λ q. ground (arith, there, q) in
        ap (λ es. has_edge es (link m j)) (successors-there c h from to n k freq at_n at_k new m d)
        ∙ rw there refl
  ]

  predecessors-make_edge :
      (j : ℕ)
      → predecessors_of with_edge j ≡ (
          if j == k
          then StdSet.insert ge_compare (predecessors_of c k) an_edge
          else predecessors_of c j)
  unfolding make_edge add_successor add_predecessor
  predecessors-make_edge j = ground arith

  predecessors-here :
      predecessors_of with_edge k ≡ StdSet.insert ge_compare (predecessors_of c k) an_edge
  predecessors-here = ground (arith, predecessors-make_edge k)

  predecessors-there : (j : ℕ) → ¬ (j ≡ k) → predecessors_of with_edge j ≡ predecessors_of c j
  predecessors-there j d = ground (arith, predecessors-make_edge j, d)

  predecessors-with :
      (m j : ℕ)
      → has_edge (predecessors_of with_edge j) (link m j)
        ≡ (parallel an_edge (link m j) || has_edge (predecessors_of c j) (link m j))
  predecessors-with m j = elim (Bool-cases (k == j)) [
    | inl here ↦
        let e : k ≡ j = ground (arith, here) in
        subst
          (λ z.
            has_edge (predecessors_of with_edge z) (link m j)
            ≡ (parallel an_edge (link m j) || has_edge (predecessors_of c z) (link m j)))
          (e)
          (ap (λ es. has_edge es (link m j)) predecessors-here
            ∙ has_edge-insert (predecessors_of c k) an_edge (link m j))
    | inr there ↦
        let d : ¬ (j ≡ k) = λ q. ground (arith, there, q) in
        ap (λ es. has_edge es (link m j)) (predecessors-there j d) ∙ ground (arith, there)
  ]

  parallel_ends :
      (m j : ℕ) → parallel an_edge (link m j) ≡ true → (m < c.next_nid) × (j < c.next_nid)
  parallel_ends m j p =
      (ground (arith, p, h.old_node from n at_n), ground (arith, p, h.old_node to k at_k))

  pub make_edge-IsListed : IsListed with_edge
  unfolding make_edge
  make_edge-IsListed = record {
    in_graph = λ m j a b.
        edges-with m j
        ∙ ap (λ t. parallel an_edge (link m j) || t) (l.in_graph m j a b)
        ∙ sym (successors-with m j);
    mirrored = λ m j a b.
        predecessors-with m j
        ∙ ap (λ t. parallel an_edge (link m j) || t) (l.mirrored m j a b)
        ∙ sym (successors-with m j);
    old_ends = λ m j t. elim (Bool-cases (parallel an_edge (link m j))) [
      | inl p ↦ parallel_ends m j p
      | inr q ↦ l.old_ends m j (sym (edges-with m j ∙ rw q refl) ∙ t)
    ];
    old_source = λ m j b t. elim (Bool-cases (parallel an_edge (link m j))) [
      | inl p ↦ (parallel_ends m j p).0
      | inr q ↦ l.old_source m j b (sym (predecessors-with m j ∙ rw q refl) ∙ t)
    ];
  }
