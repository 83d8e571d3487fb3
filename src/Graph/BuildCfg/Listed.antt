-- ===== src/Graph/BuildCfg/Listed.antt =====
-- The set of edges of the graph that BuildCFG (Graph/IO.cpp) builds, and the predecessors of its
-- nodes: they say the same as the successors.
pub mod WithEdge
use cyclebite.Base.{
  ℕ, ◌<◌, Bool, true, false, ◌||◌, List, [], ◌∷◌, Option, none, some, ◌==◌, if◌then◌else◌, All, ◌≡◌,
  refl, sym, ap, ◌∙◌, subst, arith, inl, inr, Bool-cases, Option-cases,
}
use cyclebite.Base.StdSet
use cyclebite.Graph.{
  GraphEdge, ge_compare, has_edge, is_predecessor_in, add_edge, add_successor, add_predecessor,
}
use cyclebite.Graph.Containers.{has_edge-insert, parallel}
use cyclebite.Graph.BuildCfg.{Cfg, find_nid, make_node, make_edge}
use cyclebite.Graph.BuildCfg.Nodes.{IsCfg, successors_of}
use cyclebite.Graph.BuildCfg.Nodes.Fresh.{heap_cases}
use cyclebite.Graph.BuildCfg.Weights.{successors-here, successors-there}

-- An edge for a search, which reads its ends only.
abbrev pub link : ℕ → ℕ → GraphEdge
link n k = record { eid = 0; src = n; snk = k }

abbrev pub predecessors_of : Cfg → ℕ → List GraphEdge
predecessors_of c n = (c.heap n).predecessors

abbrev pub is_made : {A : Type 0} → Option A → Bool
is_made none = false
is_made (some a) = true

pub is_made-has_edge :
    (n k : ℕ) (es : List GraphEdge)
    → All (λ e. e.src ≡ n) es
    → has_edge es (link n k) ≡ is_made (is_predecessor_in es k)
unfolding has_edge is_predecessor_in
is_made-has_edge n k [] a = refl
is_made-has_edge n k (e ∷ es) a = ground (arith, a.0, is_made-has_edge n k es a.1)

pub record IsListed (c : Cfg) : Type 0 where
  pub in_graph :
      (n k : ℕ)
      → n < c.next_nid
      → k < c.next_nid
      → has_edge (c.graph).edge_set (link n k) ≡ has_edge (successors_of c n) (link n k)
  pub mirrored :
      (n k : ℕ)
      → n < c.next_nid
      → k < c.next_nid
      → has_edge (predecessors_of c k) (link n k) ≡ has_edge (successors_of c n) (link n k)
  pub old_ends :
      (n k : ℕ)
      → has_edge (c.graph).edge_set (link n k) ≡ true
      → (n < c.next_nid) × (k < c.next_nid)
  pub old_source :
      (n k : ℕ) → k < c.next_nid → has_edge (predecessors_of c k) (link n k) ≡ true → n < c.next_nid

pub not_both : true ≡ false → ⊥
not_both h = cc

refuted : {b : Bool} → (b ≡ true → ⊥) → b ≡ false
refuted {b} h = elim (Bool-cases b) [ inl t ↦ absurd (h t) | inr f ↦ f ]

too_late : {n k : ℕ} → n ≡ k → n < k → ⊥
too_late e l = omega (arith, e, l)

module _ (c : Cfg) (h : IsCfg c) (l : IsListed c) (ids : List ℕ)
    (new : find_nid c.nid_map ids ≡ none) where
  abbrev with_node : Cfg
  with_node = make_node c ids

  same_edges : (with_node.graph).edge_set ≡ (c.graph).edge_set
  unfolding make_node
  same_edges = refl

  no_edge_from : (n k : ℕ) → n ≡ c.next_nid → has_edge (c.graph).edge_set (link n k) ≡ false
  no_edge_from n k e = refuted (λ t. too_late e (l.old_ends n k t).0)

  no_edge_to : (n k : ℕ) → k ≡ c.next_nid → has_edge (c.graph).edge_set (link n k) ≡ false
  no_edge_to n k e = refuted (λ t. too_late e (l.old_ends n k t).1)

  no_successor :
      (n k : ℕ) → n < c.next_nid → k ≡ c.next_nid → has_edge (successors_of c n) (link n k) ≡ false
  no_successor n k i e =
      is_made-has_edge n k (successors_of c n) (h.sources n i)
      ∙ (elim (Option-cases (is_predecessor_in (successors_of c n) k)) [
        | inl z ↦ ap is_made z
        | inr (x, z) ↦ absurd (too_late e (h.old_edge n k x i z).1)
      ])

  in_graph-make_node :
      (n k : ℕ)
      → n < with_node.next_nid
      → k < with_node.next_nid
      → has_edge (c.graph).edge_set (link n k) ≡ has_edge (successors_of with_node n) (link n k)
  unfolding has_edge
  in_graph-make_node n k i j = elim (heap_cases c h ids new n i) [
    | inr (fresh, e) ↦ no_edge_from n k fresh ∙ ap (λ x. has_edge x.successors (link n k)) (sym e)
    | inl (old, e) ↦
        (elim (heap_cases c h ids new k j) [
          | inl (k_old, z) ↦ l.in_graph n k old k_old
          | inr (k_new, z) ↦ no_edge_to n k k_new ∙ sym (no_successor n k old k_new)
        ])
        ∙ ap (λ x. has_edge x.successors (link n k)) (sym e)
  ]

  mirrored-make_node :
      (n k : ℕ)
      → n < with_node.next_nid
      → k < with_node.next_nid
      → has_edge (predecessors_of with_node k) (link n k)
        ≡ has_edge (successors_of with_node n) (link n k)
  unfolding has_edge
  mirrored-make_node n k i j = elim (heap_cases c h ids new k j) [
    | inr (k_new, z) ↦
        ap (λ x. has_edge x.predecessors (link n k)) z
        ∙ sym (no_edge_to n k k_new)
        ∙ in_graph-make_node n k i j
    | inl (k_old, z) ↦
        ap (λ x. has_edge x.predecessors (link n k)) z ∙ (elim (heap_cases c h ids new n i) [
          | inl (old, e) ↦
              l.mirrored n k old k_old ∙ ap (λ x. has_edge x.successors (link n k)) (sym e)
          | inr (fresh, e) ↦
              refuted (λ t. too_late fresh (l.old_source n k k_old t))
              ∙ ap (λ x. has_edge x.successors (link n k)) (sym e)
        ])
  ]

  pub make_node-IsListed : IsListed with_node
  unfolding has_edge make_node
  make_node-IsListed = record {
    in_graph = in_graph-make_node;
    mirrored = mirrored-make_node;
    old_ends = λ n k t. let (a, b) = l.old_ends n k t in (omega (arith, a), omega (arith, b));
    old_source = λ n k j t. elim (heap_cases c h ids new k j) [
      | inl (k_old, z) ↦
          let a =
            l.old_source n k k_old (ap (λ x. has_edge x.predecessors (link n k)) (sym z) ∙ t) in
          omega (arith, a)
      | inr (k_new, z) ↦ absurd (not_both (sym t ∙ ap (λ x. has_edge x.predecessors (link n k)) z))
    ];
  }
