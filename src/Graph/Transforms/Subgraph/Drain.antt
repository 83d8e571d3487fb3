-- ===== src/Graph/Transforms/Subgraph/Drain.antt =====
-- The inner loop of SubgraphBFS (Graph/Transforms.cpp) ends, and no edge of a node that it has
-- reached is left.
use cyclebite.Base.{
  ℕ, zero, suc, ◌+◌, ◌<◌, true, List, [], ◌∷◌, some, ◌==◌, length, All, All-map, ◌≡◌, refl, sym,
  arith, inl, inr, Bool-cases, subst,
}
use cyclebite.Base.NatSet.{contains}
use cyclebite.Graph.{GraphEdge, GraphNode, has_edge}
use cyclebite.Graph.Transforms.Subgraph.{Bfs, visit_all, drain}
use cyclebite.Graph.Transforms.Subgraph.Step.{uncovered}
use cyclebite.Graph.Transforms.Subgraph.Sweep.{
  Settled, Waits, Kept, Never, visit_all-Kept, visit_all-Waits, visit_all-covers, visit_all-inside,
  visit_all-size,
}

module _ (heap : ℕ → GraphNode) (exits : List GraphEdge) (entrance : ℕ) where
  pub record IsBfs (s : Bfs) : Type 0 where
    pub kept : Kept heap exits (Never heap exits) s
    pub begun : Waits heap exits (Never heap exits) s entrance
    pub inside : contains s.sub_nodes entrance ≡ true
    pub sources : All (λ e. contains s.sub_nodes e.src ≡ true) exits

  Front : ℕ → ℕ → Type 0
  Front n v = v ≡ n

  pop-Waits :
      (s : Bfs) (n : ℕ) (q : List ℕ) (v : ℕ)
      → Waits heap exits (Never heap exits) (record s { queue = n ∷ q }) v
      → Waits heap exits (Front n) (record s { queue = q }) v
  unfolding contains Front
  pop-Waits s n q v (inl h) = elim (Bool-cases (n == v)) [
    | inl e ↦ inr (inr (ground (arith, e)))
    | inr d ↦ inl (ground (arith, d, h))
  ]
  pop-Waits s n q v (inr (inl d)) = inr (inl d)
  pop-Waits s n q v (inr (inr z)) = absurd z

  done-Waits :
      (s : Bfs) (n v : ℕ)
      → Settled heap exits s.covered n
      → Waits heap exits (Front n) s v
      → Waits heap exits (Never heap exits) s v
  unfolding Front
  done-Waits s n v d (inl h) = inl h
  done-Waits s n v d (inr (inl h)) = inr (inl h)
  done-Waits s n v d (inr (inr e)) = inr (inl (subst (Settled heap exits s.covered) (sym e) d))

  abbrev after : Bfs → ℕ → List ℕ → Bfs
  after s n q = visit_all exits (record s { queue = q }) (heap n).successors

  after-IsBfs :
      (s : Bfs) (n : ℕ) (q : List ℕ) → IsBfs (record s { queue = n ∷ q }) → IsBfs (after s n q)
  after-IsBfs s n q h =
      let es = (heap n).successors in
      let s0 : Bfs = record s { queue = q } in
      let settled = visit_all-covers heap exits es s0 in
      record {
        kept = λ e c x.
            let (i, w) =
              visit_all-Kept heap exits (Front n) es s0
                (λ e c x. let (i, w) = h.kept e c x in (i, pop-Waits s n q e.snk w)) e c x in
            (i, done-Waits (after s n q) n e.snk settled w);
        begun = done-Waits (after s n q) n entrance settled (
            visit_all-Waits heap exits (Front n) es s0 entrance (pop-Waits s n q entrance h.begun));
        inside = visit_all-inside heap exits es s0 entrance h.inside;
        sources = All-map _ _ (λ e i. visit_all-inside heap exits es s0 e.src i) exits h.sources;
      }

  module _ (edge_count : ℕ) (edges : List GraphEdge)
      (all_edges : (n : ℕ) → All (λ e. has_edge edges e ≡ true) (heap n).successors) where
    pub drain-IsBfs :
        (f : ℕ) (q : List ℕ) (s : Bfs)
        → IsBfs (record s { queue = q })
        → length q + uncovered edges s.covered < f
        → (s' : Bfs) × (drain heap edge_count exits f (record s { queue = q }) ≡ some s')
          × IsBfs s'
          × (s'.queue ≡ [])
    unfolding drain
    drain-IsBfs zero q s h l = absurd (omega (arith, l))
    drain-IsBfs (suc f) [] s h l = (record s { queue = [] }, refl, h, refl)
    drain-IsBfs (suc f) (n ∷ q) s h l =
        let size =
          visit_all-size heap exits edges (heap n).successors (record s { queue = q })
            (all_edges n) in
        drain-IsBfs f (after s n q).queue (after s n q) (after-IsBfs s n q h)
          (omega (arith, l, size))
