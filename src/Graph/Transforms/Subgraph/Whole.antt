-- ===== src/Graph/Transforms/Subgraph/Whole.antt =====
-- What SubgraphBFS (Graph/Transforms.cpp) returns.
use cyclebite.Base.{
  ℕ, zero, suc, ◌+◌, true, false, not, List, [], ◌∷◌, Option, some, length, count-le-length, All,
  Any, All-at, ◌≡◌, ◌⊎◌, refl, arith, inl, inr, Bool-cases, subst,
}
use cyclebite.Base.NatSet.{contains}
use cyclebite.Graph.{Graph, GraphEdge, GraphNode, has_edge}
use cyclebite.Graph.Transforms.Subgraph.{
  Bfs, Subgraph, finds, throws, filled, is_finished, pass, sweep, subgraph_of, subgraph_bfs,
  start_bfs,
}
use cyclebite.Graph.Transforms.Subgraph.Start.{start-IsBfs, exit_sources-AllNear, only_entrance}
use cyclebite.Graph.Transforms.Subgraph.Edges.{sub_edges-has}
use cyclebite.Graph.Transforms.Subgraph.Sweep.{Settled, Waits, Never}
use cyclebite.Graph.Transforms.Subgraph.Drain.{IsBfs, drain-IsBfs}
use cyclebite.Graph.Transforms.Subgraph.Near.{Near, IsNear, pass-IsNear, Every}

not_in : (v : ℕ) → contains [] v ≡ true → ⊥
unfolding contains
not_in v h = cc

module _ (heap : ℕ → GraphNode) (exits : List GraphEdge) (entrance : ℕ) where
  -- The nodes that the entrance reaches without an exit.
  pub data Reached : ℕ → Type 0 where
    starts : Reached entrance
    goes :
        (u : ℕ) (e : GraphEdge)
        → Reached u
        → Any (λ x. x ≡ e) (heap u).successors
        → has_edge exits e ≡ false
        → Reached e.snk

  Waits-Settled :
      (t : Bfs) (v : ℕ)
      → t.queue ≡ []
      → Waits heap exits (Never heap exits) t v
      → Settled heap exits t.covered v
  unfolding contains
  Waits-Settled t v z (inl h) = absurd (not_in v (rw z at h))
  Waits-Settled t v z (inr (inl d)) = d
  Waits-Settled t v z (inr (inr n)) = absurd n

  pub reached :
      (t : Bfs)
      → IsBfs heap exits entrance t
      → t.queue ≡ []
      → (v : ℕ) → Reached v
      → (contains t.sub_nodes v ≡ true) × Settled heap exits t.covered v
  reached t h z v starts = (h.inside, Waits-Settled t entrance z h.begun)
  reached t h z v (goes u e r m x) =
      let (i, d) = reached t h z u r in
      let (inside, waits) = h.kept e (All-at _ e (heap u).successors d m) x in
      (inside, Waits-Settled t e.snk z waits)

  fill-IsBfs :
      (edge_count : ℕ) (q : List ℕ) (s : Bfs)
      → IsBfs heap exits entrance (record s { queue = q })
      → IsBfs heap exits entrance (filled heap edge_count exits (record s { queue = q }))
  fill-IsBfs edge_count (n ∷ q) s h = h
  fill-IsBfs edge_count [] s h = record {
    kept = λ e c x.
        let (i, w) = h.kept e c x in
        (i, inr (inl (Waits-Settled (record s { queue = [] }) e.snk refl w)));
    begun = inr (inl (Waits-Settled (record s { queue = [] }) entrance refl h.begun));
    inside = h.inside;
    sources = h.sources;
  }

  module _ (edges : List GraphEdge)
      (all_edges : (n : ℕ) → All (λ e. has_edge edges e ≡ true) (heap n).successors) where
    pub pass-IsBfs :
        (s : Bfs)
        → IsBfs heap exits entrance s
        → (s' : Bfs) × (pass heap (length edges) exits s ≡ some s')
          × IsBfs heap exits entrance s'
          × (s'.queue ≡ [])
    pass-IsBfs s h =
        let t : Bfs = filled heap (length edges) exits s in
        let few = count-le-length (λ e. not (has_edge t.covered e)) edges in
        drain-IsBfs heap exits entrance (length edges) edges all_edges
          (suc (length t.queue + length edges)) t.queue t (fill-IsBfs (length edges) s.queue s h)
          (omega (arith, few))

    passed-IsNear :
        (s s' : Bfs)
        → pass heap (length edges) exits s ≡ some s'
        → IsNear heap exits entrance s
        → IsNear heap exits entrance s'
    passed-IsNear s s' e h =
        subst (Every (IsNear heap exits entrance)) (e)
          (pass-IsNear heap exits entrance (length edges) s h)

    -- The exception, or a subgraph of a state with an empty queue.
    Ends : Option Subgraph → Type 0
    Ends o =
        (o ≡ some throws)
        ⊎ ((t : Bfs) × (o ≡ some (finds (subgraph_of heap (length edges) exits t)))
            × IsBfs heap exits entrance t
            × IsNear heap exits entrance t
            × (t.queue ≡ []))

    finished-queue :
        (q : List ℕ) (s : Bfs)
        → is_finished heap (length edges) exits (record s { queue = q }) ≡ true
        → q ≡ []
    finished-queue [] s h = refl
    finished-queue (n ∷ q) s h = ground (arith, h)

    sweep-Ends :
        (f : ℕ) (s : Bfs)
        → IsBfs heap exits entrance s
        → IsNear heap exits entrance s
        → Ends (sweep heap (length edges) exits f s)
    unfolding Ends sweep
    sweep-Ends zero s h near = elim (Bool-cases (is_finished heap (length edges) exits s)) [
      | inl t ↦ rw (t, sweep) (inr (s, refl, h, near, finished-queue s.queue s t))
      | inr t ↦ let (s', e, k, z) = pass-IsBfs s h in rw (t, sweep) (rw e (inl refl))
    ]
    sweep-Ends (suc f) s h near = elim (Bool-cases (is_finished heap (length edges) exits s)) [
      | inl t ↦ rw (t, sweep) (inr (s, refl, h, near, finished-queue s.queue s t))
      | inr t ↦
          let (s', e, k, z) = pass-IsBfs s h in
          rw (t, sweep) (rw e (sweep-Ends f s' k (passed-IsNear s s' e near)))
    ]

  -- The graph has the nodes that the entrance reaches, with the edges from one to the other, and the
  -- sources of the exits, and no node that is far from them.
  pub record IsSubgraph (g : Graph) : Type 0 where
    pub reaches : (v : ℕ) → Reached v → contains g.node_set v ≡ true
    pub joins :
        (u : ℕ) (e : GraphEdge)
        → Reached u
        → Any (λ x. x ≡ e) (heap u).successors
        → has_edge exits e ≡ false
        → has_edge g.edge_set e ≡ true
    pub has_sources : All (λ e. contains g.node_set e.src ≡ true) exits
    pub near : (v : ℕ) → contains g.node_set v ≡ true → Near heap exits entrance v

  -- SubgraphBFS ends, on any nodes whose successors are edges of a list, for any entrance and exits:
  -- it throws after a million iterations, or it returns a graph that has every node that the entrance
  -- reaches without an exit, the edges that it takes to them, the sources of the exits, and only
  -- nodes that can be come to from these by edges that are no exits or back to a predecessor.
  pub subgraph_bfs-IsSubgraph :
      (edges : List GraphEdge)
      → ((n : ℕ) → All (λ e. has_edge edges e ≡ true) (heap n).successors)
      → (subgraph_bfs heap (length edges) exits entrance ≡ some throws)
        ⊎ ((g : Graph) × (subgraph_bfs heap (length edges) exits entrance ≡ some (finds g))
            × IsSubgraph g)
  unfolding subgraph_bfs Ends
  subgraph_bfs-IsSubgraph edges all_edges =
      elim (sweep-Ends edges all_edges 1000000 (start_bfs heap (length edges) exits entrance)
        (start-IsBfs heap exits entrance (length edges))
        (
          exit_sources-AllNear heap exits entrance exits (entrance ∷ []) (λ e m. m)
              (only_entrance heap exits entrance),
          only_entrance heap exits entrance,
        )) [
          | inl e ↦ inl e
          | inr (t, e, h, near, z) ↦ inr (
            subgraph_of heap (length edges) exits t,
            e,
            record {
              reaches = λ v r. (reached t h z v r).0;
              joins = λ u x r m n.
                  sub_edges-has heap (length edges) exits t.sub_nodes t.sub_nodes [] u x
                    (reached t h z u r).0 m (reached t h z x.snk (goes u x r m n)).0;
              has_sources = h.sources;
              near = near.0;
            },
          )
        ]
