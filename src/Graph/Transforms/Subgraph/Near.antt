-- ===== src/Graph/Transforms/Subgraph/Near.antt =====
-- The nodes that SubgraphBFS (Graph/Transforms.cpp) can come to.
use cyclebite.Base.{
  ℕ, zero, suc, true, false, not, ◌&&◌, List, [], ◌∷◌, ◌++◌, Option, none, some, ltb, ◌==◌, Any,
  ◌≡◌, refl, arith, inl, inr, Bool-cases, subst,
}
use cyclebite.Base.StdSet
use cyclebite.Base.NatSet.{contains, contains-insert}
use cyclebite.Graph.{GraphEdge, GraphNode, has_edge}
use cyclebite.Graph.Kernels.Flood.{contains-append}
use cyclebite.Graph.Transforms.Subgraph.{
  Bfs, visit, visit_all, drain, push_successors, push_predecessors, refill, filled, pass,
}

-- The property of every value of the option.
abbrev pub Every : {A : Type 0} → (A → Type 0) → Option A → Type 0
Every P none = Unit
Every P (some a) = P a

module _ (heap : ℕ → GraphNode) (exits : List GraphEdge) (entrance : ℕ) where
  -- The entrance, the sources of the exits, and all that an edge which is no exit leads to from
  -- there, or that an edge comes from.
  pub data Near : ℕ → Type 0 where
    enters : Near entrance
    leaves : (e : GraphEdge) → Any (λ x. x ≡ e) exits → Near e.src
    forward :
        (u : ℕ) (e : GraphEdge)
        → Near u
        → Any (λ x. x ≡ e) (heap u).successors
        → has_edge exits e ≡ false
        → Near e.snk
    back : (u : ℕ) (e : GraphEdge) → Near u → Any (λ x. x ≡ e) (heap u).predecessors → Near e.src

  abbrev pub AllNear : List ℕ → Type 0
  AllNear q = (v : ℕ) → contains q v ≡ true → Near v

  -- All nodes of the subgraph and of the queue.
  abbrev pub IsNear : Bfs → Type 0
  IsNear s = AllNear s.sub_nodes × AllNear s.queue

  AllNear-cons : (n : ℕ) (q : List ℕ) → Near n → AllNear q → AllNear (n ∷ q)
  unfolding contains
  AllNear-cons n q x a v h = elim (Bool-cases (n == v)) [
    | inl e ↦ let z : n ≡ v = ground (arith, e) in subst Near z x
    | inr d ↦ a v (ground (arith, d, h))
  ]

  pub AllNear-insert : (n : ℕ) (q : List ℕ) → Near n → AllNear q → AllNear (StdSet.insert ltb q n)
  AllNear-insert n q x a v h = elim (Bool-cases (n == v)) [
    | inl e ↦ let z : n ≡ v = ground (arith, e) in subst Near z x
    | inr d ↦ a v (ground (arith, d, h, contains-insert q n v))
  ]

  AllNear-append : (n : ℕ) (q : List ℕ) → Near n → AllNear q → AllNear (q ++ n ∷ [])
  AllNear-append n q x a v h = elim (Bool-cases (n == v)) [
    | inl e ↦ let z : n ≡ v = ground (arith, e) in subst Near z x
    | inr d ↦ a v (ground (arith, d, h, contains-append q n v))
  ]

  visit-IsNear :
      (s : Bfs) (e : GraphEdge)
      → (has_edge exits e ≡ false → Near e.snk)
      → IsNear s
      → IsNear (visit exits s e)
  unfolding visit
  visit-IsNear s e x h = elim (Bool-cases (has_edge s.covered e)) [
    | inl a ↦ rw a h
    | inr a ↦ elim (Bool-cases (has_edge exits e)) [
      | inl b ↦ rw (a, b) h
      | inr b ↦
          rw (a, b)
            (AllNear-insert e.snk s.sub_nodes (x b) h.0, AllNear-append e.snk s.queue (x b) h.1)
    ]
  ]

  visit_all-IsNear :
      (es : List GraphEdge) (s : Bfs)
      → ((e : GraphEdge) → Any (λ x. x ≡ e) es → has_edge exits e ≡ false → Near e.snk)
      → IsNear s
      → IsNear (visit_all exits s es)
  unfolding visit_all
  visit_all-IsNear [] s x h = h
  visit_all-IsNear (e ∷ es) s x h =
      visit_all-IsNear es (visit exits s e) (λ z m. x z (inr m))
        (visit-IsNear s e (x e (inl refl)) h)

  push_successors-AllNear :
      (covered : List GraphEdge) (n : ℕ) (es : List GraphEdge) (q : List ℕ)
      → Near n
      → AllNear q
      → AllNear (push_successors covered n q es)
  unfolding push_successors
  push_successors-AllNear covered n [] q x a = a
  push_successors-AllNear covered n (e ∷ es) q x a =
      push_successors-AllNear covered n es _ x
        (elim (Bool-cases (not (has_edge covered e) && not (contains q n))) [
          | inl t ↦ rw t (AllNear-cons n q x a)
          | inr t ↦ rw t a
        ])

  push_predecessors-AllNear :
      (covered : List GraphEdge) (n : ℕ) (es : List GraphEdge) (q : List ℕ)
      → ((e : GraphEdge) → Any (λ x. x ≡ e) es → Near e.src)
      → AllNear q
      → AllNear (push_predecessors covered n q es)
  unfolding push_predecessors
  push_predecessors-AllNear covered n [] q x a = a
  push_predecessors-AllNear covered n (e ∷ es) q x a =
      push_predecessors-AllNear covered n es _ (λ z m. x z (inr m))
        (elim (Bool-cases (not (has_edge covered e) && not (contains q n))) [
          | inl t ↦ rw t (AllNear-cons e.src q (x e (inl refl)) a)
          | inr t ↦ rw t a
        ])

  module _ (edge_count : ℕ) where
    refill-AllNear :
        (covered : List GraphEdge) (ns : List ℕ) (q : List ℕ)
        → AllNear ns
        → AllNear q
        → AllNear (refill heap edge_count exits covered q ns)
    unfolding refill contains
    refill-AllNear covered [] q x a = a
    refill-AllNear covered (n ∷ ns) q x a =
        let near : Near n = x n (ground arith) in
        refill-AllNear covered ns _ (λ v h. x v (ground (arith, h)))
          (push_predecessors-AllNear covered n (heap n).predecessors _ (λ e m. back n e near m)
            (push_successors-AllNear covered n (heap n).successors q near a))

    drain-IsNear :
        (f : ℕ) (q : List ℕ) (s : Bfs)
        → IsNear (record s { queue = q })
        → Every IsNear (drain heap edge_count exits f (record s { queue = q }))
    unfolding drain contains
    drain-IsNear zero q s h = tt
    drain-IsNear (suc f) [] s h = h
    drain-IsNear (suc f) (n ∷ q) s h =
        let s0 : Bfs = record s { queue = q } in
        let r = visit_all exits s0 (heap n).successors in
        drain-IsNear f r.queue r (
          visit_all-IsNear (heap n).successors s0 (λ e m x. forward n e (h.1 n (ground arith)) m x)
            (h.0, λ v i. h.1 v (ground (arith, i))))

    fill-IsNear :
        (q : List ℕ) (s : Bfs)
        → IsNear (record s { queue = q })
        → IsNear (filled heap edge_count exits (record s { queue = q }))
    fill-IsNear [] s h = (h.0, refill-AllNear s.covered s.sub_nodes [] h.0 h.1)
    fill-IsNear (n ∷ q) s h = h

    pub pass-IsNear : (s : Bfs) → IsNear s → Every IsNear (pass heap edge_count exits s)
    pass-IsNear s h =
        let t : Bfs = filled heap edge_count exits s in
        drain-IsNear _ t.queue t (fill-IsNear s.queue s h)
