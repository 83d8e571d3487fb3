-- ===== src/Graph/Transforms/Subgraph/Sweep.antt =====
-- The loops of SubgraphBFS (Graph/Transforms.cpp).
use cyclebite.Base.{
  ℕ, ◌+◌, ◌≤◌, true, false, List, [], ◌∷◌, length, All, All-map, ◌≡◌, ◌⊎◌, arith, inl, inr,
  Bool-cases,
}
use cyclebite.Base.NatSet.{contains}
use cyclebite.Graph.{GraphEdge, GraphNode, has_edge}
use cyclebite.Graph.Transforms.Subgraph.{Bfs, visit, visit_all}
use cyclebite.Graph.Transforms.Subgraph.Step.{
  uncovered, visit-covered, visit-queue, visit-sub_nodes, visit-size, visit-sink,
}

module _ (heap : ℕ → GraphNode) (exits : List GraphEdge) where
  -- All edges that leave the node are covered.
  abbrev pub Settled : List GraphEdge → ℕ → Type 0
  Settled covered n = All (λ e. has_edge covered e ≡ true) (heap n).successors

  abbrev pub Waits : (ℕ → Type 0) → Bfs → ℕ → Type 0
  Waits P s v = (contains s.queue v ≡ true) ⊎ (Settled s.covered v ⊎ P v)

  -- The sink of an edge that is covered is in the subgraph, and is done or in the queue.
  abbrev pub Kept : (ℕ → Type 0) → Bfs → Type 0
  Kept P s =
      (e : GraphEdge)
      → has_edge s.covered e ≡ true
      → has_edge exits e ≡ false
      → (contains s.sub_nodes e.snk ≡ true) × Waits P s e.snk

  Waits-visit :
      (P : ℕ → Type 0) (s : Bfs) (e : GraphEdge) (v : ℕ) → Waits P s v → Waits P (visit exits s e) v
  Waits-visit P s e v (inl q) = inl (visit-queue exits s e v q)
  Waits-visit P s e v (inr (inl d)) = inr (
      inl (All-map _ _ (λ x h. ground (arith, h, visit-covered exits s e x)) (heap v).successors d))
  Waits-visit P s e v (inr (inr p)) = inr (inr p)

  Kept-visit : (P : ℕ → Type 0) (s : Bfs) (e : GraphEdge) → Kept P s → Kept P (visit exits s e)
  Kept-visit P s e k v c x = elim (Bool-cases (has_edge s.covered v)) [
    | inl old ↦
        let (inside, waits) = k v old x in
        (visit-sub_nodes exits s e v.snk inside, Waits-visit P s e v.snk waits)
    | inr new ↦ let (inside, queued) = visit-sink exits s e v new x c in (inside, inl queued)
  ]

  pub visit_all-Kept :
      (P : ℕ → Type 0) (es : List GraphEdge) (s : Bfs) → Kept P s → Kept P (visit_all exits s es)
  unfolding visit_all
  visit_all-Kept P [] s k = k
  visit_all-Kept P (e ∷ es) s k = visit_all-Kept P es (visit exits s e) (Kept-visit P s e k)

  pub visit_all-Waits :
      (P : ℕ → Type 0) (es : List GraphEdge) (s : Bfs) (v : ℕ)
      → Waits P s v
      → Waits P (visit_all exits s es) v
  unfolding visit_all
  visit_all-Waits P [] s v w = w
  visit_all-Waits P (e ∷ es) s v w =
      visit_all-Waits P es (visit exits s e) v (Waits-visit P s e v w)

  visit_all-grows :
      (es : List GraphEdge) (s : Bfs) (v : GraphEdge)
      → has_edge s.covered v ≡ true
      → has_edge (visit_all exits s es).covered v ≡ true
  unfolding visit_all
  visit_all-grows [] s v h = h
  visit_all-grows (e ∷ es) s v h =
      visit_all-grows es (visit exits s e) v (ground (arith, h, visit-covered exits s e v))

  pub visit_all-covers :
      (es : List GraphEdge) (s : Bfs)
      → All (λ e. has_edge (visit_all exits s es).covered e ≡ true) es
  unfolding visit_all
  visit_all-covers [] s = tt
  visit_all-covers (e ∷ es) s = (
    visit_all-grows es (visit exits s e) e (ground (arith, visit-covered exits s e e)),
    visit_all-covers es (visit exits s e),
  )

  pub visit_all-inside :
      (es : List GraphEdge) (s : Bfs) (v : ℕ)
      → contains s.sub_nodes v ≡ true
      → contains (visit_all exits s es).sub_nodes v ≡ true
  unfolding visit_all
  visit_all-inside [] s v h = h
  visit_all-inside (e ∷ es) s v h =
      visit_all-inside es (visit exits s e) v (visit-sub_nodes exits s e v h)

  pub visit_all-size :
      (edges es : List GraphEdge) (s : Bfs)
      → All (λ e. has_edge edges e ≡ true) es
      → length (visit_all exits s es).queue + uncovered edges (visit_all exits s es).covered
        ≤ length s.queue + uncovered edges s.covered
  unfolding visit_all
  visit_all-size edges [] s a = omega arith
  visit_all-size edges (e ∷ es) s a =
      let one = visit-size exits edges s e a.0 in
      let rest = visit_all-size edges es (visit exits s e) a.1 in omega (arith, one, rest)

  abbrev pub Never : ℕ → Type 0
  Never v = ⊥
