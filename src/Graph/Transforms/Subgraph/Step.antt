-- ===== src/Graph/Transforms/Subgraph/Step.antt =====
-- One edge of the inner loop of SubgraphBFS (Graph/Transforms.cpp).
use cyclebite.Base.{
  ℕ, ◌+◌, ◌≤◌, ◌<◌, true, false, not, ◌||◌, List, [], ◌∷◌, ◌++◌, ltb, length, length-append, count,
  ◌≡◌, ◌⊎◌, refl, arith, inl, inr, Bool-cases,
}
use cyclebite.Base.StdSet
use cyclebite.Base.NatSet.{contains, contains-insert}
use cyclebite.Graph.{GraphEdge, ge_compare, has_edge}
use cyclebite.Graph.Containers.{parallel, has_edge-insert}
use cyclebite.Graph.Kernels.Flood.{contains-append}
use cyclebite.Graph.Transforms.Subgraph.{Bfs, visit}

pub same_has_edge :
    (es : List GraphEdge) (a b : GraphEdge) → parallel a b ≡ true → has_edge es a ≡ has_edge es b
unfolding has_edge
same_has_edge [] a b h = refl
same_has_edge (e ∷ es) a b h = ground (arith, h, same_has_edge es a b h)

-- The edges of the list that are not in the set.
abbrev pub uncovered : List GraphEdge → List GraphEdge → ℕ
uncovered edges covered = count (λ e. not (has_edge covered e)) edges

uncovered-insert_le :
    (edges covered : List GraphEdge) (e : GraphEdge)
    → uncovered edges (StdSet.insert ge_compare covered e) ≤ uncovered edges covered
uncovered-insert_le [] covered e = omega arith
uncovered-insert_le (x ∷ edges) covered e =
    ground (arith, has_edge-insert covered e x, uncovered-insert_le edges covered e)

uncovered-insert :
    (edges covered : List GraphEdge) (e : GraphEdge)
    → has_edge edges e ≡ true
    → has_edge covered e ≡ false
    → uncovered edges (StdSet.insert ge_compare covered e) < uncovered edges covered
unfolding has_edge
uncovered-insert [] covered e h new = cc
uncovered-insert (x ∷ edges) covered e h new = elim (Bool-cases (parallel e x)) [
  | inl p ↦ ground (
    arith,
    p,
    new,
    same_has_edge covered e x p,
    has_edge-insert covered e x,
    uncovered-insert_le edges covered e,
  )
  | inr p ↦ ground (arith, p, h, has_edge-insert covered e x, uncovered-insert edges covered e)
]

module _ (exits : List GraphEdge) where
  pub visit_cases :
      (s : Bfs) (e : GraphEdge)
      → ((has_edge s.covered e ≡ true) × (visit exits s e ≡ s))
        ⊎ (((has_edge s.covered e ≡ false)
              × (has_edge exits e ≡ true)
              × (visit exits s e ≡ record s {
                covered = StdSet.insert ge_compare s.covered e;
                exit_cover = StdSet.insert ge_compare s.exit_cover e;
              }))
            ⊎ ((has_edge s.covered e ≡ false)
                × (has_edge exits e ≡ false)
                × (visit exits s e ≡ record s {
                  covered = StdSet.insert ge_compare s.covered e;
                  sub_nodes = StdSet.insert ltb s.sub_nodes e.snk;
                  queue = s.queue ++ e.snk ∷ [];
                })))
  unfolding visit
  visit_cases s e = elim (Bool-cases (has_edge s.covered e)) [
    | inl a ↦ inl (a, rw a refl)
    | inr a ↦ elim (Bool-cases (has_edge exits e)) [
      | inl b ↦ inr (inl (a, b, rw (a, b) refl))
      | inr b ↦ inr (inr (a, b, rw (a, b) refl))
    ]
  ]

  pub visit-covered :
      (s : Bfs) (e v : GraphEdge)
      → has_edge (visit exits s e).covered v ≡ (has_edge s.covered v || parallel e v)
  visit-covered s e v = elim (visit_cases s e) [
    | inl (a, z) ↦ rw z (ground (arith, a, same_has_edge s.covered e v))
    | inr (inl (a, b, z)) ↦ rw z (ground (arith, has_edge-insert s.covered e v))
    | inr (inr (a, b, z)) ↦ rw z (ground (arith, has_edge-insert s.covered e v))
  ]

  pub visit-queue :
      (s : Bfs) (e : GraphEdge) (v : ℕ)
      → contains s.queue v ≡ true
      → contains (visit exits s e).queue v ≡ true
  visit-queue s e v h = elim (visit_cases s e) [
    | inl (a, z) ↦ rw z h
    | inr (inl (a, b, z)) ↦ rw z h
    | inr (inr (a, b, z)) ↦ rw z (ground (arith, h, contains-append s.queue e.snk v))
  ]

  pub visit-sub_nodes :
      (s : Bfs) (e : GraphEdge) (v : ℕ)
      → contains s.sub_nodes v ≡ true
      → contains (visit exits s e).sub_nodes v ≡ true
  visit-sub_nodes s e v h = elim (visit_cases s e) [
    | inl (a, z) ↦ rw z h
    | inr (inl (a, b, z)) ↦ rw z h
    | inr (inr (a, b, z)) ↦ rw z (ground (arith, h, contains-insert s.sub_nodes e.snk v))
  ]

  -- What an edge adds to the queue it takes from the edges that are left.
  pub visit-size :
      (edges : List GraphEdge) (s : Bfs) (e : GraphEdge)
      → has_edge edges e ≡ true
      → length (visit exits s e).queue + uncovered edges (visit exits s e).covered
        ≤ length s.queue + uncovered edges s.covered
  visit-size edges s e h = elim (visit_cases s e) [
    | inl (a, z) ↦ rw z (omega arith)
    | inr (inl (a, b, z)) ↦ rw z (omega (arith, uncovered-insert_le edges s.covered e))
    | inr (inr (a, b, z)) ↦
        rw z (
          omega (arith, uncovered-insert edges s.covered e h a, length-append s.queue (e.snk ∷ [])))
  ]

  pub visit-sink :
      (s : Bfs) (e v : GraphEdge)
      → has_edge s.covered v ≡ false
      → has_edge exits v ≡ false
      → has_edge (visit exits s e).covered v ≡ true
      → (contains (visit exits s e).sub_nodes v.snk ≡ true)
        × (contains (visit exits s e).queue v.snk ≡ true)
  visit-sink s e v old no_exit new =
      let p : parallel e v ≡ true = ground (arith, old, new, visit-covered s e v) in
      elim (visit_cases s e) [
        | inl (a, z) ↦ ground (arith, a, old, same_has_edge s.covered e v p)
        | inr (inl (a, b, z)) ↦ ground (arith, b, no_exit, same_has_edge exits e v p)
        | inr (inr (a, b, z)) ↦ rw z (
          ground (arith, p, contains-insert s.sub_nodes e.snk v.snk),
          ground (arith, p, contains-append s.queue e.snk v.snk),
        )
      ]
