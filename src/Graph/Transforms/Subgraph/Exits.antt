-- ===== src/Graph/Transforms/Subgraph/Exits.antt =====
-- The exits that SubgraphBFS (Graph/Transforms.cpp) has covered.
use cyclebite.Base.{
  ℕ, zero, suc, true, false, ◌&&◌, List, [], ◌∷◌, ◌==◌, length, All, ◌≡◌, refl, sym, ap, ◌∙◌, arith,
  inl, inr, Bool-cases,
}
use cyclebite.Base.StdSet.{IsSorted, IsOrder}
use cyclebite.Base.StdSet.Laws.{IsSorted-insert}
use cyclebite.Graph.{GraphEdge, GraphNode, ge_compare, has_edge}
use cyclebite.Graph.Containers.{parallel, has_edge-insert}
use cyclebite.Graph.Transforms.Subgraph.{Bfs, visit, visit_all, drain, filled, pass}
use cyclebite.Graph.Transforms.Subgraph.Step.{same_has_edge, visit_cases}
use cyclebite.Graph.Transforms.Subgraph.Near.{Every}

pub ge_compare-IsOrder : IsOrder ge_compare
unfolding ge_compare
ge_compare-IsOrder = record {
  irrefl = λ a. ground arith;
  trans = λ a b c p q. ground (arith, p, q);
}

later :
    (x : GraphEdge) (xs : List GraphEdge) (e : GraphEdge)
    → All (λ y. ge_compare x y ≡ true) xs
    → has_edge xs e ≡ true
    → ge_compare x e ≡ true
unfolding has_edge ge_compare
later x [] e a h = cc
later x (y ∷ xs) e a h = elim (Bool-cases (y.src == e.src && y.snk == e.snk)) [
  | inl t ↦ ground (arith, t, a.0)
  | inr t ↦ later x xs e a.1 (ground (arith, t, h))
]

not_later :
    (x : GraphEdge) (xs : List GraphEdge) (e : GraphEdge)
    → All (λ y. ge_compare x y ≡ true) xs
    → ge_compare x e ≡ false
    → has_edge xs e ≡ false
not_later x xs e a h = elim (Bool-cases (has_edge xs e)) [
  | inl t ↦ ground (arith, later x xs e a t, h)
  | inr t ↦ t
]

module _ (x y : GraphEdge) (xs ys : List GraphEdge) (above_x : All (λ z. ge_compare x z ≡ true) xs)
    (above_y : All (λ z. ge_compare y z ≡ true) ys)
    (same : (e : GraphEdge) → has_edge (x ∷ xs) e ≡ has_edge (y ∷ ys) e) where
  same_heads : parallel y x ≡ true
  unfolding has_edge ge_compare
  same_heads = elim (Bool-cases (parallel y x)) [
    | inl p ↦ p
    | inr p ↦
        let a : ge_compare y x ≡ true = later y ys x above_y (ground (arith, p, same x)) in
        let b : ge_compare x y ≡ true = later x xs y above_x (ground (arith, p, same y)) in
        ground (arith, a, b)
  ]

  same_tails : (e : GraphEdge) → has_edge xs e ≡ has_edge ys e
  unfolding has_edge ge_compare
  same_tails e = elim (Bool-cases (parallel x e)) [
    | inl p ↦
        let a : has_edge xs e ≡ false = not_later x xs e above_x (ground (arith, p)) in
        let b : has_edge ys e ≡ false = not_later y ys e above_y (ground (arith, p, same_heads)) in
        a ∙ sym b
    | inr p ↦ ground (arith, p, same_heads, same e)
  ]

-- Sets with the same elements have the same size.
pub length-same :
    (xs ys : List GraphEdge)
    → IsSorted ge_compare xs
    → IsSorted ge_compare ys
    → ((e : GraphEdge) → has_edge xs e ≡ has_edge ys e)
    → length xs ≡ length ys
unfolding has_edge
length-same [] [] s t h = refl
length-same [] (y ∷ ys) s t h = ground (arith, h y)
length-same (x ∷ xs) [] s t h = ground (arith, h x)
length-same (x ∷ xs) (y ∷ ys) s t h =
    ap suc (length-same xs ys s.1 t.1 (same_tails x y xs ys s.0 t.0 h))

module _ (heap : ℕ → GraphNode) (exits : List GraphEdge) where
  -- The exits that are covered are those in the cover of the exits.
  abbrev pub IsCover : Bfs → Type 0
  IsCover s =
      IsSorted ge_compare s.exit_cover
      × ((e : GraphEdge) → has_edge s.exit_cover e ≡ (has_edge s.covered e && has_edge exits e))

  visit-IsCover : (s : Bfs) (e : GraphEdge) → IsCover s → IsCover (visit exits s e)
  visit-IsCover s e (sorted, same) = elim (visit_cases exits s e) [
    | inl (a, z) ↦ rw z (sorted, same)
    | inr (inl (a, b, z)) ↦ rw z (
      IsSorted-insert ge_compare ge_compare-IsOrder s.exit_cover e sorted,
      λ v. ground (
        arith,
        same v,
        b,
        same_has_edge exits e v,
        has_edge-insert s.exit_cover e v,
        has_edge-insert s.covered e v,
      ),
    )
    | inr (inr (a, b, z)) ↦ rw z (
      sorted,
      λ v. ground (arith, same v, b, same_has_edge exits e v, has_edge-insert s.covered e v),
    )
  ]

  visit_all-IsCover : (es : List GraphEdge) (s : Bfs) → IsCover s → IsCover (visit_all exits s es)
  unfolding visit_all
  visit_all-IsCover [] s h = h
  visit_all-IsCover (e ∷ es) s h = visit_all-IsCover es (visit exits s e) (visit-IsCover s e h)

  module _ (edge_count : ℕ) where
    drain-IsCover :
        (f : ℕ) (q : List ℕ) (s : Bfs)
        → IsCover s
        → Every IsCover (drain heap edge_count exits f (record s { queue = q }))
    unfolding drain
    drain-IsCover zero q s h = tt
    drain-IsCover (suc f) [] s h = h
    drain-IsCover (suc f) (n ∷ q) s h =
        let r = visit_all exits (record s { queue = q }) (heap n).successors in
        drain-IsCover f r.queue r (visit_all-IsCover (heap n).successors (record s { queue = q }) h)

    fill-IsCover :
        (q : List ℕ) (s : Bfs)
        → IsCover s
        → IsCover (filled heap edge_count exits (record s { queue = q }))
    fill-IsCover [] s h = h
    fill-IsCover (n ∷ q) s h = h

    pub pass-IsCover : (s : Bfs) → IsCover s → Every IsCover (pass heap edge_count exits s)
    pass-IsCover s h =
        let t : Bfs = filled heap edge_count exits s in
        drain-IsCover _ t.queue t (fill-IsCover s.queue s h)
