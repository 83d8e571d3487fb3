-- ===== src/Graph/Transforms/Virtualize/Frequency.antt =====
-- The frequencies of the edges of a node under VirtualizeSubgraph (Graph/Transforms.cpp).
use cyclebite.Base.{
  ℕ, ◌+◌, ◌%◌, ◌^◌, ◌<◌, Bool, true, false, not, ◌&&◌, ◌||◌, List, [], ◌∷◌, ◌==◌, filter, All,
  All-of, Any, ◌≡◌, ◌⊎◌, inl, inr, refl, sym, ap, ◌∙◌, subst, arith, Bool-cases,
}
use cyclebite.Base.StdSet
use cyclebite.Base.NatSet.{contains}
use cyclebite.Graph.{GraphEdge, GraphNode, ge_compare, remove_successor}
use cyclebite.Graph.Transforms.Virtualize.{add_frequencies, remove_successors}

-- The sum, without a bound.
abbrev pub total : (ℕ → ℕ) → List GraphEdge → ℕ
total freq [] = 0
total freq (e ∷ es) = freq e.eid + total freq es

pub add_frequencies-total :
    (freq : ℕ → ℕ) (sum : ℕ) (es : List GraphEdge)
    → sum < 2 ^ 64
    → add_frequencies freq sum es ≡ (sum + total freq es) % 2 ^ 64
unfolding add_frequencies
add_frequencies-total freq sum [] l = omega (arith, l)
add_frequencies-total freq sum (e ∷ es) l =
    omega (arith, add_frequencies-total freq ((sum + freq e.eid) % 2 ^ 64) es (omega arith))

pub total_parts :
    (freq : ℕ → ℕ) (p : GraphEdge → Bool) (es : List GraphEdge)
    → total freq es ≡ total freq (filter p es) + total freq (filter (λ e. not (p e)) es)
total_parts freq p [] = omega arith
total_parts freq p (e ∷ es) = ground (arith, total_parts freq p es)

pub total_same :
    (freq gs : ℕ → ℕ) (es : List GraphEdge)
    → All (λ e. gs e.eid ≡ freq e.eid) es
    → total gs es ≡ total freq es
total_same freq gs [] h = refl
total_same freq gs (e ∷ es) h = omega (arith, h.0, total_same freq gs es h.1)

pub total-insert :
    (freq : ℕ → ℕ) (es : List GraphEdge) (e : GraphEdge)
    → All (λ x. ¬ (x.snk ≡ e.snk)) es ⊎ (freq e.eid ≡ 0)
    → total freq (StdSet.insert ge_compare es e) ≡ freq e.eid + total freq es
unfolding StdSet.insert ge_compare
total-insert freq [] e h = omega arith
total-insert freq (x ∷ xs) e (inl h) = ground (arith, h.0, total-insert freq xs e (inl h.1))
total-insert freq (x ∷ xs) e (inr h) = ground (arith, h, total-insert freq xs e (inr h))

-- An edge with the sink of one of the edges `ks`.
abbrev hit : List GraphEdge → GraphEdge → Bool
hit [] e = false
hit (k ∷ ks) e = k.snk == e.snk || hit ks e

pub filter_same :
    (p q : GraphEdge → Bool) (es : List GraphEdge)
    → All (λ e. p e ≡ q e) es
    → filter p es ≡ filter q es
filter_same p q [] h = refl
filter_same p q (e ∷ es) h = ground (arith, h.0, filter_same p q es h.1)

filter_twice :
    (p q : GraphEdge → Bool) (es : List GraphEdge)
    → filter q (filter p es) ≡ filter (λ e. p e && q e) es
filter_twice p q [] = refl
filter_twice p q (e ∷ es) = ground (arith, filter_twice p q es)

filter_all : (es : List GraphEdge) → filter (λ e. true) es ≡ es
filter_all [] = refl
filter_all (e ∷ es) = ground (arith, filter_all es)

pub All-filter :
    (P : GraphEdge → Type 0) (p : GraphEdge → Bool) (es : List GraphEdge)
    → All P es
    → All P (filter p es)
All-filter P p [] h = tt
All-filter P p (e ∷ es) h = ground (arith, h.0, All-filter P p es h.1)

module _ (n : ℕ) where
  erase-filter :
      (es : List GraphEdge) (k : GraphEdge)
      → All (λ e. e.src ≡ n) es
      → k.src ≡ n
      → StdSet.erase ge_compare es k ≡ filter (λ e. not (k.snk == e.snk)) es
  unfolding StdSet.erase ge_compare
  erase-filter [] k a s = refl
  erase-filter (e ∷ es) k a s = ground (arith, a.0, s, erase-filter es k a.1 s)

  remove_successors-filter :
      (ks : List GraphEdge) (node : GraphNode)
      → All (λ e. e.src ≡ n) node.successors
      → All (λ e. e.src ≡ n) ks
      → (remove_successors node ks).successors ≡ filter (λ e. not (hit ks e)) node.successors
  unfolding remove_successors remove_successor
  remove_successors-filter [] node a b = sym (filter_all node.successors)
  remove_successors-filter (k ∷ ks) node a b =
      let once = erase-filter node.successors k a b.0 in
      remove_successors-filter ks (remove_successor node k)
        (subst (All (λ e. e.src ≡ n)) (sym once)
          (All-filter (λ e. e.src ≡ n) (λ e. not (k.snk == e.snk)) node.successors a))
        b.1
      ∙ ap (filter (λ e. not (hit ks e))) once
      ∙ filter_twice (λ e. not (k.snk == e.snk)) (λ e. not (hit ks e)) node.successors
      ∙ filter_same _ (λ e. not (hit (k ∷ ks) e)) node.successors
          (All-of _ node.successors (λ e m. ground arith))

module _ (sub : List ℕ) where
  abbrev pub inside : GraphEdge → Bool
  inside e = contains sub e.snk

  hit-inside :
      (ds : List GraphEdge) (e : GraphEdge) → hit (filter inside ds) e ≡ true → inside e ≡ true
  hit-inside [] e h = cc
  hit-inside (d ∷ ds) e h = elim (Bool-cases (inside d)) [
    | inr out ↦ hit-inside ds e (rw out at h)
    | inl within ↦ elim (Bool-cases (d.snk == e.snk)) [
      | inl same ↦
          let q : d.snk ≡ e.snk = ground (arith, same) in ap (contains sub) (sym q) ∙ within
      | inr other ↦ hit-inside ds e (ground (arith, h, within, other))
    ]
  ]

  hit-member :
      (ds : List GraphEdge) (e : GraphEdge)
      → Any (λ d. d ≡ e) ds
      → inside e ≡ true
      → hit (filter inside ds) e ≡ true
  hit-member [] e m h = absurd m
  hit-member (d ∷ ds) e (inl q) h =
      let within : inside d ≡ true = ap inside q ∙ h in
      let same : (d.snk == e.snk) ≡ true = ground (arith, ap (λ x. x.snk) q) in
      ground (arith, within, same)
  hit-member (d ∷ ds) e (inr m) h = ground (arith, hit-member ds e m h)

  -- What is left of the successors of a node when those in the subgraph are removed.
  pub remove_successors-inside :
      (n : ℕ) (node : GraphNode)
      → All (λ e. e.src ≡ n) node.successors
      → (remove_successors node (filter inside node.successors)).successors
        ≡ filter (λ e. not (inside e)) node.successors
  remove_successors-inside n node a =
      remove_successors-filter n (filter inside node.successors) node a
        (All-filter (λ e. e.src ≡ n) inside node.successors a)
      ∙ filter_same _ (λ e. not (inside e)) node.successors
          (All-of _ node.successors
            (λ e m. ground (arith, hit-inside node.successors e, hit-member node.successors e m)))
