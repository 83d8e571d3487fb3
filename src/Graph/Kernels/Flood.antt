-- ===== src/Graph/Kernels/Flood.antt =====
-- The loop over the successors of one node.
use cyclebite.Base.{
  ℕ, ◌+◌, not, ◌&&◌, ◌||◌, List, [], ◌∷◌, ◌++◌, ltb, ◌==◌, if◌then◌else◌, length, length-append,
  ◌≡◌, inl, inr, refl, arith, count, ◌∙◌, Bool-cases,
}
use cyclebite.Base.StdSet
use cyclebite.Base.NatSet.{contains, contains-insert, contains-same, count-ext_in, count-remove}
use cyclebite.Graph.{GraphEdge}
use cyclebite.Graph.Kernels.{paint}

abbrev pub sinks : List GraphEdge → List ℕ
sinks [] = []
sinks (e ∷ es) = e.snk ∷ sinks es

abbrev pub white : List ℕ → List ℕ → ℕ
white g black = count (λ x. not (contains black x)) g

pub contains-append :
    (xs : List ℕ) (x v : ℕ) → contains (xs ++ x ∷ []) v ≡ (contains xs v || x == v)
unfolding contains
contains-append [] x v = ground arith
contains-append (y ∷ ys) x v = ground (arith, contains-append ys x v)

module _ (g : List ℕ) where
  abbrev next_queue : List ℕ → List ℕ → ℕ → List ℕ
  next_queue black q n = if contains g n && not (contains black n) then q ++ n ∷ [] else q

  contains-next_queue :
      (black q : List ℕ) (n v : ℕ)
      → contains (next_queue black q n) v
        ≡ (contains q v || (contains g n && not (contains black n) && n == v))
  contains-next_queue black q n v = elim (Bool-cases (contains g n && not (contains black n))) [
    | inl new ↦ rw new (contains-append q n v)
    | inr old ↦ rw old (ground arith)
  ]

  size-next_queue :
      StdSet.IsSorted ltb g
      → (black q : List ℕ) (n : ℕ)
      → white g (StdSet.insert ltb black n) + length (next_queue black q n)
        ≡ white g black + length q
  size-next_queue s black q n = elim (Bool-cases (contains g n && not (contains black n))) [
    | inl new ↦
        let fewer =
          count-remove (λ x. not (contains black x))
            (λ x. not (contains (StdSet.insert ltb black n) x)) g n
            (λ z. ground (arith, contains-insert black n z)) s (ground (arith, new))
            (ground (arith, new)) in
        rw new (omega (arith, fewer, length-append q (n ∷ [])))
    | inr old ↦
        let same =
          count-ext_in (λ x. not (contains (StdSet.insert ltb black n) x))
            (λ x. not (contains black x)) g
            (λ z m. ground (
              arith,
              contains-insert black n z,
              contains-same black n z,
              contains-same g n z,
              old,
              m,
            )) in
        rw old (omega (arith, same))
  ]

  pub paint-black :
      (es : List GraphEdge) (black q : List ℕ) (v : ℕ)
      → contains (paint g black q es).0 v ≡ (contains black v || contains (sinks es) v)
  unfolding paint contains
  paint-black [] black q v = ground arith
  paint-black (e ∷ es) black q v = ground (
    arith,
    contains-insert black e.snk v,
    paint-black es (StdSet.insert ltb black e.snk)
        (if contains g e.snk && not (contains black e.snk) then q ++ e.snk ∷ [] else q) v,
  )

  pub paint-queue :
      (es : List GraphEdge) (black q : List ℕ) (v : ℕ)
      → contains (paint g black q es).1 v
        ≡ (contains q v || (contains g v && not (contains black v) && contains (sinks es) v))
  unfolding paint contains
  paint-queue [] black q v = ground arith
  paint-queue (e ∷ es) black q v = ground (
    arith,
    contains-same g e.snk v,
    contains-same black e.snk v,
    contains-insert black e.snk v,
    contains-next_queue black q e.snk v,
    paint-queue es (StdSet.insert ltb black e.snk) (next_queue black q e.snk) v,
  )

  pub paint-size :
      StdSet.IsSorted ltb g
      → (es : List GraphEdge) (black q : List ℕ)
      → white g (paint g black q es).0 + length (paint g black q es).1 ≡ white g black + length q
  unfolding paint
  paint-size s [] black q = refl
  paint-size s (e ∷ es) black q =
      paint-size s es (StdSet.insert ltb black e.snk) (next_queue black q e.snk)
      ∙ size-next_queue s black q e.snk
