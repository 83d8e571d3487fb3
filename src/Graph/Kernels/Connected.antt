-- ===== src/Graph/Kernels/Connected.antt =====
-- MLCycle::FullyConnected: it returns, and it answers whether each node reaches each other one.
use cyclebite.Base.{
  ℕ, zero, suc, ◌+◌, ◌<◌, Bool, true, false, not, List, [], ◌∷◌, some, ltb, ◌==◌, length, ◌≡◌, ◌↔◌,
  inl, inr, refl, subst, arith, count-le-length, Bool-cases,
}
use cyclebite.Base.StdSet
use cyclebite.Base.NatSet.{contains, contains-same}
use cyclebite.Graph.{GraphNode}
use cyclebite.Graph.Cycles.Reach.{Reach, one, more}
use cyclebite.Graph.Kernels.{paint, flood, all_black, connected_from, fully_connected}
use cyclebite.Graph.Kernels.Flood.{white, paint-size}
use cyclebite.Graph.Kernels.Marks.{Step, Marked, IsFlooded, same_node, paint-IsFlooded}

started :
    (heap : ℕ → GraphNode) (g : List ℕ) (u s : ℕ) → Marked g [] s u → contains (s ∷ []) u ≡ true
unfolding contains
started heap g u s (inl e) = ground arith
started heap g u s (inr m) = cc

all_black_iff :
    (ns black : List ℕ)
    → (all_black ns black ≡ true) ↔ ((v : ℕ) → contains ns v ≡ true → contains black v ≡ true)
unfolding all_black contains
all_black_iff [] black = (λ e v i. cc, λ r. refl)
all_black_iff (n ∷ ns) black =
    let ih = all_black_iff ns black in
    (
      λ e v i. ground (arith, e, i, contains-same black n v, ih.0 (ground (arith, e)) v),
      λ r.
          let rest = ih.1 (λ v i. r v (ground (arith, i))) in
          ground (arith, r n (ground arith), rest),
    )

false-true : {b : Bool} → b ≡ false → b ≡ true → ⊥
false-true h k = cc

lt-zero : {n : ℕ} → n < 0 → ⊥
lt-zero l = omega arith

module _ (heap : ℕ → GraphNode) (g : List ℕ) (sorted : StdSet.IsSorted ltb g) where
  flood-IsFlooded :
      (f s : ℕ) (black q : List ℕ)
      → IsFlooded heap g s black q
      → white g black + length q < f
      → (black' : List ℕ) × (flood heap g f black q ≡ some black') × IsFlooded heap g s black' []
  unfolding flood
  flood-IsFlooded zero s black q h l = absurd (lt-zero l)
  flood-IsFlooded (suc f) s black [] h l = (black, refl, h)
  flood-IsFlooded (suc f) s black (n ∷ q) h l =
      let r = paint g black q (heap n).successors in
      flood-IsFlooded f s r.0 r.1 (paint-IsFlooded heap g s n black q h)
        (omega (arith, l, paint-size g sorted (heap n).successors black q))

  -- What is marked leads to black nodes only.
  black_of_Reach :
      (s : ℕ) (black : List ℕ)
      → IsFlooded heap g s black []
      → (u v : ℕ) → Marked g black s u
      → Reach (Step heap g) u v
      → contains black v ≡ true
  unfolding contains
  black_of_Reach s black h u v m (one _ _ st) = elim (h.followed u m) [
    | inl c ↦ cc
    | inr f ↦ f v st
  ]
  black_of_Reach s black h u w m (more _ v _ st r) = elim (h.followed u m) [
    | inl c ↦ cc
    | inr f ↦ black_of_Reach s black h v w (inr (f v st, st.0)) r
  ]

  start : (s : ℕ) → IsFlooded heap g s [] (s ∷ [])
  unfolding contains
  start s = record {
    reached = λ v b i. cc;
    queued = λ v c. inl (ground (arith, c));
    followed = λ u m. inl (started heap g u s m);
  }

  abbrev Reaches : ℕ → Type 0
  Reaches u = (v : ℕ) → contains g v ≡ true → Reach (Step heap g) u v

  search :
      (s : ℕ)
      → (black : List ℕ) × (flood heap g (suc (suc (length g))) [] (s ∷ []) ≡ some black)
        × ((all_black g black ≡ true) ↔ Reaches s)
  search s =
      let (black, ends, h) =
        flood-IsFlooded (suc (suc (length g))) s [] (s ∷ []) (start s)
          (omega (arith, count-le-length (λ x. not (contains [] x)) g)) in
      (
        black,
        ends,
        (
          λ a v i. h.reached v ((all_black_iff g black).0 a v i) i,
          λ r. (all_black_iff g black).1 (λ v i. black_of_Reach s black h s v (inl refl) (r v i)),
        ),
      )

  connected_white :
      (n : ℕ) (ns black : List ℕ)
      → flood heap g (suc (suc (length g))) [] (n ∷ []) ≡ some black
      → all_black g black ≡ false
      → connected_from heap g (n ∷ ns) ≡ some false
  unfolding connected_from
  connected_white n ns black e a = rw (e, a, connected_from) refl

  connected_black :
      (n : ℕ) (ns black : List ℕ)
      → flood heap g (suc (suc (length g))) [] (n ∷ []) ≡ some black
      → all_black g black ≡ true
      → connected_from heap g (n ∷ ns) ≡ connected_from heap g ns
  unfolding connected_from
  connected_black n ns black e a = rw (e, a, connected_from) refl

  connected_from_iff :
      (ns : List ℕ)
      → (b : Bool) × (connected_from heap g ns ≡ some b)
        × ((b ≡ true) ↔ ((u : ℕ) → contains ns u ≡ true → Reaches u))
  unfolding contains
  connected_from_iff [] = (true, unfold connected_from in refl, (λ e u i. cc, λ r. refl))
  connected_from_iff (n ∷ ns) =
      let (black, ends, right) = search n in
      let (b, rest, later) = connected_from_iff ns in
      elim (Bool-cases (all_black g black)) [
        | inl a ↦ (
          b,
          rw (connected_black n ns black ends a) rest,
          (
            λ t u c. elim (Bool-cases (n == u)) [
              | inl q ↦ subst Reaches (same_node n u q) (right.0 a)
              | inr q ↦ later.0 t u (ground (arith, c, q))
            ],
            λ r. later.1 (λ u c. r u (ground (arith, c))),
          ),
        )
        | inr a ↦ (
          false,
          connected_white n ns black ends a,
          (λ t. cc, λ r. absurd (false-true a (right.1 (r n (ground arith))))),
        )
      ]

  -- FullyConnected returns, and it returns true exactly when each node of the kernel is reachable
  -- from each node of the kernel, itself included, along at least one edge and within the kernel.
  pub fully_connected_iff :
      (b : Bool) × (fully_connected heap g ≡ some b)
      × ((b ≡ true) ↔ (
          (u : ℕ) → contains g u ≡ true → (v : ℕ) → contains g v ≡ true → Reach (Step heap g) u v))
  unfolding fully_connected
  fully_connected_iff = connected_from_iff g
