-- ===== src/Graph/Kernels/Marks.antt =====
-- The invariant of the search in MLCycle::FullyConnected (Graph/MLCycle.cpp).
use cyclebite.Base.{ℕ, true, List, ◌∷◌, ◌==◌, ◌≡◌, ◌⊎◌, inl, inr, sym, subst, arith, Bool-cases}
use cyclebite.Base.NatSet.{contains}
use cyclebite.Graph.{GraphNode}
use cyclebite.Graph.Cycles.Reach.{Reach, one, Reach-snoc}
use cyclebite.Graph.Kernels.{paint}
use cyclebite.Graph.Kernels.Flood.{sinks, paint-black, paint-queue}

-- An edge to a node of the subgraph.
abbrev pub Step : (ℕ → GraphNode) → List ℕ → ℕ → ℕ → Type 0
Step heap g u v = (contains g v ≡ true) × (contains (sinks (heap u).successors) v ≡ true)

abbrev pub Marked : List ℕ → List ℕ → ℕ → ℕ → Type 0
Marked g black s u = (u ≡ s) ⊎ ((contains black u ≡ true) × (contains g u ≡ true))

-- The search from s: the black nodes of the subgraph are reached, those in the queue are marked,
-- and a marked node is in the queue or its edges have been followed.
pub record IsFlooded (heap : ℕ → GraphNode) (g : List ℕ) (s : ℕ) (black q : List ℕ) : Type 0 where
  pub reached : (v : ℕ) → contains black v ≡ true → contains g v ≡ true → Reach (Step heap g) s v
  pub queued : (v : ℕ) → contains q v ≡ true → Marked g black s v
  pub followed :
      (u : ℕ)
      → Marked g black s u
      → (contains q u ≡ true) ⊎ ((v : ℕ) → Step heap g u v → contains black v ≡ true)

pub same_node : (n v : ℕ) → (n == v) ≡ true → n ≡ v
same_node n v h = ground arith

module _ (heap : ℕ → GraphNode) (g : List ℕ) (s n : ℕ) (black q : List ℕ) where
  abbrev pub black' : List ℕ
  black' = (paint g black q (heap n).successors).0

  abbrev pub q' : List ℕ
  q' = (paint g black q (heap n).successors).1

  front-Reach :
      IsFlooded heap g s black (n ∷ q) → (v : ℕ) → Step heap g n v → Reach (Step heap g) s v
  unfolding contains
  front-Reach h v st = elim (h.queued n (ground arith)) [
    | inl e ↦ one s v (subst (λ z. Step heap g z v) (e) st)
    | inr m ↦ Reach-snoc (Step heap g) s n v (h.reached n m.0 m.1) st
  ]

  followed_by :
      IsFlooded heap g s black (n ∷ q)
      → (u : ℕ) → Marked g black s u
      → (contains q' u ≡ true) ⊎ ((v : ℕ) → Step heap g u v → contains black' v ≡ true)
  unfolding contains
  followed_by h u m = elim (h.followed u m) [
    | inr f ↦ inr (λ v st. ground (arith, paint-black g (heap n).successors black q v, f v st))
    | inl c ↦ elim (Bool-cases (n == u)) [
      | inl e ↦ inr (λ v st.
          let st' = subst (λ z. Step heap g z v) (sym (same_node n u e)) st in
          ground (arith, paint-black g (heap n).successors black q v, st'))
      | inr e ↦ inl (ground (arith, paint-queue g (heap n).successors black q u, c, e))
    ]
  ]

  queue-Marked :
      IsFlooded heap g s black (n ∷ q) → (v : ℕ) → contains q' v ≡ true → Marked g black' s v
  unfolding contains
  queue-Marked h v c = elim (Bool-cases (contains q v)) [
    | inl old ↦ elim (h.queued v (ground (arith, old))) [
      | inl e ↦ inl e
      | inr m ↦ inr (ground (arith, m, paint-black g (heap n).successors black q v), m.1)
    ]
    | inr new ↦ inr (
      ground (
        arith,
        c,
        new,
        paint-queue g (heap n).successors black q v,
        paint-black g (heap n).successors black q v,
      ),
      ground (arith, c, new, paint-queue g (heap n).successors black q v),
    )
  ]

  followed_all :
      IsFlooded heap g s black (n ∷ q)
      → (u : ℕ) → Marked g black' s u
      → (contains q' u ≡ true) ⊎ ((v : ℕ) → Step heap g u v → contains black' v ≡ true)
  followed_all h u (inl e) = followed_by h u (inl e)
  followed_all h u (inr m) = elim (Bool-cases (contains black u)) [
    | inl old ↦ followed_by h u (inr (old, m.1))
    | inr new ↦ inl (
        ground (
          arith,
          m,
          new,
          paint-queue g (heap n).successors black q u,
          paint-black g (heap n).successors black q u,
        ))
  ]

  pub paint-IsFlooded : IsFlooded heap g s black (n ∷ q) → IsFlooded heap g s black' q'
  unfolding contains
  paint-IsFlooded h = record {
    reached = λ v b i. elim (Bool-cases (contains black v)) [
      | inl old ↦ h.reached v old i
      | inr new ↦
          front-Reach h v (i, ground (arith, paint-black g (heap n).successors black q v, b, new))
    ];
    queued = λ v c. queue-Marked h v c;
    followed = λ u m. followed_all h u m;
  }
