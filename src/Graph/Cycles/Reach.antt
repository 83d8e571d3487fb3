-- ===== src/Graph/Cycles/Reach.antt =====
-- Reachability in a graph, and the two facts that a depth-first search rests on: the queue is a
-- path, and the nodes that were left form a topological order.
use cyclebite.Base.{ℕ, List, [], ◌∷◌, ◌≡◌, inl, inr, Any, subst, sym}

module _ (Arc : ℕ → ℕ → Type 0) where
  pub data Reach : ℕ → ℕ → Type 0 where
    one : (u v : ℕ) → Arc u v → Reach u v
    more : (u v w : ℕ) → Arc u v → Reach v w → Reach u w

  -- A newer element of the queue is a successor of the one below it.
  abbrev pub IsPath : List ℕ → Type 0
  IsPath [] = Unit
  IsPath (x ∷ []) = Unit
  IsPath (x ∷ y ∷ q) = Arc y x × IsPath (y ∷ q)

  pub IsPath-tail : (x : ℕ) (q : List ℕ) → IsPath (x ∷ q) → IsPath q
  IsPath-tail x [] p = tt
  IsPath-tail x (y ∷ q) p = p.1

  -- The successors of an element come after it.
  abbrev pub IsTopological : List ℕ → Type 0
  IsTopological [] = Unit
  IsTopological (x ∷ xs) = ((v : ℕ) → Arc x v → Any (λ y. y ≡ v) xs) × IsTopological xs

  pub Reach-snoc : (u v w : ℕ) → Reach u v → Arc v w → Reach u w
  Reach-snoc u v w (one _ _ a) b = more u v w a (one v w b)
  Reach-snoc u v w (more _ x _ a r) b = more u x w a (Reach-snoc x v w r b)

  IsPath-Reach : (q : List ℕ) (x v : ℕ) → IsPath (x ∷ q) → Any (λ y. y ≡ v) q → Reach v x
  IsPath-Reach [] x v p a = absurd a
  IsPath-Reach (y ∷ q) x v p (inl e) = one v x (subst (λ z. Arc z x) (e) p.0)
  IsPath-Reach (y ∷ q) x v p (inr a) = Reach-snoc v y x (IsPath-Reach q y v p.1 a) p.0

  -- A successor of the front that is in the queue is on a cycle.
  pub IsPath-cycle :
      (q : List ℕ) (x v : ℕ) → IsPath (x ∷ q) → Any (λ y. y ≡ v) (x ∷ q) → Arc x v → Reach v v
  IsPath-cycle q x v p (inl e) a = one v v (subst (λ z. Arc z v) (e) a)
  IsPath-cycle q x v p (inr i) a = Reach-snoc v x v (IsPath-Reach q x v p i) a

  closed :
      (xs : List ℕ) (u v : ℕ)
      → IsTopological xs
      → Any (λ y. y ≡ u) xs
      → Arc u v
      → Any (λ y. y ≡ v) xs
  closed [] u v t i a = absurd i
  closed (x ∷ xs) u v t (inl e) a = inr (t.0 v (subst (λ z. Arc z v) (sym e) a))
  closed (x ∷ xs) u v t (inr i) a = inr (closed xs u v t.1 i a)

  closed-Reach :
      (xs : List ℕ) (u v : ℕ)
      → IsTopological xs
      → Any (λ y. y ≡ u) xs
      → Reach u v
      → Any (λ y. y ≡ v) xs
  closed-Reach xs u v t i (one _ _ a) = closed xs u v t i a
  closed-Reach xs u w t i (more _ v _ a r) = closed-Reach xs v w t (closed xs u v t i a) r

  after : (x : ℕ) (xs : List ℕ) (v : ℕ) → IsTopological (x ∷ xs) → Reach x v → Any (λ y. y ≡ v) xs
  after x xs v t (one _ _ a) = t.0 v a
  after x xs w t (more _ v _ a r) = closed-Reach xs v w t.1 (t.0 v a) r

  -- No element of a topological order is on a cycle.
  pub IsTopological-acyclic :
      (xs : List ℕ) (v : ℕ) → IsTopological xs → Any (λ y. y ≡ v) xs → ¬ Reach v v
  IsTopological-acyclic [] v t i r = absurd i
  IsTopological-acyclic (x ∷ xs) v t (inr i) r = IsTopological-acyclic xs v t.1 i r
  IsTopological-acyclic (x ∷ xs) v t (inl e) r =
      let s = subst (λ z. Reach z z) (sym e) r in
      IsTopological-acyclic xs x t.1 (after x xs x t s) s
