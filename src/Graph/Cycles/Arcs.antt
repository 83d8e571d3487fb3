-- ===== src/Graph/Cycles/Arcs.antt =====
-- The loop over the successors of the front of the queue, against the arcs of the subgraph.
use cyclebite.Base.{ℕ, true, false, ◌&&◌, List, [], ◌∷◌, ◌≡◌, inl, inr, arith, Any, Bool-cases}
use cyclebite.Base.NatSet.{contains}
use cyclebite.Graph.{Graph, GraphEdge, GraphNode, find_node, find_edge}
use cyclebite.Graph.Cycles.{Scan, scan, found, pushes, finishes}

-- An edge of the subgraph that ends in v.
abbrev pub Ends : Graph → ℕ → GraphEdge → Type 0
Ends g v e = (find_edge g e ≡ true) × (find_node g v ≡ true) × (e.snk ≡ v)

abbrev pub Arc : (ℕ → GraphNode) → Graph → ℕ → ℕ → Type 0
Arc heap g u v = Any (Ends g v) (heap u).successors

-- What a result of the loop says of the edges.
abbrev pub Says : Graph → List ℕ → List ℕ → List GraphEdge → Scan → Type 0
Says g visited q es found = (v : ℕ) × Any (Ends g v) es × (contains q v ≡ true)
Says g visited q es (pushes v) =
    Any (Ends g v) es
    × (contains q v ≡ false)
    × (contains visited v ≡ false)
    × (find_node g v ≡ true)
Says g visited q es finishes =
    (v : ℕ) → Any (Ends g v) es → (contains visited v ≡ true) × (contains q v ≡ false)

Says-later :
    (g : Graph) (visited q : List ℕ) (e : GraphEdge) (es : List GraphEdge) (r : Scan)
    → ((v : ℕ) → Ends g v e → (contains visited v ≡ true) × (contains q v ≡ false))
    → Says g visited q es r
    → Says g visited q (e ∷ es) r
Says-later g visited q e es found h s = (s.0, inr s.1, s.2)
Says-later g visited q e es (pushes v) h s = (inr s.0, s.1, s.2, s.3)
Says-later g visited q e es finishes h s = λ v a. elim a [ inl x ↦ h v x | inr x ↦ s v x ]

pub scan-Says :
    (g : Graph) (visited q : List ℕ) (es : List GraphEdge)
    → Says g visited q es (scan g visited q es)
unfolding scan
scan-Says g visited q [] = λ v a. absurd a
scan-Says g visited q (e ∷ es) =
    let rest = scan-Says g visited q es in
    elim (Bool-cases (find_edge g e && find_node g e.snk)) [
      | inr dead ↦ rw dead (
          Says-later g visited q e es (scan g visited q es)
            (λ v a. ground (arith, dead, a.0, a.1, a.2)) rest)
      | inl live ↦
          let here : Ends g e.snk e = ground (arith, live) in
          elim (Bool-cases (contains q e.snk)) [
            | inl old ↦ rw live (rw old (e.snk, inl here, old))
            | inr new ↦ elim (Bool-cases (contains visited e.snk)) [
              | inl seen ↦ rw live (
                  rw new (
                    rw seen (
                      Says-later g visited q e es (scan g visited q es)
                        (λ v a. ground (arith, seen, new, a.2)) rest)))
              | inr unseen ↦ rw live (rw new (rw unseen (inl here, new, unseen, here.1)))
            ]
          ]
    ]
