-- ===== src/Graph/Containers.antt =====
-- The sets of a graph under its operations (Graph/Graph.cpp, Graph/GraphNode.cpp).
use cyclebite.Base.{
  ℕ, Bool, false, not, ◌&&◌, ◌||◌, List, [], ◌∷◌, Option, none, some, ◌==◌, ◌≡◌, inl, inr, refl,
  arith, Any, ap, ◌∙◌, Bool-cases,
}
use cyclebite.Base.StdSet
use cyclebite.Graph.{
  Graph, GraphEdge, GraphNode, ge_compare, has_edge, add_edge, remove_edge, find_edge,
  is_predecessor, is_predecessor_in, is_successor, is_successor_in,
}

-- Edges that GECompare does not tell apart.
abbrev pub parallel : GraphEdge → GraphEdge → Bool
parallel a b = a.src == b.src && a.snk == b.snk

pub has_edge-insert :
    (es : List GraphEdge) (k e : GraphEdge)
    → has_edge (StdSet.insert ge_compare es k) e ≡ (parallel k e || has_edge es e)
unfolding has_edge StdSet.insert ge_compare
has_edge-insert [] k e = refl
has_edge-insert (x ∷ xs) k e = ground (arith, has_edge-insert xs k e)

pub has_edge-erase :
    (es : List GraphEdge) (k e : GraphEdge)
    → has_edge (StdSet.erase ge_compare es k) e ≡ (not (parallel k e) && has_edge es e)
unfolding has_edge StdSet.erase ge_compare
has_edge-erase [] k e = ground arith
has_edge-erase (x ∷ xs) k e = ground (arith, has_edge-erase xs k e)

erase-absent :
    (es : List GraphEdge) (k : GraphEdge)
    → has_edge es k ≡ false
    → StdSet.erase ge_compare es k ≡ es
unfolding has_edge StdSet.erase ge_compare
erase-absent [] k h = refl
erase-absent (x ∷ xs) k h = ground (arith, erase-absent xs k)

erase-insert :
    (es : List GraphEdge) (k : GraphEdge)
    → has_edge es k ≡ false
    → StdSet.erase ge_compare (StdSet.insert ge_compare es k) k ≡ es
unfolding has_edge StdSet.erase StdSet.insert ge_compare
erase-insert [] k h = ground arith
erase-insert (x ∷ xs) k h = ground (arith, erase-insert xs k, erase-absent xs k)

-- Removing an edge that was added to a graph that had none with its ends gives the graph back.
remove_edge-add_edge :
    (g : Graph) (e : GraphEdge) → find_edge g e ≡ false → remove_edge (add_edge g e) e ≡ g
unfolding add_edge remove_edge
remove_edge-add_edge g e h = λ i. record g { edge_set = erase-insert g.edge_set e h i }

-- What a search of a set of edges for one with a given sink, or source, returns.
abbrev pub Finds : (GraphEdge → ℕ) → List GraphEdge → ℕ → Option GraphEdge → Type 0
Finds end es n none = (e : GraphEdge) → Any (λ f. f ≡ e) es → ¬ (end e ≡ n)
Finds end es n (some e) = Any (λ f. f ≡ e) es × (end e ≡ n)

Finds-later :
    (end : GraphEdge → ℕ) (x : GraphEdge) (xs : List GraphEdge) (n : ℕ) (r : Option GraphEdge)
    → ¬ (end x ≡ n)
    → Finds end xs n r
    → Finds end (x ∷ xs) n r
Finds-later end x xs n none h f = λ e m. elim m [ inl q ↦ λ z. h (ap end q ∙ z) | inr q ↦ f e q ]
Finds-later end x xs n (some e) h f = (inr f.0, f.1)

is_predecessor_in-Finds :
    (es : List GraphEdge) (succ : ℕ) → Finds (λ e. e.snk) es succ (is_predecessor_in es succ)
unfolding is_predecessor_in
is_predecessor_in-Finds [] succ = λ e m. absurd m
is_predecessor_in-Finds (x ∷ xs) succ = elim (Bool-cases (x.snk == succ)) [
  | inl here ↦ rw here (inl refl, ground (arith, here))
  | inr later ↦ rw later (
      Finds-later (λ e. e.snk) x xs succ _ (ground (arith, later))
        (is_predecessor_in-Finds xs succ))
]

is_successor_in-Finds :
    (es : List GraphEdge) (pred : ℕ) → Finds (λ e. e.src) es pred (is_successor_in es pred)
unfolding is_successor_in
is_successor_in-Finds [] pred = λ e m. absurd m
is_successor_in-Finds (x ∷ xs) pred = elim (Bool-cases (x.src == pred)) [
  | inl here ↦ rw here (inl refl, ground (arith, here))
  | inr later ↦
      rw later (
        Finds-later (λ e. e.src) x xs pred _ (ground (arith, later))
          (is_successor_in-Finds xs pred))
]

-- isPredecessor returns an edge of the successors that ends at the given node, or nothing where
-- there is none, and isSuccessor an edge of the predecessors that starts there.
is_predecessor-Finds :
    (n : GraphNode) (other : ℕ)
    → Finds (λ e. e.snk) n.successors other (is_predecessor n other)
      × Finds (λ e. e.src) n.predecessors other (is_successor n other)
unfolding is_predecessor is_successor
is_predecessor-Finds n other =
    (is_predecessor_in-Finds n.successors other, is_successor_in-Finds n.predecessors other)
