-- ===== src/Graph/Transforms/Subgraph/Edges.antt =====
-- The edges of the subgraph of SubgraphBFS (Graph/Transforms.cpp).
use cyclebite.Base.{
  ℕ, true, List, [], ◌∷◌, ◌==◌, if◌then◌else◌, Any, ◌≡◌, sym, ap, arith, inl, inr, Bool-cases,
  subst,
}
use cyclebite.Base.StdSet
use cyclebite.Base.NatSet.{contains}
use cyclebite.Graph.{GraphEdge, GraphNode, ge_compare, has_edge}
use cyclebite.Graph.Containers.{has_edge-insert}
use cyclebite.Graph.Transforms.Subgraph.{sub_edges, insert_inside}

in_has_edge : (es : List GraphEdge) (e : GraphEdge) → Any (λ x. x ≡ e) es → has_edge es e ≡ true
unfolding has_edge
in_has_edge [] e m = absurd m
in_has_edge (x ∷ es) e (inl q) = ground (arith, ap (λ z. z.src) q, ap (λ z. z.snk) q)
in_has_edge (x ∷ es) e (inr m) = ground (arith, in_has_edge es e m)

insert_inside-keeps :
    (end : GraphEdge → ℕ) (nodes : List ℕ) (edges es : List GraphEdge) (e : GraphEdge)
    → has_edge edges e ≡ true
    → has_edge (insert_inside end nodes edges es) e ≡ true
unfolding insert_inside
insert_inside-keeps end nodes edges [] e h = h
insert_inside-keeps end nodes edges (x ∷ es) e h =
    insert_inside-keeps end nodes
      (if contains nodes (end x) then StdSet.insert ge_compare edges x else edges) es e
      (ground (arith, h, has_edge-insert edges x e))

insert_inside-has :
    (nodes : List ℕ) (es edges : List GraphEdge) (e : GraphEdge)
    → Any (λ x. x ≡ e) es
    → contains nodes e.snk ≡ true
    → has_edge (insert_inside (λ x. x.snk) nodes edges es) e ≡ true
unfolding insert_inside has_edge
insert_inside-has nodes [] edges e m i = absurd m
insert_inside-has nodes (x ∷ es) edges e (inl q) i =
    insert_inside-keeps (λ x. x.snk) nodes _ es e
      (subst
        (λ x.
          has_edge (if contains nodes x.snk then StdSet.insert ge_compare edges x else edges) e
          ≡ true)
        (sym q) (ground (arith, i, has_edge-insert edges e e)))
insert_inside-has nodes (x ∷ es) edges e (inr m) i = insert_inside-has nodes es _ e m i

module _ (heap : ℕ → GraphNode) (edge_count : ℕ) (exits : List GraphEdge) where
  sub_edges-keeps :
      (nodes ns : List ℕ) (edges : List GraphEdge) (e : GraphEdge)
      → has_edge edges e ≡ true
      → has_edge (sub_edges heap edge_count exits nodes edges ns) e ≡ true
  unfolding sub_edges
  sub_edges-keeps nodes [] edges e h = h
  sub_edges-keeps nodes (n ∷ ns) edges e h = sub_edges-keeps nodes ns _ e (
      insert_inside-keeps (λ x. x.snk) nodes _ (heap n).successors e
        (insert_inside-keeps (λ x. x.src) nodes edges (heap n).predecessors e h))

  pub sub_edges-has :
      (nodes ns : List ℕ) (edges : List GraphEdge) (n : ℕ) (e : GraphEdge)
      → contains ns n ≡ true
      → Any (λ x. x ≡ e) (heap n).successors
      → contains nodes e.snk ≡ true
      → has_edge (sub_edges heap edge_count exits nodes edges ns) e ≡ true
  unfolding sub_edges contains
  sub_edges-has nodes [] edges n e c m i = cc
  sub_edges-has nodes (k ∷ ns) edges n e c m i = elim (Bool-cases (k == n)) [
    | inl here ↦
        let q : n ≡ k = ground (arith, here) in
        sub_edges-keeps nodes ns _ e (
          insert_inside-has nodes (heap k).successors _ e
            (subst (λ z. Any (λ x. x ≡ e) (heap z).successors) q m) i)
    | inr there ↦ sub_edges-has nodes ns _ n e (ground (arith, c, there)) m i
  ]
