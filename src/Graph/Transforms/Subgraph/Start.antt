-- ===== src/Graph/Transforms/Subgraph/Start.antt =====
-- The state that SubgraphBFS (Graph/Transforms.cpp) starts with.
use cyclebite.Base.{ℕ, true, List, [], ◌∷◌, ltb, All, Any, ◌≡◌, refl, arith, inl, inr, subst}
use cyclebite.Base.StdSet
use cyclebite.Base.NatSet.{contains, contains-insert}
use cyclebite.Graph.{GraphEdge, GraphNode, has_edge}
use cyclebite.Graph.Transforms.Subgraph.{start_bfs, exit_sources}
use cyclebite.Graph.Transforms.Subgraph.Drain.{IsBfs}
use cyclebite.Graph.Transforms.Subgraph.Near.{Near, enters, leaves, AllNear, AllNear-insert}

module _ (heap : ℕ → GraphNode) (exits : List GraphEdge) (entrance : ℕ) where
  exit_sources-keeps :
      (es : List GraphEdge) (nodes : List ℕ) (v : ℕ)
      → contains nodes v ≡ true
      → contains (exit_sources nodes es) v ≡ true
  unfolding exit_sources
  exit_sources-keeps [] nodes v h = h
  exit_sources-keeps (e ∷ es) nodes v h =
      exit_sources-keeps es (StdSet.insert ltb nodes e.src) v
        (ground (arith, h, contains-insert nodes e.src v))

  exit_sources-has :
      (es : List GraphEdge) (nodes : List ℕ)
      → All (λ e. contains (exit_sources nodes es) e.src ≡ true) es
  unfolding exit_sources
  exit_sources-has [] nodes = tt
  exit_sources-has (e ∷ es) nodes = (
    exit_sources-keeps es (StdSet.insert ltb nodes e.src) e.src
        (ground (arith, contains-insert nodes e.src e.src)),
    exit_sources-has es (StdSet.insert ltb nodes e.src),
  )

  pub exit_sources-AllNear :
      (es : List GraphEdge) (nodes : List ℕ)
      → ((e : GraphEdge) → Any (λ x. x ≡ e) es → Any (λ x. x ≡ e) exits)
      → AllNear heap exits entrance nodes
      → AllNear heap exits entrance (exit_sources nodes es)
  unfolding exit_sources
  exit_sources-AllNear [] nodes x a = a
  exit_sources-AllNear (e ∷ es) nodes x a =
      exit_sources-AllNear es (StdSet.insert ltb nodes e.src) (λ z m. x z (inr m))
        (AllNear-insert heap exits entrance e.src nodes (leaves e (x e (inl refl))) a)

  pub start-IsBfs :
      (edge_count : ℕ) → IsBfs heap exits entrance (start_bfs heap edge_count exits entrance)
  unfolding has_edge contains
  start-IsBfs edge_count = record {
    kept = λ e c x. ground (arith, c);
    begun = inl (ground arith);
    inside = exit_sources-keeps exits (entrance ∷ []) entrance (ground arith);
    sources = exit_sources-has exits (entrance ∷ []);
  }

  pub only_entrance : AllNear heap exits entrance (entrance ∷ [])
  unfolding contains
  only_entrance v h =
      let z : entrance ≡ v = ground (arith, h) in subst (Near heap exits entrance) z enters
