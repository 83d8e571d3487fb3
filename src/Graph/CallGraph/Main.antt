-- ===== src/Graph/CallGraph/Main.antt =====
-- getMainNode (Graph/CallGraph.cpp).
use cyclebite.Base.{ℕ, List, [], ◌∷◌, none, some, filter, ◌≡◌, refl, inl, inr, Bool-cases}
use cyclebite.Graph.CallGraph.{
  CallGraph, CallGraphNode, Looked, gives, throws, is_first, main_loop, get_main_node,
}

-- The only element of a list.
abbrev pub sole : List ℕ → Looked
sole [] = throws
sole (n ∷ []) = gives n
sole (n ∷ m ∷ ms) = throws

module _ (heap : ℕ → CallGraphNode) where
  main_loop-some :
      (m : ℕ) (ns : List ℕ) → main_loop heap (some m) ns ≡ sole (m ∷ filter (is_first heap) ns)
  unfolding main_loop
  main_loop-some m [] = refl
  main_loop-some m (n ∷ ns) = elim (Bool-cases (is_first heap n)) [
    | inl h ↦ rw h refl
    | inr h ↦ rw h (main_loop-some m ns)
  ]

  main_loop-none : (ns : List ℕ) → main_loop heap none ns ≡ sole (filter (is_first heap) ns)
  unfolding main_loop
  main_loop-none [] = refl
  main_loop-none (n ∷ ns) = elim (Bool-cases (is_first heap n)) [
    | inl h ↦ rw h (main_loop-some n ns)
    | inr h ↦ rw h (main_loop-none ns)
  ]

  -- getMainNode gives the only node of the graph that no function calls, and throws where there is
  -- none and where there are several.
  pub get_main_node_lem :
      (g : CallGraph) → get_main_node heap g ≡ sole (filter (is_first heap) (g.graph).node_set)
  unfolding get_main_node
  get_main_node_lem g = main_loop-none (g.graph).node_set
