-- ===== src/Graph/CallGraph/Lookup.antt =====
-- Finding the node of a function (Graph/CallGraph.cpp).
use cyclebite.Base.{
  ℕ, Bool, true, false, ◌||◌, List, [], ◌∷◌, ◌++◌, Option, none, some, ◌==◌, if◌then◌else◌, All,
  ◌≡◌, refl, sym, arith, inl, inr, Bool-cases,
}
use cyclebite.Base.StdSet
use cyclebite.Base.StdSet.{IsSorted}
use cyclebite.Base.StdSet.Laws.{All-insert}
use cyclebite.Base.NatSet.{contains, contains-insert}
use cyclebite.Graph.{Graph, GraphEdge, add_node}
use cyclebite.Graph.CallGraph.{
  CallGraph, CallGraphNode, Looked, gives, throws, cgn_compare, cgn_find, at, find, add_call_node,
  add_call_nodes, add_all, empty_call_graph, index_all, call_graph,
}

-- The calls that put nodes into a call graph.
pub data Addition : Type 0 where
  one_node : ℕ → Addition
  many_nodes : List ℕ → Addition

abbrev pub looked : Option ℕ → Looked
looked none = throws
looked (some n) = gives n

abbrev pub all_nodes : List Addition → List ℕ
all_nodes [] = []
all_nodes (one_node n ∷ adds) = n ∷ all_nodes adds
all_nodes (many_nodes ns ∷ adds) = ns ++ all_nodes adds

abbrev or_else : Option ℕ → Option ℕ → Option ℕ
or_else none o = o
or_else (some n) o = some n

abbrev pub is_there : Option ℕ → Bool
is_there none = false
is_there (some n) = true

abbrev pub one_by_one : List ℕ → List Addition
one_by_one [] = []
one_by_one (n ∷ ns) = one_node n ∷ one_by_one ns

or_none : (o : Option ℕ) → or_else o none ≡ o
or_none none = refl
or_none (some n) = refl

module _ (heap : ℕ → CallGraphNode) where
  unfoldable pub add : CallGraph → Addition → CallGraph
  add g (one_node n) = add_call_node heap g n
  add g (many_nodes ns) = add_call_nodes heap g ns

  unfoldable pub add_each : CallGraph → List Addition → CallGraph
  unfolding add
  add_each g [] = g
  add_each g (a ∷ adds) = add_each (add g a) adds

  -- The first node of the function among those that are added one by one.
  abbrev pub first_with : ℕ → List Addition → Option ℕ
  first_with f [] = none
  first_with f (one_node n ∷ adds) = if (heap n).function == f then some n else first_with f adds
  first_with f (many_nodes ns ∷ adds) = first_with f adds

  cgn_find-above :
      (ns : List ℕ) (n f : ℕ)
      → All (λ m. cgn_compare heap n m ≡ true) ns
      → (heap n).function ≡ f
      → cgn_find heap ns f ≡ none
  unfolding cgn_find cgn_compare
  cgn_find-above [] n f a e = refl
  cgn_find-above (m ∷ ns) n f a e = ground (arith, a.0, e, cgn_find-above ns n f a.1 e)

  above_trans :
      (ns : List ℕ) (k n : ℕ)
      → cgn_compare heap k n ≡ true
      → All (λ m. cgn_compare heap n m ≡ true) ns
      → All (λ m. cgn_compare heap k m ≡ true) ns
  unfolding cgn_compare
  above_trans [] k n l a = tt
  above_trans (m ∷ ns) k n l a = (ground (arith, l, a.0), above_trans ns k n l a.1)

  insert-IsSorted :
      (ns : List ℕ) (k : ℕ)
      → IsSorted (cgn_compare heap) ns
      → IsSorted (cgn_compare heap) (StdSet.insert (cgn_compare heap) ns k)
  unfolding StdSet.insert
  insert-IsSorted [] k s = (tt, tt)
  insert-IsSorted (n ∷ ns) k s = elim (Bool-cases (cgn_compare heap n k)) [
    | inl t ↦ rw t (
      All-insert (cgn_compare heap) (λ m. cgn_compare heap n m ≡ true) ns k s.0 t,
      insert-IsSorted ns k s.1,
    )
    | inr f ↦ elim (Bool-cases (cgn_compare heap k n)) [
      | inl t ↦ rw f (rw t ((t, above_trans ns k n t s.0), s))
      | inr g ↦ rw f (rw g s)
    ]
  ]

  cgn_find-insert :
      (ns : List ℕ) (k f : ℕ)
      → IsSorted (cgn_compare heap) ns
      → cgn_find heap (StdSet.insert (cgn_compare heap) ns k) f
        ≡ or_else (cgn_find heap ns f) (if (heap k).function == f then some k else none)
  unfolding StdSet.insert cgn_find cgn_compare
  cgn_find-insert [] k f s = refl
  cgn_find-insert (n ∷ ns) k f s = elim (Bool-cases (cgn_compare heap n k)) [
    | inl t ↦ ground (arith, t, cgn_find-insert ns k f s.1)
    | inr t ↦ elim (Bool-cases (cgn_compare heap k n)) [
      | inl l ↦
          let above = above_trans ns k n l s.0 in
          elim (Bool-cases ((heap k).function == f)) [
            | inl here ↦ ground (arith, t, l, here, cgn_find-above ns k f above)
            | inr there ↦ ground (arith, t, l, there, or_none (cgn_find heap ns f))
          ]
      | inr l ↦ ground (arith, t, l, or_none (cgn_find heap ns f))
    ]
  ]

  contains-add_all :
      (g : Graph) (ns : List ℕ) (n : ℕ)
      → contains (add_all g ns).node_set n ≡ (contains g.node_set n || contains ns n)
  unfolding add_all add_node contains
  contains-add_all g [] n = ground arith
  contains-add_all g (m ∷ ns) n =
      ground (arith, contains-add_all (add_node g m) ns n, contains-insert g.node_set m n)

  contains-append :
      (ns ms : List ℕ) (n : ℕ) → contains (ns ++ ms) n ≡ (contains ns n || contains ms n)
  unfolding contains
  contains-append [] ms n = refl
  contains-append (m ∷ ns) ms n = ground (arith, contains-append ns ms n)

  -- What a graph finds after the additions.
  Finds : CallGraph → List Addition → CallGraph → Type 0
  Finds g adds g' =
      ((f : ℕ) → cgn_find heap g'.cgn f ≡ or_else (cgn_find heap g.cgn f) (first_with f adds))
      × ((n : ℕ)
          → contains (g'.graph).node_set n
            ≡ (contains (g.graph).node_set n || contains (all_nodes adds) n))

  add_each-Finds :
      (g : CallGraph) (adds : List Addition)
      → IsSorted (cgn_compare heap) g.cgn
      → Finds g adds (add_each g adds)
  unfolding Finds add_each add add_call_node add_call_nodes add_node contains
  add_each-Finds g [] s = (λ f. sym (or_none (cgn_find heap g.cgn f)), λ n. ground arith)
  add_each-Finds g (one_node m ∷ adds) s =
      let (found, inside) =
        add_each-Finds (add_call_node heap g m) adds (insert-IsSorted g.cgn m s) in
      (
        λ f. ground (arith, found f, cgn_find-insert g.cgn m f s),
        λ n. ground (arith, inside n, contains-insert (g.graph).node_set m n),
      )
  add_each-Finds g (many_nodes ns ∷ adds) s =
      let (found, inside) = add_each-Finds (add_call_nodes heap g ns) adds s in
      (
        λ f. found f,
        λ n.
            ground (
              arith,
              inside n,
              contains-add_all g.graph ns n,
              contains-append ns (all_nodes adds) n,
            ),
      )

  at-find :
      (g : CallGraph) (f : ℕ) (o : Option ℕ)
      → cgn_find heap g.cgn f ≡ o
      → (at heap g f ≡ looked o) × (find heap g f ≡ is_there o)
  unfolding at find
  at-find g f none e = (rw (e, at) refl, rw (e, find) refl)
  at-find g f (some n) e = (rw (e, at) refl, rw (e, find) refl)

  index_all-add_each :
      (g : CallGraph) (ns : List ℕ) → (add_each g (one_by_one ns)).cgn ≡ index_all heap g.cgn ns
  unfolding add_each add add_call_node index_all
  index_all-add_each g [] = refl
  index_all-add_each g (n ∷ ns) = index_all-add_each (add_call_node heap g n) ns

  -- The constructor finds what calls of addNode, one for each node, find.
  pub call_graph-add_each :
      (nodes : List ℕ) (edges : List GraphEdge)
      → (call_graph heap nodes edges).cgn ≡ (add_each empty_call_graph (one_by_one nodes)).cgn
  unfolding call_graph
  call_graph-add_each nodes edges = sym (index_all-add_each empty_call_graph nodes)

  -- After any sequence of addNode and addNodes on an empty call graph, operator[] of a function
  -- gives the first node of that function that addNode was called with, and throws where there is
  -- none; find says which of the two it is, and the set of nodes has those of both calls.
  pub add_each-reads :
      (adds : List Addition)
      → ((f : ℕ)
          → (at heap (add_each empty_call_graph adds) f ≡ looked (first_with f adds))
            × (find heap (add_each empty_call_graph adds) f ≡ is_there (first_with f adds)))
        × ((n : ℕ)
            → contains ((add_each empty_call_graph adds).graph).node_set n
              ≡ contains (all_nodes adds) n)
  unfolding Finds at find cgn_find contains
  add_each-reads adds =
      let (found, inside) = add_each-Finds empty_call_graph adds tt in
      (λ f. at-find (add_each empty_call_graph adds) f (first_with f adds) (found f), inside)
