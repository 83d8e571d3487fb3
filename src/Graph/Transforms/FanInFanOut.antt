-- ===== src/Graph/Transforms/FanInFanOut.antt =====
-- FanInFanOutTransform (Graph/Transforms.cpp): a subgraph that is entered through its source and left
-- through its sink only.
use cyclebite.Base.{
  ℕ, ◌≤◌, ◌<◌, Bool, true, false, ◌&&◌, List, [], ◌∷◌, Option, none, some, ◌>>=◌, ltb, ◌==◌,
  if◌then◌else◌, length, All, ◌≡◌, ◌↔◌, ◌⊎◌, inl, inr, refl, sym, ap, ◌∙◌, arith, Bool-cases,
}
use cyclebite.Base.StdSet
use cyclebite.Graph.{
  control_edges, Graph, GraphEdge, GraphNode, find_edge, node_count, remove_node, remove_edge,
}

-- Every node has a predecessor and a successor.
unfoldable pub all_linked : (ℕ → GraphNode) → List ℕ → Bool
all_linked heap [] = true
all_linked heap (n ∷ ns) =
    let rest = all_linked heap ns in
    if length (heap n).successors == 0
    then false
    else if length (heap n).predecessors == 0
    then false
    else rest

-- The loop over the edges of a node, which returns false at one outside of the subgraph.
unfoldable pub all_inside : Graph → List GraphEdge → Bool
all_inside g [] = true
all_inside g (e ∷ es) = find_edge g e && all_inside g es

-- `none` is the result false, and the Boolean whether the node is to be removed. The source and the
-- sink are ControlNodes, whose edges are without the imaginary ones; the nodes of the subgraph are
-- GraphNodes.
unfoldable pub check_node : (GraphEdge → Bool) → (ℕ → GraphNode) → Graph → ℕ → ℕ → ℕ → Option Bool
unfolding all_inside
check_node imaginary heap g source sink n =
    if n == source
    then (if all_inside g (control_edges imaginary (heap n).successors) then some false else none)
    else if n == sink
    then (if all_inside g (control_edges imaginary (heap n).predecessors) then some false else none)
    else if all_inside g (heap n).predecessors && all_inside g (heap n).successors
    then some (length (heap n).successors == 0)
    else none

-- The set toRemove.
unfoldable pub check_nodes :
    (GraphEdge → Bool)
    → (ℕ → GraphNode)
    → Graph
    → ℕ
    → ℕ
    → List ℕ
    → Option (List ℕ)
    → Option (List ℕ)
unfolding check_node
check_nodes imaginary heap g source sink [] to_remove = to_remove
check_nodes imaginary heap g source sink (n ∷ ns) to_remove =
    check_nodes imaginary heap g source sink ns (do
      set ← to_remove
      remove ← check_node imaginary heap g source sink n
      some (if remove then StdSet.insert ltb set n else set))

unfoldable pub remove_edges : Graph → List GraphEdge → Graph
unfolding remove_edge
remove_edges g [] = g
remove_edges g (e ∷ es) = remove_edges (remove_edge g e) es

unfoldable pub remove_nodes : (ℕ → GraphNode) → Graph → List ℕ → Graph
unfolding remove_edges remove_node
remove_nodes heap g [] = g
remove_nodes heap g (n ∷ ns) =
    remove_nodes heap
      (remove_edges (remove_edges (remove_node g n) (heap n).successors) (heap n).predecessors) ns

-- The result, and the subgraph afterwards.
unfoldable pub fan_in_fan_out : (GraphEdge → Bool) → (ℕ → GraphNode) → Graph → ℕ → ℕ → Bool × Graph
unfolding all_linked check_nodes remove_nodes
fan_in_fan_out imaginary heap g source sink =
    if ltb (node_count g) 3
    then (false, g)
    else if all_linked heap g.node_set
    then elim (check_nodes imaginary heap g source sink g.node_set (some [])) [
      | none ↦ (false, g)
      | some set ↦ (true, remove_nodes heap g set)
    ]
    else (false, g)

abbrev pub AllInside : Graph → List GraphEdge → Type 0
AllInside g es = All (λ e. find_edge g e ≡ true) es

-- The edges of a node that are looked at: at the source and at the sink not the imaginary ones.
abbrev pub edges_at : (GraphEdge → Bool) → ℕ → ℕ → ℕ → List GraphEdge → List GraphEdge
edges_at imaginary source sink n es =
    if n == source
    then control_edges imaginary es
    else if n == sink
    then control_edges imaginary es
    else es

-- A node of the subgraph: it is linked, edges from outside enter it only if it is the source, and
-- edges leave it to the outside only if it is the sink.
abbrev pub Bottled : (GraphEdge → Bool) → (ℕ → GraphNode) → Graph → ℕ → ℕ → ℕ → Type 0
Bottled imaginary heap g source sink n =
    (0 < length (heap n).successors)
    × (0 < length (heap n).predecessors)
    × ((n ≡ source) ⊎ AllInside g (edges_at imaginary source sink n (heap n).predecessors))
    × ((n ≡ sink) × ¬ (n ≡ source)
        ⊎ AllInside g (edges_at imaginary source sink n (heap n).successors))

not_both : true ≡ false → ⊥
not_both h = cc

abbrev Linked : (ℕ → GraphNode) → ℕ → Type 0
Linked heap n = (0 < length (heap n).successors) × (0 < length (heap n).predecessors)

abbrev Inner : (GraphEdge → Bool) → (ℕ → GraphNode) → Graph → ℕ → ℕ → ℕ → Type 0
Inner imaginary heap g source sink n =
    ((n ≡ source) ⊎ AllInside g (edges_at imaginary source sink n (heap n).predecessors))
    × ((n ≡ sink) × ¬ (n ≡ source)
        ⊎ AllInside g (edges_at imaginary source sink n (heap n).successors))

all_inside_cases :
    (g : Graph) (es : List GraphEdge)
    → ((all_inside g es ≡ true) × AllInside g es) ⊎ ((all_inside g es ≡ false) × ¬ AllInside g es)
unfolding all_inside
all_inside_cases g [] = inl (refl, tt)
all_inside_cases g (e ∷ es) = elim (Bool-cases (find_edge g e)) [
  | inl here ↦ elim (all_inside_cases g es) [
    | inl (h, a) ↦ inl (rw here h, (here, a))
    | inr (h, a) ↦ inr (rw here h, λ b. a b.1)
  ]
  | inr out ↦ inr (rw out refl, λ b. not_both (sym b.0 ∙ out))
]

all_linked_cases :
    (heap : ℕ → GraphNode) (ns : List ℕ)
    → ((all_linked heap ns ≡ true) × All (Linked heap) ns)
      ⊎ ((all_linked heap ns ≡ false) × ¬ All (Linked heap) ns)
unfolding all_linked
all_linked_cases heap [] = inl (refl, tt)
all_linked_cases heap (n ∷ ns) = elim (Bool-cases (length (heap n).successors == 0)) [
  | inl last ↦ inr (rw last refl, λ a. absurd (ground (arith, last, (a.0).0)))
  | inr on ↦ elim (Bool-cases (length (heap n).predecessors == 0)) [
    | inl first ↦ inr (rw on (rw first refl), λ a. absurd (ground (arith, first, (a.0).1)))
    | inr back ↦ elim (all_linked_cases heap ns) [
      | inl (h, a) ↦ inl (rw on (rw back h), ((ground (arith, on), ground (arith, back)), a))
      | inr (h, a) ↦ inr (rw on (rw back h), λ b. a b.1)
    ]
  ]
]

module _ (imaginary : GraphEdge → Bool) (heap : ℕ → GraphNode) (g : Graph) (source sink : ℕ) where
  abbrev Checks : ℕ → Type 0
  Checks n =
      ((check_node imaginary heap g source sink n ≡ some false)
        × Inner imaginary heap g source sink n)
      ⊎ ((check_node imaginary heap g source sink n ≡ none)
          × ¬ Inner imaginary heap g source sink n)

  at_sink : (n : ℕ) → (n == source) ≡ false → (n == sink) ≡ true → ¬ (n ≡ source) → Checks n
  unfolding check_node
  at_sink n later last d =
      let k : n ≡ sink = ground (arith, last) in
      elim (all_inside_cases g (control_edges imaginary (heap n).predecessors)) [
        | inl (h, a) ↦
            inl (rw later (rw last (rw h refl)), (inr (rw later (rw last a)), inl (k, d)))
        | inr (h, a) ↦ inr (
          rw later (rw last (rw h refl)),
          λ i. elim (i.0) [ inl s ↦ d s | inr b ↦ a (rw (later, last) at b) ],
        )
      ]

  between :
      (n : ℕ)
      → Linked heap n
      → (n == source) ≡ false
      → (n == sink) ≡ false
      → ¬ (n ≡ source)
      → Checks n
  unfolding check_node
  between n l later middle d =
      let on : (length (heap n).successors == 0) ≡ false = ground (arith, l.0) in
      elim (all_inside_cases g (heap n).predecessors) [
        | inr (h, a) ↦ inr (
          rw later (rw middle (rw h refl)),
          λ i. elim (i.0) [ inl s ↦ d s | inr b ↦ a (rw (later, middle) at b) ],
        )
        | inl (h, a) ↦ elim (all_inside_cases g (heap n).successors) [
          | inl (h', a') ↦ inl (
            rw later (rw middle (rw h (rw h' (ap some on)))),
            (inr (rw later (rw middle a)), inr (rw later (rw middle a'))),
          )
          | inr (h', a') ↦ inr (
            rw later (rw middle (rw h (rw h' refl))),
            λ i. elim (i.1) [
              | inl (k, z) ↦ absurd (ground (arith, middle, k))
              | inr b ↦ a' (rw (later, middle) at b)
            ],
          )
        ]
      ]

  check_node_cases :
      (n : ℕ)
      → Linked heap n
      → ((check_node imaginary heap g source sink n ≡ some false)
          × Inner imaginary heap g source sink n)
        ⊎ ((check_node imaginary heap g source sink n ≡ none)
            × ¬ Inner imaginary heap g source sink n)
  unfolding check_node
  check_node_cases n l = elim (Bool-cases (n == source)) [
    | inl first ↦
        let s : n ≡ source = ground (arith, first) in
        elim (all_inside_cases g (control_edges imaginary (heap n).successors)) [
          | inl (h, a) ↦ inl (rw first (rw h refl), (inl s, inr (rw first a)))
          | inr (h, a) ↦ inr (
            rw first (rw h refl),
            λ i. elim (i.1) [ inl (k, d) ↦ d s | inr b ↦ a (rw first at b) ],
          )
        ]
    | inr later ↦
        let d : ¬ (n ≡ source) = λ q. ground (arith, later, q) in
        elim (Bool-cases (n == sink)) [
          | inl last ↦ at_sink n later last d
          | inr middle ↦ between n l later middle d
        ]
  ]

  check_nodes_none : (ns : List ℕ) → check_nodes imaginary heap g source sink ns none ≡ none
  unfolding check_nodes
  check_nodes_none [] = refl
  check_nodes_none (n ∷ ns) = check_nodes_none ns

  check_nodes_cases :
      (ns : List ℕ)
      → All (Linked heap) ns
      → ((check_nodes imaginary heap g source sink ns (some []) ≡ some [])
          × All (Inner imaginary heap g source sink) ns)
        ⊎ ((check_nodes imaginary heap g source sink ns (some []) ≡ none)
            × ¬ All (Inner imaginary heap g source sink) ns)
  unfolding check_nodes
  check_nodes_cases [] l = inl (refl, tt)
  check_nodes_cases (n ∷ ns) l = elim (check_node_cases n l.0) [
    | inr (h, a) ↦ inr (rw h (check_nodes_none ns), λ b. a b.0)
    | inl (h, a) ↦ elim (check_nodes_cases ns l.1) [
      | inl (k, b) ↦ inl (rw h k, (a, b))
      | inr (k, b) ↦ inr (rw h k, λ c. b c.1)
    ]
  ]

  bottled :
      (ns : List ℕ)
      → All (Linked heap) ns
      → All (Inner imaginary heap g source sink) ns
      → All (Bottled imaginary heap g source sink) ns
  bottled [] l i = tt
  bottled (n ∷ ns) l i = (((l.0).0, (l.0).1, (i.0).0, (i.0).1), bottled ns l.1 i.1)

  split :
      (ns : List ℕ)
      → All (Bottled imaginary heap g source sink) ns
      → All (Linked heap) ns × All (Inner imaginary heap g source sink) ns
  split [] b = (tt, tt)
  split (n ∷ ns) b = let (l, i) = split ns b.1 in ((((b.0).0, (b.0).1), l), (((b.0).2, (b.0).3), i))

  abbrev Answers : Bool × Graph → Type 0
  Answers r =
      (r.1 ≡ g)
      × ((r.0 ≡ true) ↔ (3 ≤ node_count g) × All (Bottled imaginary heap g source sink) g.node_set)

  denied :
      ¬ ((3 ≤ node_count g) × All (Bottled imaginary heap g source sink) g.node_set)
      → Answers (false, g)
  denied h = (refl, (λ z. absurd (not_both (sym z)), λ b. absurd (h b)))

  -- The test of a bottleneck is exact, and does not change the subgraph: it returns true exactly if
  -- the subgraph has at least three nodes, each with a predecessor and a successor, and only the
  -- source is entered by edges from outside of the subgraph and only the sink (if it is not the
  -- source as well) left by edges to the outside. The imaginary edges out of the source and into the
  -- sink do not count for the latter.
  pub fan_in_fan_out_iff :
      ((fan_in_fan_out imaginary heap g source sink).1 ≡ g)
      × (((fan_in_fan_out imaginary heap g source sink).0 ≡ true)
          ↔ (3 ≤ node_count g) × All (Bottled imaginary heap g source sink) g.node_set)
  unfolding fan_in_fan_out remove_nodes
  fan_in_fan_out_iff = elim (Bool-cases (ltb (node_count g) 3)) [
    | inl small ↦ rw small (denied (λ b. absurd (ground (arith, small, b.0))))
    | inr large ↦ elim (all_linked_cases heap g.node_set) [
      | inr (h, a) ↦ rw large (rw h (denied (λ b. a (split g.node_set b.1).0)))
      | inl (h, l) ↦ elim (check_nodes_cases g.node_set l) [
        | inr (k, a) ↦ rw large (rw h (rw k (denied (λ b. a (split g.node_set b.1).1))))
        | inl (k, i) ↦
            rw large (
              rw h (rw k (refl, (λ z. (ground (arith, large), bottled g.node_set l i), λ b. refl))))
      ]
    ]
  ]
