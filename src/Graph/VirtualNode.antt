-- ===== src/Graph/VirtualNode.antt =====
-- VirtualNode::getEntrances and getExits (Graph/VirtualNode.cpp): the edges at the nodes of a subgraph
-- that are not among its edges.
use cyclebite.Base.{
  ℕ, Bool, true, false, List, [], ◌∷◌, ◌++◌, if◌then◌else◌, ◌≡◌, ◌⊎◌, ◌↔◌, inl, inr, refl, sym, ap,
  subst, ◌∙◌, arith, Any, Bool-cases, ◌==◌,
}
use cyclebite.Base.NatSet.{contains}
use cyclebite.Graph.{GraphEdge, GraphNode, has_edge, control_edges}

-- The edges of a node that the subgraph does not have.
unfoldable pub outside : List GraphEdge → List GraphEdge → List GraphEdge
outside edges [] = []
outside edges (e ∷ es) = let rest = outside edges es in if has_edge edges e then rest else e ∷ rest

unfoldable pub get_entrances :
    (GraphEdge → Bool) → (ℕ → GraphNode) → List GraphEdge → List ℕ → List GraphEdge
unfolding outside
get_entrances imaginary heap edges [] = []
get_entrances imaginary heap edges (n ∷ ns) =
    outside edges (control_edges imaginary (heap n).predecessors)
    ++ get_entrances imaginary heap edges ns

unfoldable pub get_exits :
    (GraphEdge → Bool) → (ℕ → GraphNode) → List GraphEdge → List ℕ → List GraphEdge
unfolding outside
get_exits imaginary heap edges [] = []
get_exits imaginary heap edges (n ∷ ns) =
    outside edges (control_edges imaginary (heap n).successors) ++ get_exits imaginary heap edges ns

abbrev pub In : GraphEdge → List GraphEdge → Type 0
In e es = Any (λ f. f ≡ e) es

In-append : (e : GraphEdge) (xs ys : List GraphEdge) → In e (xs ++ ys) ↔ (In e xs ⊎ In e ys)
In-append e [] ys = (λ m. inr m, λ m. ground arith)
In-append e (x ∷ xs) ys = ground (arith, In-append e xs ys)

false-true : {b : Bool} → b ≡ false → b ≡ true → ⊥
false-true h k = cc

In-outside :
    (edges : List GraphEdge) (e : GraphEdge) (es : List GraphEdge)
    → In e (outside edges es) ↔ (In e es × (has_edge edges e ≡ false))
unfolding outside
In-outside edges e [] = (λ m. absurd m, λ m. absurd m.0)
In-outside edges e (x ∷ xs) =
    let same = λ (q : x ≡ e). ap (has_edge edges) q in
    let ih = In-outside edges e xs in
    elim (Bool-cases (has_edge edges x)) [
      | inl h ↦ rw h (
        λ m. (inr (ih.0 m).0, (ih.0 m).1),
        λ p. elim p.0 [
          | inl q ↦ absurd (false-true p.1 (sym (same q) ∙ h))
          | inr i ↦ ih.1 (i, p.1)
        ],
      )
      | inr h ↦ rw h (
        λ m. elim m [ inl q ↦ (inl q, sym (same q) ∙ h) | inr i ↦ (inr (ih.0 i).0, (ih.0 i).1) ],
        λ p. elim p.0 [ inl q ↦ inl q | inr i ↦ inr (ih.1 (i, p.1)) ],
      )
    ]

-- A subgraph with all edges of the graph between its nodes.
pub record IsInduced (imaginary : GraphEdge → Bool) (heap : ℕ → GraphNode) (edges : List GraphEdge)
    (subgraph : List ℕ) : Type 0 where
  pub predecessors :
      (n : ℕ) (e : GraphEdge)
      → contains subgraph n ≡ true
      → In e (control_edges imaginary (heap n).predecessors)
      → (e.snk ≡ n) × (has_edge edges e ≡ contains subgraph e.src)
  pub successors :
      (n : ℕ) (e : GraphEdge)
      → contains subgraph n ≡ true
      → In e (control_edges imaginary (heap n).successors)
      → (e.src ≡ n) × (has_edge edges e ≡ contains subgraph e.snk)

same_node : (n v : ℕ) → (n == v) ≡ true → n ≡ v
same_node n v h = ground arith

-- An edge that a node of the list has and the subgraph does not.
abbrev Leaves : (ℕ → List GraphEdge) → List GraphEdge → List ℕ → GraphEdge → Type 0
Leaves at edges ns e = (n : ℕ) × (contains ns n ≡ true) × In e (outside edges (at n))

module _ (imaginary : GraphEdge → Bool) (heap : ℕ → GraphNode) (edges : List GraphEdge)
    (e : GraphEdge) where
  later :
      (at : ℕ → List GraphEdge) (n : ℕ) (ns : List ℕ)
      → Leaves at edges ns e
      → Leaves at edges (n ∷ ns) e
  unfolding contains
  later at n ns h = (h.0, ground (arith, h.1), h.2)

  first_or_later :
      (at : ℕ → List GraphEdge) (n : ℕ) (ns : List ℕ)
      → Leaves at edges (n ∷ ns) e
      → In e (outside edges (at n)) ⊎ Leaves at edges ns e
  unfolding contains
  first_or_later at n ns (v, c, i) = elim (Bool-cases (n == v)) [
    | inl q ↦ inl (subst (λ z. In e (outside edges (at z))) (sym (same_node n v q)) i)
    | inr q ↦ inr (v, ground (arith, c, q), i)
  ]

  at_first :
      (at : ℕ → List GraphEdge) (n : ℕ) (ns : List ℕ)
      → In e (outside edges (at n))
      → Leaves at edges (n ∷ ns) e
  unfolding contains
  at_first at n ns i = (n, ground arith, i)

  get_entrances-Leaves :
      (ns : List ℕ)
      → In e (get_entrances imaginary heap edges ns)
        ↔ Leaves (λ n. (control_edges imaginary (heap n).predecessors)) edges ns e
  unfolding get_entrances contains
  get_entrances-Leaves [] = (λ m. absurd m, λ h. absurd (false-true {b = false} refl h.1))
  get_entrances-Leaves (n ∷ ns) =
      let at = λ (n : ℕ). (control_edges imaginary (heap n).predecessors) in
      let split = In-append e (outside edges (at n)) (get_entrances imaginary heap edges ns) in
      (
        λ m. elim (split.0 m) [
          | inl i ↦ at_first at n ns i
          | inr i ↦ later at n ns ((get_entrances-Leaves ns).0 i)
        ],
        λ h. split.1 (elim (first_or_later at n ns h) [
          | inl i ↦ inl i
          | inr l ↦ inr ((get_entrances-Leaves ns).1 l)
        ]),
      )

  get_exits-Leaves :
      (ns : List ℕ)
      → In e (get_exits imaginary heap edges ns)
        ↔ Leaves (λ n. (control_edges imaginary (heap n).successors)) edges ns e
  unfolding get_exits contains
  get_exits-Leaves [] = (λ m. absurd m, λ h. absurd (false-true {b = false} refl h.1))
  get_exits-Leaves (n ∷ ns) =
      let at = λ (n : ℕ). (control_edges imaginary (heap n).successors) in
      let split = In-append e (outside edges (at n)) (get_exits imaginary heap edges ns) in
      (
        λ m. elim (split.0 m) [
          | inl i ↦ at_first at n ns i
          | inr i ↦ later at n ns ((get_exits-Leaves ns).0 i)
        ],
        λ h. split.1 (elim (first_or_later at n ns h) [
          | inl i ↦ inl i
          | inr l ↦ inr ((get_exits-Leaves ns).1 l)
        ]),
      )

  -- Where the subgraph has all edges of the graph between its nodes, but for imaginary ones, its
  -- entrances are exactly the edges into one of its nodes, as that node has it, that come from a node
  -- outside, and its exits are exactly the edges out of one of its nodes that go to a node outside,
  -- without the imaginary edges in both cases.
  pub get_entrances_iff :
      (subgraph : List ℕ)
      → IsInduced imaginary heap edges subgraph
      → (In e (get_entrances imaginary heap edges subgraph) ↔ (
          (contains subgraph e.snk ≡ true)
          × In e (control_edges imaginary (heap e.snk).predecessors)
          × (contains subgraph e.src ≡ false)))
        × (In e (get_exits imaginary heap edges subgraph) ↔ (
            (contains subgraph e.src ≡ true)
            × In e (control_edges imaginary (heap e.src).successors)
            × (contains subgraph e.snk ≡ false)))
  get_entrances_iff subgraph h = (
    (
      λ m.
          let (n, c, i) = (get_entrances-Leaves subgraph).0 m in
          let (j, o) = (In-outside edges e (control_edges imaginary (heap n).predecessors)).0 i in
          let (s, b) = h.predecessors n e c j in
          (
            subst (λ z. contains subgraph z ≡ true) (sym s) c,
            subst (λ z. In e (control_edges imaginary (heap z).predecessors)) (sym s) j,
            sym b ∙ o,
          ),
      λ p. (get_entrances-Leaves subgraph).1 (
        e.snk,
        p.0,
        (In-outside edges e (control_edges imaginary (heap e.snk).predecessors)).1
            (p.1, (h.predecessors e.snk e p.0 p.1).1 ∙ p.2),
      ),
    ),
    (
      λ m.
          let (n, c, i) = (get_exits-Leaves subgraph).0 m in
          let (j, o) = (In-outside edges e (control_edges imaginary (heap n).successors)).0 i in
          let (s, b) = h.successors n e c j in
          (
            subst (λ z. contains subgraph z ≡ true) (sym s) c,
            subst (λ z. In e (control_edges imaginary (heap z).successors)) (sym s) j,
            sym b ∙ o,
          ),
      λ p. (get_exits-Leaves subgraph).1 (
        e.src,
        p.0,
        (In-outside edges e (control_edges imaginary (heap e.src).successors)).1
            (p.1, (h.successors e.src e p.0 p.1).1 ∙ p.2),
      ),
    ),
  )
