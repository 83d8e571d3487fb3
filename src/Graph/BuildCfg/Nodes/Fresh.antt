-- ===== src/Graph/BuildCfg/Nodes/Fresh.antt =====
-- A node that BuildCFG (Graph/IO.cpp) makes for blocks that have none yet: no weight changes.
use cyclebite.Base.{
  ℕ, ◌+◌, ◌<◌, true, false, List, [], none, some, ◌==◌, ◌⊎◌, All, ◌≡◌, refl, sym, ap, ◌∙◌, subst,
  arith, inl, inr, Bool-cases, Option-cases, ltb,
}
use cyclebite.Graph.{GraphNode, is_predecessor_in}
use cyclebite.Graph.BuildCfg.{Cfg, same_list, find_nid, make_node}
use cyclebite.Graph.BuildCfg.Nodes.{
  same_list_iff, none_some, some_back, lt_irrefl, successors_of, IsCfg, arc_in, arc, weight,
  weight_nowhere, known_weight, weight_half, weight_at,
}

abbrev pub empty_node : GraphNode
empty_node = record { successors = []; predecessors = [] }

module _ (c : Cfg) (h : IsCfg c) (ids : List ℕ) (new : find_nid c.nid_map ids ≡ none) where
  pub find-here :
      (xs : List ℕ)
      → same_list ids xs ≡ true
      → find_nid (make_node c ids).nid_map xs ≡ some c.next_nid
  unfolding make_node find_nid
  find-here xs e = rw e refl

  pub find-there :
      (xs : List ℕ)
      → same_list ids xs ≡ false
      → find_nid (make_node c ids).nid_map xs ≡ find_nid c.nid_map xs
  unfolding make_node find_nid
  find-there xs e = rw e refl

  heap-old : (n : ℕ) → n < c.next_nid → (make_node c ids).heap n ≡ c.heap n
  unfolding make_node
  heap-old n l = let e : (n == c.next_nid) ≡ false = ground (arith, l) in rw e refl

  heap-new : (make_node c ids).heap c.next_nid ≡ empty_node
  unfolding make_node
  heap-new = let e : (c.next_nid == c.next_nid) ≡ true = ground arith in rw e refl

  arc-old : (n k : ℕ) → n < c.next_nid → arc (make_node c ids) n k ≡ arc c n k
  unfolding make_node
  arc-old n k l = ap (λ x. arc_in c.frequency x k) (heap-old n l)

  arc-from_new : (k : ℕ) → arc (make_node c ids) c.next_nid k ≡ none
  unfolding make_node is_predecessor_in
  arc-from_new k = ap (λ x. arc_in c.frequency x k) heap-new

  arc-to_new : (n : ℕ) → n < c.next_nid → arc c n c.next_nid ≡ none
  arc-to_new n l = elim (Option-cases (is_predecessor_in (successors_of c n) c.next_nid)) [
    | inl e ↦ rw e refl
    | inr (x, e) ↦ absurd (lt_irrefl (h.old_edge n c.next_nid x l e).1)
  ]

  weight_from :
      (xs ys : List ℕ) (n : ℕ)
      → same_list ids xs ≡ false
      → find_nid c.nid_map xs ≡ some n
      → weight (make_node c ids) xs ys ≡ weight c xs ys
  weight_from xs ys n other e =
      let l = h.old_node xs n e in
      let e' = find-there xs other ∙ e in
      elim (Bool-cases (same_list ids ys)) [
        | inl last ↦
            known_weight (make_node c ids) xs ys n c.next_nid e' (find-here ys last)
            ∙ arc-old n c.next_nid l
            ∙ arc-to_new n l
            ∙ sym (
                weight_half c xs ys n e
                  (subst (λ z. find_nid c.nid_map z ≡ none) (same_list_iff ids ys last) new))
        | inr there ↦ elim (Option-cases (find_nid c.nid_map ys)) [
          | inl z ↦
              weight_half (make_node c ids) xs ys n e' (find-there ys there ∙ z)
              ∙ sym (weight_half c xs ys n e z)
          | inr (k, z) ↦
              known_weight (make_node c ids) xs ys n k e' (find-there ys there ∙ z)
              ∙ arc-old n k l
              ∙ sym (known_weight c xs ys n k e z)
        ]
      ]

  pub weight-make_node : (xs ys : List ℕ) → weight (make_node c ids) xs ys ≡ weight c xs ys
  weight-make_node xs ys = elim (Bool-cases (same_list ids xs)) [
    | inl first ↦
        weight_at (make_node c ids) xs ys c.next_nid (find-here xs first) (arc-from_new)
        ∙ sym (
            weight_nowhere c xs ys
              (subst (λ z. find_nid c.nid_map z ≡ none) (same_list_iff ids xs first) new))
    | inr other ↦ elim (Option-cases (find_nid c.nid_map xs)) [
      | inl none_yet ↦
          weight_nowhere (make_node c ids) xs ys (find-there xs other ∙ none_yet)
          ∙ sym (weight_nowhere c xs ys none_yet)
      | inr (n, e) ↦ weight_from xs ys n other e
    ]
  ]

  found_cases :
      (xs : List ℕ) (n : ℕ)
      → find_nid (make_node c ids).nid_map xs ≡ some n
      → ((xs ≡ ids) × (n ≡ c.next_nid)) ⊎ (find_nid c.nid_map xs ≡ some n)
  found_cases xs n e = elim (Bool-cases (same_list ids xs)) [
    | inl here ↦ inl (sym (same_list_iff ids xs here), some_back (sym e ∙ find-here xs here))
    | inr there ↦ inr (sym (find-there xs there) ∙ e)
  ]

  make_node-apart :
      (xs ys : List ℕ) (n : ℕ)
      → find_nid (make_node c ids).nid_map xs ≡ some n
      → find_nid (make_node c ids).nid_map ys ≡ some n
      → xs ≡ ys
  make_node-apart xs ys n e z = elim (found_cases xs n e) [
    | inl (a, b) ↦ elim (found_cases ys n z) [
      | inl (d, f) ↦ a ∙ sym d
      | inr old ↦ absurd (ground (arith, b, h.old_node ys n old))
    ]
    | inr old ↦ elim (found_cases ys n z) [
      | inl (d, f) ↦ absurd (ground (arith, f, h.old_node xs n old))
      | inr old' ↦ h.apart xs ys n old old'
    ]
  ]

  pub next_is : (make_node c ids).next_nid ≡ c.next_nid + 1
  unfolding make_node
  next_is = refl

  eid_is : (make_node c ids).next_eid ≡ c.next_eid
  unfolding make_node
  eid_is = refl

  pub heap_cases :
      (n : ℕ)
      → n < (make_node c ids).next_nid
      → ((n < c.next_nid) × ((make_node c ids).heap n ≡ c.heap n))
        ⊎ ((n ≡ c.next_nid) × ((make_node c ids).heap n ≡ empty_node))
  heap_cases n l = elim (Bool-cases (ltb n c.next_nid)) [
    | inl old ↦ inl (ground (arith, old), heap-old n (ground (arith, old)))
    | inr fresh ↦
        let e : n ≡ c.next_nid = ground (arith, fresh, l, next_is) in
        inr (e, ap (make_node c ids).heap e ∙ heap-new)
  ]

  pub make_node-IsCfg : IsCfg (make_node c ids)
  unfolding is_predecessor_in
  make_node-IsCfg = record {
    old_node = λ xs n e. elim (found_cases xs n e) [
      | inl (a, b) ↦ omega (arith, b, next_is)
      | inr old ↦ omega (arith, h.old_node xs n old, next_is)
    ];
    apart = make_node-apart;
    sources = λ n l. elim (heap_cases n l) [
      | inl (old, e) ↦ subst (λ x. All (λ f. f.src ≡ n) x.successors) (sym e) (h.sources n old)
      | inr (fresh, e) ↦ subst (λ x. All (λ f. f.src ≡ n) x.successors) (sym e) tt
    ];
    old_edge = λ n k e l p. elim (heap_cases n l) [
      | inl (old, q) ↦
          let (a, b) =
            h.old_edge n k e old (subst (λ x. is_predecessor_in x.successors k ≡ some e) (q) p) in
          (omega (arith, a, eid_is), omega (arith, b, next_is))
      | inr (fresh, q) ↦
          absurd (none_some (subst (λ x. is_predecessor_in x.successors k ≡ some e) (q) p))
    ];
  }
