-- ===== src/Graph/BuildCfg/Weights.antt =====
-- The loop of BuildCFG (Graph/IO.cpp) over the edges of a file, by the weights between the nodes of
-- the blocks.
use cyclebite.Base.{
  ℕ, ◌+◌, ◌<◌, true, false, ◌&&◌, List, none, some, ◌>>=◌, ◌==◌, if◌then◌else◌, All, ◌≡◌, refl, sym,
  ap, ◌∙◌, subst, arith, inl, inr, Bool-cases, Option-cases,
}
use cyclebite.Base.StdSet
use cyclebite.Graph.{GraphEdge, ge_compare, is_predecessor_in, add_successor, add_predecessor}
use cyclebite.Graph.BuildCfg.{Cfg, same_list, find_nid, make_edge}
use cyclebite.Graph.BuildCfg.Nodes.{
  IsCfg, successors_of, arc, weight, weight_nowhere, known_weight, weight_half, same_list_iff,
  same_list_refl, is_predecessor_in-insert, All-insert, none_some, some_back,
}

not_both : true ≡ false → ⊥
not_both h = cc

module _ (c : Cfg) (h : IsCfg c) (from to : List ℕ) (n k freq : ℕ)
    (at_n : find_nid c.nid_map from ≡ some n) (at_k : find_nid c.nid_map to ≡ some k)
    (new : is_predecessor_in (successors_of c n) k ≡ none) where
  abbrev new_edge : GraphEdge
  new_edge = record { eid = c.next_eid; src = n; snk = k }

  successors-make_edge :
      (m : ℕ)
      → successors_of (make_edge c n k freq) m ≡ (
          if m == n
          then StdSet.insert ge_compare (successors_of c n) new_edge
          else successors_of c m)
  unfolding make_edge add_successor add_predecessor
  successors-make_edge m = ground arith

  pub successors-here :
      successors_of (make_edge c n k freq) n ≡ StdSet.insert ge_compare (successors_of c n) new_edge
  successors-here = ground (arith, successors-make_edge n)

  pub successors-there :
      (m : ℕ) → ¬ (m ≡ n) → successors_of (make_edge c n k freq) m ≡ successors_of c m
  successors-there m d = ground (arith, successors-make_edge m, d)

  edge_found :
      (m j : ℕ)
      → is_predecessor_in (successors_of (make_edge c n k freq) m) j
        ≡ (if m == n && k == j then some new_edge else is_predecessor_in (successors_of c m) j)
  edge_found m j = elim (Bool-cases (m == n)) [
    | inl here ↦
        let e : n ≡ m = ground (arith, here) in
        subst
          (λ z.
            is_predecessor_in (successors_of (make_edge c n k freq) z) j
            ≡ (if z == n && k == j then some new_edge else is_predecessor_in (successors_of c z) j))
          (e)
          (ap (λ es. is_predecessor_in es j) successors-here
            ∙ is_predecessor_in-insert (successors_of c n) new_edge j
                (h.sources n (h.old_node from n at_n)) new
            ∙ ground arith)
    | inr there ↦
        let d : ¬ (m ≡ n) = λ q. ground (arith, there, q) in
        ap (λ es. is_predecessor_in es j) (successors-there m d) ∙ rw there refl
  ]

  frequency-new : (make_edge c n k freq).frequency c.next_eid ≡ freq
  unfolding make_edge
  frequency-new = ground arith

  frequency-old : (i : ℕ) → i < c.next_eid → (make_edge c n k freq).frequency i ≡ c.frequency i
  unfolding make_edge
  frequency-old i l = ground (arith, l)

  nids-are : (make_edge c n k freq).nid_map ≡ c.nid_map
  unfolding make_edge
  nids-are = refl

  arc-make_edge :
      (m j : ℕ)
      → m < c.next_nid
      → arc (make_edge c n k freq) m j ≡ (if m == n && k == j then some freq else arc c m j)
  arc-make_edge m j l =
      ap (λ o. o >>= λ e. some ((make_edge c n k freq).frequency e.eid)) (edge_found m j)
      ∙ (elim (Bool-cases (m == n && k == j)) [
        | inl here ↦ rw here (ap some frequency-new)
        | inr there ↦ rw there (elim (Option-cases (is_predecessor_in (successors_of c m) j)) [
          | inl z ↦ rw z refl
          | inr (e, z) ↦ rw z (ap some (frequency-old e.eid (h.old_edge m j e l z).0))
        ])
      ])

  keys-agree :
      (xs : List ℕ) (m : ℕ) (ids : List ℕ) (i : ℕ)
      → find_nid c.nid_map xs ≡ some m
      → find_nid c.nid_map ids ≡ some i
      → (m == i) ≡ same_list ids xs
  keys-agree xs m ids i e z = elim (Bool-cases (same_list ids xs)) [
    | inl same ↦
        let q : m ≡ i =
          some_back (sym e ∙ ap (find_nid c.nid_map) (sym (same_list_iff ids xs same)) ∙ z) in
        ground (arith, q, same)
    | inr differ ↦ elim (Bool-cases (m == i)) [
      | inl here ↦
          let q : m ≡ i = ground (arith, here) in
          let r : ids ≡ xs = h.apart ids xs i z (e ∙ ap some q) in
          absurd
            (not_both (sym (subst (λ y. same_list ids y ≡ true) (r) (same_list_refl ids)) ∙ differ))
      | inr there ↦ there ∙ sym differ
    ]
  ]

  unlike :
      (xs ids : List ℕ) (i : ℕ)
      → find_nid c.nid_map xs ≡ none
      → find_nid c.nid_map ids ≡ some i
      → same_list ids xs ≡ false
  unlike xs ids i z e = elim (Bool-cases (same_list ids xs)) [
    | inl same ↦
        absurd (none_some (sym z ∙ ap (find_nid c.nid_map) (sym (same_list_iff ids xs same)) ∙ e))
    | inr differ ↦ differ
  ]

  pub weight-make_edge :
      (xs ys : List ℕ)
      → weight (make_edge c n k freq) xs ys
        ≡ (if same_list from xs && same_list to ys then some freq else weight c xs ys)
  unfolding make_edge
  weight-make_edge xs ys = elim (Option-cases (find_nid c.nid_map xs)) [
    | inl z ↦
        weight_nowhere (make_edge c n k freq) xs ys z
        ∙ ground (arith, unlike xs from n z at_n, weight_nowhere c xs ys z)
    | inr (m, e) ↦ elim (Option-cases (find_nid c.nid_map ys)) [
      | inl z ↦
          weight_half (make_edge c n k freq) xs ys m e z
          ∙ ground (arith, unlike ys to k z at_k, weight_half c xs ys m e z)
      | inr (j, z) ↦
          known_weight (make_edge c n k freq) xs ys m j e z
          ∙ arc-make_edge m j (h.old_node xs m e)
          ∙ ground (
            arith,
            keys-agree xs m from n e at_n,
            keys-agree ys j to k z at_k,
            known_weight c xs ys m j e z,
          )
    ]
  ]

  make_edge_sources :
      (m : ℕ) → m < c.next_nid → All (λ e. e.src ≡ m) (successors_of (make_edge c n k freq) m)
  make_edge_sources m l = elim (Bool-cases (m == n)) [
    | inl here ↦
        let e : n ≡ m = ground (arith, here) in
        subst (λ z. All (λ e. e.src ≡ z) (successors_of (make_edge c n k freq) z)) (e)
          (subst (All (λ e. e.src ≡ n)) (sym successors-here) (
            All-insert (λ e. e.src ≡ n) (successors_of c n) new_edge
              (h.sources n (h.old_node from n at_n)) refl))
    | inr there ↦
        let d : ¬ (m ≡ n) = λ q. ground (arith, there, q) in
        subst (All (λ e. e.src ≡ m)) (sym (successors-there m d)) (h.sources m l)
  ]

  make_edge_old :
      (m j : ℕ) (e : GraphEdge)
      → m < c.next_nid
      → is_predecessor_in (successors_of (make_edge c n k freq) m) j ≡ some e
      → (e.eid < c.next_eid + 1) × (j < c.next_nid)
  make_edge_old m j e l p = elim (Bool-cases (m == n && k == j)) [
    | inl here ↦
        let q : new_edge ≡ e = some_back (sym (edge_found m j ∙ rw here refl) ∙ p) in
        let i : e.eid ≡ c.next_eid = ap (λ x. x.eid) (sym q) in
        (omega (arith, i), ground (arith, here, h.old_node to k at_k))
    | inr there ↦
        let (a, b) = h.old_edge m j e l (sym (edge_found m j ∙ rw there refl) ∙ p) in
        (omega (arith, a), b)
  ]

  pub make_edge-IsCfg : IsCfg (make_edge c n k freq)
  unfolding make_edge
  make_edge-IsCfg = record {
    old_node = h.old_node;
    apart = h.apart;
    sources = make_edge_sources;
    old_edge = make_edge_old;
  }
