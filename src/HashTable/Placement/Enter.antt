-- ===== src/HashTable/Placement/Enter.antt =====
-- The calls that write to a table (Profile/Backend/HashTable/DashHashTable.c) keep its elements in
-- place, and say when there is no room.
use cyclebite.Base.{
  ℕ, ◌≤◌, ◌<◌, true, false, List, [], ◌∷◌, ◌++◌, none, some, ◌==◌, if◌then◌else◌, length, count,
  filter, ◌≡◌, refl, arith, Bool-cases, inl, inr, ◌∙◌, sym, ◌⊎◌, filter-append, length-append,
  count-append, Option-cases, subst, count-le,
}
use mathlib.Core.List.{append-nil}
use cyclebite.HashTable.{
  Element, Table, tuple_size, index, same_blocks, tuple_lookup, change, store, enter, array_lookup,
}
use cyclebite.HashTable.Bucket.{
  home, KeepsBlocks, tuple_lookup-here, change-here, change-elsewhere, count-change,
  tuple_lookup-eq-none, length-change, same_blocks_left, index-same_blocks, same_blocks_sym,
}
use cyclebite.HashTable.Placement.{IsTable, entered, entered_new, entered_found}

module _ (f : Element → Element) (fresh : Element) (t : Table) (b : Element) (es : List Element)
    (h : IsTable t es) where
  enter_found :
      (e : Element)
      → tuple_lookup es b ≡ some e
      → enter f fresh t b ≡ some (store t (index t.size b) (change f b (array_lookup t b)))
  unfolding enter
  enter_found e q =
      let found : tuple_lookup (array_lookup t b) b ≡ some e =
        rw (h.placed (index t.size b)) (tuple_lookup-here t.size (index t.size b) b es refl ∙ q) in
      rw (found, enter) refl

  enter_new :
      tuple_lookup es b ≡ none
      → enter f fresh t b ≡ (
          if length (array_lookup t b) == tuple_size
          then none
          else some (store t (index t.size b) (array_lookup t b ++ fresh ∷ [])))
  unfolding enter
  enter_new q =
      let missing : tuple_lookup (array_lookup t b) b ≡ none =
        rw (h.placed (index t.size b)) (tuple_lookup-here t.size (index t.size b) b es refl ∙ q) in
      rw (missing, enter) refl

  changed_placed :
      KeepsBlocks f b
      → (i : ℕ)
      → (store t (index t.size b) (change f b (array_lookup t b))).array i
        ≡ filter (home t.size i) (change f b es)
  unfolding store
  changed_placed keeps i = elim (Bool-cases (i == index t.size b)) [
    | inl here ↦
        let q : i ≡ index t.size b = ground (arith, here) in
        rw here (
          rw (h.placed (index t.size b))
            (rw q (change-here f b keeps t.size (index t.size b) es refl)))
    | inr there ↦
        rw there (h.placed i ∙ sym (change-elsewhere f b keeps t.size i es (ground (arith, there))))
  ]

  new_placed :
      index t.size fresh ≡ index t.size b
      → (i : ℕ)
      → (store t (index t.size b) (array_lookup t b ++ fresh ∷ [])).array i
        ≡ filter (home t.size i) (es ++ fresh ∷ [])
  unfolding store
  new_placed same i = elim (Bool-cases (i == index t.size b)) [
    | inl here ↦
        let q : i ≡ index t.size b = ground (arith, here) in
        rw (filter-append (home t.size i) es (fresh ∷ []))
          (rw (h.placed (index t.size b)) (ground (arith, q, same)))
    | inr there ↦ rw there (
        rw (filter-append (home t.size i) es (fresh ∷ []))
          (h.placed i ∙ ground (arith, there, same, append-nil (filter (home t.size i) es))))
  ]

  keeps_count :
      KeepsBlocks f b
      → (k x : Element) → same_blocks b x ≡ true
      → same_blocks k (f x) ≡ same_blocks k x
  keeps_count keeps k x s =
      same_blocks_sym k (f x)
      ∙ sym (same_blocks_left b (f x) k (keeps x s))
      ∙ same_blocks_left b x k s
      ∙ same_blocks_sym x k

  new_distinct :
      tuple_lookup es b ≡ none
      → same_blocks b fresh ≡ true
      → (k : Element) → count (same_blocks k) (es ++ fresh ∷ []) ≤ 1
  new_distinct q same k = elim (Bool-cases (same_blocks k fresh)) [
    | inl s ↦
        let alike =
          count-le (same_blocks k) (same_blocks b)
            (λ x kx.
              ground (arith, kx, same_blocks_left k fresh x s, same_blocks_left b fresh x same))
            es in
        ground (
          arith,
          s,
          count-append (same_blocks k) es (fresh ∷ []),
          alike,
          tuple_lookup-eq-none es b q,
        )
    | inr s ↦ ground (arith, s, count-append (same_blocks k) es (fresh ∷ []), h.distinct k)
  ]

  abbrev pub Enters : List Element → Type 0
  Enters ds = (t' : Table) × (enter f fresh t b ≡ some t') × IsTable t' ds × (t'.size ≡ t.size)

  pub enter_found-IsTable :
      (e : Element) → tuple_lookup es b ≡ some e → KeepsBlocks f b → Enters (change f b es)
  unfolding store
  enter_found-IsTable e q keeps = (
    store t (index t.size b) (change f b (array_lookup t b)),
    enter_found e q,
    record {
      small = h.small;
      placed = changed_placed keeps;
      distinct = λ k.
          subst (λ n. n ≤ 1) (sym (count-change f b keeps (same_blocks k) (keeps_count keeps k) es))
            (h.distinct k);
      fits = λ i. elim (Bool-cases (i == index t.size b)) [
        | inl here ↦ rw here (
            subst (λ n. n ≤ tuple_size) (sym (length-change f b (array_lookup t b)))
              (h.fits (index t.size b)))
        | inr there ↦ rw there (h.fits i)
      ];
    },
    refl,
  )

  pub enter_new-IsTable :
      tuple_lookup es b ≡ none
      → length (array_lookup t b) < tuple_size
      → same_blocks b fresh ≡ true
      → Enters (es ++ fresh ∷ [])
  unfolding store
  enter_new-IsTable q room same =
      let there_is : (length (array_lookup t b) == tuple_size) ≡ false = ground (arith, room) in
      (
        store t (index t.size b) (array_lookup t b ++ fresh ∷ []),
        enter_new q ∙ rw there_is refl,
        record {
          small = h.small;
          placed = new_placed (index-same_blocks t.size b fresh same);
          distinct = new_distinct q same;
          fits = λ i. elim (Bool-cases (i == index t.size b)) [
            | inl here ↦
                rw here (omega (arith, room, length-append (array_lookup t b) (fresh ∷ [])))
            | inr there ↦ rw there (h.fits i)
          ];
        },
        refl,
      )

  pub enter_full :
      tuple_lookup es b ≡ none → length (array_lookup t b) ≡ tuple_size → enter f fresh t b ≡ none
  enter_full q full =
      let no_room : (length (array_lookup t b) == tuple_size) ≡ true = ground (arith, full) in
      enter_new q ∙ rw no_room refl

-- Where `enter` refuses: in a full bucket, an element that is new.
pub enter-cases :
    (f : Element → Element) (fresh : Element) (t : Table) (b : Element) (es : List Element)
    (h : IsTable t es)
    → KeepsBlocks f b
    → same_blocks b fresh ≡ true
    → Enters f fresh t b es h (entered f fresh b es)
      ⊎ ((enter f fresh t b ≡ none)
          × (tuple_lookup es b ≡ none)
          × (length (array_lookup t b) ≡ tuple_size))
enter-cases f fresh t b es h keeps same = elim (Option-cases (tuple_lookup es b)) [
  | inr (e, q) ↦ inl (
      subst (Enters f fresh t b es h) (sym (entered_found f fresh b es e q))
        (enter_found-IsTable f fresh t b es h e q keeps))
  | inl q ↦ elim (Bool-cases (length (array_lookup t b) == tuple_size)) [
    | inl full ↦
        let is_full : length (array_lookup t b) ≡ tuple_size = ground (arith, full) in
        inr (enter_full f fresh t b es h q is_full, q, is_full)
    | inr room ↦ inl (
        subst (Enters f fresh t b es h) (sym (entered_new f fresh b es q)) (
          enter_new-IsTable f fresh t b es h q (ground (arith, room, h.fits (index t.size b)))
            same))
  ]
]
