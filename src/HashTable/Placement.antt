-- ===== src/HashTable/Placement.antt =====
-- Where the elements of a table are: each in the bucket that its blocks hash to, in the order in
-- which they came, and no two with the same blocks.
pub mod Enter
use cyclebite.Base.{
  ℕ, zero, suc, ◌+◌, ◌≤◌, ◌<◌, ◌%◌, ◌^◌, Bool, true, false, List, [], ◌∷◌, ◌++◌, Option, none, some,
  ◌==◌, if◌then◌else◌, length, count, filter, ◌≡◌, refl, arith, Bool-cases, inl, inr, ap, ◌∙◌, sym,
  ◌⊎◌, filter-append, length-filter, length-append, count-append, Option-cases, subst, count-le,
}
use native.Mathlib.Nat.{pow-le-pow_right}
use mathlib.Core.List.{append-nil}
use cyclebite.HashTable.{
  Element, Table, full_size, tuple_size, index, same_blocks, tuple_lookup, change, store, enter,
  array_lookup, read,
}
use cyclebite.HashTable.Bucket.{
  home, KeepsBlocks, tuple_lookup-here, change-here, change-elsewhere, count-change,
  tuple_lookup-eq-none, length-change, tuple_lookup-same, tuple_lookup-append, tuple_lookup-change,
  same_blocks_left, index-same_blocks, same_blocks_sym,
}

pub full_size-eq : (t : Table) → t.size ≤ 31 → full_size t ≡ 2 ^ t.size
full_size-eq t l =
    let low : 2 ^ t.size ≤ 2 ^ 31 = pow-le-pow_right (omega arith) l in omega (arith, low)

-- The size is one that the shift is defined for.
pub record IsTable (t : Table) (es : List Element) : Type 0 where
  pub small : t.size ≤ 31
  pub placed : (i : ℕ) → t.array i ≡ filter (home t.size i) es
  pub distinct : (k : Element) → count (same_blocks k) es ≤ 1
  pub fits : (i : ℕ) → length (t.array i) ≤ tuple_size

pub read-IsTable :
    (t : Table) (es : List Element) (k : Element) → IsTable t es → read t k ≡ tuple_lookup es k
unfolding read
read-IsTable t es k h =
    rw (h.placed (index t.size k)) (tuple_lookup-here t.size (index t.size k) k es refl)

-- What a table of the elements `es` holds after `enter`.
abbrev pub entered : (Element → Element) → Element → Element → List Element → List Element
entered f fresh b es = elim (tuple_lookup es b) [ none ↦ es ++ fresh ∷ [] | some _ ↦ change f b es ]

module _ (f : Element → Element) (fresh b : Element) (es : List Element) where
  pub entered_new : tuple_lookup es b ≡ none → entered f fresh b es ≡ es ++ fresh ∷ []
  entered_new q = rw (q, entered) refl

  pub entered_found :
      (e : Element) → tuple_lookup es b ≡ some e → entered f fresh b es ≡ change f b es
  entered_found e q = rw (q, entered) refl

  appended :
      KeepsBlocks f b
      → same_blocks b fresh ≡ true
      → (q : Element) → tuple_lookup es b ≡ none
      → elim (tuple_lookup es q) [ none ↦ tuple_lookup (fresh ∷ []) q | some e ↦ some e ]
        ≡ (if same_blocks b q then some fresh else tuple_lookup es q)
  unfolding tuple_lookup
  appended keeps same q new = ground (
    arith,
    tuple_lookup-same es b q,
    new,
    same,
    same_blocks_left b q fresh,
    same_blocks_left fresh q b,
    same_blocks_sym q fresh,
    same_blocks_sym fresh b,
    same_blocks_sym b q,
  )

  -- The abstract map of the elements, before and after.
  pub tuple_lookup-entered :
      KeepsBlocks f b
      → same_blocks b fresh ≡ true
      → (q : Element)
      → tuple_lookup (entered f fresh b es) q ≡ (
          if same_blocks b q
          then some (elim (tuple_lookup es b) [ none ↦ fresh | some e ↦ f e ])
          else tuple_lookup es q)
  tuple_lookup-entered keeps same q = elim (Option-cases (tuple_lookup es b)) [
    | inl new ↦
        ap (λ ds. tuple_lookup ds q) (entered_new new)
        ∙ tuple_lookup-append es (fresh ∷ []) q
        ∙ rw new (appended keeps same q new)
    | inr (e, old) ↦
        ap (λ ds. tuple_lookup ds q) (entered_found e old)
        ∙ tuple_lookup-change f b keeps q es
        ∙ rw old refl
  ]
