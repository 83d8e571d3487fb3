-- ===== src/HashTable/Bucket.antt =====
-- The elements of one bucket, and of all of them: lookup and change under the choice of a bucket.
use cyclebite.Base.{
  ℕ, Bool, true, List, [], ◌∷◌, ◌++◌, none, some, ◌==◌, if◌then◌else◌, length, count, filter, ◌≡◌,
  refl, arith,
}
use cyclebite.HashTable.{Element, index, same_blocks, tuple_lookup, change}

pub same_blocks_refl : (a : Element) → same_blocks a a ≡ true
unfolding same_blocks
same_blocks_refl a = ground arith

pub same_blocks_sym : (a b : Element) → same_blocks a b ≡ same_blocks b a
unfolding same_blocks
same_blocks_sym a b = ground arith

pub same_blocks_left :
    (a b c : Element) → same_blocks a b ≡ true → same_blocks a c ≡ same_blocks b c
unfolding same_blocks
same_blocks_left a b c h = ground arith

pub index-same_blocks : (n : ℕ) (a b : Element) → same_blocks a b ≡ true → index n b ≡ index n a
unfolding same_blocks index
index-same_blocks n a b h =
    let s : b.source ≡ a.source = ground (arith, h) in
    let k : b.sink ≡ a.sink = ground (arith, h) in rw s (rw k refl)

-- The elements whose home is the bucket `i` of a table of the size `n`.
abbrev pub home : ℕ → ℕ → Element → Bool
home n i e = index n e == i

module _ (n i : ℕ) (k : Element) where
  pub tuple_lookup-here :
      (es : List Element)
      → index n k ≡ i
      → tuple_lookup (filter (home n i) es) k ≡ tuple_lookup es k
  unfolding tuple_lookup
  tuple_lookup-here [] h = refl
  tuple_lookup-here (e ∷ es) h = ground (arith, tuple_lookup-here es, index-same_blocks n k e)

  pub tuple_lookup-elsewhere :
      (es : List Element) → ¬ (index n k ≡ i) → tuple_lookup (filter (home n i) es) k ≡ none
  unfolding tuple_lookup
  tuple_lookup-elsewhere [] h = refl
  tuple_lookup-elsewhere (e ∷ es) h =
      ground (arith, tuple_lookup-elsewhere es, index-same_blocks n k e)

-- A change that leaves the blocks of the element alone.
abbrev pub KeepsBlocks : (Element → Element) → Element → Type 0
KeepsBlocks f k = (e : Element) → same_blocks k e ≡ true → same_blocks k (f e) ≡ true

module _ (f : Element → Element) (k : Element) (keeps : KeepsBlocks f k) where
  module _ (n i : ℕ) where
    pub change-here :
        (es : List Element)
        → index n k ≡ i
        → change f k (filter (home n i) es) ≡ filter (home n i) (change f k es)
    unfolding change
    change-here [] h = refl
    change-here (e ∷ es) h =
        ground
          (arith, change-here es, index-same_blocks n k e, index-same_blocks n k (f e), keeps e)

    pub change-elsewhere :
        (es : List Element)
        → ¬ (index n k ≡ i)
        → filter (home n i) (change f k es) ≡ filter (home n i) es
    unfolding change
    change-elsewhere [] h = refl
    change-elsewhere (e ∷ es) h =
        ground (
          arith,
          change-elsewhere es,
          index-same_blocks n k e,
          index-same_blocks n k (f e),
          keeps e,
        )

  pub count-change :
      (p : Element → Bool)
      → ((e : Element) → same_blocks k e ≡ true → p (f e) ≡ p e)
      → (es : List Element) → count p (change f k es) ≡ count p es
  unfolding change
  count-change p same [] = refl
  count-change p same (e ∷ es) = ground (arith, count-change p same es, same e)

  pub tuple_lookup-change :
      (q : Element) (es : List Element)
      → tuple_lookup (change f k es) q ≡ (
          if same_blocks k q
          then elim (tuple_lookup es k) [ none ↦ none | some e ↦ some (f e) ]
          else tuple_lookup es q)
  unfolding tuple_lookup change
  tuple_lookup-change q [] = ground arith
  tuple_lookup-change q (e ∷ es) = ground (
    arith,
    tuple_lookup-change q es,
    keeps e,
    same_blocks_left k q e,
    same_blocks_left k q (f e),
    same_blocks_left q e k,
    same_blocks_left q (f e) k,
    same_blocks_sym q k,
    same_blocks_sym e k,
    same_blocks_sym (f e) k,
  )

pub length-change :
    (f : Element → Element) (k : Element) (es : List Element) → length (change f k es) ≡ length es
unfolding change
length-change f k [] = refl
length-change f k (e ∷ es) = ground (arith, length-change f k es)

pub tuple_lookup-same :
    (es : List Element) (k q : Element)
    → same_blocks k q ≡ true
    → tuple_lookup es q ≡ tuple_lookup es k
unfolding tuple_lookup
tuple_lookup-same [] k q h = refl
tuple_lookup-same (e ∷ es) k q h =
    ground (arith, tuple_lookup-same es k q h, same_blocks_left k q e h)

pub tuple_lookup-append :
    (es ds : List Element) (q : Element)
    → tuple_lookup (es ++ ds) q
      ≡ elim (tuple_lookup es q) [ none ↦ tuple_lookup ds q | some e ↦ some e ]
unfolding tuple_lookup
tuple_lookup-append [] ds q = refl
tuple_lookup-append (e ∷ es) ds q = ground (arith, tuple_lookup-append es ds q)

pub tuple_lookup-eq-none :
    (es : List Element) (k : Element) → tuple_lookup es k ≡ none → count (same_blocks k) es ≡ 0
unfolding tuple_lookup
tuple_lookup-eq-none [] k h = refl
tuple_lookup-eq-none (e ∷ es) k h = ground (arith, tuple_lookup-eq-none es k)

pub tuple_lookup-absent :
    (es : List Element) (k : Element) → count (same_blocks k) es ≡ 0 → tuple_lookup es k ≡ none
unfolding tuple_lookup
tuple_lookup-absent [] k h = refl
tuple_lookup-absent (e ∷ es) k h = ground (arith, tuple_lookup-absent es k)
