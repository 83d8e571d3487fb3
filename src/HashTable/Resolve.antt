-- ===== src/HashTable/Resolve.antt =====
-- resolveClash: the elements of the buckets, in order, are those of the table, and the table that
-- they are moved to has room for them.
use cyclebite.Base.{
  ℕ, zero, suc, ◌+◌, ◌≤◌, ◌<◌, ◌%◌, ◌^◌, Bool, true, ◌&&◌, List, [], ◌∷◌, ◌++◌, none, some, ltb,
  if◌then◌else◌, length, count, filter, ◌≡◌, refl, arith, ap, ◌∙◌, sym, length-filter, count-append,
  subst, count-le, >>=-eq-some,
}
use native.Mathlib.Nat.{one-le-pow, mod-lt, mod-mod_of_dvd, dvd-mul_right, pow-suc}
use mathlib.Core.List.{append-nil, append_assoc}
use cyclebite.HashTable.{
  Element, Table, tuple_size, full_size, index, hash, hash_source, same_blocks, tuple_lookup, write,
  elements, move_all, resolve_clash, array_lookup, empty_table,
}
use cyclebite.HashTable.Bucket.{
  home, tuple_lookup-here, tuple_lookup-elsewhere, tuple_lookup-append, tuple_lookup-absent,
  same_blocks_refl,
}
use cyclebite.HashTable.Placement.{IsTable, full_size-eq}
use cyclebite.HashTable.Placement.Enter.{enter_new-IsTable}

pow_pos : (s : ℕ) → 0 < 2 ^ s
pow_pos s = one-le-pow s 2 (omega arith)

pub index-lt : (s : ℕ) (e : Element) → index s e < 2 ^ s
unfolding index hash_source
index-lt s e = mod-lt (hash (e.source ∷ e.sink ∷ [])) (pow_pos s)

pub index-double : (s : ℕ) (e : Element) → index (suc s) e % 2 ^ s ≡ index s e
unfolding index hash_source
index-double s e =
    mod-mod_of_dvd (2 ^ s) (hash (e.source ∷ e.sink ∷ []))
      (rw (pow-suc 2 s) (dvd-mul_right (2 ^ s) 2))

module _ (s : ℕ) (array : ℕ → List Element) (es : List Element)
    (placed : (i : ℕ) → array i ≡ filter (home s i) es) where
  count-home :
      (p : Element → Bool) (n : ℕ) (ds : List Element)
      → count (λ e. p e && ltb (index s e) n) ds + count p (filter (home s n) ds)
        ≡ count (λ e. p e && ltb (index s e) (suc n)) ds
  count-home p n [] = refl
  count-home p n (d ∷ ds) = ground (arith, count-home p n ds)

  count_nothing :
      (p : Element → Bool) (ds : List Element) → count (λ e. p e && ltb (index s e) 0) ds ≡ 0
  count_nothing p [] = refl
  count_nothing p (d ∷ ds) = ground (arith, count_nothing p ds)

  count-elements_below :
      (p : Element → Bool) (n : ℕ)
      → count p (elements n array) ≡ count (λ e. p e && ltb (index s e) n) es
  unfolding elements
  count-elements_below p zero = sym (count_nothing p es)
  count-elements_below p (suc n) = omega (
    arith,
    count-append p (elements n array) (array n),
    count-elements_below p n,
    count-home p n es,
    ap (count p) (placed n),
  )

  count_all :
      (p : Element → Bool) (ds : List Element)
      → count (λ e. p e && ltb (index s e) (2 ^ s)) ds ≡ count p ds
  count_all p [] = refl
  count_all p (d ∷ ds) = ground (arith, count_all p ds, index-lt s d)

  pub count-elements : (p : Element → Bool) → count p (elements (2 ^ s) array) ≡ count p es
  count-elements p = count-elements_below p (2 ^ s) ∙ count_all p es

  tuple_lookup-elements_below :
      (k : Element) (n : ℕ)
      → tuple_lookup (elements n array) k ≡ (if ltb (index s k) n then tuple_lookup es k else none)
  unfolding elements tuple_lookup
  tuple_lookup-elements_below k zero = ground arith
  tuple_lookup-elements_below k (suc n) = rw (tuple_lookup-append (elements n array) (array n) k) (
      rw (tuple_lookup-elements_below k n) (
        ground (
          arith,
          tuple_lookup-here s n k es,
          tuple_lookup-elsewhere s n k es,
          ap (λ ds. tuple_lookup ds k) (placed n),
        )))

  pub tuple_lookup-elements :
      (k : Element) → tuple_lookup (elements (2 ^ s) array) k ≡ tuple_lookup es k
  tuple_lookup-elements k = tuple_lookup-elements_below k (2 ^ s) ∙ ground (arith, index-lt s k)

-- The table has room for the elements `es` at the size `n`.
abbrev pub Fits : ℕ → List Element → Type 0
Fits n es = (i : ℕ) → count (home n i) es ≤ tuple_size

abbrev Moved : Table → List Element → List Element → Type 0
Moved t ds es =
    (t' : Table) × (move_all t es ≡ some t') × IsTable t' (ds ++ es) × (t'.size ≡ t.size)

count-before :
    (p : Element → Bool) (ds es : List Element) (e : Element)
    → p e ≡ true
    → count p ds < count p (ds ++ e ∷ es)
count-before p ds es e h = ground (arith, h, count-append p ds (e ∷ es))

move_all-IsTable :
    (es ds : List Element) (t : Table)
    → IsTable t ds
    → ((k : Element) → count (same_blocks k) (ds ++ es) ≤ 1)
    → Fits t.size (ds ++ es)
    → Moved t ds es
unfolding move_all write
move_all-IsTable [] ds t h distinct fits =
    (t, refl, subst (IsTable t) (sym (append-nil ds)) h, refl)
move_all-IsTable (e ∷ es) ds t h distinct fits =
    let new : tuple_lookup ds e ≡ none =
      tuple_lookup-absent ds e
        (omega (arith, distinct e, count-before (same_blocks e) ds es e (same_blocks_refl e))) in
    let room : length (array_lookup t e) < tuple_size = rw (h.placed (index t.size e)) (
      rw (length-filter (home t.size (index t.size e)) ds) (
        omega (
          arith,
          fits (index t.size e),
          count-before (home t.size (index t.size e)) ds es e (ground arith),
        ))) in
    let (t₁, w, h₁, s₁) = enter_new-IsTable (λ _. e) e t e ds h new room (same_blocks_refl e) in
    let bracket = append_assoc ds (e ∷ []) es in
    let (t', m, h', s') =
      move_all-IsTable es (ds ++ e ∷ []) t₁ h₁
        (λ k. subst (λ l. count (same_blocks k) l ≤ 1) (sym bracket) (distinct k))
        (subst (λ n. Fits n ((ds ++ e ∷ []) ++ es)) (sym s₁)
          (subst (Fits t.size) (sym bracket) fits)) in
    (t', >>=-eq-some (λ t'. move_all t' es) w m, subst (IsTable t') bracket h', s' ∙ s₁)

pub empty-IsTable : (n : ℕ) → n ≤ 31 → IsTable (empty_table n) []
empty-IsTable n l = record {
  small = l;
  placed = λ i. refl;
  distinct = λ k. omega arith;
  fits = λ i. omega arith;
}

home-eq : (n i : ℕ) (e : Element) → home n i e ≡ true → index n e ≡ i
home-eq n i e h = ground (arith, h)

-- The elements of a table, in the order of its buckets, and what a move to a table of the size `n`
-- leaves.
module _ (t : Table) (es : List Element) (h : IsTable t es) where
  pub count-elements_full :
      (p : Element → Bool) → count p (elements (full_size t) t.array) ≡ count p es
  count-elements_full p =
      ap (λ n. count p (elements n t.array)) (full_size-eq t h.small)
      ∙ count-elements t.size t.array es h.placed p

  pub tuple_lookup-elements_full :
      (k : Element) → tuple_lookup (elements (full_size t) t.array) k ≡ tuple_lookup es k
  tuple_lookup-elements_full k =
      ap (λ n. tuple_lookup (elements n t.array) k) (full_size-eq t h.small)
      ∙ tuple_lookup-elements t.size t.array es h.placed k

  pub resolve_clash-IsTable :
      (n : ℕ)
      → n ≤ 31
      → Fits n es
      → (t' : Table) × (resolve_clash t n ≡ some t')
        × IsTable t' (elements (full_size t) t.array)
        × (t'.size ≡ n)
  unfolding resolve_clash
  resolve_clash-IsTable n l fits =
      move_all-IsTable (elements (full_size t) t.array) [] (empty_table n) (empty-IsTable n l)
        (λ k. subst (λ c. c ≤ 1) (sym (count-elements_full (same_blocks k))) (h.distinct k))
        (λ i. subst (λ c. c ≤ tuple_size) (sym (count-elements_full (home n i))) (fits i))

  pub Fits-IsTable : Fits t.size es
  Fits-IsTable i = omega (arith, h.fits i, ap length (h.placed i), length-filter (home t.size i) es)

  pub Fits-double : Fits (suc t.size) es
  Fits-double i = omega (
    arith,
    Fits-IsTable (i % 2 ^ t.size),
    count-le (home (suc t.size) i) (home t.size (i % 2 ^ t.size))
        (λ e q.
          ground (
            arith,
            q,
            index-double t.size e,
            ap (λ j. j % 2 ^ t.size) (home-eq (suc t.size) i e q),
          ))
        es,
  )
