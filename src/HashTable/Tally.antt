-- ===== src/HashTable/Tally.antt =====
-- A sequence of events that are pushed to a table: the table counts them. The code is that of
-- Profile/Backend/ThreadSafe/Task.cpp and Profile/Backend/HashTable/DashHashTable.c.
pub mod Sequence
use cyclebite.Base.{
  ℕ, zero, suc, ◌+◌, ◌-◌, ◌≤◌, ◌<◌, ◌%◌, ◌^◌, Bool, true, false, ◌||◌, List, [], ◌∷◌, ◌++◌, Option,
  none, some, ◌>>=◌, ◌==◌, if◌then◌else◌, length, count, ◌≡◌, refl, arith, inl, inr, ap, ◌∙◌, sym,
  subst, count-append, >>=-eq-some, Option-cases, Bool-cases,
}
use cyclebite.HashTable.{
  Element, Table, tuple_size, index, same_blocks, tuple_lookup, change, enter, more_frequent,
  empty_table,
}
use cyclebite.HashTable.Bucket.{
  home, KeepsBlocks, index-same_blocks, tuple_lookup-same, tuple_lookup-change, tuple_lookup-append,
  count-change, same_blocks_refl, same_blocks_left, same_blocks_sym,
}
use cyclebite.HashTable.Placement.{
  IsTable, entered, entered_new, entered_found, tuple_lookup-entered,
}
use cyclebite.HashTable.Resolve.{Fits, empty-IsTable}
use cyclebite.HashTable.Push.{push, push-IsTable, Same}

-- A test that every element passes.
abbrev pub any : Element → Bool
any e = true

abbrev pub is_found : Option Element → Bool
is_found none = false
is_found (some e) = true

abbrev pub frequency : Option Element → ℕ
frequency none = 0
frequency (some e) = e.frequency

-- The keys that are not known, each once.
abbrev pub first_times : (Element → Bool) → List Element → List Element
first_times known [] = []
first_times known (k ∷ ks) =
    let rest = first_times (λ q. known q || same_blocks k q) ks in
    if known k then first_times known ks else k ∷ rest

abbrev pub next : (Element → Bool) → Element → Element → Bool
next known k q = if known k then known q else known q || same_blocks k q

pub first_times_old :
    (known : Element → Bool) (k : Element) (ks : List Element)
    → known k ≡ true
    → first_times known (k ∷ ks) ≡ first_times (next known k) ks
first_times_old known k ks e = rw (e, next) refl

pub first_times_new :
    (known : Element → Bool) (k : Element) (ks : List Element)
    → known k ≡ false
    → first_times known (k ∷ ks) ≡ k ∷ first_times (next known k) ks
first_times_new known k ks e = rw (e, next) refl

abbrev pub distinct : List Element → List Element
distinct ks = first_times (λ _. false) ks

pub more_frequent-KeepsBlocks : (k : Element) → KeepsBlocks more_frequent k
unfolding same_blocks
more_frequent-KeepsBlocks k e h = h

-- An event makes the element `fresh`, if there is none with its blocks. The fuel is the number of
-- sizes that are left: a table has at most 2 ^ 31 buckets.
unfoldable pub push_each : (Element → Element) → Table → List Element → Option Table
unfolding push
push_each fresh t [] = some t
push_each fresh t (k ∷ ks) =
    push (32 - t.size) (λ t. enter more_frequent (fresh k) t k) t >>= λ t'. push_each fresh t' ks

module _ (fresh : Element → Element) (same : (k : Element) → same_blocks k (fresh k) ≡ true)
    (one : (k : Element) → (fresh k).frequency ≡ 1) where
  pub frequency-entered :
      (k q : Element) (es : List Element)
      → frequency (tuple_lookup es q) < 2 ^ 64
      → frequency (tuple_lookup (entered more_frequent (fresh k) k es) q)
        ≡ (frequency (tuple_lookup es q) + count (same_blocks q) (k ∷ [])) % 2 ^ 64
  frequency-entered k q es l =
      ap frequency
        (tuple_lookup-entered more_frequent (fresh k) k es (more_frequent-KeepsBlocks k) (same k) q)
      ∙ (elim (Option-cases (tuple_lookup es k)) [
        | inl new ↦
            rw new (ground (arith, new, tuple_lookup-same es k q, one k, same_blocks_sym k q, l))
        | inr (e, old) ↦
            rw old (ground (arith, old, tuple_lookup-same es k q, same_blocks_sym k q, l))
      ])

  pub found-entered :
      (k q : Element) (es : List Element)
      → is_found (tuple_lookup (entered more_frequent (fresh k) k es) q)
        ≡ (is_found (tuple_lookup es q) || same_blocks k q)
  found-entered k q es =
      ap is_found
        (tuple_lookup-entered more_frequent (fresh k) k es (more_frequent-KeepsBlocks k) (same k) q)
      ∙ ground arith

  pub count_new :
      (p : Element → Bool) (k : Element) (es : List Element)
      → p (fresh k) ≡ p k
      → tuple_lookup es k ≡ none
      → count p (entered more_frequent (fresh k) k es) ≡ count p es + count p (k ∷ [])
  count_new p k es alike new =
      ap (count p) (entered_new more_frequent (fresh k) k es new)
      ∙ count-append p es (fresh k ∷ [])
      ∙ ground (arith, alike)

  pub count_old :
      (p : Element → Bool) (k e : Element) (es : List Element)
      → ((x : Element) → p (more_frequent x) ≡ p x)
      → tuple_lookup es k ≡ some e
      → count p (entered more_frequent (fresh k) k es) ≡ count p es
  count_old p k e es alike old =
      ap (count p) (entered_found more_frequent (fresh k) k es e old)
      ∙ count-change more_frequent k (more_frequent-KeepsBlocks k) p (λ x s. alike x) es

  -- The table counted the events `ks`.
  abbrev pub Counted : (Element → Bool) → Table → List Element → List Element → Type 0
  Counted known t es ks =
      (t' : Table) × (push_each fresh t ks ≡ some t')
      × ((ds : List Element) × IsTable t' ds
          × (count any ds ≡ count any es + count any (first_times known ks))
          × ((q : Element)
              → frequency (tuple_lookup ds q)
                ≡ (frequency (tuple_lookup es q) + count (same_blocks q) ks) % 2 ^ 64))

some_both :
    {A B : Type 0} (o : Option A) (f : A → Option B) (b : B)
    → (o >>= f) ≡ some b
    → (a : A) × (o ≡ some a) × (f a ≡ some b)
some_both none f b h = cc
some_both (some a) f b h = (a, refl, h)

pub push_each-first :
    (fresh : Element → Element) (t t' : Table) (k : Element) (ks : List Element)
    → push_each fresh t (k ∷ ks) ≡ some t'
    → (t₁ : Table) × (push (32 - t.size) (λ t. enter more_frequent (fresh k) t k) t ≡ some t₁)
      × (push_each fresh t₁ ks ≡ some t')
unfolding push_each
push_each-first fresh t t' k ks h =
    some_both (push (32 - t.size) (λ t. enter more_frequent (fresh k) t k) t)
      (λ t₁. push_each fresh t₁ ks) t' h
