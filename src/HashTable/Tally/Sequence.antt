-- ===== src/HashTable/Tally/Sequence.antt =====
-- A sequence of events, pushed to a table that was empty (pushTasks of
-- Profile/Backend/ThreadSafe/Task.cpp, for the events of one kind).
use cyclebite.Base.{
  ℕ, suc, ◌+◌, ◌-◌, ◌≤◌, ◌<◌, ◌%◌, ◌^◌, Bool, true, false, List, [], ◌∷◌, ◌++◌, none, some, ◌==◌,
  count, ◌≡◌, refl, arith, inl, inr, ap, ◌∙◌, sym, subst, count-append, Option-cases,
}
use cyclebite.HashTable.{
  Element, Table, tuple_size, index, same_blocks, tuple_lookup, enter, more_frequent, empty_table,
}
use cyclebite.HashTable.Bucket.{home, index-same_blocks, tuple_lookup-same}
use cyclebite.HashTable.Placement.{IsTable, entered}
use cyclebite.HashTable.Resolve.{Fits, empty-IsTable}
use cyclebite.HashTable.Push.{push, push-IsTable, Same}
use cyclebite.HashTable.Tally.{
  any, is_found, frequency, first_times, next, first_times_old, first_times_new, distinct,
  more_frequent-KeepsBlocks, push_each, frequency-entered, found-entered, count_new, count_old,
  Counted,
}

module _ (fresh : Element → Element) (same : (k : Element) → same_blocks k (fresh k) ≡ true)
    (one : (k : Element) → (fresh k).frequency ≡ 1) where
  -- What the induction over the events carries.
  record Known (known : Element → Bool) (t : Table) (es ks : List Element) : Type 0 where
    table : IsTable t es
    small : t.size ≤ 31
    agrees : (q : Element) → known q ≡ is_found (tuple_lookup es q)
    room : (i : ℕ) → count (home 31 i) es + count (home 31 i) (first_times known ks) ≤ tuple_size
    bounded : (q : Element) → frequency (tuple_lookup es q) < 2 ^ 64

  push_each_then :
      (t t' : Table) (k : Element) (ks : List Element)
      → push (32 - t.size) (λ t. enter more_frequent (fresh k) t k) t ≡ some t'
      → push_each fresh t (k ∷ ks) ≡ push_each fresh t' ks
  unfolding push_each
  push_each_then t t' k ks e = rw e refl

  fuel : (n : ℕ) → n ≤ 31 → 32 - n ≡ suc (31 - n)
  fuel n l = omega (arith, l)

  Fits-first :
      (known : Element → Bool) (t : Table) (es ks : List Element) (k : Element)
      → Known known t es (k ∷ ks)
      → tuple_lookup es k ≡ none
      → Fits 31 (es ++ fresh k ∷ [])
  Fits-first known t es ks k h new i =
      let unknown : known k ≡ false = h.agrees k ∙ ap is_found new in
      ground (
        arith,
        h.room i,
        unknown,
        count-append (home 31 i) es (fresh k ∷ []),
        index-same_blocks 31 k (fresh k) (same k),
      )

  pushed_once :
      (known : Element → Bool) (t : Table) (es ks : List Element) (k : Element)
      → Known known t es (k ∷ ks)
      → (t' : Table) × (push (32 - t.size) (λ t. enter more_frequent (fresh k) t k) t ≡ some t')
        × (t'.size ≤ 31)
        × ((ds : List Element) × IsTable t' (entered more_frequent (fresh k) k ds) × Same ds es)
  pushed_once known t es ks k h =
      subst
        (λ n.
          (t' : Table) × (push n (λ t. enter more_frequent (fresh k) t k) t ≡ some t')
          × (t'.size ≤ 31)
          × ((ds : List Element) × IsTable t' (entered more_frequent (fresh k) k ds) × Same ds es))
        (sym (fuel t.size h.small))
        (push-IsTable more_frequent (fresh k) k (more_frequent-KeepsBlocks k) (same k) 31
          (31 - t.size) t es h.table (omega (arith, h.small)) (omega arith)
          (Fits-first known t es ks k h))

  frequency_next :
      (known : Element → Bool) (t : Table) (es ds ks : List Element) (k : Element)
      → Known known t es (k ∷ ks)
      → Same ds es
      → (q : Element)
      → frequency (tuple_lookup (entered more_frequent (fresh k) k ds) q)
        ≡ (frequency (tuple_lookup es q) + count (same_blocks q) (k ∷ [])) % 2 ^ 64
  frequency_next known t es ds ks k h like q =
      subst
        (λ o.
          frequency (tuple_lookup (entered more_frequent (fresh k) k ds) q)
          ≡ (frequency o + count (same_blocks q) (k ∷ [])) % 2 ^ 64)
        (like.0 q)
        (frequency-entered fresh same one k q ds
          (subst (λ o. frequency o < 2 ^ 64) (sym (like.0 q)) (h.bounded q)))

  Known-agrees :
      (known : Element → Bool) (t : Table) (es ds ks : List Element) (k : Element)
      → Known known t es (k ∷ ks)
      → Same ds es
      → (q : Element)
      → next known k q ≡ is_found (tuple_lookup (entered more_frequent (fresh k) k ds) q)
  Known-agrees known t es ds ks k h like q =
      let at_q = h.agrees q ∙ ap is_found (sym (like.0 q)) in
      let at_k = h.agrees k ∙ ap is_found (sym (like.0 k)) in
      ground (arith, found-entered fresh same one k q ds, at_q, at_k, tuple_lookup-same ds k q)

  -- What is counted in the table and in the events to come stays.
  Known-count :
      (p : Element → Bool) (known : Element → Bool) (t : Table) (es ds ks : List Element)
      (k : Element)
      → p (fresh k) ≡ p k
      → ((x : Element) → p (more_frequent x) ≡ p x)
      → Known known t es (k ∷ ks)
      → Same ds es
      → count p (entered more_frequent (fresh k) k ds) + count p (first_times (next known k) ks)
        ≡ count p es + count p (first_times known (k ∷ ks))
  Known-count p known t es ds ks k new_alike old_alike h like =
      let at_k = h.agrees k ∙ ap is_found (sym (like.0 k)) in
      elim (Option-cases (tuple_lookup ds k)) [
        | inl new ↦
            let unknown : known k ≡ false = at_k ∙ ap is_found new in
            ground (
              arith,
              count_new fresh same one p k ds new_alike new,
              like.1 p,
              ap (count p) (first_times_new known k ks unknown),
            )
        | inr (e, old) ↦
            let is_known : known k ≡ true = at_k ∙ ap is_found old in
            ground (
              arith,
              count_old fresh same one p k e ds old_alike old,
              like.1 p,
              ap (count p) (first_times_old known k ks is_known),
            )
      ]

  Known-room :
      (known : Element → Bool) (t : Table) (es ds ks : List Element) (k : Element)
      → Known known t es (k ∷ ks)
      → Same ds es
      → (i : ℕ)
      → count (home 31 i) (entered more_frequent (fresh k) k ds)
          + count (home 31 i) (first_times (next known k) ks)
        ≤ tuple_size
  unfolding index
  Known-room known t es ds ks k h like i = omega (
    arith,
    h.room i,
    Known-count (home 31 i) known t es ds ks k
        (ap (λ j. j == i) (index-same_blocks 31 k (fresh k) (same k))) (λ x. refl) h like,
  )

  next_count :
      (q k : Element) (ks : List Element) (n l : ℕ)
      → n ≡ (l + count (same_blocks q) (k ∷ [])) % 2 ^ 64
      → (n + count (same_blocks q) ks) % 2 ^ 64 ≡ (l + count (same_blocks q) (k ∷ ks)) % 2 ^ 64
  next_count q k ks n l h = ground (arith, h)

  Known-next :
      (known : Element → Bool) (t t' : Table) (es ds ks : List Element) (k : Element)
      → Known known t es (k ∷ ks)
      → t'.size ≤ 31
      → IsTable t' (entered more_frequent (fresh k) k ds)
      → Same ds es
      → Known (next known k) t' (entered more_frequent (fresh k) k ds) ks
  Known-next known t t' es ds ks k h small table like = record {
    table = table;
    small = small;
    agrees = Known-agrees known t es ds ks k h like;
    room = Known-room known t es ds ks k h like;
    bounded = λ q. omega (arith, frequency_next known t es ds ks k h like q);
  }

  push_each_from :
      (ks : List Element) (known : Element → Bool) (t : Table) (es : List Element)
      → Known known t es ks
      → Counted fresh same one known t es ks
  unfolding push_each
  push_each_from [] known t es h =
      (t, refl, (es, h.table, omega arith, λ q. ground (arith, h.bounded q)))
  push_each_from (k ∷ ks) known t es h =
      let (t₁, p, small, (ds, table, like)) = pushed_once known t es ks k h in
      let (t', ps, (ds', h', total, counts)) =
        push_each_from ks (next known k) t₁ (entered more_frequent (fresh k) k ds)
          (Known-next known t t₁ es ds ks k h small table like) in
      (
        t',
        push_each_then t t₁ k ks p ∙ ps,
        (
          ds',
          h',
          total ∙ Known-count any known t es ds ks k refl (λ x. refl) h like,
          λ q. counts q ∙ next_count q k ks _ _ (frequency_next known t es ds ks k h like q),
        ),
      )

  -- A table that was empty.
  pub push_each-counts :
      (n : ℕ) (ks : List Element)
      → n ≤ 31
      → Fits 31 (distinct ks)
      → (t : Table) × (push_each fresh (empty_table n) ks ≡ some t)
        × ((ds : List Element) × IsTable t ds
            × (count any ds ≡ count any (distinct ks))
            × ((q : Element) → frequency (tuple_lookup ds q) ≡ count (same_blocks q) ks % 2 ^ 64))
  unfolding tuple_lookup
  push_each-counts n ks l fits =
      let (t, e, (ds, h, total, c)) =
        push_each_from ks (λ _. false) (empty_table n) []
          (record {
            table = empty-IsTable n l;
            small = l;
            agrees = λ q. refl;
            room = λ i. omega (arith, fits i);
            bounded = λ q. omega arith;
          }) in
      (t, e, (ds, h, omega (arith, total), λ q. ground (arith, c q)))
