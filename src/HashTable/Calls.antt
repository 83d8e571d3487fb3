-- ===== src/HashTable/Calls.antt =====
-- The calls of a table, read back by HashTable_read (Profile/Backend/HashTable/DashHashTable.c).
use cyclebite.Base.{
  ◌<◌, ◌+◌, true, List, Option, none, some, if◌then◌else◌, length, ◌≡◌, refl, sym, ◌∙◌, inl, inr,
  ◌⊎◌, subst,
}
use cyclebite.HashTable.{
  Element, Table, tuple_size, same_blocks, enter, more_frequent, read, write, increment,
  increment_label, resolve_clash, array_lookup,
}
use cyclebite.HashTable.Bucket.{KeepsBlocks, same_blocks_refl}
use cyclebite.HashTable.Placement.{IsTable, read-IsTable, entered, tuple_lookup-entered}
use cyclebite.HashTable.Placement.Enter.{enter-cases}
use cyclebite.HashTable.Push.{resolve_clash-Same}

-- The table is well formed: it is one of some list of elements, with at most 2 ^ 31 buckets.
abbrev pub IsWellFormed : Table → Type 0
IsWellFormed t = (es : List Element) × IsTable t es

-- A call that leaves the element `v` at the blocks of `b` and the others as they were, or one that
-- finds the bucket full and the element missing, and leaves the table.
abbrev pub Updates : Table → Element → Element → Option Table → Type 0
Updates t b v r =
    ((t' : Table) × (r ≡ some t')
      × (t'.size ≡ t.size)
      × IsWellFormed t'
      × ((q : Element) → read t' q ≡ (if same_blocks b q then some v else read t q)))
    ⊎ ((r ≡ none) × (read t b ≡ none) × (length (array_lookup t b) ≡ tuple_size))

abbrev pub made_or : (Element → Element) → Element → Option Element → Element
made_or f fresh none = fresh
made_or f fresh (some e) = f e

always : (b : Element) (o : Option Element) → made_or (λ _. b) b o ≡ b
always b none = refl
always b (some e) = refl

enter-Updates :
    (f : Element → Element) (fresh : Element) (t : Table) (b : Element) (es : List Element)
    → IsTable t es
    → KeepsBlocks f b
    → same_blocks b fresh ≡ true
    → Updates t b (made_or f fresh (read t b)) (enter f fresh t b)
enter-Updates f fresh t b es h keeps same = elim (enter-cases f fresh t b es h keeps same) [
  | inl (t', e, h', s) ↦ inl (
    t',
    e,
    s,
    (entered f fresh b es, h'),
    λ q.
        read-IsTable t' (entered f fresh b es) q h'
        ∙ tuple_lookup-entered f fresh b es keeps same q
        ∙ rw (read-IsTable t es b h) (rw (read-IsTable t es q h) refl),
  )
  | inr (e, new, full) ↦ inr (e, read-IsTable t es b h ∙ new, full)
]

more_frequent-KeepsBlocks : (b : Element) → KeepsBlocks more_frequent b
unfolding same_blocks
more_frequent-KeepsBlocks b e h = h

-- In a well-formed table, of at most 2 ^ 31 buckets, HashTable_write leaves the element at its blocks; HashTable_increment and
-- HashTable_increment_label add 1 to the frequency of the element with these blocks, whose label
-- stays, or make one with the frequency 1, and the label of the event for the latter call. Every
-- other element reads as before, the size stays, and the table is again well formed: at most 15
-- elements in a bucket, each where its blocks hash to, no two with the same blocks. The one other
-- result is 1, when 15 other elements fill the bucket and there is none with these blocks.
pub calls-Updates :
    (t : Table) (b : Element)
    → IsWellFormed t
    → Updates t b b (write t b)
      × Updates t b
          (made_or more_frequent
            (record { source = b.source; sink = b.sink; frequency = 1; label = 0 })
            (read t b))
          (increment t b)
      × Updates t b
          (made_or more_frequent
            (record { source = b.source; sink = b.sink; frequency = 1; label = b.label })
            (read t b))
          (increment_label t b)
unfolding write increment increment_label same_blocks
calls-Updates t b (es, h) = (
  subst (λ v. Updates t b v (write t b)) (always b (read t b))
      (enter-Updates (λ _. b) b t b es h (λ e s. same_blocks_refl b) (same_blocks_refl b)),
  enter-Updates more_frequent
      (record { source = b.source; sink = b.sink; frequency = 1; label = 0 }) t b es h
      (more_frequent-KeepsBlocks b) (same_blocks_refl b),
  enter-Updates more_frequent
      (record { source = b.source; sink = b.sink; frequency = 1; label = b.label }) t b es h
      (more_frequent-KeepsBlocks b) (same_blocks_refl b),
)

-- Resolving a clash in a well-formed table of less than 2 ^ 31 buckets by the next size never
-- meets a clash of its own: it leaves a well-formed table with twice as many buckets, in which
-- every element reads as before.
pub resolve_clash-reads :
    (t : Table)
    → IsWellFormed t
    → t.size < 31
    → (t' : Table) × (resolve_clash t (t.size + 1) ≡ some t')
      × (t'.size ≡ t.size + 1)
      × IsWellFormed t'
      × ((q : Element) → read t' q ≡ read t q)
resolve_clash-reads t (es, h) small =
    let (t', r, s, (ds, h', like)) = resolve_clash-Same t es h small in
    (t', r, s, (ds, h'), λ q. read-IsTable t' ds q h' ∙ like.0 q ∙ sym (read-IsTable t es q h))
