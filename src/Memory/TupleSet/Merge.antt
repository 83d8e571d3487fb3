-- ===== src/Memory/TupleSet/Merge.antt =====
-- merge_tuple_set ends, keeps the set ordered and disjoint, and adds exactly the new range.
use cyclebite.Base.{
  ℕ, zero, suc, ◌+◌, ◌≤◌, ◌<◌, ◌^◌, ◌≡◌, ◌↔◌, ◌⊎◌, inl, inr, refl, false, none, some, arith, All,
  length, Option-cases, All-at,
}
use cyclebite.Base.StdSet.{IsSorted}
use cyclebite.Base.StdSet.Laws.{
  find-some, find-none, erase-length-lt, All-erase, All-insert, IsSorted-erase, IsSorted-insert,
  Any-insert, Any-erase,
}
use cyclebite.Memory.Tuple.{MemTuple, mt_compare, Owns, Fits, Before}
use cyclebite.Memory.Tuple.Order.{mt_compare_irrefl, mt_compare-IsOrder, mt_compare-Before}
use cyclebite.Memory.Tuple.Ranges.{merge_tuples-range, merge_tuples-Owns}
use cyclebite.Memory.TupleSet.{
  TupleSet, find, insert, erase, observe, absorb, merge_loop, merge_tuple_set, Covers,
}

-- Each round erases a tuple of the set, so a round for each tuple and one more are enough.
merge_loop_ends :
    (fuel : ℕ) (array : TupleSet) (tuple new : MemTuple)
    → length array < fuel
    → (r : TupleSet) × (merge_loop fuel array tuple new ≡ some r)
unfolding merge_loop
merge_loop_ends zero array tuple new h = absurd (omega arith)
merge_loop_ends (suc fuel) array tuple new h = elim (Option-cases (find array new)) [
  | inl e ↦ (insert array new, rw (e, merge_loop) refl)
  | inr (x, e) ↦
      let found = find-some mt_compare array new x e in
      let shorter = erase-length-lt mt_compare array x (mt_compare_irrefl x) found.0 in
      let rest = merge_loop_ends fuel (erase array x) tuple (absorb x tuple new) (omega arith) in
      (rest.0, rw (e, merge_loop) rest.1)
]

-- merge_tuple_set returns, whatever the set and the tuple are.
pub merge_tuple_set_returns :
    (array : TupleSet) (tuple : MemTuple) → (r : TupleSet) × (merge_tuple_set array tuple ≡ some r)
unfolding merge_tuple_set
merge_tuple_set_returns array tuple =
    merge_loop_ends (suc (length array)) array tuple tuple (omega arith)

-- A tuple of the machine within the 2^32 addresses from `lo`.
abbrev pub InWindow : ℕ → MemTuple → Type 0
InWindow lo t = Fits t × (lo ≤ t.base) × (t.base + t.offset < lo + 2 ^ 32)

-- A set of the machine: ordered by MTCompare, so that no two ranges overlap, within the window.
pub record IsTupleSet (lo : ℕ) (array : TupleSet) : Type 0 where
  pub sorted : IsSorted mt_compare array
  pub window : All (InWindow lo) array

-- `r` is such a set, of the bytes of `array` and of `new`.
pub record IsMerged (lo : ℕ) (array : TupleSet) (new : MemTuple) (r : TupleSet) : Type 0 where
  pub is_set : IsTupleSet lo r
  pub covers : (a : ℕ) → Covers r a ↔ (Covers array a ⊎ Owns new a)

module _ (lo : ℕ) where
  absorb-Owns :
      (x tuple new : MemTuple)
      → InWindow lo x
      → InWindow lo new
      → mt_compare x new ≡ false
      → mt_compare new x ≡ false
      → InWindow lo (absorb x tuple new)
        × ((a : ℕ) → Owns (absorb x tuple new) a ↔ (Owns x a ⊎ Owns new a))
  unfolding absorb
  absorb-Owns x tuple new p q h k =
      let x' : MemTuple = record x { access = observe x tuple } in
      let apart : (¬ Before x' new) × (¬ Before new x') = (
        λ b. cc ((mt_compare-Before x new p.0).1 b),
        λ b. cc ((mt_compare-Before new x q.0).1 b),
      ) in
      let range = merge_tuples-range x' new p.0 q.0 (omega arith) in
      let owns = merge_tuples-Owns x' new p.0 q.0 (omega arith) apart.0 apart.1 in
      ((owns.0, omega (arith, range), omega (arith, range)), owns.1)

  insert-IsMerged :
      (array : TupleSet) (new : MemTuple)
      → IsTupleSet lo array
      → InWindow lo new
      → find array new ≡ none
      → IsMerged lo array new (insert array new)
  insert-IsMerged array new s w e =
      let apart = find-none mt_compare mt_compare-IsOrder array new s.sorted e in
      record {
        is_set = record {
          sorted = IsSorted-insert mt_compare mt_compare-IsOrder array new s.sorted;
          window = All-insert mt_compare (InWindow lo) array new s.window w;
        };
        covers = λ a.
            let i =
              Any-insert mt_compare mt_compare-IsOrder (λ t. Owns t a) array new s.sorted apart in
            ground (arith, i);
      }

  merge_loop-IsMerged :
      (fuel : ℕ) (array : TupleSet) (tuple new : MemTuple) (r : TupleSet)
      → IsTupleSet lo array
      → InWindow lo new
      → merge_loop fuel array tuple new ≡ some r
      → IsMerged lo array new r
  unfolding merge_loop
  merge_loop-IsMerged zero array tuple new r s w h = cc
  merge_loop-IsMerged (suc fuel) array tuple new r s w h = elim (Option-cases (find array new)) [
    | inl e ↦
        let same : insert array new ≡ r = ground (arith, e) in
        rw same at (insert-IsMerged array new s w e)
    | inr (x, e) ↦
        let found = find-some mt_compare array new x e in
        let joined =
          absorb-Owns x tuple new (All-at (InWindow lo) x array s.window found.0) w found.1
            found.2 in
        let smaller : IsTupleSet lo (erase array x) = record {
          sorted = IsSorted-erase mt_compare array x s.sorted;
          window = All-erase mt_compare (InWindow lo) array x s.window;
        } in
        let rest =
          merge_loop-IsMerged fuel (erase array x) tuple (absorb x tuple new) r smaller joined.0
            (rw (e, merge_loop) at h) in
        record {
          is_set = rest.is_set;
          covers = λ a. ground (
            arith,
            rest.covers a,
            joined.1 a,
            Any-erase mt_compare mt_compare-IsOrder (λ t. Owns t a) array x s.sorted found.0,
          );
        }
  ]

-- For a set of the machine and a tuple whose ranges all lie within 2^32 addresses, merge_tuple_set
-- returns a set of the machine, still ordered and free of overlaps, whose tuples own exactly the
-- bytes that a tuple of the given set or the given tuple owns.
pub merge_tuple_set-IsMerged :
    (lo : ℕ) (array : TupleSet) (tuple : MemTuple)
    → IsTupleSet lo array
    → InWindow lo tuple
    → (r : TupleSet) × (merge_tuple_set array tuple ≡ some r) × IsMerged lo array tuple r
unfolding merge_tuple_set
merge_tuple_set-IsMerged lo array tuple s w =
    let returned = merge_tuple_set_returns array tuple in
    (
      returned.0,
      returned.1,
      merge_loop-IsMerged lo (suc (length array)) array tuple tuple returned.0 s w returned.1,
    )
