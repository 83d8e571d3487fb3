-- ===== src/Memory/CodeInstance.antt =====
-- CodeInstance::addIteration (Profile/Backend/Memory/CodeInstance.cpp): the ranges of an iteration are
-- merged into those of the code instance.
use cyclebite.Base.{
  ℕ, ◌≡◌, ◌↔◌, ◌⊎◌, inl, refl, List, [], ◌∷◌, Option, some, ◌>>=◌, arith, All, >>=-eq-some,
}
use cyclebite.Memory.Tuple.{MemTuple}
use cyclebite.Memory.TupleSet.{TupleSet, merge_tuple_set, Covers}
use cyclebite.Memory.TupleSet.Merge.{InWindow, IsTupleSet, merge_tuple_set-IsMerged}
use cyclebite.Memory.Epoch.{Iteration}

unfoldable pub merge_all : TupleSet → List MemTuple → Option TupleSet
merge_all array [] = some array
merge_all array (t ∷ ts) = do array' ← merge_tuple_set array t; merge_all array' ts

unfoldable pub add_iteration : Iteration → Iteration → Option Iteration
unfolding merge_all
add_iteration memory_data new = do
  w ← merge_all memory_data.w_tuples new.w_tuples
  r ← merge_all memory_data.r_tuples new.r_tuples
  some (record { r_tuples = r; w_tuples = w })

-- A set of the machine that owns the bytes of two others.
abbrev pub IsUnion : ℕ → TupleSet → TupleSet → TupleSet → Type 0
IsUnion lo a b r = IsTupleSet lo r × ((x : ℕ) → Covers r x ↔ (Covers a x ⊎ Covers b x))

module _ (lo : ℕ) where
  merge_all-IsUnion :
      (ts array : TupleSet)
      → IsTupleSet lo array
      → All (InWindow lo) ts
      → (r : TupleSet) × (merge_all array ts ≡ some r) × IsUnion lo array ts r
  unfolding merge_all
  merge_all-IsUnion [] array s w = (array, refl, (s, λ x. (λ c. inl c, λ c. ground arith)))
  merge_all-IsUnion (t ∷ ts) array s w =
      let (m, first, merged) = merge_tuple_set-IsMerged lo array t s w.0 in
      let (r, rest, u) = merge_all-IsUnion ts m merged.is_set w.1 in
      (
        r,
        >>=-eq-some (λ m. merge_all m ts) first rest,
        (u.0, λ x. ground (arith, merged.covers x, u.1 x)),
      )

  -- addIteration returns, for sets of the machine whose ranges lie within 2^32 addresses, and the
  -- code instance then writes exactly the bytes that it or the iteration wrote, and reads exactly
  -- those that it or the iteration read, in sets of the machine.
  pub add_iteration-IsUnion :
      (m new : Iteration)
      → IsTupleSet lo m.w_tuples × IsTupleSet lo m.r_tuples
      → IsTupleSet lo new.w_tuples × IsTupleSet lo new.r_tuples
      → (m' : Iteration) × (add_iteration m new ≡ some m')
        × IsUnion lo m.w_tuples new.w_tuples m'.w_tuples
        × IsUnion lo m.r_tuples new.r_tuples m'.r_tuples
  unfolding add_iteration
  add_iteration-IsUnion m new h k =
      let (w, first, u) = merge_all-IsUnion new.w_tuples m.w_tuples h.0 (k.0).window in
      let (r, second, v) = merge_all-IsUnion new.r_tuples m.r_tuples h.1 (k.1).window in
      (record { r_tuples = r; w_tuples = w }, >>=-eq-some _ first (>>=-eq-some _ second refl), u, v)
