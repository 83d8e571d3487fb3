-- ===== src/Memory/Communication/Window.antt =====
-- The sets of the walks stay sets of the machine within the window of the program's addresses.
use cyclebite.Base.{
  ℕ, ◌+◌, ◌≤◌, ◌<◌, ◌^◌, ◌≡◌, ◌↔◌, ◌⊎◌, inl, inr, refl, Bool, List, [], ◌∷◌, some, arith, All, Any,
  All-map, All-of, Any-at, All-at, Bool-cases,
}
use cyclebite.Memory.Tuple.{MemType, MemTuple, Owns, Fits}
use cyclebite.Memory.TupleSet.{TupleSet, Covers}
use cyclebite.Memory.TupleSet.Merge.{InWindow, IsTupleSet, merge_tuple_set-IsMerged}
use cyclebite.Memory.TupleSet.Remove.{IsOrdered}
use cyclebite.Memory.Communication.{first_tuple, pass_by, pass_on, pass_one, pass_all}

InWindow-bounds :
    (lo : ℕ) (array : TupleSet) (a : ℕ)
    → All (InWindow lo) array
    → Covers array a
    → (lo ≤ a) × (a < lo + 2 ^ 32)
InWindow-bounds lo [] a w m = absurd m
InWindow-bounds lo (t ∷ ts) a w (inl o) = let h = w.0 in omega arith
InWindow-bounds lo (t ∷ ts) a w (inr m) = InWindow-bounds lo ts a w.1 m

-- A set whose bytes lie in the bytes of a set in the window is in the window.
pub IsTupleSet-of_Covers :
    (lo : ℕ) (array r : TupleSet)
    → IsTupleSet lo array
    → IsOrdered r
    → ((a : ℕ) → Covers r a → Covers array a)
    → IsTupleSet lo r
IsTupleSet-of_Covers lo array r s v sub = record {
  sorted = v.sorted;
  window = All-of (InWindow lo) r (λ t m. in_window t m);
}
  where
    in_window : (t : MemTuple) → Any (λ y. y ≡ t) r → InWindow lo t
    in_window t m =
        let fits : Fits t = All-at Fits t r v.fits m in
        let low =
          InWindow-bounds lo array t.base s.window
            (sub t.base (Any-at (λ u. Owns u t.base) t r m (omega arith))) in
        let high = InWindow-bounds lo array (t.base + t.offset) s.window (
          sub (t.base + t.offset) (Any-at (λ u. Owns u (t.base + t.offset)) t r m (omega arith))) in
        (fits, omega arith, omega arith)

pub IsTupleSet-IsOrdered : (lo : ℕ) (array : TupleSet) → IsTupleSet lo array → IsOrdered array
IsTupleSet-IsOrdered lo array s = record {
  sorted = s.sorted;
  fits = All-map (InWindow lo) Fits (λ t w. w.0) array s.window;
}

first_tuple-cases :
    (P : MemTuple → Type 0) (p : MemTuple → Bool) (ts : List MemTuple)
    → All P ts
    → ((first_tuple p ts).base ≡ 0) ⊎ P (first_tuple p ts)
unfolding first_tuple
first_tuple-cases P p [] h = inl refl
first_tuple-cases P p (t ∷ ts) h = elim (Bool-cases (p t)) [
  | inl e ↦ inr (rw e h.0)
  | inr e ↦ rw e (first_tuple-cases P p ts h.1)
]

pass_by-cases :
    (P : MemTuple → Type 0) (type : MemType) (reads : TupleSet) (t : MemTuple)
    → All P reads
    → ((pass_by type reads t).base ≡ 0) ⊎ P (pass_by type reads t)
unfolding pass_by
pass_by-cases P MemType.memcpy reads t h = first_tuple-cases P _ reads h
pass_by-cases P MemType.memmov reads t h = first_tuple-cases P _ reads h
pass_by-cases P _ reads t h = inl refl

-- The bytes that the write `t` passes on.
abbrev pub PassesOn : TupleSet → ℕ → MemTuple → Type 0
PassesOn reads a t = (0 < (pass_on reads t).base) × Owns (pass_on reads t) a

pub pass_one-IsTupleSet :
    (lo : ℕ) (reads : TupleSet) (t : MemTuple) (consumed : TupleSet)
    → All (InWindow lo) reads
    → IsTupleSet lo consumed
    → (r : TupleSet) × (pass_one reads t consumed ≡ some r)
      × IsTupleSet lo r
      × ((a : ℕ) → Covers r a ↔ (Covers consumed a ⊎ PassesOn reads a t))
unfolding pass_one
pass_one-IsTupleSet lo reads t consumed w s = elim (pass_by-cases (InWindow lo) t.type reads t w) [
  | inl e ↦ (consumed, ground (arith, e), s, λ a. (inl, λ m. ground (arith, e)))
  | inr h ↦
      let (r, ends, merged) = merge_tuple_set-IsMerged lo consumed (pass_on reads t) s h in
      (r, ground (arith, h, ends), merged.is_set, λ a. ground (arith, merged.covers a, h))
]

pub pass_all-IsTupleSet :
    (lo : ℕ) (reads : TupleSet) (ts : List MemTuple) (consumed : TupleSet)
    → All (InWindow lo) reads
    → IsTupleSet lo consumed
    → (r : TupleSet) × (pass_all reads ts consumed ≡ some r)
      × IsTupleSet lo r
      × ((a : ℕ) → Covers r a ↔ (Covers consumed a ⊎ Any (PassesOn reads a) ts))
unfolding pass_all
pass_all-IsTupleSet lo reads [] consumed w s = (consumed, refl, s, λ a. ground arith)
pass_all-IsTupleSet lo reads (t ∷ ts) consumed w s =
    let (m, first, s', h) = pass_one-IsTupleSet lo reads t consumed w s in
    let (r, rest, s'', k) = pass_all-IsTupleSet lo reads ts m w s' in
    (r, rw first rest, s'', λ a. ground (arith, h a, k a))
