-- ===== src/Memory/Tuple/Ranges.antt =====
-- The ranges of the union (merge_tuples) and of the intersection (mem_tuple_overlap) of two
-- tuples.
use Prim.Native.Nat.{max, min}
use cyclebite.Base.{ℕ, ◌+◌, ◌-◌, ◌≤◌, ◌<◌, ◌^◌, ◌≡◌, ◌↔◌, ◌⊎◌, inl, inr, arith, refl}
use cyclebite.Memory.Tuple.{
  MemTuple, end_address, narrow_sub, merge_base, merge_tuples, overlap_base, mem_tuple_overlap,
  Owns, Fits, Before,
}
use cyclebite.Memory.Tuple.Order.{end_address-eq}

pub narrow_sub-eq : (a b : ℕ) → b ≤ a → a < 2 ^ 64 → a - b < 2 ^ 32 → narrow_sub a b ≡ a - b
unfolding narrow_sub
narrow_sub-eq a b h k l = omega arith

pub Before-cases : (t u : MemTuple) → (Before t u ⊎ Before u t) ⊎ ((¬ Before t u) × (¬ Before u t))
Before-cases t u = grind arith

-- The joint range of two tuples is short enough for an offset.
abbrev pub SpanFits : MemTuple → MemTuple → Type 0
SpanFits t u = (t.base + t.offset < u.base + 2 ^ 32) × (u.base + u.offset < t.base + 2 ^ 32)

merge_tuples-base : (t u : MemTuple) → (merge_tuples t u).base ≡ merge_base t u
unfolding merge_tuples
merge_tuples-base t u = refl

-- The range of a merged tuple goes from the least base to the greatest end.
pub merge_tuples-range :
    (t u : MemTuple)
    → Fits t
    → Fits u
    → SpanFits t u
    → ((merge_tuples t u).base ≤ t.base)
      × ((merge_tuples t u).base ≤ u.base)
      × (((merge_tuples t u).base ≡ t.base) ⊎ ((merge_tuples t u).base ≡ u.base))
      × (t.base + t.offset ≤ (merge_tuples t u).base + (merge_tuples t u).offset)
      × (u.base + u.offset ≤ (merge_tuples t u).base + (merge_tuples t u).offset)
      × (((merge_tuples t u).base + (merge_tuples t u).offset ≡ t.base + t.offset)
          ⊎ ((merge_tuples t u).base + (merge_tuples t u).offset ≡ u.base + u.offset))
unfolding merge_tuples
merge_tuples-range t u f g s = ground (
  arith,
  end_address-eq t f,
  end_address-eq u g,
  narrow_sub-eq (end_address t) (merge_base t u),
  narrow_sub-eq (end_address u) (merge_base t u),
)

-- The union of two overlapping ranges: a merged tuple owns exactly the bytes that one of the two
-- owns, and it is a tuple of the machine again, provided that the joint range fits an offset.
pub merge_tuples-Owns :
    (t u : MemTuple)
    → Fits t
    → Fits u
    → SpanFits t u
    → ¬ Before t u
    → ¬ Before u t
    → Fits (merge_tuples t u) × ((a : ℕ) → Owns (merge_tuples t u) a ↔ (Owns t a ⊎ Owns u a))
merge_tuples-Owns t u f g s h k =
    let r = merge_tuples-range t u f g s in
    (omega (arith, r), λ a. (λ o. omega (arith, r), λ o. omega (arith, r)))

-- The first byte of the intersection is the greater base.
overlap_base-eq :
    (t u : MemTuple)
    → Fits t
    → Fits u
    → (¬ Before t u → ¬ Before u t → overlap_base t u ≡ max t.base u.base)
      × (Before t u ⊎ Before u t → overlap_base t u ≡ 0)
unfolding overlap_base
overlap_base-eq t u f g = ground (arith, end_address-eq t f, end_address-eq u g)

pub overlap-range :
    (t u : MemTuple)
    → Fits t
    → Fits u
    → ¬ Before t u
    → ¬ Before u t
    → ((mem_tuple_overlap t u).base ≡ max t.base u.base)
      × ((mem_tuple_overlap t u).base + (mem_tuple_overlap t u).offset
          ≡ min (t.base + t.offset) (u.base + u.offset))
unfolding mem_tuple_overlap
overlap-range t u f g h k = ground (
  arith,
  end_address-eq t f,
  end_address-eq u g,
  overlap_base-eq t u f g,
  narrow_sub-eq (end_address t) (overlap_base t u),
  narrow_sub-eq (end_address u) (overlap_base t u),
)

pub overlap-none :
    (t u : MemTuple)
    → Fits t
    → Fits u
    → Before t u ⊎ Before u t
    → ((mem_tuple_overlap t u).base ≡ 0) × ((mem_tuple_overlap t u).offset ≡ 0)
unfolding mem_tuple_overlap
overlap-none t u f g h = ground (arith, overlap_base-eq t u f g)

-- The intersection: the overlap of two tuples owns a byte other than address 0 exactly when both
-- tuples own it, whether the two ranges overlap or not.
pub mem_tuple_overlap-Owns :
    (t u : MemTuple)
    → Fits t
    → Fits u
    → (a : ℕ) → 0 < a
    → Owns (mem_tuple_overlap t u) a ↔ (Owns t a × Owns u a)
mem_tuple_overlap-Owns t u f g a p = elim (Before-cases t u) [
  | inl d ↦ let r = overlap-none t u f g d in (λ o. omega (arith, r), λ o. omega (arith, r))
  | inr d ↦ let r = overlap-range t u f g d.0 d.1 in (λ o. omega (arith, r), λ o. omega (arith, r))
]
