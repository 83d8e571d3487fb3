-- ===== src/Memory/Tuple/Exclusion.antt =====
-- The difference of two tuples (mem_tuple_exclusion).
use Prim.Native.Nat.{max, min}
use cyclebite.Base.{
  ℕ, ◌+◌, ◌-◌, ◌%◌, ◌≤◌, ◌<◌, ◌^◌, ◌≡◌, ◌↔◌, ◌⊎◌, inl, inr, arith, All, Any, length,
}
use cyclebite.Memory.Tuple.{
  MemTuple, end_address, mem_tuple_overlap, exclusive_lhs, exclusive_rhs, split_exclusion,
  mem_tuple_exclusion, Owns, Fits, Before,
}
use cyclebite.Memory.Tuple.Order.{end_address-eq}
use cyclebite.Memory.Tuple.Ranges.{narrow_sub-eq, overlap-range, overlap-none, Before-cases}

-- The bytes that the exclusion keeps of `lhs`: those that `rhs` does not own, and of these only
-- the ones below `rhs` where `lhs` begins below `rhs`.
abbrev pub Keeps : MemTuple → MemTuple → ℕ → Type 0
Keeps rhs lhs a = Owns lhs a × (¬ Owns rhs a) × ((a < rhs.base) ⊎ (rhs.base ≤ lhs.base))

-- The intersection of two overlapping tuples.
abbrev IsMeet : MemTuple → MemTuple → MemTuple → Type 0
IsMeet l r i =
    (i.base ≡ max l.base r.base) × (i.base + i.offset ≡ min (l.base + l.offset) (r.base + r.offset))

end_address-meet :
    (l r i : MemTuple)
    → Fits l
    → IsMeet l r i
    → end_address i ≡ min (l.base + l.offset) (r.base + r.offset)
unfolding end_address
end_address-meet l r i f m = omega arith

end_address-zero : (i : MemTuple) → i.base ≡ 0 → i.offset ≡ 0 → end_address i ≡ 0
unfolding end_address
end_address-zero i h k = omega arith

exclusive_lhs-range :
    (l r i : MemTuple)
    → Fits l
    → IsMeet l r i
    → l.base < i.base
    → ¬ Before l r
    → (exclusive_lhs l i).base + (exclusive_lhs l i).offset ≡ r.base - 1
unfolding exclusive_lhs
exclusive_lhs-range l r i f m h b = ground (arith, narrow_sub-eq i.base (l.base + 1))

exclusive_rhs-range :
    (l r i : MemTuple)
    → Fits l
    → Fits r
    → IsMeet l r i
    → r.base + r.offset < l.base + l.offset
    → ¬ Before r l
    → ((exclusive_rhs l r i).base ≡ r.base + r.offset + 1)
      × ((exclusive_rhs l r i).base + (exclusive_rhs l r i).offset ≡ l.base + l.offset)
unfolding exclusive_rhs
exclusive_rhs-range l r i f g m h b = ground (
  arith,
  end_address-eq l f,
  end_address-meet l r i f m,
  narrow_sub-eq (end_address l) ((end_address i + 1) % 2 ^ 64),
)

split_exclusion-Keeps :
    (l r i : MemTuple)
    → Fits l
    → Fits r
    → IsMeet l r i
    → ¬ Before l r
    → ¬ Before r l
    → (l.base < r.base) ⊎ (r.base + r.offset < l.base + l.offset)
    → (a : ℕ) → Any (λ t. Owns t a) (split_exclusion l r i) ↔ Keeps r l a
unfolding split_exclusion exclusive_lhs
split_exclusion-Keeps l r i f g m h k e a = ground (
  arith,
  end_address-meet l r i f m,
  exclusive_lhs-range l r i f m,
  exclusive_rhs-range l r i f g m,
)

-- The bytes of the tuples that mem_tuple_exclusion(lhs, rhs) returns, for tuples of the machine
-- that overlap or not: a byte is in one of them exactly if lhs owns it, rhs does not, and it lies
-- below the base of rhs or lhs does not begin below rhs. Where lhs begins below rhs, the bytes of
-- lhs behind rhs are so not returned, although the comment in the source calls the result lhs
-- without the intersection. It says nothing of the type, the access and the count of the tuples.
pub mem_tuple_exclusion-Keeps :
    (lhs rhs : MemTuple)
    → Fits lhs
    → Fits rhs
    → (a : ℕ) → Any (λ t. Owns t a) (mem_tuple_exclusion lhs rhs) ↔ Keeps rhs lhs a
unfolding mem_tuple_exclusion
mem_tuple_exclusion-Keeps l r f g a = elim (Before-cases l r) [
  | inl d ↦ ground (arith, overlap-none l r f g d, end_address-zero (mem_tuple_overlap l r))
  | inr d ↦ ground (
    arith,
    overlap-range l r f g d.0 d.1,
    end_address-eq l f,
    end_address-meet l r (mem_tuple_overlap l r) f,
    split_exclusion-Keeps l r (mem_tuple_overlap l r) f g,
  )
]

-- What an exclusion returns lies in the range of `lhs`, is disjoint from `rhs`, and consists of
-- tuples of the machine.
abbrev pub IsPiece : MemTuple → MemTuple → MemTuple → Type 0
IsPiece l r p =
    Fits p × (l.base ≤ p.base) × (p.base + p.offset ≤ l.base + l.offset) × (Before p r ⊎ Before r p)

split_exclusion-IsPiece :
    (l r i : MemTuple)
    → Fits l
    → Fits r
    → IsMeet l r i
    → ¬ Before l r
    → ¬ Before r l
    → (l.base < r.base) ⊎ (r.base + r.offset < l.base + l.offset)
    → All (IsPiece l r) (split_exclusion l r i)
unfolding split_exclusion exclusive_lhs
split_exclusion-IsPiece l r i f g m h k e = ground (
  arith,
  end_address-meet l r i f m,
  exclusive_lhs-range l r i f m,
  exclusive_rhs-range l r i f g m,
)

pub mem_tuple_exclusion-IsPiece :
    (lhs rhs : MemTuple) → Fits lhs → Fits rhs → All (IsPiece lhs rhs) (mem_tuple_exclusion lhs rhs)
unfolding mem_tuple_exclusion
mem_tuple_exclusion-IsPiece l r f g = elim (Before-cases l r) [
  | inl d ↦ ground (arith, overlap-none l r f g d, end_address-zero (mem_tuple_overlap l r))
  | inr d ↦ ground (
    arith,
    overlap-range l r f g d.0 d.1,
    end_address-eq l f,
    end_address-meet l r (mem_tuple_overlap l r) f,
    split_exclusion-IsPiece l r (mem_tuple_overlap l r) f g,
  )
]

pub mem_tuple_exclusion-length :
    (lhs rhs : MemTuple) → Fits lhs → Fits rhs → length (mem_tuple_exclusion lhs rhs) ≤ 1
unfolding mem_tuple_exclusion split_exclusion
mem_tuple_exclusion-length l r f g = ground arith

-- A tuple that reaches over the removed one on both sides loses what lies behind it: each byte that
-- `lhs` owns behind the end of `rhs` is owned by none of the tuples that mem_tuple_exclusion
-- returns, although `rhs` does not own it.
pub mem_tuple_exclusion_loses :
    (lhs rhs : MemTuple)
    → Fits lhs
    → Fits rhs
    → lhs.base < rhs.base
    → (a : ℕ) → rhs.base + rhs.offset < a
    → a ≤ lhs.base + lhs.offset
    → Owns lhs a × (¬ Owns rhs a) × (¬ Any (λ t. Owns t a) (mem_tuple_exclusion lhs rhs))
mem_tuple_exclusion_loses l r f g low a above within = (
  omega arith,
  omega arith,
  λ m. let kept = (mem_tuple_exclusion-Keeps l r f g a).0 m in omega arith,
)
