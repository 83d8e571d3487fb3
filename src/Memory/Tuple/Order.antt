-- ===== src/Memory/Tuple/Order.antt =====
-- MTCompare orders disjoint ranges, and the two priorities of merge_tuples are orders.
use cyclebite.Base.{ℕ, ◌+◌, ◌≤◌, ◌≡◌, ◌↔◌, ◌⊎◌, true, false, arith}
use Prim.Native.Nat.{max}
use cyclebite.Base.StdSet.{IsOrder}
use cyclebite.Memory.Tuple.{
  MemType, MemTuple, end_address, mt_compare, Owns, Fits, Before, merge_type, none, reader, writer,
  malloc, free, memset, memmov, memcpy,
}

pub end_address-eq : (t : MemTuple) → Fits t → end_address t ≡ t.base + t.offset
unfolding end_address
end_address-eq t f = omega arith

pub mt_compare_irrefl : (t : MemTuple) → mt_compare t t ≡ false
unfolding mt_compare
mt_compare_irrefl t = ground arith

pub mt_compare_trans :
    (t u v : MemTuple) → mt_compare t u ≡ true → mt_compare u v ≡ true → mt_compare t v ≡ true
unfolding mt_compare
mt_compare_trans t u v h k = ground arith

pub mt_compare-IsOrder : IsOrder mt_compare
mt_compare-IsOrder = record { irrefl = mt_compare_irrefl; trans = mt_compare_trans }

-- On ranges of the machine the comparison says that one range ends before the other one begins.
pub mt_compare-Before : (t u : MemTuple) → Fits t → (mt_compare t u ≡ true) ↔ Before t u
unfolding mt_compare
mt_compare-Before t u f = ground (arith, end_address-eq t f)

abbrev pub Share : MemTuple → MemTuple → Type 0
Share t u = (a : ℕ) × Owns t a × Owns u a

Share-of_overlap : (t u : MemTuple) → ¬ Before t u → ¬ Before u t → Share t u
Share-of_overlap t u h k = (max t.base u.base, omega arith, omega arith)

Share-not_Before : (t u : MemTuple) → Share t u → (¬ Before t u) × (¬ Before u t)
Share-not_Before t u (a, p, q) = omega arith

-- On ranges of the machine, two tuples are equivalent to a std::set ordered by MTCompare exactly
-- when there is a byte that both own.
pub equivalent_iff_Share :
    (t u : MemTuple)
    → Fits t
    → Fits u
    → ((mt_compare t u ≡ false) × (mt_compare u t ≡ false)) ↔ Share t u
equivalent_iff_Share t u f g = (
  λ e.
      Share-of_overlap t u (λ b. cc ((mt_compare-Before t u f).1 b))
        (λ b. cc ((mt_compare-Before u t g).1 b)),
  λ s. ground (arith, mt_compare-Before t u f, mt_compare-Before u t g, Share-not_Before t u s),
)

-- The type of a merged tuple has the highest priority of the two: memory operators before the
-- allocator, the allocator before plain reads and writes; on a tie it is that of lhs. So the
-- classes 0, 1 and 2 of the source's comments are respected.
abbrev pub priority : MemType → ℕ
priority none = 0
priority reader = 0
priority writer = 0
priority malloc = 1
priority free = 1
priority memset = 2
priority memmov = 2
priority memcpy = 2

-- Whatever the two types are, the merged type is one of the two, no other type has a higher
-- priority than it among the two, and where their priorities are equal it is that of lhs.
merge_type-priority :
    (t u : MemType)
    → ((merge_type t u ≡ t) ⊎ (merge_type t u ≡ u))
      × (priority t ≤ priority (merge_type t u))
      × (priority u ≤ priority (merge_type t u))
      × (priority t ≡ priority u → merge_type t u ≡ t)
unfolding merge_type
merge_type-priority t u = ground arith
