-- ===== src/Memory/Tuple.antt =====
-- Memory tuples (Profile/Backend/Memory/inc/MemoryTuple.hpp): the ranges of addresses that a
-- program touches, their orders, their union, intersection and difference. An address is a
-- uint64_t and an offset a uint32_t; the range of a tuple ends at base + offset, included.
pub mod Order
pub mod Ranges
pub mod Exclusion
use cyclebite.Base.{
  ℕ, ◌+◌, ◌-◌, ◌%◌, ◌^◌, ◌≤◌, ◌<◌, Bool, true, false, not, ◌&&◌, ◌||◌, List, [], ◌∷◌, ◌++◌, ltb,
  leb, if◌then◌else◌, ◌⊎◌, ◌==◌,
}

pub data MemType : Type 0 where
  none reader writer malloc free memset memmov memcpy : MemType

pub data TemporalAccess : Type 0 where
  na write_then_read read_then_write random : TemporalAccess

pub record MemTuple : Type 0 where
  pub type : MemType
  pub access : TemporalAccess
  pub base : ℕ
  pub offset : ℕ
  pub ref_count : ℕ

-- The tuple that the default constructor makes.
abbrev pub empty_tuple : MemTuple
empty_tuple = record { type = none; access = na; base = 0; offset = 0; ref_count = 0 }

-- base + (uint64_t)offset
unfoldable pub end_address : MemTuple → ℕ
end_address t = (t.base + t.offset) % 2 ^ 64

-- (uint32_t)(a - b), on uint64_t
unfoldable pub narrow_sub : ℕ → ℕ → ℕ
narrow_sub a b = (a + 2 ^ 64 - b) % 2 ^ 64 % 2 ^ 32

unfoldable pub mt_compare : MemTuple → MemTuple → Bool
mt_compare lhs rhs =
    if ltb lhs.base rhs.base
    then (if ltb (end_address lhs) rhs.base then true else false)
    else false

-- The value of the enumerator.
abbrev pub rank : MemType → ℕ
rank none = 0
rank reader = 1
rank writer = 2
rank malloc = 3
rank free = 4
rank memset = 5
rank memmov = 6
rank memcpy = 7

unfoldable pub mem_type_compare : MemType → MemType → Bool
mem_type_compare lhs rhs =
    if leb (rank memset) (rank lhs)
    then (if leb (rank memset) (rank rhs) then false else true)
    else if leb (rank malloc) (rank lhs)
    then (if leb (rank malloc) (rank rhs) then false else true)
    else false

abbrev pub is_ordered : TemporalAccess → Bool
is_ordered read_then_write = true
is_ordered write_then_read = true
is_ordered na = false
is_ordered random = false

unfoldable pub mem_access_compare : TemporalAccess → TemporalAccess → Bool
mem_access_compare lhs rhs = if is_ordered lhs then true else if is_ordered rhs then false else true

unfoldable pub merge_type : MemType → MemType → MemType
unfolding mem_type_compare
merge_type lhs rhs =
    if mem_type_compare lhs rhs
    then lhs
    else if not (mem_type_compare lhs rhs) && not (mem_type_compare rhs lhs)
    then lhs
    else rhs

unfoldable pub merge_base : MemTuple → MemTuple → ℕ
merge_base lhs rhs = if ltb lhs.base rhs.base then lhs.base else rhs.base

unfoldable pub merge_tuples : MemTuple → MemTuple → MemTuple
unfolding merge_type mem_access_compare narrow_sub merge_base
merge_tuples lhs rhs = record {
  type = merge_type lhs.type rhs.type;
  access = if mem_access_compare lhs.access rhs.access then lhs.access else rhs.access;
  base = merge_base lhs rhs;
  offset =
      if ltb (end_address rhs) (end_address lhs)
      then narrow_sub (end_address lhs) (merge_base lhs rhs)
      else narrow_sub (end_address rhs) (merge_base lhs rhs);
  ref_count = (lhs.ref_count + rhs.ref_count + 1) % 2 ^ 32;
}

-- The address at which two ranges begin to overlap, and 0 where they do not.
unfoldable pub overlap_base : MemTuple → MemTuple → ℕ
overlap_base lhs rhs =
    if leb lhs.base rhs.base && leb rhs.base (end_address lhs)
    then rhs.base
    else if leb rhs.base lhs.base && leb lhs.base (end_address rhs)
    then lhs.base
    else 0

unfoldable pub mem_tuple_overlap : MemTuple → MemTuple → MemTuple
unfolding overlap_base narrow_sub
mem_tuple_overlap lhs rhs = record empty_tuple {
  base = overlap_base lhs rhs;
  offset =
      if overlap_base lhs rhs == 0
      then 0
      else if ltb (end_address lhs) (end_address rhs)
      then narrow_sub (end_address lhs) (overlap_base lhs rhs)
      else narrow_sub (end_address rhs) (overlap_base lhs rhs);
}

-- The part of lhs that lies before the intersection, with the members of lhs.
unfoldable pub exclusive_lhs : MemTuple → MemTuple → MemTuple
unfolding narrow_sub
exclusive_lhs lhs intersect = record lhs { offset = narrow_sub intersect.base (lhs.base + 1) }

-- The part of lhs that lies behind the intersection, with the members of rhs.
unfoldable pub exclusive_rhs : MemTuple → MemTuple → MemTuple → MemTuple
unfolding narrow_sub
exclusive_rhs lhs rhs intersect = record rhs {
  base = (end_address intersect + 1) % 2 ^ 64;
  offset = narrow_sub (end_address lhs) ((end_address intersect + 1) % 2 ^ 64);
}

unfoldable pub split_exclusion : MemTuple → MemTuple → MemTuple → List MemTuple
unfolding exclusive_lhs exclusive_rhs
split_exclusion lhs rhs intersect =
    (if ltb lhs.base intersect.base then exclusive_lhs lhs intersect ∷ [] else [])
    ++ (if leb intersect.base lhs.base && leb lhs.base (end_address intersect)
        then exclusive_rhs lhs rhs intersect ∷ []
        else [])

unfoldable pub mem_tuple_exclusion : MemTuple → MemTuple → List MemTuple
unfolding split_exclusion
mem_tuple_exclusion lhs rhs =
    let intersect = mem_tuple_overlap lhs rhs in
    if ltb 0 (end_address intersect)
    then (if leb intersect.base lhs.base && leb (end_address lhs) (end_address intersect)
        then []
        else split_exclusion lhs rhs intersect)
    else lhs ∷ []

-- The bytes that a tuple owns.
abbrev pub Owns : MemTuple → ℕ → Type 0
Owns t a = (t.base ≤ a) × (a ≤ t.base + t.offset)

-- A tuple of the machine: its range does not run over the end of the address space, and, as the
-- source says of valid tuples, its base is not 0.
abbrev pub Fits : MemTuple → Type 0
Fits t = (0 < t.base) × (t.base + t.offset < 2 ^ 64) × (t.offset < 2 ^ 32)

-- One range lies before the other one.
abbrev pub Before : MemTuple → MemTuple → Type 0
Before t u = t.base + t.offset < u.base
