-- ===== src/Memory/TupleSet.antt =====
-- Sets of memory tuples (merge_tuple_set and remove_tuple_set of
-- Profile/Backend/Memory/inc/MemoryTuple.hpp), ordered by MTCompare. Each `while` loop takes fuel,
-- and `none` says that the fuel ran out.
pub mod Merge
pub mod Remove
use cyclebite.Base.{
  ℕ, zero, suc, ◌+◌, ◌≡◌, Bool, true, false, ◌||◌, List, [], ◌∷◌, Option, none, some, All, Any,
  length, if◌then◌else◌,
}
use cyclebite.Base.StdSet
use cyclebite.Base.StdSet.{IsSorted}
use cyclebite.Memory.Tuple.{
  MemType, TemporalAccess, MemTuple, na, write_then_read, read_then_write, mt_compare, merge_tuples,
  mem_tuple_exclusion, Owns,
}

abbrev pub TupleSet : Type 0
TupleSet = List MemTuple

abbrev pub is_read : MemType → Bool
is_read MemType.reader = true
is_read MemType.memcpy = true
is_read _ = false

abbrev pub is_write : MemType → Bool
is_write MemType.writer = true
is_write MemType.memset = true
is_write _ = false

-- The access pattern of a tuple of the past, once `tuple` touches its range.
unfoldable pub observe : MemTuple → MemTuple → TemporalAccess
observe existing tuple = elim existing.access [
  | na ↦
      if is_read existing.type
      then (if is_write tuple.type then read_then_write else na)
      else if is_write existing.type
      then (if is_read tuple.type then write_then_read else na)
      else na
  | other ↦ other
]

abbrev pub find : TupleSet → MemTuple → Option MemTuple
find = StdSet.find mt_compare

abbrev pub insert : TupleSet → MemTuple → TupleSet
insert = StdSet.insert mt_compare

abbrev pub erase : TupleSet → MemTuple → TupleSet
erase = StdSet.erase mt_compare

-- One merge: the found tuple, with its access pattern brought up to date, and the new one.
unfoldable pub absorb : MemTuple → MemTuple → MemTuple → MemTuple
absorb existing tuple new = merge_tuples (record existing { access = observe existing tuple }) new

unfoldable pub merge_loop : ℕ → TupleSet → MemTuple → MemTuple → Option TupleSet
merge_loop zero array tuple new = none
merge_loop (suc fuel) array tuple new = elim (find array new) [
  | none ↦ some (insert array new)
  | some existing ↦ merge_loop fuel (erase array existing) tuple (absorb existing tuple new)
]

unfoldable pub merge_tuple_set : TupleSet → MemTuple → Option TupleSet
merge_tuple_set array tuple = merge_loop (suc (length array)) array tuple tuple

unfoldable pub insert_all : TupleSet → List MemTuple → TupleSet
insert_all array [] = array
insert_all array (t ∷ ts) = insert_all (insert array t) ts

unfoldable pub remove_loop : ℕ → TupleSet → MemTuple → Option TupleSet
remove_loop zero array tuple = none
remove_loop (suc fuel) array tuple = elim (find array tuple) [
  | none ↦ some array
  | some existing ↦
      remove_loop fuel (insert_all (erase array existing) (mem_tuple_exclusion existing tuple))
        tuple
]

unfoldable pub remove_tuple_set : TupleSet → MemTuple → Option TupleSet
remove_tuple_set array tuple = remove_loop (suc (length array)) array tuple

-- The bytes that some tuple of a set owns.
abbrev pub Covers : TupleSet → ℕ → Type 0
Covers ts a = Any (λ t. Owns t a) ts
