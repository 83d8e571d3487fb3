-- ===== src/Memory/Communication.antt =====
-- The data dependencies between epochs (removeExplainedProducers and GenerateTaskCommunication of
-- Profile/Backend/Memory/Processing.cpp). The epochs are listed from the last one to the first,
-- as the source walks them.
pub mod Explain
pub mod Window
pub mod LastWriter
pub mod Order
use cyclebite.Base.{
  ℕ, ◌≡◌, Bool, true, false, ◌&&◌, ◌||◌, List, [], ◌∷◌, Option, none, some, ◌>>=◌, ltb, leb,
  if◌then◌else◌,
}
use cyclebite.Base.StdSet
use cyclebite.Memory.Tuple.{
  MemType, TemporalAccess, MemTuple, na, write_then_read, read_then_write, random, empty_tuple,
  end_address, mem_tuple_overlap,
}
use cyclebite.Memory.TupleSet.{TupleSet, remove_tuple_set, merge_tuple_set}
use cyclebite.Memory.Epoch.{Epoch}

-- The pair that removeExplainedProducers returns.
pub record Explained : Type 0 where
  pub unexplained : TupleSet
  pub changes : Bool

abbrev pub min_tuple_offset : ℕ
min_tuple_offset = 32

abbrev pub is_write_then_read : TemporalAccess → Bool
is_write_then_read write_then_read = true
is_write_then_read na = false
is_write_then_read read_then_write = false
is_write_then_read random = false

-- Both working sets are internal ones.
abbrev pub internal : MemTuple → MemTuple → Bool
internal produced consumed =
    is_write_then_read produced.access && is_write_then_read consumed.access

-- The removal of an overlap, and whether it counts as a change.
unfoldable pub explain_overlap : MemTuple → Explained → Option Explained
explain_overlap overlap s =
    if ltb 0 (end_address overlap)
    then (do
      rest ← remove_tuple_set s.unexplained overlap
      some (record {
        unexplained = rest;
        changes = if ltb min_tuple_offset overlap.offset then true else s.changes;
      }))
    else some s

-- The body of the inner loop.
unfoldable pub explain_pair : MemTuple → MemTuple → Explained → Option Explained
explain_pair produced consumed s =
    if internal produced consumed
    then (do rest ← remove_tuple_set s.unexplained consumed; some (record s { unexplained = rest }))
    else explain_overlap (mem_tuple_overlap produced consumed) s

unfoldable pub explain_consumers : MemTuple → List MemTuple → Explained → Option Explained
explain_consumers produced [] s = some s
explain_consumers produced (consumed ∷ rest) s = do
  s' ← explain_pair produced consumed s
  explain_consumers produced rest s'

unfoldable pub explain_producers : List MemTuple → List MemTuple → Explained → Option Explained
explain_producers [] consumer s = some s
explain_producers (produced ∷ rest) consumer s = do
  s' ← explain_consumers produced consumer s
  explain_producers rest consumer s'

unfoldable pub remove_explained_producers : TupleSet → TupleSet → Option Explained
remove_explained_producers producer consumer =
    explain_producers producer consumer (record { unexplained = consumer; changes = false })

-- The first tuple that passes a test, and the default tuple where none does.
unfoldable pub first_tuple : (MemTuple → Bool) → List MemTuple → MemTuple
first_tuple p [] = empty_tuple
first_tuple p (t ∷ ts) = if p t then t else first_tuple p ts

-- The tuple of the reads of a producer that its write `t`, of the given type, passes on.
unfoldable pub pass_by : MemType → TupleSet → MemTuple → MemTuple
unfolding first_tuple
pass_by MemType.memcpy reads t = first_tuple (λ r. ltb 32 (mem_tuple_overlap r t).offset) reads
pass_by MemType.memmov reads t = first_tuple (λ r. leb t.offset r.offset) reads
pass_by _ reads t = empty_tuple

abbrev pub pass_on : TupleSet → MemTuple → MemTuple
pass_on reads t = pass_by t.type reads t

-- The body of the loop over the writes of a producer.
unfoldable pub pass_one : TupleSet → MemTuple → TupleSet → Option TupleSet
pass_one reads t consumed =
    if ltb 0 (pass_on reads t).base
    then merge_tuple_set consumed (pass_on reads t)
    else some consumed

unfoldable pub pass_all : TupleSet → List MemTuple → TupleSet → Option TupleSet
pass_all reads [] consumed = some consumed
pass_all reads (t ∷ ts) consumed = do passed ← pass_one reads t consumed; pass_all reads ts passed

abbrev pub add_id : Bool → List ℕ → ℕ → List ℕ
add_id changes ids id = if changes then StdSet.insert ltb ids id else ids

-- The walk that finds the RAW dependencies; `ids` are those found so far.
unfoldable pub raw_walk : List Epoch → TupleSet → List ℕ → Option (List ℕ)
raw_walk [] consumed ids = some ids
raw_walk (p ∷ ps) [] ids = some ids
raw_walk (p ∷ ps) (c ∷ cs) ids = do
  passed ← pass_all p.memory_data.r_tuples p.memory_data.w_tuples (c ∷ cs)
  e ← remove_explained_producers p.memory_data.w_tuples passed
  raw_walk ps e.unexplained (add_id e.changes ids p.iid)

-- The walk that finds the WAW dependencies.
unfoldable pub waw_walk : List Epoch → TupleSet → List ℕ → Option (List ℕ)
waw_walk [] produced_later ids = some ids
waw_walk (p ∷ ps) [] ids = some ids
waw_walk (p ∷ ps) (c ∷ cs) ids = do
  e ← remove_explained_producers p.memory_data.w_tuples (c ∷ cs)
  waw_walk ps e.unexplained (add_id e.changes ids p.iid)

-- An entry of the map that GenerateTaskCommunication returns.
pub record Dependencies : Type 0 where
  pub iid : ℕ
  pub raw : List ℕ
  pub waw : List ℕ

unfoldable pub communicate : Epoch → List Epoch → Option Dependencies
unfolding raw_walk waw_walk
communicate e earlier = do
  raw ← raw_walk earlier e.memory_data.r_tuples []
  waw ← waw_walk earlier e.memory_data.w_tuples []
  some (record { iid = e.iid; raw = raw; waw = waw })

-- An entry is made when the first dependency of the epoch is inserted.
unfoldable pub add_entry : Dependencies → List Dependencies → List Dependencies
add_entry d ds = elim d.raw [
  | [] ↦ (elim d.waw [ [] ↦ ds | (q ∷ qs) ↦ d ∷ ds ])
  | (q ∷ qs) ↦ d ∷ ds
]

-- The first epoch of the program has no producers, and is not visited.
unfoldable pub task_communication : List Epoch → Option (List Dependencies)
unfolding communicate add_entry
task_communication [] = some []
task_communication (e ∷ []) = some []
task_communication (e ∷ earlier ∷ es) = do
  d ← communicate e (earlier ∷ es)
  ds ← task_communication (earlier ∷ es)
  some (add_entry d ds)
