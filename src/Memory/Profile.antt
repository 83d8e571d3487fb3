-- ===== src/Memory/Profile.antt =====
-- The handlers that the profiled program calls (Profile/Backend/Memory/Memory.cpp), as functions
-- on the profiler's state. An int64_t and a pointer are bit patterns. `none` is a null dereference
-- (the loops of merge_tuple_set always end). The byte counter and the log are left out.
pub mod Boundaries
pub mod Process
pub mod Invariant
pub mod Blocks
pub mod Calls
pub mod Touched
pub mod Trace
pub mod Whole
use cyclebite.Base.{
  ℕ, ◌+◌, ◌-◌, ◌%◌, ◌^◌, Bool, true, false, ◌&&◌, ◌||◌, List, [], ◌∷◌, Option, none, some, ◌>>=◌,
  ltb, ◌==◌, if◌then◌else◌,
}
use cyclebite.Base.StdSet
use cyclebite.Memory.Tuple.{MemType, MemTuple, na}
use cyclebite.Memory.TupleSet.{TupleSet, merge_tuple_set, insert}
use cyclebite.Memory.Epoch.{Epoch, Iteration, empty_epoch, insert_at, update_blocks}

pub record Profile : Type 0 where
  pub active : Bool
  pub boundaries : List (ℕ × ℕ)
  pub epochs : List Epoch
  pub current : Option Epoch
  pub last_block : ℕ
  pub inst_to_tuple : List (ℕ × TupleSet)
  pub next_iid : ℕ

-- The order of UIDCompare.
abbrev pub iid_less : Epoch → Epoch → Bool
iid_less a b = ltb a.iid b.iid

-- epochBoundaries.find(edge) != epochBoundaries.end()
unfoldable pub is_boundary : List (ℕ × ℕ) → ℕ → ℕ → Bool
is_boundary [] src snk = false
is_boundary ((a, b) ∷ es) src snk = (a == src && b == snk) || is_boundary es src snk

-- MemoryInit, with the boundaries that FindEpochBoundaries found in the kernel file.
unfoldable pub memory_init : List (ℕ × ℕ) → ℕ → ℕ → Profile
memory_init boundaries iid a = record {
  active = true;
  boundaries = boundaries;
  epochs = [];
  current = some (
      let e = update_blocks (empty_epoch iid) a in
      record e { entrances = insert_at e.entrances a a });
  last_block = a;
  inst_to_tuple = [];
  next_iid = (iid + 1) % 2 ^ 64;
}

-- The epoch that begins when `a` is entered from `last`.
unfoldable pub enter_epoch : ℕ → ℕ → ℕ → Epoch
enter_epoch iid last a =
    let e = update_blocks (empty_epoch iid) a in
    record e { entrances = insert_at e.entrances last a }

-- The branches of MemoryIncrement on an active profile, at the current epoch.
unfoldable pub cross : Profile → Epoch → ℕ → Profile
unfolding enter_epoch
cross s e a = record s {
  epochs = StdSet.insert iid_less s.epochs (record e { exits = insert_at e.exits s.last_block a });
  current = some (enter_epoch s.next_iid s.last_block a);
  next_iid = (s.next_iid + 1) % 2 ^ 64;
  last_block = a;
}

unfoldable pub stay : Profile → Epoch → ℕ → Profile
stay s e a = record s { current = some (update_blocks e a); last_block = a }

unfoldable pub memory_increment : Profile → ℕ → Option Profile
memory_increment s a =
    if s.active
    then (do
      e ← s.current
      some (if is_boundary s.boundaries s.last_block a then cross s e a else stay s e a))
    else some s

-- A tuple with the reference count 0, as the handlers make it.
abbrev pub fresh_tuple : MemType → ℕ → ℕ → MemTuple
fresh_tuple type base offset = record {
  type = type;
  access = na;
  base = base;
  offset = offset;
  ref_count = 0;
}

-- merge_tuple_set on the writes, or on the reads, of an epoch.
unfoldable pub add_write : Epoch → MemTuple → Option Epoch
add_write e t = do
  w ← merge_tuple_set e.memory_data.w_tuples t
  some (record e { memory_data = record (e.memory_data) { w_tuples = w } })

unfoldable pub add_read : Epoch → MemTuple → Option Epoch
add_read e t = do
  r ← merge_tuple_set e.memory_data.r_tuples t
  some (record e { memory_data = record (e.memory_data) { r_tuples = r } })

-- if( currentEpoch ) { … }
unfoldable pub on_current : Profile → (Epoch → Option Epoch) → Option Profile
on_current s f = elim s.current [
  | none ↦ some s
  | some e ↦ f e >>= λ e'. some (record s { current = some e' })
]

-- The update of instToTuple.
unfoldable pub merge_at : List (ℕ × TupleSet) → ℕ → MemTuple → Option (List (ℕ × TupleSet))
merge_at [] k t = some ((k, t ∷ []) ∷ [])
merge_at ((j, ts) ∷ m) k t =
    let later = merge_at m k t >>= λ m'. some ((j, ts) ∷ m') in
    if ltb j k
    then later
    else if ltb k j
    then some ((k, t ∷ []) ∷ (j, ts) ∷ m)
    else (merge_tuple_set ts t >>= λ ts'. some ((j, ts') ∷ m))

unfoldable pub on_instruction : Profile → ℕ → MemTuple → Option Profile
unfolding merge_at
on_instruction s value t = do
  m ← merge_at s.inst_to_tuple value t
  some (record s { inst_to_tuple = m })

unfoldable pub memory_store : Profile → ℕ → ℕ → ℕ → Option Profile
unfolding on_current
memory_store s address value size =
    if s.active
    then (do
      s' ← on_current s (λ e. add_write e (fresh_tuple MemType.writer address (size % 2 ^ 32)))
      on_instruction s' value (fresh_tuple MemType.writer address (size % 2 ^ 32)))
    else some s

unfoldable pub memory_load : Profile → ℕ → ℕ → ℕ → Option Profile
unfolding on_current
memory_load s address value size =
    if s.active
    then (do
      s' ← on_current s (λ e. add_read e (fresh_tuple MemType.reader address (size % 2 ^ 32)))
      on_instruction s' value (fresh_tuple MemType.reader address (size % 2 ^ 32)))
    else some s

-- (uint32_t)dataSize-1, on uint32_t
abbrev pub last_offset : ℕ → ℕ
last_offset size = (size % 2 ^ 32 + 2 ^ 32 - 1) % 2 ^ 32

-- MemoryCpy and MemoryMov: the read of the source, then the write of the sink.
unfoldable pub memory_copy : MemType → Profile → ℕ → ℕ → ℕ → Option Profile
unfolding on_current
memory_copy type s src snk size = do
  s' ← on_current s (λ e. add_read e (fresh_tuple type src (last_offset size)))
  on_current s' (λ e. add_write e (fresh_tuple type snk (last_offset size)))

abbrev pub memory_cpy : Profile → ℕ → ℕ → ℕ → Option Profile
memory_cpy = memory_copy MemType.memcpy

abbrev pub memory_mov : Profile → ℕ → ℕ → ℕ → Option Profile
memory_mov = memory_copy MemType.memmov

unfoldable pub memory_set : Profile → ℕ → ℕ → Option Profile
unfolding on_current
memory_set s ptr size =
    on_current s (λ e. add_write e (fresh_tuple MemType.memset ptr (last_offset size)))

unfoldable pub memory_malloc : Profile → ℕ → ℕ → Option Profile
unfolding on_current
memory_malloc s ptr size = on_current s λ e. some (record e {
  malloc_ptrs = insert e.malloc_ptrs (fresh_tuple MemType.malloc ptr (last_offset size));
})

unfoldable pub memory_free : Profile → ℕ → Option Profile
unfolding on_current
memory_free s ptr =
    on_current s λ e. some (record e { free_ptrs = StdSet.insert ltb e.free_ptrs ptr })

-- MemoryDestroy, up to the processing of the epochs: the current epoch is the last one.
unfoldable pub memory_destroy : Profile → Option Profile
memory_destroy s = do
  e ← s.current
  some (record s { epochs = StdSet.insert iid_less s.epochs e; active = false })

-- The calls of the program under test.
pub data Event : Type 0 where
  increments : ℕ → Event
  stores loads : ℕ → ℕ → ℕ → Event
  copies moves : ℕ → ℕ → ℕ → Event
  sets mallocs : ℕ → ℕ → Event
  frees : ℕ → Event

unfoldable pub step : Profile → Event → Option Profile
step s (increments a) = memory_increment s a
step s (stores address value size) = memory_store s address value size
step s (loads address value size) = memory_load s address value size
step s (copies src snk size) = memory_cpy s src snk size
step s (moves src snk size) = memory_mov s src snk size
step s (sets ptr size) = memory_set s ptr size
step s (mallocs ptr size) = memory_malloc s ptr size
step s (frees ptr) = memory_free s ptr

unfoldable pub run : Profile → List Event → Option Profile
run s [] = some s
run s (e ∷ es) = do s' ← step s e; run s' es
