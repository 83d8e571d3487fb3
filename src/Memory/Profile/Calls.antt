-- ===== src/Memory/Profile/Calls.antt =====
-- The calls that touch memory keep the profile in order and record exactly their bytes.
use cyclebite.Base.{
  ℕ, ◌%◌, ◌^◌, ◌≡◌, refl, List, [], ◌∷◌, some, ltb, arith, All, Any, >>=-eq-some, if-eq_true, ◌∙◌,
}
use cyclebite.Base.StdSet
use cyclebite.Base.StdSet.{IsSorted, IsOrder}
use cyclebite.Base.StdSet.Laws.{All-insert}
use cyclebite.Memory.Tuple.{MemType, MemTuple, mt_compare, Owns, Fits}
use cyclebite.Memory.TupleSet.{insert}
use cyclebite.Memory.TupleSet.Merge.{InWindow}
use cyclebite.Memory.Epoch.{Epoch}
use cyclebite.Memory.Communication.LastWriter.{Writes, Reads}
use cyclebite.Memory.Profile.{
  Profile, Event, increments, stores, loads, copies, moves, sets, mallocs, frees, fresh_tuple,
  last_offset, add_write, add_read, memory_store, memory_load, memory_copy, memory_set,
  memory_malloc, memory_free, step,
}
use cyclebite.Memory.Profile.Invariant.{
  IsTraced, IsProfile, Records, Adds, Nothing, iff-nothing, add_write-Adds, add_read-Adds,
  on_current-Records, on_instruction-Records, Records-trans, Records-weaken,
}

-- The tuples that an event writes and reads.
abbrev pub written : Event → List MemTuple
written (increments a) = []
written (stores address value size) = fresh_tuple MemType.writer address (size % 2 ^ 32) ∷ []
written (loads address value size) = []
written (copies src snk size) = fresh_tuple MemType.memcpy snk (last_offset size) ∷ []
written (moves src snk size) = fresh_tuple MemType.memmov snk (last_offset size) ∷ []
written (sets ptr size) = fresh_tuple MemType.memset ptr (last_offset size) ∷ []
written (mallocs ptr size) = []
written (frees ptr) = []

abbrev pub read : Event → List MemTuple
read (increments a) = []
read (stores address value size) = []
read (loads address value size) = fresh_tuple MemType.reader address (size % 2 ^ 32) ∷ []
read (copies src snk size) = fresh_tuple MemType.memcpy src (last_offset size) ∷ []
read (moves src snk size) = fresh_tuple MemType.memmov src (last_offset size) ∷ []
read (sets ptr size) = []
read (mallocs ptr size) = []
read (frees ptr) = []

abbrev pub allocated : Event → List MemTuple
allocated (mallocs ptr size) = fresh_tuple MemType.malloc ptr (last_offset size) ∷ []
allocated _ = []

-- The ranges of an event lie within the window.
abbrev pub IsEvent : ℕ → Event → Type 0
IsEvent lo e = All (InWindow lo) (written e) × All (InWindow lo) (read e) × All Fits (allocated e)

-- The bytes of a list of tuples.
abbrev pub Bytes : List MemTuple → ℕ → Type 0
Bytes ts a = Any (λ t. Owns t a) ts

module _ (lo : ℕ) where
  abbrev pub Outcome : Profile → Event → Type 0
  Outcome s ev =
      (s' : Profile) × (step s ev ≡ some s')
      × Records lo 1 (Bytes (written ev)) (Bytes (read ev)) s s'

  pub store-Outcome :
      (s : Profile) (address value size : ℕ)
      → IsProfile lo s
      → IsEvent lo (stores address value size)
      → Outcome s (stores address value size)
  unfolding step memory_store
  store-Outcome s address value size h w =
      let t = fresh_tuple MemType.writer address (size % 2 ^ 32) in
      let (u, first, added) =
        on_current-Records lo (Owns t) Nothing s (λ e. add_write e t) h
          (λ e k. add_write-Adds lo e t k w.0.0) in
      let (s', second, kept) = on_instruction-Records lo u value t added.is_profile w.0.0 in
      (
        s',
        if-eq_true _ _ h.active ∙ >>=-eq-some _ first second,
        Records-weaken lo (omega arith) (λ a. (λ o. o, λ o. o)) (λ a. ground arith)
            (Records-trans lo added kept),
      )

  pub load-Outcome :
      (s : Profile) (address value size : ℕ)
      → IsProfile lo s
      → IsEvent lo (loads address value size)
      → Outcome s (loads address value size)
  unfolding step memory_load
  load-Outcome s address value size h w =
      let t = fresh_tuple MemType.reader address (size % 2 ^ 32) in
      let (u, first, added) =
        on_current-Records lo Nothing (Owns t) s (λ e. add_read e t) h
          (λ e k. add_read-Adds lo e t k w.1.0) in
      let (s', second, kept) = on_instruction-Records lo u value t added.is_profile w.1.0 in
      (
        s',
        if-eq_true _ _ h.active ∙ >>=-eq-some _ first second,
        Records-weaken lo (omega arith) (λ a. ground arith) (λ a. (λ o. o, λ o. o))
            (Records-trans lo added kept),
      )

  pub copy-Records :
      (type : MemType) (s : Profile) (src snk size : ℕ)
      → IsProfile lo s
      → InWindow lo (fresh_tuple type src (last_offset size))
      → InWindow lo (fresh_tuple type snk (last_offset size))
      → (s' : Profile) × (memory_copy type s src snk size ≡ some s')
        × Records lo 1
            (Bytes (fresh_tuple type snk (last_offset size) ∷ []))
            (Bytes (fresh_tuple type src (last_offset size) ∷ []))
            s
            s'
  unfolding memory_copy
  copy-Records type s src snk size h v w =
      let r = fresh_tuple type src (last_offset size) in
      let t = fresh_tuple type snk (last_offset size) in
      let (u, first, added) =
        on_current-Records lo Nothing (Owns r) s (λ e. add_read e r) h
          (λ e k. add_read-Adds lo e r k v) in
      let (s', second, more) =
        on_current-Records lo (Owns t) Nothing u (λ e. add_write e t) added.is_profile
          (λ e k. add_write-Adds lo e t k w) in
      (
        s',
        >>=-eq-some _ first second,
        Records-weaken lo (omega arith) (λ a. ground arith) (λ a. (λ o. o, λ o. o))
            (Records-trans lo added more),
      )

  pub set-Outcome :
      (s : Profile) (ptr size : ℕ)
      → IsProfile lo s
      → IsEvent lo (sets ptr size)
      → Outcome s (sets ptr size)
  unfolding step memory_set
  set-Outcome s ptr size h w =
      let t = fresh_tuple MemType.memset ptr (last_offset size) in
      let (s', first, added) =
        on_current-Records lo (Owns t) Nothing s (λ e. add_write e t) h
          (λ e k. add_write-Adds lo e t k w.0.0) in
      (s', first, Records-weaken lo (omega arith) (λ a. ground arith) (λ a. (λ o. o, λ o. o)) added)

  -- An epoch whose ranges stay as they are.
  same-Adds :
      (e e' : Epoch)
      → IsTraced lo e
      → e'.iid ≡ e.iid
      → e'.memory_data ≡ e.memory_data
      → All Fits e'.malloc_ptrs
      → Adds lo Nothing Nothing e e'
  same-Adds e e' h i m f = record {
    is_traced = record {
      is_epoch = record { reads = rw m h.is_epoch.reads; writes = rw m h.is_epoch.writes };
      allocations = f;
    };
    iid = i;
    writes = λ a. rw m (iff-nothing (Writes e a));
    reads = λ a. rw m (iff-nothing (Reads e a));
  }

  pub malloc-Outcome :
      (s : Profile) (ptr size : ℕ)
      → IsProfile lo s
      → IsEvent lo (mallocs ptr size)
      → Outcome s (mallocs ptr size)
  unfolding step memory_malloc
  malloc-Outcome s ptr size h w =
      let t = fresh_tuple MemType.malloc ptr (last_offset size) in
      let (s', first, added) =
        on_current-Records lo Nothing Nothing s
          (λ e. some (record e { malloc_ptrs = insert e.malloc_ptrs t })) h
          (λ e k. (
            record e { malloc_ptrs = insert e.malloc_ptrs t },
            refl,
            same-Adds e (record e { malloc_ptrs = insert e.malloc_ptrs t }) k refl refl
                (All-insert mt_compare Fits e.malloc_ptrs t k.allocations w.2.0),
          )) in
      (
        s',
        first,
        Records-weaken lo (omega arith) (λ a. (λ o. o, λ o. o)) (λ a. (λ o. o, λ o. o)) added,
      )

  pub free-Outcome : (s : Profile) (ptr : ℕ) → IsProfile lo s → Outcome s (frees ptr)
  unfolding step memory_free
  free-Outcome s ptr h =
      let (s', first, added) =
        on_current-Records lo Nothing Nothing s
          (λ e. some (record e { free_ptrs = StdSet.insert ltb e.free_ptrs ptr })) h
          (λ e k. (
            record e { free_ptrs = StdSet.insert ltb e.free_ptrs ptr },
            refl,
            same-Adds e (record e { free_ptrs = StdSet.insert ltb e.free_ptrs ptr }) k refl refl
                k.allocations,
          )) in
      (
        s',
        first,
        Records-weaken lo (omega arith) (λ a. (λ o. o, λ o. o)) (λ a. (λ o. o, λ o. o)) added,
      )
