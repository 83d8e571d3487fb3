-- ===== src/Memory/Profile/Trace.antt =====
-- Every call of the profiled program keeps the profile in order and records the bytes of its range.
use cyclebite.Base.{
  ℕ, suc, ◌+◌, ◌^◌, ◌≤◌, ◌<◌, ◌≡◌, ◌↔◌, ◌⊎◌, inl, inr, refl, List, [], ◌∷◌, some, arith, All, Any,
  length, >>=-eq-some,
}
use cyclebite.Memory.Tuple.{MemType}
use cyclebite.Memory.Epoch.{empty_epoch, update_blocks, insert_at}
use cyclebite.Memory.Profile.{
  Profile, Event, increments, stores, loads, copies, moves, sets, mallocs, frees, memory_init, step,
  run,
}
use cyclebite.Memory.Profile.Invariant.{
  IsProfile, Wrote, Read, Records, iff-nothing, Records-trans, Records-weaken,
}
use cyclebite.Memory.Profile.Blocks.{increment-Records}
use cyclebite.Memory.Profile.Calls.{
  IsEvent, Outcome, store-Outcome, load-Outcome, copy-Records, set-Outcome, malloc-Outcome,
  free-Outcome,
}
use cyclebite.Memory.Profile.Touched.{
  Stores, StoresBeyond, Loads, LoadsBeyond, written_iff, read_iff,
}

init-next :
    (boundaries : List (ℕ × ℕ)) (iid a : ℕ) → (memory_init boundaries iid a).next_iid ≤ iid + 1
unfolding memory_init
init-next boundaries iid a = omega arith

module _ (lo : ℕ) where
  step-Outcome :
      (s : Profile) (ev : Event)
      → IsProfile lo s
      → IsEvent lo ev
      → suc s.next_iid < 2 ^ 64
      → Outcome lo s ev
  unfolding step
  step-Outcome s (increments a) h w b = increment-Records lo s a h b
  step-Outcome s (stores address value size) h w b = store-Outcome lo s address value size h w
  step-Outcome s (loads address value size) h w b = load-Outcome lo s address value size h w
  step-Outcome s (copies src snk size) h w b =
      copy-Records lo MemType.memcpy s src snk size h w.1.0 w.0.0
  step-Outcome s (moves src snk size) h w b =
      copy-Records lo MemType.memmov s src snk size h w.1.0 w.0.0
  step-Outcome s (sets ptr size) h w b = set-Outcome lo s ptr size h w
  step-Outcome s (mallocs ptr size) h w b = malloc-Outcome lo s ptr size h w
  step-Outcome s (frees ptr) h w b = free-Outcome lo s ptr h

  -- Every call of the program under test, in the window, leads from an active profile of the
  -- machine to such a profile, unless the identifiers of the epochs run out: the ranges stay
  -- ordered and disjoint in each epoch and each instruction, the epochs ordered by their
  -- identifiers, and over all epochs exactly these bytes are added: those that the call writes and
  -- reads, its size taken modulo 2 ^ 32, and besides them the one byte after the range of a load
  -- or store, and 2 ^ 32 bytes at each address of a copy or memset whose size is 0.
  pub step-Records :
      (s : Profile) (ev : Event)
      → IsProfile lo s
      → IsEvent lo ev
      → suc s.next_iid < 2 ^ 64
      → (s' : Profile) × (step s ev ≡ some s')
        × Records lo 1
            (λ a. Stores ev a ⊎ StoresBeyond ev a)
            (λ a. Loads ev a ⊎ LoadsBeyond ev a)
            s
            s'
  step-Records s ev h w b =
      let (s', ends, r) = step-Outcome s ev h w b in
      (s', ends, Records-weaken lo (omega arith) (written_iff ev) (read_iff ev) r)

  run-Records :
      (s : Profile) (es : List Event)
      → IsProfile lo s
      → All (IsEvent lo) es
      → length es + s.next_iid < 2 ^ 64
      → (s' : Profile) × (run s es ≡ some s')
        × Records lo
            (length es)
            (λ a. Any (λ ev. Stores ev a ⊎ StoresBeyond ev a) es)
            (λ a. Any (λ ev. Loads ev a ⊎ LoadsBeyond ev a) es)
            s
            s'
  unfolding run
  run-Records s [] h w b = (
    s,
    refl,
    record {
      is_profile = h;
      writes = λ a. iff-nothing (Wrote s a);
      reads = λ a. iff-nothing (Read s a);
      begun = omega arith;
    },
  )
  run-Records s (ev ∷ es) h w b =
      let (t, first, one) = step-Records s ev h w.0 (omega arith) in
      let (s', rest, more) = run-Records t es one.is_profile w.1 (omega (arith, one.begun)) in
      (
        s',
        >>=-eq-some _ first rest,
        Records-weaken lo (omega arith) (λ a. (λ o. o, λ o. o)) (λ a. (λ o. o, λ o. o))
            (Records-trans lo one more),
      )

  pub init-IsProfile :
      (boundaries : List (ℕ × ℕ)) (iid a : ℕ)
      → iid + 1 < 2 ^ 64
      → IsProfile lo (memory_init boundaries iid a)
  unfolding memory_init update_blocks
  init-IsProfile boundaries iid a b = record {
    active = refl;
    traced = tt;
    ordered = tt;
    epoch =
        let e = update_blocks (empty_epoch iid) a in
        record e { entrances = insert_at e.entrances a a };
    is_current = refl;
    current_traced = record {
      is_epoch = record {
        reads = record { sorted = tt; window = tt };
        writes = record { sorted = tt; window = tt };
      };
      allocations = tt;
    };
    latest = tt;
    next = omega arith;
    instructions = tt;
  }

  init-Wrote :
      (boundaries : List (ℕ × ℕ)) (iid a b : ℕ)
      → (¬ Wrote (memory_init boundaries iid a) b) × (¬ Read (memory_init boundaries iid a) b)
  unfolding memory_init update_blocks
  init-Wrote boundaries iid a b =
      (λ h. elim h [ inl x ↦ x | inr y ↦ y ], λ h. elim h [ inl x ↦ x | inr y ↦ y ])

  -- From MemoryInit on, a run of the program under test whose accesses lie in the window never
  -- fails, as long as the identifiers of the epochs do not run out. At its end the profile is in
  -- order, and the epochs hold exactly the bytes that the calls wrote and read, their sizes taken
  -- modulo 2 ^ 32, and these bytes more: the one after the range of each load or store, and 2 ^ 32
  -- bytes at each address of a copy or memset whose size is 0.
  pub run-memory_init :
      (boundaries : List (ℕ × ℕ)) (iid a : ℕ) (es : List Event)
      → All (IsEvent lo) es
      → length es + iid + 1 < 2 ^ 64
      → (s : Profile) × (run (memory_init boundaries iid a) es ≡ some s)
        × IsProfile lo s
        × ((b : ℕ) → Wrote s b ↔ Any (λ ev. Stores ev b ⊎ StoresBeyond ev b) es)
        × ((b : ℕ) → Read s b ↔ Any (λ ev. Loads ev b ⊎ LoadsBeyond ev b) es)
  run-memory_init boundaries iid a es w b =
      let first = init-IsProfile boundaries iid a (omega arith) in
      let (s, ends, h) =
        run-Records (memory_init boundaries iid a) es first w
          (omega (arith, init-next boundaries iid a)) in
      (
        s,
        ends,
        h.is_profile,
        λ c. ground (arith, h.writes c, init-Wrote boundaries iid a c),
        λ c. ground (arith, h.reads c, init-Wrote boundaries iid a c),
      )
