-- ===== src/Memory/Profile/Blocks.antt =====
-- MemoryIncrement keeps the profile in order and records no bytes.
use cyclebite.Base.{
  ℕ, suc, ◌^◌, ◌<◌, ◌≡◌, inl, inr, refl, true, some, ltb, arith, All-map, Bool-cases, ltb_iff,
}
use cyclebite.Base.StdSet.{IsOrder}
use cyclebite.Base.StdSet.Laws.{Apart, All-insert, IsSorted-insert, Any-insert}
use cyclebite.Memory.Epoch.{Epoch, update_blocks, insert_at}
use cyclebite.Memory.Communication.LastWriter.{Writes, Reads}
use cyclebite.Memory.Profile.{
  Profile, iid_less, is_boundary, enter_epoch, cross, stay, memory_increment,
}
use cyclebite.Memory.Profile.Invariant.{IsTraced, IsProfile, Held-eq, Records, Nothing}

pub iid_less-IsOrder : IsOrder iid_less
iid_less-IsOrder = record { irrefl = λ e. ground arith; trans = λ a b c h k. ground arith }

module _ (lo : ℕ) where
  enter_epoch-IsTraced : (iid last a : ℕ) → IsTraced lo (enter_epoch iid last a)
  unfolding enter_epoch update_blocks
  enter_epoch-IsTraced iid last a = record {
    is_epoch = record {
      reads = record { sorted = tt; window = tt };
      writes = record { sorted = tt; window = tt };
    };
    allocations = tt;
  }

  stay-Records :
      (s : Profile) (h : IsProfile lo s) (a : ℕ) → Records lo 1 Nothing Nothing s (stay s h.epoch a)
  unfolding stay update_blocks
  stay-Records s h a = record {
    is_profile = record {
      active = h.active;
      traced = h.traced;
      ordered = h.ordered;
      epoch = update_blocks h.epoch a;
      is_current = refl;
      current_traced = record {
        is_epoch = record {
          reads = h.current_traced.is_epoch.reads;
          writes = h.current_traced.is_epoch.writes;
        };
        allocations = h.current_traced.allocations;
      };
      latest = h.latest;
      next = h.next;
      instructions = h.instructions;
    };
    writes = λ b. ground (arith, Held-eq (λ e. Writes e b) s.current h.epoch h.is_current);
    reads = λ b. ground (arith, Held-eq (λ e. Reads e b) s.current h.epoch h.is_current);
    begun = omega arith;
  }

  cross-Records :
      (s : Profile) (h : IsProfile lo s) (a : ℕ)
      → suc s.next_iid < 2 ^ 64
      → Records lo 1 Nothing Nothing s (cross s h.epoch a)
  unfolding cross enter_epoch update_blocks
  cross-Records s h a b =
      let old : Epoch = record (h.epoch) { exits = insert_at h.epoch.exits s.last_block a } in
      let apart =
        All-map (λ p. iid_less p h.epoch ≡ true) (λ p. Apart iid_less p old) (λ p l. inl l) s.epochs
          h.latest in
      let moved = λ (P : Epoch → Type 0).
        Any-insert iid_less iid_less-IsOrder P s.epochs old h.ordered apart in
      record {
        is_profile = record {
          active = h.active;
          traced = All-insert iid_less (IsTraced lo) s.epochs old h.traced (record {
            is_epoch = record {
              reads = h.current_traced.is_epoch.reads;
              writes = h.current_traced.is_epoch.writes;
            };
            allocations = h.current_traced.allocations;
          });
          ordered = IsSorted-insert iid_less iid_less-IsOrder s.epochs old h.ordered;
          epoch = enter_epoch s.next_iid s.last_block a;
          is_current = refl;
          current_traced = enter_epoch-IsTraced s.next_iid s.last_block a;
          latest =
              All-insert iid_less (λ p. ltb p.iid s.next_iid ≡ true) s.epochs old
                (All-map _ _ (λ p l. below p h.epoch s.next_iid l h.next) s.epochs h.latest)
                ((ltb_iff h.epoch.iid s.next_iid).1 h.next);
          next = omega arith;
          instructions = h.instructions;
        };
        writes = λ c. ground (
          arith,
          moved (λ e. Writes e c),
          Held-eq (λ e. Writes e c) s.current h.epoch h.is_current,
        );
        reads = λ c. ground (
          arith,
          moved (λ e. Reads e c),
          Held-eq (λ e. Reads e c) s.current h.epoch h.is_current,
        );
        begun = omega arith;
      }
    where
      below : (p e : Epoch) (n : ℕ) → iid_less p e ≡ true → e.iid < n → ltb p.iid n ≡ true
      below p e n l k = ground arith

  pub increment-Records :
      (s : Profile) (a : ℕ)
      → IsProfile lo s
      → suc s.next_iid < 2 ^ 64
      → (s' : Profile) × (memory_increment s a ≡ some s') × Records lo 1 Nothing Nothing s s'
  unfolding memory_increment
  increment-Records s a h b = elim (Bool-cases (is_boundary s.boundaries s.last_block a)) [
    | inl e ↦ (cross s h.epoch a, rw (h.active, h.is_current, e) refl, cross-Records s h a b)
    | inr e ↦ (stay s h.epoch a, rw (h.active, h.is_current, e) refl, stay-Records s h a)
  ]
