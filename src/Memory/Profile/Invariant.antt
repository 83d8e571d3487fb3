-- ===== src/Memory/Profile/Invariant.antt =====
-- What the memory handlers keep, and what they record.
use cyclebite.Base.{
  ℕ, ◌+◌, ◌≤◌, ◌<◌, ◌≡◌, ◌↔◌, ◌⊎◌, inl, inr, refl, true, List, [], ◌∷◌, Option, none, some, ltb,
  arith, All, Any, Bool-cases,
}
use cyclebite.Base.StdSet.{IsSorted}
use cyclebite.Memory.Tuple.{MemTuple, Owns, Fits}
use cyclebite.Memory.TupleSet.{TupleSet}
use cyclebite.Memory.TupleSet.Merge.{InWindow, IsTupleSet, merge_tuple_set-IsMerged}
use cyclebite.Memory.Epoch.{Epoch}
use cyclebite.Memory.Communication.LastWriter.{Writes, Reads, IsEpoch}
use cyclebite.Memory.Profile.{
  Profile, iid_less, add_write, add_read, on_current, merge_at, on_instruction,
}

-- An epoch of the machine, with the allocations that it made.
pub record IsTraced (lo : ℕ) (e : Epoch) : Type 0 where
  pub is_epoch : IsEpoch lo e
  pub allocations : All Fits e.malloc_ptrs

-- An active profile. The epochs that ended are ordered by their identifiers, all below that of the
-- current one.
pub record IsProfile (lo : ℕ) (s : Profile) : Type 0 where
  pub active : s.active ≡ true
  pub traced : All (IsTraced lo) s.epochs
  pub ordered : IsSorted iid_less s.epochs
  pub epoch : Epoch
  pub is_current : s.current ≡ some epoch
  pub current_traced : IsTraced lo epoch
  pub latest : All (λ p. iid_less p epoch ≡ true) s.epochs
  pub next : epoch.iid < s.next_iid
  pub instructions : All (λ (i : ℕ × TupleSet). IsTupleSet lo (i.1)) s.inst_to_tuple

-- What holds of the epoch that an option holds.
abbrev pub Held : (Epoch → Type 0) → Option Epoch → Type 0
Held P none = ⊥
Held P (some e) = P e

-- What holds of an epoch that ended or of the current one.
abbrev pub Somewhere : (Epoch → Type 0) → Profile → Type 0
Somewhere P s = Any P s.epochs ⊎ Held P s.current

abbrev pub Wrote : Profile → ℕ → Type 0
Wrote s a = Somewhere (λ e. Writes e a) s

abbrev pub Read : Profile → ℕ → Type 0
Read s a = Somewhere (λ e. Reads e a) s

-- From `s` to `s'` exactly the bytes W are written and the bytes R are read, in an active profile,
-- and at most `k` epochs begin.
pub record Records (lo k : ℕ) (W R : ℕ → Type 0) (s s' : Profile) : Type 0 where
  pub is_profile : IsProfile lo s'
  pub writes : (a : ℕ) → Wrote s' a ↔ (Wrote s a ⊎ W a)
  pub reads : (a : ℕ) → Read s' a ↔ (Read s a ⊎ R a)
  pub begun : s'.next_iid ≤ k + s.next_iid

pub Held-eq : (P : Epoch → Type 0) (o : Option Epoch) (e : Epoch) → o ≡ some e → Held P o ↔ P e
Held-eq P o e h = rw h (λ x. x, λ x. x)

-- An epoch to which something was added.
pub record Adds (lo : ℕ) (W R : ℕ → Type 0) (e e' : Epoch) : Type 0 where
  pub is_traced : IsTraced lo e'
  pub iid : e'.iid ≡ e.iid
  pub writes : (a : ℕ) → Writes e' a ↔ (Writes e a ⊎ W a)
  pub reads : (a : ℕ) → Reads e' a ↔ (Reads e a ⊎ R a)

abbrev pub Nothing : ℕ → Type 0
Nothing a = ⊥

pub iff-nothing : (A : Type 0) → A ↔ (A ⊎ ⊥)
iff-nothing A = (inl, λ x. elim x [ inl a ↦ a | inr b ↦ absurd b ])

module _ (lo : ℕ) where
  pub add_write-Adds :
      (e : Epoch) (t : MemTuple)
      → IsTraced lo e
      → InWindow lo t
      → (e' : Epoch) × (add_write e t ≡ some e') × Adds lo (Owns t) Nothing e e'
  unfolding add_write
  add_write-Adds e t h w =
      let (r, ends, merged) =
        merge_tuple_set-IsMerged lo e.memory_data.w_tuples t h.is_epoch.writes w in
      (
        record e { memory_data = record (e.memory_data) { w_tuples = r } },
        rw ends refl,
        record {
          is_traced = record {
            is_epoch = record { reads = h.is_epoch.reads; writes = merged.is_set };
            allocations = h.allocations;
          };
          iid = refl;
          writes = merged.covers;
          reads = λ a. iff-nothing (Reads e a);
        },
      )

  pub add_read-Adds :
      (e : Epoch) (t : MemTuple)
      → IsTraced lo e
      → InWindow lo t
      → (e' : Epoch) × (add_read e t ≡ some e') × Adds lo Nothing (Owns t) e e'
  unfolding add_read
  add_read-Adds e t h w =
      let (r, ends, merged) =
        merge_tuple_set-IsMerged lo e.memory_data.r_tuples t h.is_epoch.reads w in
      (
        record e { memory_data = record (e.memory_data) { r_tuples = r } },
        rw ends refl,
        record {
          is_traced = record {
            is_epoch = record { reads = merged.is_set; writes = h.is_epoch.writes };
            allocations = h.allocations;
          };
          iid = refl;
          writes = λ a. iff-nothing (Writes e a);
          reads = merged.covers;
        },
      )

  -- The current epoch is replaced by one to which something was added.
  pub on_current-Records :
      (W R : ℕ → Type 0) (s : Profile) (f : Epoch → Option Epoch)
      → IsProfile lo s
      → ((e : Epoch) → IsTraced lo e → (e' : Epoch) × (f e ≡ some e') × Adds lo W R e e')
      → (s' : Profile) × (on_current s f ≡ some s') × Records lo 0 W R s s'
  unfolding on_current
  on_current-Records W R s f h adds =
      let (e', ends, a) = adds h.epoch h.current_traced in
      (
        record s { current = some e' },
        rw (h.is_current, ends, on_current) refl,
        record {
          is_profile = record {
            active = h.active;
            traced = h.traced;
            ordered = h.ordered;
            epoch = e';
            is_current = refl;
            current_traced = a.is_traced;
            latest = rw a.iid h.latest;
            next = rw a.iid h.next;
            instructions = h.instructions;
          };
          writes = λ b.
              ground (arith, a.writes b, Held-eq (λ e. Writes e b) s.current h.epoch h.is_current);
          reads = λ b.
              ground (arith, a.reads b, Held-eq (λ e. Reads e b) s.current h.epoch h.is_current);
          begun = omega arith;
        },
      )

  -- The set of an instruction.
  merge_at-IsTupleSet :
      (m : List (ℕ × TupleSet)) (k : ℕ) (t : MemTuple)
      → All (λ (i : ℕ × TupleSet). IsTupleSet lo (i.1)) m
      → InWindow lo t
      → (m' : List (ℕ × TupleSet)) × (merge_at m k t ≡ some m')
        × All (λ (i : ℕ × TupleSet). IsTupleSet lo (i.1)) m'
  unfolding merge_at
  merge_at-IsTupleSet [] k t h w =
      ((k, t ∷ []) ∷ [], refl, (record { sorted = (tt, tt); window = (w, tt) }, tt))
  merge_at-IsTupleSet ((j, ts) ∷ m) k t h w =
      let (m', later, v) = merge_at-IsTupleSet m k t h.1 w in
      let (r, ends, merged) = merge_tuple_set-IsMerged lo ts t h.0 w in
      elim (Bool-cases (ltb j k)) [
        | inl l ↦ ((j, ts) ∷ m', rw (l, later) refl, (h.0, v))
        | inr f ↦ elim (Bool-cases (ltb k j)) [
          | inl l ↦ (
            (k, t ∷ []) ∷ (j, ts) ∷ m,
            rw (f, l) refl,
            (record { sorted = (tt, tt); window = (w, tt) }, h),
          )
          | inr g ↦ ((j, r) ∷ m, rw (f, g, ends) refl, (merged.is_set, h.1))
        ]
      ]

  pub on_instruction-Records :
      (s : Profile) (k : ℕ) (t : MemTuple)
      → IsProfile lo s
      → InWindow lo t
      → (s' : Profile) × (on_instruction s k t ≡ some s') × Records lo 0 Nothing Nothing s s'
  unfolding on_instruction
  on_instruction-Records s k t h w =
      let (m, ends, v) = merge_at-IsTupleSet s.inst_to_tuple k t h.instructions w in
      (
        record s { inst_to_tuple = m },
        rw ends refl,
        record {
          is_profile = record {
            active = h.active;
            traced = h.traced;
            ordered = h.ordered;
            epoch = h.epoch;
            is_current = h.is_current;
            current_traced = h.current_traced;
            latest = h.latest;
            next = h.next;
            instructions = v;
          };
          writes = λ a. iff-nothing (Wrote s a);
          reads = λ a. iff-nothing (Read s a);
          begun = omega arith;
        },
      )

  pub Records-trans :
      {j k : ℕ} {W R W' R' : ℕ → Type 0} {s t u : Profile}
      → Records lo j W R s t
      → Records lo k W' R' t u
      → Records lo (k + j) (λ a. W a ⊎ W' a) (λ a. R a ⊎ R' a) s u
  Records-trans h k = record {
    is_profile = k.is_profile;
    writes = λ a. ground (arith, h.writes a, k.writes a);
    reads = λ a. ground (arith, h.reads a, k.reads a);
    begun = omega (arith, h.begun, k.begun);
  }

  pub Records-weaken :
      {j k : ℕ} {W R W' R' : ℕ → Type 0} {s t : Profile}
      → j ≤ k
      → ((a : ℕ) → W a ↔ W' a)
      → ((a : ℕ) → R a ↔ R' a)
      → Records lo j W R s t
      → Records lo k W' R' s t
  Records-weaken l w r h = record {
    is_profile = h.is_profile;
    writes = λ a. ground (arith, h.writes a, w a);
    reads = λ a. ground (arith, h.reads a, r a);
    begun = omega (arith, h.begun);
  }
