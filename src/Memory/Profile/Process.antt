-- ===== src/Memory/Profile/Process.antt =====
-- ProcessEpochBoundaries (Profile/Backend/Memory/Processing.cpp): an epoch gets the kernel that
-- more than half of its blocks belong to, sets of small ranges are dropped, and the ranges that the
-- epoch allocated and freed are taken out. The test on floats is that on the two counts, which it
-- agrees with below 2^23 blocks.
use cyclebite.Base.{
  ℕ, ◌+◌, ◌-◌, ◌*◌, ◌%◌, ◌^◌, ◌<◌, ◌≡◌, ◌⊎◌, inl, inr, refl, Bool, true, false, ◌||◌, List, [], ◌∷◌,
  Option, none, some, ◌>>=◌, ltb, if◌then◌else◌, arith, All, Any, length, count, Bool-cases,
  >>=-eq-some, map,
}
use cyclebite.Base.NatSet.{contains}
use cyclebite.Memory.Tuple.{MemTuple, Owns, Fits}
use cyclebite.Memory.Tuple.Exclusion.{Keeps}
use cyclebite.Memory.TupleSet.{TupleSet, remove_tuple_set, Covers}
use cyclebite.Memory.TupleSet.Merge.{IsTupleSet}
use cyclebite.Memory.TupleSet.Remove.{remove_tuple_set-IsRemoved, IsRemoved-Covers}
use cyclebite.Memory.Epoch.{Epoch, Iteration}
use cyclebite.Memory.Communication.{min_tuple_offset}
use cyclebite.Memory.Communication.Window.{IsTupleSet-of_Covers, IsTupleSet-IsOrdered}
use cyclebite.Memory.Communication.LastWriter.{Writes, Reads, IsEpoch}
use cyclebite.Memory.Profile.Invariant.{IsTraced}

-- The cast of an identifier of 64 bits to an int, which find takes for 64 bits again.
abbrev pub as_int : ℕ → ℕ
as_int id = if ltb (id % 2 ^ 32) (2 ^ 31) then id % 2 ^ 32 else id % 2 ^ 32 + (2 ^ 64 - 2 ^ 32)

-- The kernel of the first candidate that more than half of the blocks belong to. Its identifier is cast
-- to an int, and looked up in the set of kernels, which are their identifiers here: `none` stands for the behaviour of the source, which
-- is not defined, where it is not there and the end of the set is dereferenced.
unfoldable pub match_kernel : List ℕ → List (ℕ × List ℕ) → List ℕ → Option ℕ → Option (Option ℕ)
unfolding contains
match_kernel kernels [] blocks kernel = some kernel
match_kernel kernels ((id, members) ∷ rest) blocks kernel =
    if ltb (length blocks) (2 * count (contains members) blocks)
    then (if contains kernels (as_int id) then some (some (as_int id)) else none)
    else match_kernel kernels rest blocks kernel

-- Every task candidate has a kernel.
abbrev pub HaveKernels : List ℕ → List (ℕ × List ℕ) → Type 0
HaveKernels kernels candidates = All (λ c. contains kernels (as_int c.0) ≡ true) candidates

kernel_matched :
    (kernels : List ℕ) (candidates : List (ℕ × List ℕ)) (blocks : List ℕ) (kernel : Option ℕ)
    → HaveKernels kernels candidates
    → (k : Option ℕ) × (match_kernel kernels candidates blocks kernel ≡ some k)
unfolding match_kernel
kernel_matched kernels [] blocks kernel h = (kernel, refl)
kernel_matched kernels ((id, members) ∷ rest) blocks kernel h =
    let (k, e) = kernel_matched kernels rest blocks kernel h.1 in
    elim (Bool-cases (ltb (length blocks) (2 * count (contains members) blocks))) [
      | inl most ↦ (some (as_int id), rw most (rw (h.0) refl))
      | inr few ↦ (k, rw few e)
    ]

unfoldable pub has_large : TupleSet → Bool
has_large [] = false
has_large (t ∷ ts) = ltb min_tuple_offset t.offset || has_large ts

unfoldable pub drop_small : TupleSet → TupleSet
unfolding has_large
drop_small ts = if has_large ts then ts else []

-- The removal of one allocation, from the writes and then from the reads.
unfoldable pub remove_allocation : MemTuple → Iteration → Option Iteration
remove_allocation alloc m = do
  w ← remove_tuple_set m.w_tuples alloc
  r ← remove_tuple_set m.r_tuples alloc
  some (record { r_tuples = r; w_tuples = w })

unfoldable pub remove_freed : List MemTuple → List ℕ → Iteration → Option Iteration
unfolding contains
remove_freed [] frees m = some m
remove_freed (alloc ∷ rest) frees m = do
  m' ← (if contains frees alloc.base then remove_allocation alloc m else some m)
  remove_freed rest frees m'

unfoldable pub process_epoch : List ℕ → List (ℕ × List ℕ) → Epoch → Option Epoch
unfolding match_kernel drop_small remove_freed
process_epoch kernels candidates e = do
  k ← match_kernel kernels candidates e.blocks e.kernel
  m ← remove_freed e.malloc_ptrs e.free_ptrs (record {
    r_tuples = drop_small e.memory_data.r_tuples;
    w_tuples = drop_small e.memory_data.w_tuples;
  })
  some (record e { kernel = k; memory_data = m })

unfoldable pub process_epoch_boundaries :
    List ℕ → List (ℕ × List ℕ) → List Epoch → Option (List Epoch)
unfolding process_epoch
process_epoch_boundaries kernels candidates [] = some []
process_epoch_boundaries kernels candidates (e ∷ es) = do
  e' ← process_epoch kernels candidates e
  es' ← process_epoch_boundaries kernels candidates es
  some (e' ∷ es')

-- Sets of the machine from which the bytes of `Gone` were taken, and none of `Spared`.
record Loses (lo : ℕ) (Gone Spared : ℕ → Type 0) (m m' : Iteration) : Type 0 where
  reads : IsTupleSet lo m'.r_tuples
  writes : IsTupleSet lo m'.w_tuples
  lost_reads : (a : ℕ) → Covers m'.r_tuples a → Covers m.r_tuples a × (¬ Gone a)
  lost_writes : (a : ℕ) → Covers m'.w_tuples a → Covers m.w_tuples a × (¬ Gone a)
  kept_reads : (a : ℕ) → Spared a → Covers m.r_tuples a → Covers m'.r_tuples a
  kept_writes : (a : ℕ) → Spared a → Covers m.w_tuples a → Covers m'.w_tuples a

-- The bytes that an epoch allocated and freed.
abbrev pub Freed : List ℕ → List MemTuple → ℕ → Type 0
Freed frees allocs a = Any (λ t. (contains frees t.base ≡ true) × Owns t a) allocs

-- The bytes below all allocations that the epoch freed; all bytes, where it freed none.
abbrev pub Spared : List ℕ → List MemTuple → ℕ → Type 0
Spared frees allocs a = All (λ t. contains frees t.base ≡ true → a < t.base) allocs

Keeps-below :
    (tuple : MemTuple) (a : ℕ) (ts : TupleSet)
    → a < tuple.base
    → Covers ts a
    → Any (λ t. Keeps tuple t a) ts
Keeps-below tuple a [] l c = absurd c
Keeps-below tuple a (t ∷ ts) l (inl o) = inl (o, (λ q. omega (arith, l, q)), inl l)
Keeps-below tuple a (t ∷ ts) l (inr c) = inr (Keeps-below tuple a ts l c)

false-true : {b : Bool} → b ≡ false → b ≡ true → ⊥
false-true h k = cc

module _ (lo : ℕ) where
  remove_allocation-Loses :
      (alloc : MemTuple) (m : Iteration)
      → Fits alloc
      → IsTupleSet lo m.r_tuples
      → IsTupleSet lo m.w_tuples
      → (m' : Iteration) × (remove_allocation alloc m ≡ some m')
        × Loses lo (Owns alloc) (λ a. a < alloc.base) m m'
  unfolding remove_allocation
  remove_allocation-Loses alloc m f r w =
      let (w', first, h) =
        remove_tuple_set-IsRemoved alloc f m.w_tuples (IsTupleSet-IsOrdered lo m.w_tuples w) in
      let (r', second, k) =
        remove_tuple_set-IsRemoved alloc f m.r_tuples (IsTupleSet-IsOrdered lo m.r_tuples r) in
      (
        record { r_tuples = r'; w_tuples = w' },
        >>=-eq-some _ first (>>=-eq-some _ second refl),
        record {
          reads =
              IsTupleSet-of_Covers lo m.r_tuples r' r k.is_set (λ a c. (IsRemoved-Covers a k c).0);
          writes =
              IsTupleSet-of_Covers lo m.w_tuples w' w h.is_set (λ a c. (IsRemoved-Covers a h c).0);
          lost_reads = λ a c. IsRemoved-Covers a k c;
          lost_writes = λ a c. IsRemoved-Covers a h c;
          kept_reads = λ a l c. (k.covers a).1 (Keeps-below alloc a m.r_tuples l c);
          kept_writes = λ a l c. (h.covers a).1 (Keeps-below alloc a m.w_tuples l c);
        },
      )

  Loses-trans :
      {G G' S S' : ℕ → Type 0} {m m' m'' : Iteration}
      → Loses lo G S m m'
      → Loses lo G' S' m' m''
      → Loses lo (λ a. G a ⊎ G' a) (λ a. S a × S' a) m m''
  Loses-trans h k = record {
    reads = k.reads;
    writes = k.writes;
    lost_reads = λ a c. ground (arith, k.lost_reads a, h.lost_reads a);
    lost_writes = λ a c. ground (arith, k.lost_writes a, h.lost_writes a);
    kept_reads = λ a s c. k.kept_reads a s.1 (h.kept_reads a s.0 c);
    kept_writes = λ a s c. k.kept_writes a s.1 (h.kept_writes a s.0 c);
  }

  Loses-weaken :
      {G G' S S' : ℕ → Type 0} {m m' : Iteration}
      → ((a : ℕ) → G' a → G a)
      → ((a : ℕ) → S' a → S a)
      → Loses lo G S m m'
      → Loses lo G' S' m m'
  Loses-weaken g s h = record {
    reads = h.reads;
    writes = h.writes;
    lost_reads = λ a c. let l = h.lost_reads a c in (l.0, λ x. l.1 (g a x));
    lost_writes = λ a c. let l = h.lost_writes a c in (l.0, λ x. l.1 (g a x));
    kept_reads = λ a x c. h.kept_reads a (s a x) c;
    kept_writes = λ a x c. h.kept_writes a (s a x) c;
  }

  Loses-refl :
      (m : Iteration)
      → IsTupleSet lo m.r_tuples
      → IsTupleSet lo m.w_tuples
      → Loses lo (λ _. ⊥) (λ _. Unit) m m
  Loses-refl m r w = record {
    reads = r;
    writes = w;
    lost_reads = λ a c. (c, λ x. x);
    lost_writes = λ a c. (c, λ x. x);
    kept_reads = λ a x c. c;
    kept_writes = λ a x c. c;
  }

  remove_freed-Loses :
      (allocs : List MemTuple) (frees : List ℕ) (m : Iteration)
      → All Fits allocs
      → IsTupleSet lo m.r_tuples
      → IsTupleSet lo m.w_tuples
      → (m' : Iteration) × (remove_freed allocs frees m ≡ some m')
        × Loses lo (Freed frees allocs) (Spared frees allocs) m m'
  unfolding remove_freed
  remove_freed-Loses [] frees m f r w = (m, refl, Loses-refl m r w)
  remove_freed-Loses (t ∷ ts) frees m f r w = elim (Bool-cases (contains frees t.base)) [
    | inl e ↦
        let (n, first, h) = remove_allocation-Loses t m f.0 r w in
        let (m', rest, k) = remove_freed-Loses ts frees n f.1 h.reads h.writes in
        (
          m',
          ground (arith, e, first, rest),
          Loses-weaken (λ a x. elim x [ inl o ↦ inl o.1 | inr o ↦ inr o ]) (λ a x. (x.0 e, x.1))
              (Loses-trans h k),
        )
    | inr e ↦
        let (m', rest, k) = remove_freed-Loses ts frees m f.1 r w in
        (
          m',
          ground (arith, e, rest),
          Loses-weaken (λ a x. elim x [ inl o ↦ absurd (false-true e o.0) | inr o ↦ o ])
              (λ a x. x.1) k,
        )
  ]

-- An epoch after its processing.
pub record IsProcessed (lo : ℕ) (e e' : Epoch) : Type 0 where
  pub same : e'.iid ≡ e.iid
  pub is_epoch : IsEpoch lo e'
  pub writes :
      (a : ℕ)
      → Writes e' a
      → Writes e a
        × (¬ Freed e.free_ptrs e.malloc_ptrs a)
        × (has_large e.memory_data.w_tuples ≡ true)
  pub reads :
      (a : ℕ)
      → Reads e' a
      → Reads e a
        × (¬ Freed e.free_ptrs e.malloc_ptrs a)
        × (has_large e.memory_data.r_tuples ≡ true)
  pub kept_writes :
      (a : ℕ)
      → Writes e a
      → has_large e.memory_data.w_tuples ≡ true
      → Spared e.free_ptrs e.malloc_ptrs a
      → Writes e' a
  pub kept_reads :
      (a : ℕ)
      → Reads e a
      → has_large e.memory_data.r_tuples ≡ true
      → Spared e.free_ptrs e.malloc_ptrs a
      → Reads e' a

module _ (lo : ℕ) where
  drop_small-IsTupleSet : (ts : TupleSet) → IsTupleSet lo ts → IsTupleSet lo (drop_small ts)
  unfolding drop_small
  drop_small-IsTupleSet ts h = elim (Bool-cases (has_large ts)) [
    | inl e ↦ rw e h
    | inr e ↦ rw e (record { sorted = tt; window = tt })
  ]

  drop_small-Covers :
      (ts : TupleSet) (a : ℕ) → Covers (drop_small ts) a → Covers ts a × (has_large ts ≡ true)
  unfolding drop_small
  drop_small-Covers ts a c = ground arith

  drop_small-large : (ts : TupleSet) → has_large ts ≡ true → drop_small ts ≡ ts
  unfolding drop_small
  drop_small-large ts h = rw h refl

  pub process_epoch-IsProcessed :
      (kernels : List ℕ) (candidates : List (ℕ × List ℕ)) (e : Epoch)
      → HaveKernels kernels candidates
      → IsTraced lo e
      → (e' : Epoch) × (process_epoch kernels candidates e ≡ some e') × IsProcessed lo e e'
  unfolding process_epoch
  process_epoch-IsProcessed kernels candidates e named h =
      let (kernel, matches) = kernel_matched kernels candidates e.blocks e.kernel named in
      let (m, ends, l) =
        remove_freed-Loses lo e.malloc_ptrs e.free_ptrs _ h.allocations
          (drop_small-IsTupleSet e.memory_data.r_tuples h.is_epoch.reads)
          (drop_small-IsTupleSet e.memory_data.w_tuples h.is_epoch.writes) in
      (
        record e { kernel = kernel; memory_data = m },
        >>=-eq-some _ matches (>>=-eq-some _ ends refl),
        record {
          same = refl;
          is_epoch = record { reads = l.reads; writes = l.writes };
          writes = λ a c.
              let (before, kept) = l.lost_writes a c in
              let (old, large) = drop_small-Covers e.memory_data.w_tuples a before in
              (old, kept, large);
          reads = λ a c.
              let (before, kept) = l.lost_reads a c in
              let (old, large) = drop_small-Covers e.memory_data.r_tuples a before in
              (old, kept, large);
          kept_writes = λ a c large spared.
              l.kept_writes a spared (rw (drop_small-large e.memory_data.w_tuples large) c);
          kept_reads = λ a c large spared.
              l.kept_reads a spared (rw (drop_small-large e.memory_data.r_tuples large) c);
        },
      )

  pub process_epoch_boundaries-IsProcessed :
      (kernels : List ℕ) (candidates : List (ℕ × List ℕ)) (es : List Epoch)
      → HaveKernels kernels candidates
      → All (IsTraced lo) es
      → (es' : List Epoch) × (process_epoch_boundaries kernels candidates es ≡ some es')
        × All (IsEpoch lo) es'
        × (map (λ e. e.iid) es' ≡ map (λ e. e.iid) es)
  unfolding process_epoch_boundaries
  process_epoch_boundaries-IsProcessed kernels candidates [] named h = ([], refl, tt, refl)
  process_epoch_boundaries-IsProcessed kernels candidates (e ∷ es) named h =
      let (e', first, p) = process_epoch-IsProcessed kernels candidates e named h.0 in
      let (es', rest, k, same) =
        process_epoch_boundaries-IsProcessed kernels candidates es named h.1 in
      (
        e' ∷ es',
        >>=-eq-some _ first (>>=-eq-some _ rest refl),
        (p.is_epoch, k),
        λ i. p.same i ∷ same i,
      )
