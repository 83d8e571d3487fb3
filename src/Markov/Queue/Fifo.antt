-- ===== src/Markov/Queue/Fifo.antt =====
-- The circular buffer against a list: what its calls do, one after the other.
use cyclebite.Base.{
  ℕ, ◌+◌, ◌%◌, ◌^◌, ◌≤◌, ◌<◌, List, [], ◌∷◌, ◌++◌, leb, length, length-append, ◌≡◌, arith,
}
use cyclebite.Markov.Task.{Task}
use cyclebite.Markov.Queue.{AtomicQueue, empty, full, write_at, store, release}

-- The tasks in the slots from r on.
abbrev pub Holds : (ℕ → Task) → ℕ → List Task → Type 0
Holds array r [] = Unit
Holds array r (x ∷ xs) = (array r ≡ x) × Holds array ((r + 1) % 2 ^ 8) xs

-- A queue that holds the tasks of a list, the first one to be popped first.
pub record IsQueue (q : AtomicQueue) (xs : List Task) : Type 0 where
  pub reads : q.p_read < 256
  pub writes : q.p_write ≡ (q.p_read + length xs) % 256
  pub counts : q.entries ≡ length xs
  pub fits : length xs ≤ 255
  pub holds : Holds q.array q.p_read xs

Holds-write_at :
    (array : ℕ → Task) (r w : ℕ) (t : Task) (xs : List Task)
    → r < 256
    → length xs < 256
    → w ≡ (r + length xs) % 256
    → Holds array r xs
    → Holds (write_at array w t) r (xs ++ t ∷ [])
unfolding write_at
Holds-write_at array r w t [] l f e h = (ground arith, tt)
Holds-write_at array r w t (x ∷ xs) l f e h = (
  ground (arith, h.0),
  Holds-write_at array ((r + 1) % 2 ^ 8) w t xs (omega arith) (omega (arith, f))
      (omega (arith, e, l, f)) h.1,
)

module _ (q : AtomicQueue) where
  pub full_iff :
      (xs : List Task) → IsQueue q xs → full q.p_read q.p_write q.entries ≡ leb 255 (length xs)
  unfolding full
  full_iff xs h = ground (arith, h.reads, h.writes, h.counts, h.fits)

  pub store-IsQueue :
      (t : Task) (xs : List Task)
      → length xs < 255
      → IsQueue q xs
      → IsQueue (store q t) (xs ++ t ∷ [])
  unfolding store
  store-IsQueue t xs l h = record {
    reads = h.reads;
    writes = omega (arith, h.writes, h.reads, length-append xs (t ∷ []));
    counts = omega (arith, h.counts, l, length-append xs (t ∷ []));
    fits = omega (arith, l, length-append xs (t ∷ []));
    holds = Holds-write_at q.array q.p_read q.p_write t xs h.reads (omega arith) h.writes h.holds;
  }

  pub empty_iff :
      (xs : List Task) → IsQueue q xs → empty q.p_read q.p_write q.entries ≡ leb (length xs) 0
  unfolding empty
  empty_iff xs h = ground (arith, h.reads, h.writes, h.counts, h.fits)

  pub release-IsQueue : (x : Task) (xs : List Task) → IsQueue q (x ∷ xs) → IsQueue (release q) xs
  unfolding release
  release-IsQueue x xs h = record {
    reads = omega arith;
    writes = omega (arith, h.writes, h.reads, h.fits);
    counts = omega (arith, h.counts, h.fits);
    fits = omega (arith, h.fits);
    holds = h.holds.1;
  }
