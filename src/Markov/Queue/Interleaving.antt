-- ===== src/Markov/Queue/Interleaving.antt =====
-- push and pop of AtomicQueue (Profile/Backend/ThreadSafe/AtomicQueue.cpp) as two threads that take
-- turns: each turn is one access of an atomic variable or of a slot. The locks admit one writer and
-- one reader at a time; a reader reads its slot after it unlocks. A failed call is made again.
pub mod Balance
pub mod Race
use cyclebite.Base.{ℕ, suc, ◌+◌, ◌-◌, ◌%◌, ◌^◌, Bool, true, false, List, [], ◌∷◌, if◌then◌else◌}
use cyclebite.Markov.Task.{Task, invalid_task}
use cyclebite.Markov.Queue.{AtomicQueue, empty, full, write_at}

-- Where push stands: after its loads, after the test, after p_write++, after entries++.
pub data Writer : Type 0 where
  begins : Writer
  loaded_w : ℕ → Writer
  loaded_r : ℕ → ℕ → Writer
  loaded_e : ℕ → ℕ → ℕ → Writer
  bumps counts stores : ℕ → Writer
  pushed : Bool → Writer

-- Where pop stands.
pub data Reader : Type 0 where
  begins : Reader
  loaded_r : ℕ → Reader
  loaded_w : ℕ → ℕ → Reader
  loaded_e : ℕ → ℕ → ℕ → Reader
  bumps counts reads : ℕ → Reader
  popped : Task → Reader

pub record Threads : Type 0 where
  pub queue : AtomicQueue
  pub writer : Writer
  pub reader : Reader

unfoldable pub write_turn : Task → AtomicQueue → Writer → AtomicQueue × Writer
unfolding full write_at
write_turn t q Writer.begins = (q, Writer.loaded_w q.p_write)
write_turn t q (Writer.loaded_w w) = (q, Writer.loaded_r w q.p_read)
write_turn t q (Writer.loaded_r w r) = (q, Writer.loaded_e w r q.entries)
write_turn t q (Writer.loaded_e w r e) =
    (q, if full r w e then Writer.pushed false else Writer.bumps w)
write_turn t q (Writer.bumps w) = (record q { p_write = (q.p_write + 1) % 2 ^ 8 }, Writer.counts w)
write_turn t q (Writer.counts w) =
    (record q { entries = (q.entries + 1) % 2 ^ 32 }, Writer.stores w)
write_turn t q (Writer.stores w) = (record q { array = write_at q.array w t }, Writer.pushed true)
write_turn t q (Writer.pushed b) = (q, Writer.begins)

unfoldable pub read_turn : AtomicQueue → Reader → AtomicQueue × Reader
unfolding empty
read_turn q Reader.begins = (q, Reader.loaded_r q.p_read)
read_turn q (Reader.loaded_r r) = (q, Reader.loaded_w r q.p_write)
read_turn q (Reader.loaded_w r w) = (q, Reader.loaded_e r w q.entries)
read_turn q (Reader.loaded_e r w e) =
    (q, if empty r w e then Reader.popped invalid_task else Reader.bumps r)
read_turn q (Reader.bumps r) = (record q { p_read = (q.p_read + 1) % 2 ^ 8 }, Reader.counts r)
read_turn q (Reader.counts r) =
    (record q { entries = (q.entries + 2 ^ 32 - 1) % 2 ^ 32 }, Reader.reads r)
read_turn q (Reader.reads r) = (q, Reader.popped (q.array r))
read_turn q (Reader.popped t) = (q, Reader.begins)

-- A turn of the writer, which pushes a task, or of the reader.
pub data Turn : Type 0 where
  writes : Task → Turn
  takes : Turn

unfoldable pub turn : Threads → Turn → Threads
unfolding write_turn read_turn
turn s (writes t) = let r = write_turn t s.queue s.writer in record s { queue = r.0; writer = r.1 }
turn s takes = let r = read_turn s.queue s.reader in record s { queue = r.0; reader = r.1 }

unfoldable pub turns : Threads → List Turn → Threads
turns s [] = s
turns s (t ∷ ts) = turns (turn s t) ts
