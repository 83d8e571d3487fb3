-- ===== src/Markov/Queue/Interleaving/Balance.antt =====
-- The counters of the queue under every interleaving of one writer and one reader.
use cyclebite.Base.{
  ℕ, ◌+◌, ◌%◌, ◌≤◌, ◌<◌, false, List, [], ◌∷◌, ◌≡◌, refl, arith, inl, inr, Bool-cases,
}
use cyclebite.Markov.Task.{Task, invalid_task}
use cyclebite.Markov.Queue.{AtomicQueue, empty, full}
use cyclebite.Markov.Queue.Interleaving.{
  Writer, Reader, Threads, Turn, writes, takes, write_turn, read_turn, turn, turns,
}

-- The tasks that p_write counts and entries does not, and those that entries counts and p_read
-- does not.
abbrev pub ahead : Writer → ℕ
ahead Writer.begins = 0
ahead (Writer.loaded_w w) = 0
ahead (Writer.loaded_r w r) = 0
ahead (Writer.loaded_e w r e) = 0
ahead (Writer.bumps w) = 0
ahead (Writer.counts w) = 1
ahead (Writer.stores w) = 0
ahead (Writer.pushed b) = 0

abbrev pub behind : Reader → ℕ
behind Reader.begins = 0
behind (Reader.loaded_r r) = 0
behind (Reader.loaded_w r w) = 0
behind (Reader.loaded_e r w e) = 0
behind (Reader.bumps r) = 0
behind (Reader.counts r) = 1
behind (Reader.reads r) = 0
behind (Reader.popped t) = 0

-- What a thread knows of the queue at its place.
abbrev pub WriterKnows : AtomicQueue → Writer → Type 0
WriterKnows q Writer.begins = Unit
WriterKnows q (Writer.loaded_w w) = w ≡ q.p_write
WriterKnows q (Writer.loaded_r w r) = w ≡ q.p_write
WriterKnows q (Writer.loaded_e w r e) = (w ≡ q.p_write) × (q.entries ≤ e)
WriterKnows q (Writer.bumps w) = (w ≡ q.p_write) × (q.entries < 255)
WriterKnows q (Writer.counts w) = ((w + 1) % 256 ≡ q.p_write) × (q.entries < 255)
WriterKnows q (Writer.stores w) = (w + 1) % 256 ≡ q.p_write
WriterKnows q (Writer.pushed b) = Unit

abbrev pub ReaderKnows : AtomicQueue → Reader → Type 0
ReaderKnows q Reader.begins = Unit
ReaderKnows q (Reader.loaded_r r) = r ≡ q.p_read
ReaderKnows q (Reader.loaded_w r w) = r ≡ q.p_read
ReaderKnows q (Reader.loaded_e r w e) = (r ≡ q.p_read) × (e ≤ q.entries)
ReaderKnows q (Reader.bumps r) = (r ≡ q.p_read) × (0 < q.entries)
ReaderKnows q (Reader.counts r) = ((r + 1) % 256 ≡ q.p_read) × (0 < q.entries)
ReaderKnows q (Reader.reads r) = (r + 1) % 256 ≡ q.p_read
ReaderKnows q (Reader.popped t) = Unit

pub record IsBalanced (s : Threads) : Type 0 where
  pub read_bound : s.queue.p_read < 256
  pub write_bound : s.queue.p_write < 256
  pub entries_bound : s.queue.entries ≤ 255
  pub distance :
      (s.queue.p_write + behind s.reader) % 256
      ≡ (s.queue.p_read + s.queue.entries + ahead s.writer) % 256
  pub writer_knows : WriterKnows s.queue s.writer
  pub reader_knows : ReaderKnows s.queue s.reader

ReaderKnows-more :
    (q p : AtomicQueue) (r : Reader)
    → q.p_read ≡ p.p_read
    → q.entries ≤ p.entries
    → ReaderKnows q r
    → ReaderKnows p r
ReaderKnows-more q p Reader.begins e l k = tt
ReaderKnows-more q p (Reader.loaded_r r) e l k = omega (arith, e, k)
ReaderKnows-more q p (Reader.loaded_w r w) e l k = omega (arith, e, k)
ReaderKnows-more q p (Reader.loaded_e r w n) e l k = omega (arith, e, l, k)
ReaderKnows-more q p (Reader.bumps r) e l k = omega (arith, e, l, k)
ReaderKnows-more q p (Reader.counts r) e l k = omega (arith, e, l, k)
ReaderKnows-more q p (Reader.reads r) e l k = omega (arith, e, k)
ReaderKnows-more q p (Reader.popped t) e l k = tt

WriterKnows-less :
    (q p : AtomicQueue) (w : Writer)
    → q.p_write ≡ p.p_write
    → p.entries ≤ q.entries
    → WriterKnows q w
    → WriterKnows p w
WriterKnows-less q p Writer.begins e l k = tt
WriterKnows-less q p (Writer.loaded_w w) e l k = omega (arith, e, k)
WriterKnows-less q p (Writer.loaded_r w r) e l k = omega (arith, e, k)
WriterKnows-less q p (Writer.loaded_e w r n) e l k = omega (arith, e, l, k)
WriterKnows-less q p (Writer.bumps w) e l k = omega (arith, e, l, k)
WriterKnows-less q p (Writer.counts w) e l k = omega (arith, e, l, k)
WriterKnows-less q p (Writer.stores w) e l k = omega (arith, e, k)
WriterKnows-less q p (Writer.pushed b) e l k = tt

-- A turn that leaves the counters alone.
IsBalanced-same :
    (s s' : Threads)
    → s'.queue.p_read ≡ s.queue.p_read
    → s'.queue.p_write ≡ s.queue.p_write
    → s'.queue.entries ≡ s.queue.entries
    → ahead s'.writer ≡ ahead s.writer
    → behind s'.reader ≡ behind s.reader
    → WriterKnows s'.queue s'.writer
    → ReaderKnows s'.queue s'.reader
    → IsBalanced s
    → IsBalanced s'
IsBalanced-same s s' p q e a b wk rk h = record {
  read_bound = omega (arith, p, h.read_bound);
  write_bound = omega (arith, q, h.write_bound);
  entries_bound = omega (arith, e, h.entries_bound);
  distance = omega (arith, p, q, e, a, b, h.distance);
  writer_knows = wk;
  reader_knows = rk;
}

full-entries : (r w e : ℕ) → full r w e ≡ false → e < 255
unfolding full
full-entries r w e h = ground arith

empty-entries : (r w e : ℕ) → empty r w e ≡ false → 0 < e
unfolding empty
empty-entries r w e h = ground arith

abbrev at : AtomicQueue → Writer → Reader → Threads
at q w r = record { queue = q; writer = w; reader = r }

write-IsBalanced :
    (t : Task) (q : AtomicQueue) (w : Writer) (r : Reader)
    → IsBalanced (at q w r)
    → IsBalanced (at (write_turn t q w).0 (write_turn t q w).1 r)
unfolding write_turn
write-IsBalanced t q Writer.begins r h =
    IsBalanced-same (at q Writer.begins r) _ refl refl refl refl refl refl h.reader_knows h
write-IsBalanced t q (Writer.loaded_w w) r h =
    IsBalanced-same (at q (Writer.loaded_w w) r) _ refl refl refl refl refl h.writer_knows
      h.reader_knows h
write-IsBalanced t q (Writer.loaded_r w p) r h =
    IsBalanced-same (at q (Writer.loaded_r w p) r) _ refl refl refl refl refl
      (h.writer_knows, omega arith) h.reader_knows h
write-IsBalanced t q (Writer.loaded_e w p e) r h = elim (Bool-cases (full p w e)) [
  | inl f ↦ rw f (
      IsBalanced-same (at q (Writer.loaded_e w p e) r) (at q (Writer.pushed false) r) refl refl refl
        refl refl tt h.reader_knows h)
  | inr f ↦ rw f (
      IsBalanced-same (at q (Writer.loaded_e w p e) r) (at q (Writer.bumps w) r) refl refl refl refl
        refl (h.writer_knows.0, omega (arith, full-entries p w e f, h.writer_knows.1))
        h.reader_knows h)
]
write-IsBalanced t q (Writer.bumps w) r h = record {
  read_bound = h.read_bound;
  write_bound = omega arith;
  entries_bound = h.entries_bound;
  distance = omega (arith, h.distance);
  writer_knows = omega (arith, h.writer_knows);
  reader_knows =
      ReaderKnows-more q (write_turn t q (Writer.bumps w)).0 r refl (omega arith) h.reader_knows;
}
write-IsBalanced t q (Writer.counts w) r h = record {
  read_bound = h.read_bound;
  write_bound = h.write_bound;
  entries_bound = omega (arith, h.writer_knows);
  distance = omega (arith, h.distance, h.writer_knows);
  writer_knows = h.writer_knows.0;
  reader_knows =
      ReaderKnows-more q (write_turn t q (Writer.counts w)).0 r refl (omega (arith, h.writer_knows))
        h.reader_knows;
}
write-IsBalanced t q (Writer.stores w) r h =
    IsBalanced-same (at q (Writer.stores w) r) _ refl refl refl refl refl tt
      (ReaderKnows-more q (write_turn t q (Writer.stores w)).0 r refl (omega arith) h.reader_knows)
      h
write-IsBalanced t q (Writer.pushed b) r h =
    IsBalanced-same (at q (Writer.pushed b) r) _ refl refl refl refl refl tt h.reader_knows h

read-IsBalanced :
    (q : AtomicQueue) (w : Writer) (r : Reader)
    → IsBalanced (at q w r)
    → IsBalanced (at (read_turn q r).0 w (read_turn q r).1)
unfolding read_turn
read-IsBalanced q w Reader.begins h =
    IsBalanced-same (at q w Reader.begins) _ refl refl refl refl refl h.writer_knows refl h
read-IsBalanced q w (Reader.loaded_r r) h =
    IsBalanced-same (at q w (Reader.loaded_r r)) _ refl refl refl refl refl h.writer_knows
      h.reader_knows h
read-IsBalanced q w (Reader.loaded_w r p) h =
    IsBalanced-same (at q w (Reader.loaded_w r p)) _ refl refl refl refl refl h.writer_knows
      (h.reader_knows, omega arith) h
read-IsBalanced q w (Reader.loaded_e r p e) h = elim (Bool-cases (empty r p e)) [
  | inl f ↦ rw f (
      IsBalanced-same (at q w (Reader.loaded_e r p e)) (at q w (Reader.popped invalid_task)) refl
        refl refl refl refl h.writer_knows tt h)
  | inr f ↦ rw f (
      IsBalanced-same (at q w (Reader.loaded_e r p e)) (at q w (Reader.bumps r)) refl refl refl refl
        refl h.writer_knows
        (h.reader_knows.0, omega (arith, empty-entries r p e f, h.reader_knows.1)) h)
]
read-IsBalanced q w (Reader.bumps r) h = record {
  read_bound = omega arith;
  write_bound = h.write_bound;
  entries_bound = h.entries_bound;
  distance = omega (arith, h.distance);
  writer_knows =
      WriterKnows-less q (read_turn q (Reader.bumps r)).0 w refl (omega arith) h.writer_knows;
  reader_knows = omega (arith, h.reader_knows);
}
read-IsBalanced q w (Reader.counts r) h = record {
  read_bound = h.read_bound;
  write_bound = h.write_bound;
  entries_bound = omega (arith, h.reader_knows, h.entries_bound);
  distance = omega (arith, h.distance, h.reader_knows, h.entries_bound);
  writer_knows =
      WriterKnows-less q (read_turn q (Reader.counts r)).0 w refl
        (omega (arith, h.reader_knows, h.entries_bound)) h.writer_knows;
  reader_knows = h.reader_knows.0;
}
read-IsBalanced q w (Reader.reads r) h =
    IsBalanced-same (at q w (Reader.reads r)) _ refl refl refl refl refl h.writer_knows tt h
read-IsBalanced q w (Reader.popped t) h =
    IsBalanced-same (at q w (Reader.popped t)) _ refl refl refl refl refl h.writer_knows tt h

turn-IsBalanced : (s : Threads) (t : Turn) → IsBalanced s → IsBalanced (turn s t)
unfolding turn
turn-IsBalanced s (writes t) h = write-IsBalanced t s.queue s.writer s.reader h
turn-IsBalanced s takes h = read-IsBalanced s.queue s.writer s.reader h

-- Under every interleaving of one writer and one reader the number of entries stays at most 255,
-- and the distance from p_read to p_write is that number, up to the increments that a thread has
-- begun: neither counter runs over the other one or below 0.
pub turns-IsBalanced : (ts : List Turn) (s : Threads) → IsBalanced s → IsBalanced (turns s ts)
unfolding turns
turns-IsBalanced [] s h = h
turns-IsBalanced (t ∷ ts) s h = turns-IsBalanced ts (turn s t) (turn-IsBalanced s t h)
