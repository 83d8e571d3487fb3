-- ===== src/Markov/Queue/Interleaving/Race.antt =====
-- An interleaving in which a reader gets a slot that the writer has not filled yet.
use cyclebite.Base.{true, List, [], ◌∷◌, ◌≡◌, arith}
use cyclebite.Markov.Task.{Task}
use cyclebite.Markov.Queue.{AtomicQueue, empty, full}
use cyclebite.Markov.Queue.Fifo.{IsQueue}
use cyclebite.Markov.Queue.Interleaving.{
  Writer, Reader, Threads, Turn, writes, takes, write_turn, read_turn, turn, turns,
}

-- Six turns of a push, up to entries++, then a whole pop.
abbrev pub race : Task → List Turn
race t =
    writes t
    ∷ writes t
    ∷ writes t
    ∷ writes t
    ∷ writes t
    ∷ writes t
    ∷ takes
    ∷ takes
    ∷ takes
    ∷ takes
    ∷ takes
    ∷ takes
    ∷ takes
    ∷ []

abbrev pub at_rest : AtomicQueue → Threads
at_rest q = record { queue = q; writer = Writer.begins; reader = Reader.begins }

-- On an empty queue a push can be interleaved with a pop so that the pop returns what was in the
-- slot before, and the push, which then fills the slot and succeeds, leaves a queue without
-- entries: its task is lost.
pub race-loses :
    (q : AtomicQueue) (t : Task)
    → IsQueue q []
    → ((turns (at_rest q) (race t)).reader ≡ Reader.popped (q.array q.p_write))
      × ((turn (turns (at_rest q) (race t)) (writes t)).writer ≡ Writer.pushed true)
      × ((turn (turns (at_rest q) (race t)) (writes t)).queue.entries ≡ 0)
unfolding turns turn write_turn read_turn full empty
race-loses q t h = ground (arith, h.reads, h.writes, h.counts)
