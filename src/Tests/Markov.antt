-- ===== src/Tests/Markov.antt =====
-- The backend for the control flow at concrete inputs.
use cyclebite.Base.{
  ◌==◌, if◌then◌else◌, ℕ, zero, suc, ◌%◌, ◌^◌, ◌+◌, true, false, List, [], ◌∷◌, ◌++◌, some, ◌>>=◌,
  ◌≡◌, refl, arith, drop,
}
use cyclebite.Base.NatSet.{contains}
use cyclebite.Base.StdSet
use cyclebite.Markov.Task.{Task, add_event}
use cyclebite.Markov.Queue.{
  AtomicQueue, initial_queue, empty, full, write_at, store, push, push_waiting, push_blocking,
  release, pop,
}
use cyclebite.Markov.Queue.Fifo.{IsQueue, Holds}
use cyclebite.Markov.Queue.Calls.{
  pushes, pops, replies, fifo_replies, replies-fifo_replies, push_blocking-delivers,
}
use cyclebite.Markov.Queue.Interleaving.{Writer, Reader, writes, turn, turns}
use cyclebite.Markov.Queue.Interleaving.Balance.{IsBalanced, turns-IsBalanced}
use cyclebite.Markov.Queue.Interleaving.Race.{race, at_rest, race-loses}
use cyclebite.Markov.Handlers.{
  edge_inc, call_inc, label_event, TaskBin, get_ptr, Markov, markov_init, markov_increment,
  markov_launch, markov_push, increment_edge, increment_label, increment_call, submit, submit_to,
  push_label_stack, pop_label_stack,
}
use cyclebite.Markov.Handlers.Reader.{finish}
use cyclebite.Markov.Handlers.Run.{
  Action, increments, launches, enters, exits, reads, act_all, history, keeps_up, profile-delivers,
}

abbrev a_task : Task
a_task = record { id = 7; stuff = [] }

initial-IsQueue : IsQueue initial_queue []
initial-IsQueue = record {
  reads = omega arith;
  writes = refl;
  counts = refl;
  fits = omega arith;
  holds = tt;
}

replies-fifo_replies_example :
    replies initial_queue (pops ∷ pushes a_task ∷ pops ∷ [])
    ≡ fifo_replies [] (pops ∷ pushes a_task ∷ pops ∷ [])
replies-fifo_replies_example =
    replies-fifo_replies (pops ∷ pushes a_task ∷ pops ∷ []) initial_queue [] initial-IsQueue

-- A queue with 255 tasks.
abbrev repeat : ℕ → Task → List Task
repeat zero t = []
repeat (suc n) t = t ∷ repeat n t

abbrev full_queue : AtomicQueue
full_queue = record { entries = 255; p_read = 0; p_write = 255; array = λ _. a_task }

Holds-repeat : (n r : ℕ) → Holds (λ _. a_task) r (repeat n a_task)
Holds-repeat zero r = tt
Holds-repeat (suc n) r = (refl, Holds-repeat n ((r + 1) % 2 ^ 8))

full_queue-IsQueue : IsQueue full_queue (repeat 255 a_task)
full_queue-IsQueue = record {
  reads = omega arith;
  writes = refl;
  counts = refl;
  fits = omega arith;
  holds = Holds-repeat 255 0;
}

-- The readers wake up in the third sleep.
abbrev third_sleep : ℕ → AtomicQueue → AtomicQueue
third_sleep k q = if k == 32765 then (pop q).0 else q

push_blocking-delivers_example :
    (IsQueue
        (push_blocking third_sleep full_queue a_task).0
        (drop 1 (repeat 255 a_task) ++ a_task ∷ [])
      × ((push_blocking third_sleep full_queue a_task).1 ≡ true))
    × (push_blocking (λ k p. p) full_queue a_task ≡ (full_queue, false))
push_blocking-delivers_example =
    push_blocking-delivers third_sleep 0 2 32765 full_queue (repeat 255 a_task) a_task
      full_queue-IsQueue refl refl (λ k p l. ground (arith, l)) refl

at_rest-IsBalanced : IsBalanced (at_rest initial_queue)
at_rest-IsBalanced = record {
  read_bound = omega arith;
  write_bound = omega arith;
  entries_bound = omega arith;
  distance = refl;
  writer_knows = tt;
  reader_knows = tt;
}

turns-IsBalanced_example : IsBalanced (turns (at_rest initial_queue) (race a_task))
turns-IsBalanced_example = turns-IsBalanced (race a_task) (at_rest initial_queue) at_rest-IsBalanced

race-loses_example :
    ((turns (at_rest initial_queue) (race a_task)).reader
      ≡ Reader.popped (initial_queue.array initial_queue.p_write))
    × ((turn (turns (at_rest initial_queue) (race a_task)) (writes a_task)).writer
        ≡ Writer.pushed true)
    × ((turn (turns (at_rest initial_queue) (race a_task)) (writes a_task)).queue.entries ≡ 0)
race-loses_example = race-loses initial_queue a_task initial-IsQueue

-- Blocks 1, 2 and 3 under a kernel with label 9; 2 is the entrance of a function.
abbrev pub some_bin : TaskBin
some_bin = record { next = λ _. 0; array = λ _ _. edge_inc 0 0 }

abbrev pub actions : List Action
actions =
    increments 1 false
    ∷ enters 9
    ∷ increments 2 true
    ∷ launches 2
    ∷ increments 3 false
    ∷ reads
    ∷ exits
    ∷ increments 1 false
    ∷ increments 2 false
    ∷ []

history-actions :
    history 0 [] actions
    ≡ edge_inc 0 1
      ∷ edge_inc 1 2
      ∷ label_event 2 9
      ∷ call_inc 1 2 0
      ∷ edge_inc 2 3
      ∷ label_event 3 9
      ∷ edge_inc 3 1
      ∷ edge_inc 1 2
      ∷ []
history-actions = refl

pub keeps_up-actions : keeps_up (markov_init some_bin 5 0) actions ≡ true
unfolding keeps_up markov_init markov_increment increment_edge increment_label increment_call submit
    submit_to get_ptr add_event push_label_stack pop_label_stack markov_launch markov_push pop
    release empty push_waiting push full store write_at contains StdSet.insert
keeps_up-actions = refl

profile-delivers_example :
    (s : Markov) × ((act_all (markov_init some_bin 5 0) actions >>= finish) ≡ some s)
    × (s.delivered ≡ history 0 [] actions)
profile-delivers_example =
    profile-delivers some_bin 5 0 actions (omega arith) (omega arith, tt) keeps_up-actions
