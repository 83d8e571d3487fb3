-- ===== src/Markov/Queue.antt =====
-- AtomicQueue (Profile/Backend/ThreadSafe/AtomicQueue.cpp), the circular buffer of 256 tasks: each
-- call as one step. ThreadSafeQueue passes its calls on to it.
pub mod Fifo
pub mod Calls
pub mod Interleaving
use cyclebite.Base.{
  ℕ, zero, suc, ◌+◌, ◌-◌, ◌%◌, ◌^◌, Bool, true, false, ◌||◌, List, [], ◌∷◌, ltb, leb, ◌==◌,
  if◌then◌else◌,
}
use cyclebite.Markov.Task.{Task, invalid_task}

pub record AtomicQueue : Type 0 where
  pub entries : ℕ
  pub p_read : ℕ
  pub p_write : ℕ
  pub array : ℕ → Task

abbrev pub queue_size : ℕ
queue_size = 256

abbrev pub tries_max : ℕ
tries_max = 32768

abbrev pub initial_queue : AtomicQueue
initial_queue = record { entries = 0; p_read = 0; p_write = 0; array = λ _. invalid_task }

unfoldable pub empty : ℕ → ℕ → ℕ → Bool
empty r w e = r == w || leb e 0

-- The sum w+1 is an int.
unfoldable pub full : ℕ → ℕ → ℕ → Bool
full r w e = r == w + 1 || leb (queue_size - 1) e

unfoldable pub write_at : (ℕ → Task) → ℕ → Task → ℕ → Task
write_at array w t i = if i == w then t else array i

-- p_write++; entries++; array[w] = newTask;
unfoldable pub store : AtomicQueue → Task → AtomicQueue
store q t = record q {
  p_write = (q.p_write + 1) % 2 ^ 8;
  entries = (q.entries + 1) % 2 ^ 32;
  array = write_at q.array q.p_write t;
}

-- push without waiting
unfoldable pub push : AtomicQueue → Task → AtomicQueue × Bool
unfolding store
push q t = if full q.p_read q.p_write q.entries then (q, false) else (store q t, true)

-- push with `block`: in the sleep after which `k` tries are left the readers do `others k`. The fuel
-- is the number of tries that are left.
unfoldable pub push_waiting :
    (ℕ → AtomicQueue → AtomicQueue) → ℕ → AtomicQueue → Task → AtomicQueue × Bool
unfolding push
push_waiting others zero q t = push q t
push_waiting others (suc tries) q t = elim (full q.p_read q.p_write q.entries) [
  | true ↦ push_waiting others tries (others tries q) t
  | false ↦ push q t
]

abbrev pub push_blocking : (ℕ → AtomicQueue → AtomicQueue) → AtomicQueue → Task → AtomicQueue × Bool
push_blocking others q t = push_waiting others tries_max q t

-- p_read++; entries--;
unfoldable pub release : AtomicQueue → AtomicQueue
release q = record q {
  p_read = (q.p_read + 1) % 2 ^ 8;
  entries = (q.entries + 2 ^ 32 - 1) % 2 ^ 32;
}

-- pop without waiting
unfoldable pub pop : AtomicQueue → AtomicQueue × Task
unfolding release
pop q =
    if empty q.p_read q.p_write q.entries then (q, invalid_task) else (release q, q.array q.p_read)
