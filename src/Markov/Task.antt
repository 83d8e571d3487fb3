-- ===== src/Markov/Task.antt =====
-- A task: up to six events that hold a place in the queue (Profile/Backend/ThreadSafe/Task.cpp).
-- An Event* is the place of the event in the arrays of the task bin: its kind and its slot.
use cyclebite.Base.{
  ℕ, ◌-◌, ◌^◌, List, [], ◌∷◌, ◌++◌, Option, none, some, ltb, if◌then◌else◌, length,
}

-- Event::EventKind, but for Mem, which no handler makes
pub data EventKind : Type 0 where
  edge call label : EventKind

pub record Place : Type 0 where
  pub kind : EventKind
  pub slot : ℕ

pub record Task : Type 0 where
  pub id : ℕ
  pub stuff : List Place

abbrev pub task_size : ℕ
task_size = 6

-- __LONG_MAX__, the identifier of a task that is none
abbrev pub long_max : ℕ
long_max = 2 ^ 63 - 1

-- Task(false)
abbrev pub invalid_task : Task
invalid_task = record { id = long_max; stuff = [] }

-- `none` is the result false, which leaves the task as it is.
unfoldable pub add_event : Task → Place → Option Task
add_event t event =
    if ltb (length t.stuff) task_size
    then some (record t { stuff = t.stuff ++ event ∷ [] })
    else none

-- reset, with the identifier that getNextID draws
abbrev pub reset : ℕ → Task
reset next_id = record { id = next_id; stuff = [] }
