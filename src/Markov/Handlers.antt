-- ===== src/Markov/Handlers.antt =====
-- The handlers of Profile/Backend/Markov/Markov.cpp for a program under test with one thread. The
-- reader of the queue takes its turns between the calls; it delivers the events of a task to the
-- hash tables, in order. The three arrays of the task bin are one function of the kind. A label is
-- its address. The counter of threads in the backend and the log are left out.
pub mod Stack
pub mod Places
pub mod Submit
pub mod Increment
pub mod Reader
pub mod Run
use cyclebite.Base.{
  ℕ, zero, suc, ◌+◌, ◌-◌, ◌%◌, ◌^◌, Bool, true, false, ◌&&◌, List, [], ◌∷◌, ◌++◌, map, Option, none,
  some, ◌>>=◌, ltb, ◌==◌, if◌then◌else◌, length,
}
use cyclebite.Base.StdSet
use cyclebite.Base.NatSet.{contains}
use cyclebite.Markov.Task.{
  EventKind, edge, call, label, Place, Task, task_size, long_max, add_event, reset,
}
use cyclebite.Markov.Queue.{AtomicQueue, initial_queue, push_blocking, pop}

-- EdgeInc, CallInc and LabelEvent
pub data Event : Type 0 where
  edge_inc : ℕ → ℕ → Event
  call_inc : ℕ → ℕ → ℕ → Event
  label_event : ℕ → ℕ → Event

abbrev pub kind_of : Event → EventKind
kind_of (edge_inc src snk) = edge
kind_of (call_inc src snk position) = call
kind_of (label_event snk l) = label

abbrev pub same_kind : EventKind → EventKind → Bool
same_kind edge edge = true
same_kind call call = true
same_kind label label = true
same_kind edge call = false
same_kind edge label = false
same_kind call edge = false
same_kind call label = false
same_kind label edge = false
same_kind label call = false

pub record TaskBin : Type 0 where
  pub next : EventKind → ℕ
  pub array : EventKind → ℕ → Event

abbrev pub bin_size : ℕ
bin_size = 4096

-- *event
abbrev pub read_event : TaskBin → Place → Event
read_event bin p = bin.array p.kind p.slot

-- w & BIN_SIZE
abbrev pub place_of : TaskBin → EventKind → Place
place_of bin k = record { kind = k; slot = bin.next k % bin_size }

-- TaskBin::getPtr, whose result is place_of
unfoldable pub get_ptr : TaskBin → Event → TaskBin
get_ptr bin e = record {
  next = λ k. if same_kind k (kind_of e) then (bin.next k + 1) % 2 ^ 32 else bin.next k;
  array = λ k i.
      if same_kind k (kind_of e) && i == bin.next (kind_of e) % bin_size then e else bin.array k i;
}

pub record Labels : Type 0 where
  pub stack : ℕ → ℕ
  pub count : ℕ

unfoldable pub push_label_stack : Labels → ℕ → Labels
push_label_stack s l = record {
  stack = λ i. if i == s.count % 256 then l else s.stack i;
  count = (s.count + 1) % 2 ^ 32;
}

unfoldable pub pop_label_stack : Labels → Labels
pop_label_stack s = record s { count = (s.count + 2 ^ 32 - 1) % 2 ^ 32 }

abbrev pub read_label_stack : Labels → ℕ
read_label_stack s = s.stack ((s.count + 2 ^ 32 - 1) % 2 ^ 32 % 256)

pub record Markov : Type 0 where
  pub active : Bool
  pub bin : TaskBin
  pub buffer : Task
  pub next_id : ℕ
  pub queue : AtomicQueue
  pub labels : Labels
  pub edge_src : ℕ
  pub edge_snk : ℕ
  pub launchers : List ℕ
  pub last_launcher : ℕ
  pub thread_spawns : List ℕ
  pub delivered : List Event

unfoldable pub markov_init : TaskBin → ℕ → ℕ → Markov
markov_init bin id block = record {
  active = true;
  bin = record bin { next = λ _. 0 };
  buffer = reset id;
  next_id = (id + 1) % 2 ^ 64;
  queue = initial_queue;
  labels = record { stack = λ _. 0; count = 0 };
  edge_src = 0;
  edge_snk = block;
  launchers = [];
  last_launcher = 0;
  thread_spawns = [];
  delivered = [];
}

-- addEvent, on the task and, if it is full, on a new one after the queue got it
unfoldable pub submit_to : Markov → Place → Option Task → Markov
submit_to s p (some t) = record s { buffer = t }
submit_to s p none = record s {
  queue = (push_blocking (λ k q. q) s.queue s.buffer).0;
  buffer = record { id = s.next_id; stuff = p ∷ [] };
  next_id = (s.next_id + 1) % 2 ^ 64;
}

unfoldable pub submit : Markov → Event → Markov
unfolding submit_to get_ptr
submit s e =
    submit_to (record s { bin = get_ptr s.bin e }) (place_of s.bin (kind_of e))
      (add_event s.buffer (place_of s.bin (kind_of e)))

unfoldable pub increment_edge : Markov → ℕ → Markov
increment_edge s a =
    submit (record s { edge_src = s.edge_snk; edge_snk = a }) (edge_inc s.edge_snk a)

unfoldable pub increment_label : Markov → ℕ → Markov
increment_label s a =
    if ltb 0 (s.labels).count then submit s (label_event a (read_label_stack s.labels)) else s

unfoldable pub increment_call : Markov → ℕ → Bool → Markov
increment_call s a entrance =
    if entrance
    then submit s
        (call_inc (if contains s.thread_spawns a then s.last_launcher else s.edge_src) a 0)
    else s

unfoldable pub markov_increment : Markov → ℕ → Bool → Markov
markov_increment s a entrance =
    if s.active then increment_call (increment_label (increment_edge s a) a) a entrance else s

unfoldable pub markov_launch : Markov → ℕ → Markov
markov_launch s a = record s { launchers = StdSet.insert ltb s.launchers a; last_launcher = a }

-- A round of MarkovPush, as one step: the reader is a thread of its own, and its accesses between those
-- of a push are in Queue/Interleaving. `none` is the exit of the process.
unfoldable pub markov_push : Markov → Option Markov
markov_push s =
    let r = pop s.queue in
    if (r.1).id == long_max
    then some (record s { queue = r.0 })
    else if ltb task_size (length (r.1).stuff)
    then none
    else some
        (record s { queue = r.0; delivered = s.delivered ++ map (read_event s.bin) (r.1).stuff })

-- MarkovDestroy, up to the wait for the reader
unfoldable pub markov_destroy : Markov → Markov
markov_destroy s = record s {
  queue =
      if ltb 0 (length (s.buffer).stuff)
      then (push_blocking (λ k q. q) s.queue s.buffer).0
      else s.queue;
  active = false;
}
