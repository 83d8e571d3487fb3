-- ===== src/Markov/Handlers/Reader.antt =====
-- The reader of the queue, MarkovPush, and the end of a profile, MarkovDestroy.
use cyclebite.Base.{
  ℕ, zero, suc, ◌≤◌, ◌<◌, true, false, List, [], ◌∷◌, ◌++◌, map, Option, none, some, ◌>>=◌, ltb,
  ◌==◌, All, length, length-append, ◌≡◌, inl, inr, refl, sym, ap, subst, ◌∙◌, arith, Bool-cases,
  >>=-eq-some,
}
use mathlib.Core.List.{append_assoc, append-nil, map-append}
use cyclebite.Markov.Task.{Task, long_max, task_size}
use cyclebite.Markov.Queue.{AtomicQueue, release, push_blocking}
use cyclebite.Markov.Queue.Fifo.{IsQueue, release-IsQueue}
use cyclebite.Markov.Queue.Calls.{pop_empty, pop_front, push_blocking-IsQueue}
use cyclebite.Markov.Handlers.{Event, read_event, Markov, markov_push, markov_destroy}
use cyclebite.Markov.Handlers.Places.{IsRecent, IsRecent-drop}
use cyclebite.Markov.Handlers.Increment.{IsRun}
use cyclebite.Markov.Handlers.Submit.{
  IsChannel, IsTask, Carries, places, places-append, All-append_one,
}

-- The loop of MarkovPush after the profile has ended, until the queue is empty.
unfoldable pub read_rest : ℕ → Markov → Option Markov
read_rest zero s = none
read_rest (suc f) s = elim (ltb 0 (s.queue).entries) [
  | false ↦ some s
  | true ↦ markov_push s >>= λ s'. read_rest f s'
]

-- MarkovDestroy
unfoldable pub finish : Markov → Option Markov
finish s = read_rest 256 (markov_destroy s)

lt-zero : {n : ℕ} → n < 0 → ⊥
lt-zero l = omega arith

module _ (s : Markov) where
  push_nothing : IsQueue s.queue [] → markov_push s ≡ some s
  unfolding markov_push
  push_nothing h = rw (pop_empty s.queue h) refl

  push_front :
      (x : Task) (xs : List Task)
      → IsQueue s.queue (x ∷ xs)
      → IsTask x
      → markov_push s
        ≡ some (record s {
          queue = release s.queue;
          delivered = s.delivered ++ map (read_event s.bin) x.stuff;
        })
  unfolding markov_push
  push_front x xs h t =
      let valid : (x.id == long_max) ≡ false = ground arith in
      let small : ltb task_size (length x.stuff) ≡ false = ground arith in
      rw (pop_front s.queue x xs h) (rw valid (rw small refl))

  push_front-IsChannel :
      (buffer x : Task) (xs : List Task) (es : List Event)
      → IsChannel s.bin buffer s.queue s.delivered (x ∷ xs) es
      → IsChannel s.bin buffer
          (release s.queue)
          (s.delivered ++ map (read_event s.bin) x.stuff)
          xs
          es
  push_front-IsChannel buffer x xs es h =
      let rest = places xs ++ buffer.stuff in
      record {
        queued = release-IsQueue s.queue x xs h.queued;
        tasks = (h.tasks).1;
        last = h.last;
        recent = IsRecent-drop (s.bin).next x.stuff rest (
            subst (IsRecent (s.bin).next) (append_assoc x.stuff (places xs) buffer.stuff) h.recent);
        delivers =
            append_assoc s.delivered (map (read_event s.bin) x.stuff) (map (read_event s.bin) rest)
            ∙ ap (λ m. s.delivered ++ m)
                (sym (map-append (read_event s.bin) x.stuff rest)
                  ∙ ap (map (read_event s.bin))
                      (sym (append_assoc x.stuff (places xs) buffer.stuff)))
            ∙ h.delivers;
      }

pub markov_push-IsRun :
    (s : Markov) (xs : List Task) (es : List Event) (b : ℕ) (ls : List ℕ)
    → IsRun s xs es b ls
    → (s' : Markov) × (markov_push s ≡ some s') × ((ys : List Task) × IsRun s' ys es b ls)
markov_push-IsRun s [] es b ls h = (s, push_nothing s (h.carries).queued, ([], h))
markov_push-IsRun s (x ∷ xs) es b ls h = (
  record s { queue = release s.queue; delivered = s.delivered ++ map (read_event s.bin) x.stuff },
  push_front s x xs (h.carries).queued ((h.carries).tasks).0,
  (
    xs,
    record {
      active = h.active;
      block = h.block;
      single = h.single;
      labels = h.labels;
      carries = push_front-IsChannel s s.buffer x xs es h.carries;
    },
  ),
)

abbrev no_task : Task
no_task = record { id = 0; stuff = [] }

read_rest_empty :
    (f : ℕ) (s : Markov) → ltb 0 (s.queue).entries ≡ false → read_rest (suc f) s ≡ some s
unfolding read_rest
read_rest_empty f s e = rw (e, read_rest) refl

read_rest_more :
    (f : ℕ) (s : Markov)
    → ltb 0 (s.queue).entries ≡ true
    → read_rest (suc f) s ≡ (markov_push s >>= λ s'. read_rest f s')
unfolding read_rest
read_rest_more f s e = rw (e, read_rest) refl

read_rest-delivers :
    (f : ℕ) (s : Markov) (xs : List Task) (es : List Event)
    → IsChannel s.bin no_task s.queue s.delivered xs es
    → length xs < f
    → (s' : Markov) × (read_rest f s ≡ some s') × (s'.delivered ≡ es)
read_rest-delivers zero s xs es h l = absurd (lt-zero l)
read_rest-delivers (suc f) s [] es h l =
    let e : ltb 0 (s.queue).entries ≡ false = ground (arith, (h.queued).counts) in
    (s, read_rest_empty f s e, sym (append-nil s.delivered) ∙ h.delivers)
read_rest-delivers (suc f) s (x ∷ xs) es h l =
    let e : ltb 0 (s.queue).entries ≡ true = ground (arith, (h.queued).counts) in
    let (s', ends, d) =
      read_rest-delivers f
        (record s {
          queue = release s.queue;
          delivered = s.delivered ++ map (read_event s.bin) x.stuff;
        })
        xs es (push_front-IsChannel s no_task x xs es h) (omega (arith, l)) in
    (
      s',
      rw (read_rest_more f s e)
          (>>=-eq-some (read_rest f) (push_front s x xs h.queued (h.tasks).0) ends),
      d,
    )

length_nothing : {A : Type 0} (xs : List A) → length xs ≤ 0 → xs ≡ []
length_nothing [] l = refl
length_nothing (x ∷ xs) l = ground arith

-- The same places, bracketed as those of the queue alone.
requeued :
    (s : Markov) (queue : AtomicQueue) (xs ys : List Task) (es : List Event)
    → Carries s xs es
    → IsQueue queue ys
    → All IsTask ys
    → places xs ++ (s.buffer).stuff ≡ places ys ++ []
    → IsChannel s.bin no_task queue s.delivered ys es
requeued s queue xs ys es h q t eq = record {
  queued = q;
  tasks = t;
  last = omega arith;
  recent = subst (IsRecent (s.bin).next) (eq) h.recent;
  delivers = subst (λ ps. s.delivered ++ map (read_event s.bin) ps ≡ es) (eq) h.delivers;
}

destroyed :
    (s : Markov) (xs : List Task) (es : List Event)
    → Carries s xs es
    → length xs < 255
    → (ys : List Task) × IsChannel s.bin no_task (markov_destroy s).queue s.delivered ys es
      × (length ys < 256)
unfolding markov_destroy
destroyed s xs es h l = elim (Bool-cases (ltb 0 (length (s.buffer).stuff))) [
  | inl some_left ↦ (
    xs ++ s.buffer ∷ [],
    rw some_left (
        requeued s (push_blocking (λ k q. q) s.queue s.buffer).0 xs (xs ++ s.buffer ∷ []) es h
          (push_blocking-IsQueue s.queue xs s.buffer h.queued l)
          (All-append_one xs s.buffer h.tasks h.last)
          (sym (append-nil (places (xs ++ s.buffer ∷ [])) ∙ places-append xs s.buffer))),
    omega (arith, l, length-append xs (s.buffer ∷ [])),
  )
  | inr none_left ↦ (
    xs,
    rw none_left (
        requeued s s.queue xs xs es h h.queued h.tasks (
          ap (λ ps. places xs ++ ps)
            (length_nothing (s.buffer).stuff (ground (arith, none_left))))),
    omega arith,
  )
]

-- MarkovDestroy, called while the queue has room, returns when everything has been delivered.
pub finish-delivers :
    (s : Markov) (xs : List Task) (es : List Event)
    → Carries s xs es
    → length xs < 255
    → (s' : Markov) × (finish s ≡ some s') × (s'.delivered ≡ es)
unfolding finish markov_destroy
finish-delivers s xs es h l =
    let (ys, c, small) = destroyed s xs es h l in
    read_rest-delivers 256 (markov_destroy s) ys es c small
