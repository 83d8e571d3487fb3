-- ===== src/Markov/Handlers/Submit.antt =====
-- One event on its way from the handlers to the reader.
use cyclebite.Base.{
  ◌+◌, ◌*◌, ◌%◌, ◌^◌, ◌≤◌, ◌<◌, true, false, List, [], ◌∷◌, ◌++◌, map, ltb, length, length-append,
  ◌≡◌, inl, inr, refl, sym, ap, subst, ◌∙◌, arith, All, Bool-cases,
}
use mathlib.Core.List.{append_assoc, append-nil, map-append}
use cyclebite.Markov.Task.{Place, Task, long_max, add_event}
use cyclebite.Markov.Queue.{AtomicQueue, push_blocking}
use cyclebite.Markov.Queue.Fifo.{IsQueue}
use cyclebite.Markov.Queue.Calls.{push_blocking-IsQueue}
use cyclebite.Markov.Handlers.{
  Event, kind_of, TaskBin, read_event, place_of, get_ptr, Markov, submit, submit_to,
}
use cyclebite.Markov.Handlers.Places.{
  IsRecent, IsRecent-get_ptr, read-get_ptr_old, read-get_ptr_new,
}

abbrev pub places : List Task → List Place
places [] = []
places (t ∷ ts) = t.stuff ++ places ts

abbrev pub IsTask : Task → Type 0
IsTask t = (length t.stuff ≤ 6) × (t.id < long_max)

-- The events that were delivered, those in the queue and those of the buffer are `es`, in order.
pub record IsChannel (bin : TaskBin) (buffer : Task) (queue : AtomicQueue) (delivered : List Event)
    (xs : List Task) (es : List Event) : Type 0 where
  pub queued : IsQueue queue xs
  pub tasks : All IsTask xs
  pub last : IsTask buffer
  pub recent : IsRecent bin.next (places xs ++ buffer.stuff)
  pub delivers : delivered ++ map (read_event bin) (places xs ++ buffer.stuff) ≡ es

pub places-append : (xs : List Task) (t : Task) → places (xs ++ t ∷ []) ≡ places xs ++ t.stuff
places-append [] t = append-nil t.stuff
places-append (x ∷ xs) t =
    ap (λ ps. x.stuff ++ ps) (places-append xs t) ∙ sym (append_assoc x.stuff (places xs) t.stuff)

places-length : (xs : List Task) → All IsTask xs → length (places xs) ≤ 6 * length xs
places-length [] h = omega arith
places-length (x ∷ xs) h =
    omega (arith, h.0, places-length xs h.1, length-append x.stuff (places xs))

pub All-append_one :
    (xs : List Task) (t : Task) → All IsTask xs → IsTask t → All IsTask (xs ++ t ∷ [])
All-append_one [] t h k = (k, tt)
All-append_one (x ∷ xs) t h k = (h.0, All-append_one xs t h.1 k)

module _ (bin : TaskBin) (e : Event) (delivered es : List Event) (ps : List Place) where
  -- A list of places that grows by that of a new event.
  deliver_more :
      length ps < 4095
      → IsRecent bin.next ps
      → delivered ++ map (read_event bin) ps ≡ es
      → delivered ++ map (read_event (get_ptr bin e)) (ps ++ place_of bin (kind_of e) ∷ [])
        ≡ es ++ e ∷ []
  deliver_more l r d =
      ap (λ m. delivered ++ m)
        (map-append (read_event (get_ptr bin e)) ps (place_of bin (kind_of e) ∷ [])
          ∙ (λ i. read-get_ptr_old bin e ps l r i ++ read-get_ptr_new bin e i ∷ []))
      ∙ sym (append_assoc delivered (map (read_event bin) ps) (e ∷ []))
      ∙ ap (λ m. m ++ e ∷ []) d

live-length :
    {bin : TaskBin} {buffer : Task} {queue : AtomicQueue} {delivered : List Event} {xs : List Task}
    {es : List Event}
    → IsChannel bin buffer queue delivered xs es
    → length (places xs ++ buffer.stuff) < 4095
live-length {buffer = buffer} {xs = xs} h = omega (
  arith,
  places-length xs h.tasks,
  h.last,
  (h.queued).fits,
  length-append (places xs) buffer.stuff,
)

module _ (s : Markov) (e : Event) where
  -- The event has a place at the end of the buffer.
  submit-room :
      length (s.buffer).stuff < 6
      → submit s e ≡ record s {
        bin = get_ptr s.bin e;
        buffer = record (s.buffer) { stuff = (s.buffer).stuff ++ place_of s.bin (kind_of e) ∷ [] };
      }
  unfolding submit submit_to add_event
  submit-room l = let c : ltb (length (s.buffer).stuff) 6 ≡ true = ground arith in rw c refl

  submit-full :
      6 ≤ length (s.buffer).stuff
      → submit s e ≡ record s {
        bin = get_ptr s.bin e;
        queue = (push_blocking (λ k q. q) s.queue s.buffer).0;
        buffer = record { id = s.next_id; stuff = place_of s.bin (kind_of e) ∷ [] };
        next_id = (s.next_id + 1) % 2 ^ 64;
      }
  unfolding submit submit_to add_event
  submit-full l = let c : ltb (length (s.buffer).stuff) 6 ≡ false = ground arith in rw c refl

abbrev pub Carries : Markov → List Task → List Event → Type 0
Carries s xs es = IsChannel s.bin s.buffer s.queue s.delivered xs es

-- What an event leaves alone.
pub record Follows (s s' : Markov) : Type 0 where
  pub active : s'.active ≡ s.active
  pub labels : s'.labels ≡ s.labels
  pub edge_src : s'.edge_src ≡ s.edge_src
  pub edge_snk : s'.edge_snk ≡ s.edge_snk
  pub thread_spawns : s'.thread_spawns ≡ s.thread_spawns
  pub next_id : s'.next_id ≤ s.next_id + 1

abbrev pub Submitted : Markov → List Task → List Event → Markov → Type 0
Submitted s xs es s' =
    (ys : List Task) × Carries s' ys es × (length ys ≤ length xs + 1) × Follows s s'

module _ (s : Markov) (e : Event) (xs : List Task) (es : List Event) where
  -- The places on the way after the event, in any bracketing.
  grown :
      (qs : List Place)
      → Carries s xs es
      → places xs ++ (s.buffer).stuff ++ place_of s.bin (kind_of e) ∷ [] ≡ qs
      → IsRecent (get_ptr s.bin e).next qs
        × (s.delivered ++ map (read_event (get_ptr s.bin e)) qs ≡ es ++ e ∷ [])
  grown qs h eq =
      let ps = places xs ++ (s.buffer).stuff in
      (
        subst (IsRecent (get_ptr s.bin e).next) (eq)
            (IsRecent-get_ptr s.bin e ps (live-length h) h.recent),
        subst (λ qs. s.delivered ++ map (read_event (get_ptr s.bin e)) qs ≡ es ++ e ∷ []) (eq)
            (deliver_more s.bin e s.delivered es ps (live-length h) h.recent h.delivers),
      )

  Submitted-room :
      Carries s xs es → length (s.buffer).stuff < 6 → Submitted s xs (es ++ e ∷ []) (submit s e)
  Submitted-room h room =
      let p = place_of s.bin (kind_of e) in
      let g =
        grown (places xs ++ ((s.buffer).stuff ++ p ∷ [])) h
          (append_assoc (places xs) (s.buffer).stuff (p ∷ [])) in
      subst (Submitted s xs (es ++ e ∷ [])) (sym (submit-room s e room)) (
        xs,
        record {
          queued = h.queued;
          tasks = h.tasks;
          last = (omega (arith, length-append (s.buffer).stuff (p ∷ []), room), (h.last).1);
          recent = g.0;
          delivers = g.1;
        },
        omega arith,
        record {
          active = refl;
          labels = refl;
          edge_src = refl;
          edge_snk = refl;
          thread_spawns = refl;
          next_id = omega arith;
        },
      )

  Submitted-full :
      Carries s xs es
      → 6 ≤ length (s.buffer).stuff
      → length xs < 255
      → s.next_id < long_max
      → Submitted s xs (es ++ e ∷ []) (submit s e)
  Submitted-full h full l n =
      let p = place_of s.bin (kind_of e) in
      let g =
        grown (places (xs ++ s.buffer ∷ []) ++ p ∷ []) h
          (ap (λ m. m ++ p ∷ []) (sym (places-append xs s.buffer))) in
      subst (Submitted s xs (es ++ e ∷ [])) (sym (submit-full s e full)) (
        xs ++ s.buffer ∷ [],
        record {
          queued = push_blocking-IsQueue s.queue xs s.buffer h.queued l;
          tasks = All-append_one xs s.buffer h.tasks h.last;
          last = (omega arith, n);
          recent = g.0;
          delivers = g.1;
        },
        omega (arith, length-append xs (s.buffer ∷ [])),
        record {
          active = refl;
          labels = refl;
          edge_src = refl;
          edge_snk = refl;
          thread_spawns = refl;
          next_id = omega (arith, n);
        },
      )

  -- An event that is submitted while the queue has room comes last of those on the way.
  pub submit-Submitted :
      Carries s xs es
      → length xs < 255
      → s.next_id < long_max
      → Submitted s xs (es ++ e ∷ []) (submit s e)
  submit-Submitted h l n = elim (Bool-cases (ltb (length (s.buffer).stuff) 6)) [
    | inl room ↦ Submitted-room h (ground (arith, room))
    | inr full ↦ Submitted-full h (ground (arith, full)) l n
  ]
