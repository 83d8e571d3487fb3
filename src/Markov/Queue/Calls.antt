-- ===== src/Markov/Queue/Calls.antt =====
-- Sequences of calls of the queue, and the push that waits.
use cyclebite.Base.{
  ℕ, zero, suc, ◌<◌, Bool, true, false, List, [], ◌∷◌, ◌++◌, leb, if◌then◌else◌, length, drop,
  length-drop_lt, ◌+◌, ◌≡◌, ◌∙◌, refl, subst, arith, Bool-cases, ap, inl, inr,
}
use cyclebite.Markov.Task.{Task, invalid_task}
use cyclebite.Markov.Queue.{
  AtomicQueue, full, empty, store, push, push_waiting, push_blocking, release, pop, tries_max,
}
use cyclebite.Markov.Queue.Fifo.{IsQueue, full_iff, store-IsQueue, empty_iff, release-IsQueue}

pub data Call : Type 0 where
  pushes : Task → Call
  pops : Call

pub data Reply : Type 0 where
  accepted : Bool → Reply
  returned : Task → Reply

unfoldable pub call : AtomicQueue → Call → AtomicQueue × Reply
call q (pushes t) = let r = push q t in (r.0, accepted r.1)
call q pops = let r = pop q in (r.0, returned r.1)

unfoldable pub replies : AtomicQueue → List Call → List Reply
replies q [] = []
replies q (c ∷ cs) = let r = call q c in r.1 ∷ replies r.0 cs

-- The promise: a list of at most 255 tasks.
abbrev pub fifo_call : List Task → Call → List Task × Reply
fifo_call xs (pushes t) =
    if leb 255 (length xs) then (xs, accepted false) else (xs ++ t ∷ [], accepted true)
fifo_call [] pops = ([], returned invalid_task)
fifo_call (x ∷ xs) pops = (xs, returned x)

abbrev pub fifo_replies : List Task → List Call → List Reply
fifo_replies xs [] = []
fifo_replies xs (c ∷ cs) = let r = fifo_call xs c in r.1 ∷ fifo_replies r.0 cs

-- A call answers as the list does and leaves a queue that holds the list's tasks.
abbrev pub Agrees : AtomicQueue × Reply → List Task × Reply → Type 0
Agrees r s = IsQueue r.0 s.0 × (r.1 ≡ s.1)

pub call-Agrees :
    (q : AtomicQueue) (xs : List Task) (c : Call)
    → IsQueue q xs
    → Agrees (call q c) (fifo_call xs c)
unfolding call push pop
call-Agrees q xs (pushes t) h = elim (Bool-cases (leb 255 (length xs))) [
  | inl e ↦ rw (full_iff q xs h, e) (h, refl)
  | inr e ↦ rw (full_iff q xs h, e) (store-IsQueue q t xs (ground (arith, e)) h, refl)
]
call-Agrees q [] pops h = rw (empty_iff q [] h) (h, refl)
call-Agrees q (x ∷ xs) pops h =
    let e : empty q.p_read q.p_write q.entries ≡ false = ground (arith, empty_iff q (x ∷ xs) h) in
    rw e (release-IsQueue q x xs h, ap returned (h.holds.0))

-- Whatever sequence of calls is made of a queue that holds a list of tasks, one after the other,
-- their replies are those of a list of at most 255 tasks that pushes at the end and pops from the
-- front.
pub replies-fifo_replies :
    (cs : List Call) (q : AtomicQueue) (xs : List Task)
    → IsQueue q xs
    → replies q cs ≡ fifo_replies xs cs
unfolding replies
replies-fifo_replies [] q xs h = refl
replies-fifo_replies (c ∷ cs) q xs h =
    let a = call-Agrees q xs c h in
    λ i. a.1 i ∷ replies-fifo_replies cs (call q c).0 (fifo_call xs c).0 a.0 i

-- A number of pops.
abbrev pub pop_many : ℕ → AtomicQueue → AtomicQueue
pop_many zero q = q
pop_many (suc n) q = pop_many n (pop q).0

pop_many_nothing : (n : ℕ) (q : AtomicQueue) → IsQueue q [] → IsQueue (pop_many n q) []
unfolding call
pop_many_nothing zero q h = h
pop_many_nothing (suc n) q h = pop_many_nothing n (pop q).0 (call-Agrees q [] pops h).0

pop_many-IsQueue :
    (n : ℕ) (q : AtomicQueue) (xs : List Task) → IsQueue q xs → IsQueue (pop_many n q) (drop n xs)
unfolding call
pop_many-IsQueue zero q xs h = h
pop_many-IsQueue (suc n) q [] h = pop_many_nothing (suc n) q h
pop_many-IsQueue (suc n) q (x ∷ xs) h =
    pop_many-IsQueue n (pop q).0 xs (call-Agrees q (x ∷ xs) pops h).0

push_free :
    (q : AtomicQueue) (t : Task)
    → full q.p_read q.p_write q.entries ≡ false
    → push q t ≡ (store q t, true)
unfolding push
push_free q t e = rw e refl

push_waiting-free :
    (others : ℕ → AtomicQueue → AtomicQueue) (tries : ℕ) (q : AtomicQueue) (t : Task)
    → full q.p_read q.p_write q.entries ≡ false
    → push_waiting others tries q t ≡ (store q t, true)
unfolding push_waiting push
push_waiting-free others zero q t e = push_free q t e
push_waiting-free others (suc tries) q t e = rw (e, push_waiting) (push_free q t e)

push_waiting-full :
    (others : ℕ → AtomicQueue → AtomicQueue) (tries : ℕ) (q : AtomicQueue) (t : Task)
    → full q.p_read q.p_write q.entries ≡ true
    → push_waiting others (suc tries) q t ≡ push_waiting others tries (others tries q) t
unfolding push_waiting
push_waiting-full others tries q t e = rw (e, push_waiting) refl

push_waiting-alone :
    (tries : ℕ) (q : AtomicQueue) (t : Task)
    → full q.p_read q.p_write q.entries ≡ true
    → push_waiting (λ k p. p) tries q t ≡ (q, false)
unfolding push_waiting push
push_waiting-alone zero q t e = rw e refl
push_waiting-alone (suc tries) q t e =
    rw (push_waiting-full (λ k p. p) tries q t e) (push_waiting-alone tries q t e)

pub push_blocking-IsQueue :
    (q : AtomicQueue) (xs : List Task) (t : Task)
    → IsQueue q xs
    → length xs < 255
    → IsQueue (push_blocking (λ k p. p) q t).0 (xs ++ t ∷ [])
push_blocking-IsQueue q xs t h l =
    rw (push_waiting-free (λ k p. p) tries_max q t (ground (arith, full_iff q xs h, l)))
      (store-IsQueue q t xs l h)

-- The readers do nothing in the first sleeps, and pop in the next one.
pops_after :
    (others : ℕ → AtomicQueue → AtomicQueue) (n before left : ℕ) (q : AtomicQueue) (xs : List Task)
    (t : Task)
    → IsQueue q xs
    → length xs ≡ 255
    → ((k : ℕ) (p : AtomicQueue) → left < k → others k p ≡ p)
    → others left q ≡ pop_many (suc n) q
    → (tries : ℕ) → before + left ≡ tries
    → push_waiting others (suc tries) q t ≡ (store (pop_many (suc n) q) t, true)
pops_after others n zero left q xs t h l idle awake tries sum =
    let e : full q.p_read q.p_write q.entries ≡ true = ground (arith, full_iff q xs h) in
    let rest = pop_many-IsQueue (suc n) q xs h in
    let small = length-drop_lt n xs (omega arith) in
    let free : full (pop_many (suc n) q).p_read (pop_many (suc n) q).p_write
          (pop_many (suc n) q).entries
        ≡ false =
      ground (arith, full_iff (pop_many (suc n) q) (drop (suc n) xs) rest, small) in
    let same : left ≡ tries = omega (arith, sum) in
    subst (λ m. push_waiting others (suc m) q t ≡ (store (pop_many (suc n) q) t, true)) (same)
      (push_waiting-full others left q t e
        ∙ ap (λ p. push_waiting others left p t) awake
        ∙ push_waiting-free others left (pop_many (suc n) q) t free)
pops_after others n (suc before) left q xs t h l idle awake tries sum =
    let e : full q.p_read q.p_write q.entries ≡ true = ground (arith, full_iff q xs h) in
    let same : suc (before + left) ≡ tries = omega (arith, sum) in
    subst (λ m. push_waiting others (suc m) q t ≡ (store (pop_many (suc n) q) t, true)) (same)
      (push_waiting-full others (suc (before + left)) q t e
        ∙ ap (λ p. push_waiting others (suc (before + left)) p t)
            (idle (suc (before + left)) q (omega arith))
        ∙ pops_after others n before left q xs t h l idle awake (before + left) refl)

-- A push that waits at a full queue, of up to 32768 sleeps: when the readers pop nothing in the first
-- `before` sleeps and at least one task in the next one, whichever of the sleeps that is, the push
-- succeeds, and the tasks that are left are followed by the new one. When nothing is popped in any
-- sleep it gives up and leaves the queue as it is. The pops are done one after the other, and none of
-- them while the push tests or stores.
pub push_blocking-delivers :
    (others : ℕ → AtomicQueue → AtomicQueue) (n before left : ℕ) (q : AtomicQueue) (xs : List Task)
    (t : Task)
    → IsQueue q xs
    → length xs ≡ 255
    → before + left ≡ 32767
    → ((k : ℕ) (p : AtomicQueue) → left < k → others k p ≡ p)
    → others left q ≡ pop_many (suc n) q
    → (IsQueue (push_blocking others q t).0 (drop (suc n) xs ++ t ∷ [])
        × ((push_blocking others q t).1 ≡ true))
      × (push_blocking (λ k p. p) q t ≡ (q, false))
push_blocking-delivers others n before left q xs t h l sleeps idle awake =
    let e : full q.p_read q.p_write q.entries ≡ true = ground (arith, full_iff q xs h) in
    let rest = pop_many-IsQueue (suc n) q xs h in
    let small = length-drop_lt n xs (omega arith) in
    let ends : push_blocking others q t ≡ (store (pop_many (suc n) q) t, true) =
      pops_after others n before left q xs t h l idle awake 32767 sleeps in
    (
      rw ends (store-IsQueue (pop_many (suc n) q) t (drop (suc n) xs) (omega arith) rest, refl),
      push_waiting-alone tries_max q t e,
    )

pub pop_empty : (q : AtomicQueue) → IsQueue q [] → pop q ≡ (q, invalid_task)
unfolding pop
pop_empty q h = rw (empty_iff q [] h) refl

pub pop_front :
    (q : AtomicQueue) (x : Task) (xs : List Task) → IsQueue q (x ∷ xs) → pop q ≡ (release q, x)
unfolding pop
pop_front q x xs h =
    let e : empty q.p_read q.p_write q.entries ≡ false = ground (arith, empty_iff q (x ∷ xs) h) in
    rw e (ap (λ y. (release q, y)) (h.holds.0))
