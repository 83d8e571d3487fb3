-- ===== src/Markov/Handlers/Run.antt =====
-- A whole profile of a program with one thread: what the reader delivers is what the program did.
use cyclebite.Base.{
  ℕ, ◌+◌, ◌<◌, Bool, true, ◌&&◌, List, [], ◌∷◌, ◌++◌, Option, none, some, ◌>>=◌, ltb, length, ◌≡◌,
  refl, sym, subst, ◌∙◌, arith,
}
use mathlib.Core.List.{append_assoc, append-nil}
use cyclebite.Markov.Task.{Task, long_max}
use cyclebite.Markov.Handlers.{
  Event, TaskBin, Markov, markov_init, markov_increment, markov_launch, markov_push,
  push_label_stack, pop_label_stack,
}
use cyclebite.Markov.Handlers.Stack.{push_label_stack-IsStack, pop_label_stack-IsStack}
use cyclebite.Markov.Handlers.Increment.{IsRun, made, markov_increment-IsRun}
use cyclebite.Markov.Handlers.Reader.{finish, finish-delivers, markov_push-IsRun}

-- The calls of the program under test, and the rounds of the reader.
pub data Action : Type 0 where
  increments : ℕ → Bool → Action
  launches : ℕ → Action
  enters : ℕ → Action
  exits : Action
  reads : Action

unfoldable pub act : Markov → Action → Option Markov
act s (increments a entrance) = some (markov_increment s a entrance)
act s (launches a) = some (markov_launch s a)
act s (enters l) = some (record s { labels = push_label_stack s.labels l })
act s exits = some (record s { labels = pop_label_stack s.labels })
act s reads = markov_push s

unfoldable pub act_all : Markov → List Action → Option Markov
act_all s [] = some s
act_all s (x ∷ xs) = do s' ← act s x; act_all s' xs

-- What a program that is in block `b` under the labels `ls` does, by its calls alone.
abbrev pub history : ℕ → List ℕ → List Action → List Event
history b ls [] = []
history b ls (increments a entrance ∷ xs) = made b ls a entrance ++ history a ls xs
history b ls (launches a ∷ xs) = history b ls xs
history b ls (enters l ∷ xs) = history b (l ∷ ls) xs
history b [] (exits ∷ xs) = history b [] xs
history b (l ∷ ls) (exits ∷ xs) = history b ls xs
history b ls (reads ∷ xs) = history b ls xs

-- Kernels are left after they were entered, and at most 256 are open at a time.
abbrev pub IsNested : List ℕ → List Action → Type 0
IsNested ls [] = Unit
IsNested ls (increments a entrance ∷ xs) = IsNested ls xs
IsNested ls (launches a ∷ xs) = IsNested ls xs
IsNested ls (enters l ∷ xs) = (length ls < 256) × IsNested (l ∷ ls) xs
IsNested [] (exits ∷ xs) = ⊥
IsNested (l ∷ ls) (exits ∷ xs) = IsNested ls xs
IsNested ls (reads ∷ xs) = IsNested ls xs

-- The reader keeps up: at each MarkovIncrement the queue has less than 253 tasks, and less than
-- 255 at the end. Identifiers of tasks stay below that of no task.
abbrev pub has_room : Markov → Bool
has_room s = ltb (s.queue).entries 253 && ltb (s.next_id + 3) long_max

unfoldable pub keeps_up : Markov → List Action → Bool
unfolding act
keeps_up s [] = ltb (s.queue).entries 255
keeps_up s (increments a entrance ∷ xs) = has_room s && keeps_up (markov_increment s a entrance) xs
keeps_up s (launches a ∷ xs) = keeps_up (markov_launch s a) xs
keeps_up s (enters l ∷ xs) = keeps_up (record s { labels = push_label_stack s.labels l }) xs
keeps_up s (exits ∷ xs) = keeps_up (record s { labels = pop_label_stack s.labels }) xs
keeps_up s (reads ∷ xs) = elim (markov_push s) [ none ↦ true | some s' ↦ keeps_up s' xs ]

abbrev Done : Markov → List Action → List Event → Type 0
Done s xs es = (s' : Markov) × ((act_all s xs >>= finish) ≡ some s') × (s'.delivered ≡ es)

keeps_up-reads :
    (s s' : Markov) (xs : List Action)
    → markov_push s ≡ some s'
    → keeps_up s (reads ∷ xs) ≡ true
    → keeps_up s' xs ≡ true
unfolding keeps_up
keeps_up-reads s s' xs e h = rw (e, keeps_up) at h

Done-reads :
    (s s' : Markov) (xs : List Action) (es : List Event)
    → markov_push s ≡ some s'
    → Done s' xs es
    → Done s (reads ∷ xs) es
unfolding act_all act
Done-reads s s' xs es e d = rw e d

launch-IsRun :
    (s : Markov) (a : ℕ) (ts : List Task) (es : List Event) (b : ℕ) (ls : List ℕ)
    → IsRun s ts es b ls
    → IsRun (markov_launch s a) ts es b ls
unfolding markov_launch
launch-IsRun s a ts es b ls h = record {
  active = h.active;
  block = h.block;
  single = h.single;
  labels = h.labels;
  carries = h.carries;
}

init-IsRun :
    (bin : TaskBin) (id block : ℕ) → id < long_max → IsRun (markov_init bin id block) [] [] block []
unfolding markov_init
init-IsRun bin id block l = record {
  active = refl;
  block = refl;
  single = refl;
  labels = record { counts = refl; fits = omega arith; tops = tt };
  carries = record {
    queued = record {
      reads = omega arith;
      writes = refl;
      counts = refl;
      fits = omega arith;
      holds = tt;
    };
    tasks = tt;
    last = (omega arith, l);
    recent = tt;
    delivers = refl;
  };
}

act_all-delivers :
    (xs : List Action) (s : Markov) (ts : List Task) (es : List Event) (b : ℕ) (ls : List ℕ)
    → IsRun s ts es b ls
    → IsNested ls xs
    → keeps_up s xs ≡ true
    → Done s xs (es ++ history b ls xs)
unfolding act_all act keeps_up
act_all-delivers [] s ts es b ls h n k =
    let (s', e, d) =
      finish-delivers s ts es h.carries (ground (arith, k, ((h.carries).queued).counts)) in
    (s', e, d ∙ sym (append-nil es))
act_all-delivers (increments a entrance ∷ xs) s ts es b ls h n k =
    let (us, r) =
      markov_increment-IsRun b a ls s ts es entrance h
        (ground (arith, k, ((h.carries).queued).counts)) (ground (arith, k)) in
    subst (Done (markov_increment s a entrance) xs)
      (append_assoc es (made b ls a entrance) (history a ls xs))
      (act_all-delivers xs (markov_increment s a entrance) us (es ++ made b ls a entrance) a ls r n
        (ground (arith, k)))
act_all-delivers (launches a ∷ xs) s ts es b ls h n k =
    act_all-delivers xs (markov_launch s a) ts es b ls (launch-IsRun s a ts es b ls h) n k
act_all-delivers (enters l ∷ xs) s ts es b ls h n k =
    act_all-delivers xs (record s { labels = push_label_stack s.labels l }) ts es b (l ∷ ls)
      (record {
        active = h.active;
        block = h.block;
        single = h.single;
        labels = push_label_stack-IsStack s.labels ls l h.labels n.0;
        carries = h.carries;
      })
      n.1 k
act_all-delivers (exits ∷ xs) s ts es b [] h n k = absurd n
act_all-delivers (exits ∷ xs) s ts es b (l ∷ ls) h n k =
    act_all-delivers xs (record s { labels = pop_label_stack s.labels }) ts es b ls
      (record {
        active = h.active;
        block = h.block;
        single = h.single;
        labels = (pop_label_stack-IsStack s.labels l ls h.labels).0;
        carries = h.carries;
      })
      n k
act_all-delivers (reads ∷ xs) s ts es b ls h n k =
    let (s', e, (us, r)) = markov_push-IsRun s ts es b ls h in
    Done-reads s s' xs (es ++ history b ls xs) e
      (act_all-delivers xs s' us es b ls r n (keeps_up-reads s s' xs e k))

-- A program with one thread whose kernels nest, at most 256 deep, is profiled in a schedule in
-- which each round of the reader, a pop and the delivery of the task, is one step between two
-- calls of the program (a pop that runs into a push can lose a task, which race-loses shows, and
-- is not part of these schedules), the reader keeps up (less than 253 tasks wait at each
-- MarkovIncrement and less than 255 at the end) and the identifiers of tasks stay below
-- __LONG_MAX__. In every such schedule the profile ends, and the reader has delivered exactly the
-- edges, labels and calls of the program, in order: the handlers lose, repeat or overwrite none in
-- the task bin.
pub profile-delivers :
    (bin : TaskBin) (id block : ℕ) (xs : List Action)
    → id < long_max
    → IsNested [] xs
    → keeps_up (markov_init bin id block) xs ≡ true
    → (s : Markov) × ((act_all (markov_init bin id block) xs >>= finish) ≡ some s)
      × (s.delivered ≡ history block [] xs)
profile-delivers bin id block xs l n k =
    act_all-delivers xs (markov_init bin id block) [] [] block [] (init-IsRun bin id block l) n k
