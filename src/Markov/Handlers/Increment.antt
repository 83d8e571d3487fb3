-- ===== src/Markov/Handlers/Increment.antt =====
-- MarkovIncrement: the events that it sends on their way.
use cyclebite.Base.{
  ℕ, ◌+◌, ◌≤◌, ◌<◌, Bool, true, false, List, [], ◌∷◌, ◌++◌, ltb, length, ◌≡◌, refl, sym, ap, subst,
  ◌∙◌, arith, if-eq_true,
}
use mathlib.Core.List.{append_assoc, append-nil}
use cyclebite.Base.NatSet.{contains}
use cyclebite.Markov.Task.{Task, long_max}
use cyclebite.Markov.Handlers.{
  Event, edge_inc, call_inc, label_event, Markov, submit, increment_edge, increment_label,
  increment_call, markov_increment,
}
use cyclebite.Markov.Handlers.Stack.{IsStack, pop_label_stack-IsStack}
use cyclebite.Markov.Handlers.Submit.{Carries, submit-Submitted}

-- What entering block `a` from block `b` is to be recorded as.
abbrev pub label_events : List ℕ → ℕ → List Event
label_events [] a = []
label_events (l ∷ ls) a = label_event a l ∷ []

abbrev pub call_events : ℕ → ℕ → Bool → List Event
call_events b a true = call_inc b a 0 ∷ []
call_events b a false = []

abbrev pub made : ℕ → List ℕ → ℕ → Bool → List Event
made b ls a entrance = edge_inc b a ∷ [] ++ label_events ls a ++ call_events b a entrance

-- The state of a program with one thread that is in block `b` under the labels `ls`.
pub record IsRun (s : Markov) (xs : List Task) (es : List Event) (b : ℕ) (ls : List ℕ)
    : Type 0 where
  pub active : s.active ≡ true
  pub block : s.edge_snk ≡ b
  pub single : s.thread_spawns ≡ []
  pub labels : IsStack s.labels ls
  pub carries : Carries s xs es

-- A state that follows one of a run, with the block that it came from.
pub record IsStep (s : Markov) (n : ℕ) (xs : List Task) (es : List Event) (b a : ℕ) (ls : List ℕ)
    : Type 0 where
  pub run : IsRun s xs es a ls
  pub came : s.edge_src ≡ b
  pub small : length xs ≤ n

module _ (b a : ℕ) (ls : List ℕ) where
  submit-IsStep :
      (s : Markov) (e : Event) (n : ℕ) (xs : List Task) (es : List Event)
      → IsStep s n xs es b a ls
      → n < 255
      → s.next_id < long_max
      → (ys : List Task) × IsStep (submit s e) (n + 1) ys (es ++ e ∷ []) b a ls
        × ((submit s e).next_id ≤ s.next_id + 1)
  submit-IsStep s e n xs es h l i =
      let (ys, c, less, f) =
        submit-Submitted s e xs es (h.run).carries (omega (arith, h.small)) i in
      (
        ys,
        record {
          run = record {
            active = f.active ∙ (h.run).active;
            block = f.edge_snk ∙ (h.run).block;
            single = f.thread_spawns ∙ (h.run).single;
            labels = subst (λ t. IsStack t ls) (sym f.labels) ((h.run).labels);
            carries = c;
          };
          came = f.edge_src ∙ h.came;
          small = omega (arith, less, h.small);
        },
        f.next_id,
      )

  skip-IsStep :
      (s : Markov) (n : ℕ) (xs : List Task) (es : List Event)
      → IsStep s n xs es b a ls
      → IsStep s (n + 1) xs (es ++ []) b a ls
  skip-IsStep s n xs es h =
      subst (λ fs. IsStep s (n + 1) xs fs b a ls) (sym (append-nil es))
        (record { run = h.run; came = h.came; small = omega (arith, h.small) })

  -- A result of one of the parts of MarkovIncrement.
  abbrev Stepped : Markov → ℕ → List Event → Markov → Type 0
  Stepped s n es s' =
      (ys : List Task) × IsStep s' (n + 1) ys es b a ls × (s'.next_id ≤ s.next_id + 1)

  call_eq :
      (s : Markov)
      → s.thread_spawns ≡ []
      → s.edge_src ≡ b
      → increment_call s a true ≡ submit s (call_inc b a 0)
  unfolding increment_call contains
  call_eq s e c =
      let none_spawned : contains s.thread_spawns a ≡ false = ap (λ t. contains t a) e in
      rw none_spawned (ap (λ x. submit s (call_inc x a 0)) c)

  increment_call-IsStep :
      (s : Markov) (n : ℕ) (xs : List Task) (es : List Event) (entrance : Bool)
      → IsStep s n xs es b a ls
      → n < 255
      → s.next_id < long_max
      → Stepped s n (es ++ call_events b a entrance) (increment_call s a entrance)
  unfolding increment_call
  increment_call-IsStep s n xs es true h l i =
      subst (Stepped s n (es ++ call_events b a true)) (sym (call_eq s (h.run).single h.came))
        (submit-IsStep s (call_inc b a 0) n xs es h l i)
  increment_call-IsStep s n xs es false h l i = (xs, skip-IsStep s n xs es h, omega arith)

four : (a b c d : List Event) → a ++ b ++ c ++ d ≡ a ++ (b ++ c ++ d)
four a b c d = ap (λ x. x ++ d) (append_assoc a b c) ∙ append_assoc a (b ++ c) d

module _ (b a : ℕ) where
  label_none : (s : Markov) → IsStack s.labels [] → increment_label s a ≡ s
  unfolding increment_label
  label_none s h = let e : ltb 0 (s.labels).count ≡ false = ground (arith, h.counts) in rw e refl

  label_some :
      (s : Markov) (l : ℕ) (ls : List ℕ)
      → IsStack s.labels (l ∷ ls)
      → increment_label s a ≡ submit s (label_event a l)
  unfolding increment_label
  label_some s l ls h =
      let e : ltb 0 (s.labels).count ≡ true = ground (arith, h.counts) in
      rw e (ap (λ x. submit s (label_event a x)) (pop_label_stack-IsStack s.labels l ls h).1)

  increment_label-IsStep :
      (ls : List ℕ) (s : Markov) (n : ℕ) (xs : List Task) (es : List Event)
      → IsStep s n xs es b a ls
      → n < 255
      → s.next_id < long_max
      → Stepped b a ls s n (es ++ label_events ls a) (increment_label s a)
  increment_label-IsStep [] s n xs es h l i =
      subst (Stepped b a [] s n (es ++ [])) (sym (label_none s (h.run).labels))
        (xs, skip-IsStep b a [] s n xs es h, omega arith)
  increment_label-IsStep (x ∷ ls) s n xs es h l i =
      subst (Stepped b a (x ∷ ls) s n (es ++ label_events (x ∷ ls) a))
        (sym (label_some s x ls (h.run).labels))
        (submit-IsStep b a (x ∷ ls) s (label_event a x) n xs es h l i)

  increment_edge-IsStep :
      (ls : List ℕ) (s : Markov) (xs : List Task) (es : List Event)
      → IsRun s xs es b ls
      → length xs < 255
      → s.next_id < long_max
      → Stepped b a ls s (length xs) (es ++ edge_inc b a ∷ []) (increment_edge s a)
  unfolding increment_edge
  increment_edge-IsStep ls s xs es h l i =
      let s' = record s { edge_src = s.edge_snk; edge_snk = a } in
      let st : IsStep s' (length xs) xs es b a ls = record {
        run = record {
          active = h.active;
          block = refl;
          single = h.single;
          labels = h.labels;
          carries = h.carries;
        };
        came = h.block;
        small = omega arith;
      } in
      subst (Stepped b a ls s (length xs) (es ++ edge_inc b a ∷ []))
        (sym (ap (λ x. submit s' (edge_inc x a)) h.block))
        (submit-IsStep b a ls s' (edge_inc b a) (length xs) xs es st l i)

  increment_active :
      (s : Markov) (entrance : Bool)
      → s.active ≡ true
      → markov_increment s a entrance
        ≡ increment_call (increment_label (increment_edge s a) a) a entrance
  unfolding markov_increment
  increment_active s entrance h =
      if-eq_true (increment_call (increment_label (increment_edge s a) a) a entrance) s h

  -- MarkovIncrement sends the edge, the label that is on top and the call on their way.
  pub markov_increment-IsRun :
      (ls : List ℕ) (s : Markov) (xs : List Task) (es : List Event) (entrance : Bool)
      → IsRun s xs es b ls
      → length xs < 253
      → s.next_id + 3 < long_max
      → (ys : List Task) × IsRun
          (markov_increment s a entrance)
          ys
          (es ++ made b ls a entrance)
          a
          ls
  markov_increment-IsRun ls s xs es entrance h l i =
      let (x1, h1, i1) = increment_edge-IsStep ls s xs es h (omega (arith, l)) (omega (arith, i)) in
      let s1 = increment_edge s a in
      let (x2, h2, i2) =
        increment_label-IsStep ls s1 _ x1 _ h1 (omega (arith, l)) (omega (arith, i, i1)) in
      let s2 = increment_label s1 a in
      let (x3, h3, i3) =
        increment_call-IsStep b a ls s2 _ x2 _ entrance h2 (omega (arith, l))
          (omega (arith, i, i1, i2)) in
      (
        x3,
        subst (λ s'. IsRun s' x3 (es ++ made b ls a entrance) a ls)
            (sym (increment_active s entrance h.active))
            (subst (λ fs. IsRun (increment_call s2 a entrance) x3 fs a ls)
              (four es (edge_inc b a ∷ []) (label_events ls a) (call_events b a entrance)) h3.run),
      )
