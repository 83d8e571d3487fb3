-- ===== src/Markov/Handlers/Stack.antt =====
-- The stack of labels, a circular array of 256, against a list with the top first.
use cyclebite.Base.{
  ℕ, ◌+◌, ◌-◌, ◌%◌, ◌^◌, ◌≤◌, ◌<◌, List, [], ◌∷◌, ◌==◌, if◌then◌else◌, length, ◌≡◌, arith, ap, ◌∙◌,
}
use cyclebite.Markov.Handlers.{Labels, push_label_stack, pop_label_stack, read_label_stack}

abbrev pub Tops : (ℕ → ℕ) → List ℕ → Type 0
Tops stack [] = Unit
Tops stack (l ∷ ls) = (stack (length ls % 256) ≡ l) × Tops stack ls

pub record IsStack (s : Labels) (ls : List ℕ) : Type 0 where
  pub counts : s.count ≡ length ls
  pub fits : length ls ≤ 256
  pub tops : Tops s.stack ls

Tops-write :
    (stack : ℕ → ℕ) (n l : ℕ) (ls : List ℕ)
    → length ls ≤ n
    → n < 256
    → Tops stack ls
    → Tops (λ i. if i == n % 256 then l else stack i) ls
Tops-write stack n l [] a b h = tt
Tops-write stack n l (x ∷ xs) a b h =
    (ground (arith, h.0, a, b), Tops-write stack n l xs (omega (arith, a)) b h.1)

pub push_label_stack-IsStack :
    (s : Labels) (ls : List ℕ) (l : ℕ)
    → IsStack s ls
    → length ls < 256
    → IsStack (push_label_stack s l) (l ∷ ls)
unfolding push_label_stack
push_label_stack-IsStack s ls l h small = record {
  counts = omega (arith, h.counts, small);
  fits = omega (arith, small);
  tops = (
    ground (arith, h.counts),
    Tops-write s.stack s.count l ls (omega (arith, h.counts)) (omega (arith, h.counts, small))
        h.tops,
  );
}

top_slot : (c n : ℕ) → c ≡ n + 1 → n < 256 → (c + 2 ^ 32 - 1) % 2 ^ 32 % 256 ≡ n % 256
top_slot c n e l = omega (arith, e, l)

pub pop_label_stack-IsStack :
    (s : Labels) (l : ℕ) (ls : List ℕ)
    → IsStack s (l ∷ ls)
    → IsStack (pop_label_stack s) ls × (read_label_stack s ≡ l)
unfolding pop_label_stack
pop_label_stack-IsStack s l ls h = (
  record {
    counts = omega (arith, h.counts, h.fits);
    fits = omega (arith, h.fits);
    tops = h.tops.1;
  },
  ap s.stack (top_slot s.count (length ls) (omega (arith, h.counts)) (omega (arith, h.fits)))
      ∙ h.tops.0,
)
