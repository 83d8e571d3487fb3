-- ===== src/Base/Lists.antt =====
-- Lists measured by native numbers, and predicates on their elements by recursion.
use Prim.Native.Nat.{ℕ, zero, suc, ◌+◌, ◌≤◌, ◌<◌}
use mathlib.Core.Path.{◌≡◌, refl}
use mathlib.Core.Logic.{◌⊎◌, inl, inr}
use mathlib.Core.List.{List, [], ◌∷◌, ◌++◌}
use mathlib.Core.Bool.{Bool, true}
use cyclebite.Base.Tests.{if◌then◌else◌}
use native.Mathlib.Omega.{arith}

module _ {A : Type 0} where
  abbrev pub length : List A → ℕ
  length [] = 0
  length (_ ∷ xs) = suc (length xs)

  abbrev pub All : (A → Type 0) → List A → Type 0
  All P [] = Unit
  All P (x ∷ xs) = P x × All P xs

  abbrev pub Any : (A → Type 0) → List A → Type 0
  Any P [] = ⊥
  Any P (x ∷ xs) = P x ⊎ Any P xs

  pub length-append : (xs ys : List A) → length (xs ++ ys) ≡ length xs + length ys
  length-append [] ys = omega arith
  length-append (x ∷ xs) ys = omega (arith, length-append xs ys)

module _ {A : Type 0} where
  pub All-map : (P Q : A → Type 0) → ((x : A) → P x → Q x) → (xs : List A) → All P xs → All Q xs
  All-map P Q f [] h = tt
  All-map P Q f (x ∷ xs) h = (f x h.0, All-map P Q f xs h.1)

  pub Any-map : (P Q : A → Type 0) → ((x : A) → P x → Q x) → (xs : List A) → Any P xs → Any Q xs
  Any-map P Q f [] h = absurd h
  Any-map P Q f (x ∷ xs) (inl p) = inl (f x p)
  Any-map P Q f (x ∷ xs) (inr p) = inr (Any-map P Q f xs p)

  -- What holds of all elements holds of one that is singled out.
  pub Any-All : (P Q : A → Type 0) (xs : List A) → All P xs → Any Q xs → Any (λ x. P x × Q x) xs
  Any-All P Q [] h a = absurd a
  Any-All P Q (x ∷ xs) h (inl q) = inl (h.0, q)
  Any-All P Q (x ∷ xs) h (inr q) = inr (Any-All P Q xs h.1 q)

  pub All-at : (P : A → Type 0) (e : A) (xs : List A) → All P xs → Any (λ x. x ≡ e) xs → P e
  All-at P e [] h a = absurd a
  All-at P e (x ∷ xs) h (inl q) = rw q at (h.0)
  All-at P e (x ∷ xs) h (inr q) = All-at P e xs h.1 q

  pub Any-at : (P : A → Type 0) (e : A) (xs : List A) → Any (λ x. x ≡ e) xs → P e → Any P xs
  Any-at P e [] a p = absurd a
  Any-at P e (x ∷ xs) (inl q) p = inl (rw q p)
  Any-at P e (x ∷ xs) (inr q) p = inr (Any-at P e xs q p)

  pub All-zip : (P Q : A → Type 0) (xs : List A) → All P xs → All Q xs → All (λ x. P x × Q x) xs
  All-zip P Q [] h k = tt
  All-zip P Q (x ∷ xs) h k = ((h.0, k.0), All-zip P Q xs h.1 k.1)

  -- The elements that pass a test.
  abbrev pub count : (A → Bool) → List A → ℕ
  count p [] = 0
  count p (x ∷ xs) = if p x then suc (count p xs) else count p xs

  pub count-le-length : (p : A → Bool) (xs : List A) → count p xs ≤ length xs
  count-le-length p [] = omega arith
  count-le-length p (x ∷ xs) = ground (arith, count-le-length p xs)

  pub All-of : (P : A → Type 0) (xs : List A) → ((x : A) → Any (λ y. y ≡ x) xs → P x) → All P xs
  All-of P [] h = tt
  All-of P (x ∷ xs) h = (h x (inl refl), All-of P xs (λ y m. h y (inr m)))

module _ {A : Type 0} where
  abbrev pub drop : ℕ → List A → List A
  drop zero xs = xs
  drop (suc n) [] = []
  drop (suc n) (x ∷ xs) = drop n xs

  pub length-drop_le : (n : ℕ) (xs : List A) → length (drop n xs) ≤ length xs
  length-drop_le zero xs = omega arith
  length-drop_le (suc n) [] = omega arith
  length-drop_le (suc n) (x ∷ xs) = omega (arith, length-drop_le n xs)

  pub length-drop_lt : (n : ℕ) (xs : List A) → 0 < length xs → length (drop (suc n) xs) < length xs
  length-drop_lt n [] h = h
  length-drop_lt n (x ∷ xs) h = omega (arith, length-drop_le n xs)

module _ {A : Type 0} where
  abbrev pub filter : (A → Bool) → List A → List A
  filter p [] = []
  filter p (x ∷ xs) = if p x then x ∷ filter p xs else filter p xs

  pub filter-append :
      (p : A → Bool) (xs ys : List A) → filter p (xs ++ ys) ≡ filter p xs ++ filter p ys
  filter-append p [] ys = refl
  filter-append p (x ∷ xs) ys = ground (arith, filter-append p xs ys)

  pub count-append : (p : A → Bool) (xs ys : List A) → count p (xs ++ ys) ≡ count p xs + count p ys
  count-append p [] ys = omega arith
  count-append p (x ∷ xs) ys = ground (arith, count-append p xs ys)

  pub length-filter : (p : A → Bool) (xs : List A) → length (filter p xs) ≡ count p xs
  length-filter p [] = refl
  length-filter p (x ∷ xs) = ground (arith, length-filter p xs)

  pub count-le :
      (p q : A → Bool)
      → ((x : A) → p x ≡ true → q x ≡ true)
      → (xs : List A) → count p xs ≤ count q xs
  count-le p q f [] = omega arith
  count-le p q f (x ∷ xs) = ground (arith, f x, count-le p q f xs)
