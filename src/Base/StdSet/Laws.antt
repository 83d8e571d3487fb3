-- ===== src/Base/StdSet/Laws.antt =====
-- The laws of the ordered list that stands for a std::set.
use Prim.Native.Nat.{◌≤◌, ◌<◌}
use mathlib.Core.Path.{◌≡◌, refl}
use mathlib.Core.Logic.{◌⊎◌, inl, inr, ◌↔◌}
use mathlib.Core.Bool.{Bool, true, false}
use mathlib.Core.Option.{none, some}
use mathlib.Core.List.{List, [], ◌∷◌}
use native.Mathlib.Omega.{arith}
use cyclebite.Base.Tests.{Bool-cases}
use cyclebite.Base.Lists.{length, All, Any, All-map, All-at, count}
use cyclebite.Base.StdSet.{lower_bound, find, insert, erase, IsSorted, IsOrder}

module _ {A : Type 0} (less : A → A → Bool) where
  abbrev pub Apart : A → A → Type 0
  Apart x y = (less x y ≡ true) ⊎ (less y x ≡ true)

  -- The element that is found is in the set and is equivalent to the key.
  pub find-some :
      (xs : List A) (k e : A)
      → find less xs k ≡ some e
      → Any (λ x. x ≡ e) xs × (less e k ≡ false) × (less k e ≡ false)
  unfolding find
  find-some [] k e h = cc
  find-some (x ∷ xs) k e h = elim (Bool-cases (less x k)) [
    | inl t ↦
        let rest = find-some xs k e (rw (t, find, lower_bound) at h) in (inr rest.0, rest.1, rest.2)
    | inr f ↦ ground arith
  ]

  pub erase-length-le : (xs : List A) (k : A) → length (erase less xs k) ≤ length xs
  unfolding erase
  erase-length-le [] k = omega arith
  erase-length-le (x ∷ xs) k = ground (arith, erase-length-le xs k)

  -- Erasing an element of the set makes it smaller: loops that erase what they find end.
  pub erase-length-lt :
      (xs : List A) (e : A)
      → less e e ≡ false
      → Any (λ x. x ≡ e) xs
      → length (erase less xs e) < length xs
  unfolding erase
  erase-length-lt [] e i m = absurd m
  erase-length-lt (x ∷ xs) e i (inl q) = ground (arith, erase-length-le xs e)
  erase-length-lt (x ∷ xs) e i (inr q) = ground (arith, erase-length-lt xs e i q)

  pub All-erase : (P : A → Type 0) (xs : List A) (k : A) → All P xs → All P (erase less xs k)
  unfolding erase
  All-erase P [] k h = tt
  All-erase P (x ∷ xs) k h = ground (arith, All-erase P xs k h.1)

  pub All-insert :
      (P : A → Type 0) (xs : List A) (k : A) → All P xs → P k → All P (insert less xs k)
  unfolding insert
  All-insert P [] k h p = (p, tt)
  All-insert P (x ∷ xs) k h p = ground (arith, All-insert P xs k h.1 p)

  pub IsSorted-erase : (xs : List A) (k : A) → IsSorted less xs → IsSorted less (erase less xs k)
  unfolding erase
  IsSorted-erase [] k s = tt
  IsSorted-erase (x ∷ xs) k s =
      ground (arith, All-erase (λ y. less x y ≡ true) xs k s.0, IsSorted-erase xs k s.1)

  module _ (o : IsOrder less) where
    -- Nothing equivalent to the key is in the set when it is not found.
    pub find-none :
        (xs : List A) (k : A) → IsSorted less xs → find less xs k ≡ none → All (λ x. Apart x k) xs
    unfolding find
    find-none [] k s h = tt
    find-none (x ∷ xs) k s h = elim (Bool-cases (less x k)) [
      | inl t ↦ (inl t, find-none xs k s.1 (rw (t, find, lower_bound) at h))
      | inr f ↦ elim (Bool-cases (less k x)) [
        | inl t ↦ (inr t, All-map _ _ (λ y lt. inr (o.trans k x y t lt)) xs s.0)
        | inr g ↦ ground arith
      ]
    ]

    -- An element that is equivalent to no other one is inserted in its place.
    pub IsSorted-insert :
        (xs : List A) (k : A) → IsSorted less xs → IsSorted less (insert less xs k)
    unfolding insert
    IsSorted-insert [] k s = (tt, tt)
    IsSorted-insert (x ∷ xs) k s = elim (Bool-cases (less x k)) [
      | inl t ↦ rw t (All-insert (λ y. less x y ≡ true) xs k s.0 t, IsSorted-insert xs k s.1)
      | inr f ↦ elim (Bool-cases (less k x)) [
        | inl t ↦ rw (f, t) ((t, All-map _ _ (λ y lt. o.trans k x y t lt) xs s.0), s)
        | inr g ↦ rw (f, g) s
      ]
    ]

    pub Any-insert :
        (P : A → Type 0) (xs : List A) (k : A)
        → IsSorted less xs
        → All (λ x. Apart x k) xs
        → Any P (insert less xs k) ↔ (P k ⊎ Any P xs)
    unfolding insert
    Any-insert P [] k s h = (λ m. m, λ m. m)
    Any-insert P (x ∷ xs) k s h =
        ground (arith, Any-insert P xs k s.1 h.1, o.irrefl k, o.trans k x k)

    erase-above : (xs : List A) (e : A) → All (λ y. less e y ≡ true) xs → erase less xs e ≡ xs
    unfolding erase
    erase-above [] e h = refl
    erase-above (x ∷ xs) e h = ground (arith, erase-above xs e h.1)

    -- Erasing an element of the set takes away that one alone.
    pub Any-erase :
        (P : A → Type 0) (xs : List A) (e : A)
        → IsSorted less xs
        → Any (λ x. x ≡ e) xs
        → Any P xs ↔ (P e ⊎ Any P (erase less xs e))
    unfolding erase
    Any-erase P [] e s m = absurd m
    Any-erase P (x ∷ xs) e s (inl q) = ground (arith, q, o.irrefl e, erase-above xs x s.0)
    Any-erase P (x ∷ xs) e s (inr m) =
        ground (arith, All-at (λ y. less x y ≡ true) e xs s.0 m, Any-erase P xs e s.1 m)

module _ {A : Type 0} (less : A → A → Bool) where
  -- What is left after an erasure is not equivalent to the key.
  pub erase-Apart : (xs : List A) (k : A) → All (λ x. Apart less x k) (erase less xs k)
  unfolding erase
  erase-Apart [] k = tt
  erase-Apart (x ∷ xs) k = ground (arith, erase-Apart xs k)

  count-erase-le : (p : A → Bool) (xs : List A) (e : A) → count p (erase less xs e) ≤ count p xs
  unfolding erase
  count-erase-le p [] e = omega arith
  count-erase-le p (x ∷ xs) e = ground (arith, count-erase-le p xs e)

  pub count-erase-lt :
      (p : A → Bool) (xs : List A) (e : A)
      → less e e ≡ false
      → p e ≡ true
      → Any (λ x. x ≡ e) xs
      → count p (erase less xs e) < count p xs
  unfolding erase
  count-erase-lt p [] e i h m = absurd m
  count-erase-lt p (x ∷ xs) e i h (inl q) = ground (arith, q, count-erase-le p xs e)
  count-erase-lt p (x ∷ xs) e i h (inr q) = ground (arith, count-erase-lt p xs e i h q)

  pub count-insert :
      (p : A → Bool) (xs : List A) (k : A) → p k ≡ false → count p (insert less xs k) ≡ count p xs
  unfolding insert
  count-insert p [] k h = ground arith
  count-insert p (x ∷ xs) k h = ground (arith, count-insert p xs k h)

  pub Any-insert_cases :
      (P : A → Type 0) (xs : List A) (k : A) → Any P (insert less xs k) → P k ⊎ Any P xs
  unfolding insert
  Any-insert_cases P [] k m = m
  Any-insert_cases P (x ∷ xs) k m = ground (arith, Any-insert_cases P xs k)

  pub Any-insert_mono : (P : A → Type 0) (xs : List A) (k : A) → Any P xs → Any P (insert less xs k)
  unfolding insert
  Any-insert_mono P [] k m = absurd m
  Any-insert_mono P (x ∷ xs) k m = ground (arith, Any-insert_mono P xs k)
