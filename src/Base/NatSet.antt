-- ===== src/Base/NatSet.antt =====
-- std::set of numbers: the ordered list of StdSet at `<`, and membership as a test.
use cyclebite.Base.Tests.{ltb, ◌==◌, ==_iff, Bool-cases}
use cyclebite.Base.Lists.{length, Any, All, count}
use cyclebite.Base.StdSet
use cyclebite.Base.StdSet.{IsOrder}
use Prim.Native.Nat.{ℕ, suc, ◌<◌, ◌≤◌}
use mathlib.Core.Path.{◌≡◌, refl, ap}
use mathlib.Core.Logic.{◌↔◌, inl, inr}
use mathlib.Core.Bool.{Bool, true, false, not, ◌||◌, ◌&&◌}
use mathlib.Core.List.{List, [], ◌∷◌}
use native.Mathlib.Omega.{arith}

-- set.find(x) != set.end()
unfoldable pub contains : List ℕ → ℕ → Bool
contains [] x = false
contains (y ∷ ys) x = y == x || contains ys x

pub contains_iff : (xs : List ℕ) (x : ℕ) → (contains xs x ≡ true) ↔ Any (λ y. y ≡ x) xs
unfolding contains
contains_iff [] x = ground arith
contains_iff (y ∷ ys) x = ground (arith, contains_iff ys x)

pub contains-insert :
    (xs : List ℕ) (k x : ℕ) → contains (StdSet.insert ltb xs k) x ≡ k == x || contains xs x
unfolding contains StdSet.insert
contains-insert [] k x = refl
contains-insert (y ∷ ys) k x = ground (arith, contains-insert ys k x)

pub contains-erase :
    (xs : List ℕ) (k x : ℕ) → contains (StdSet.erase ltb xs k) x ≡ not (k == x) && contains xs x
unfolding contains StdSet.erase
contains-erase [] k x = ground arith
contains-erase (y ∷ ys) k x = ground (arith, contains-erase ys k x)

below : (xs : List ℕ) (x k : ℕ) → All (λ y. ltb x y ≡ true) xs → contains xs k ≡ true → x < k
unfolding contains
below [] x k a h = ground arith
below (y ∷ ys) x k a h = ground (arith, below ys x k a.1)

pub length-insert_old :
    (xs : List ℕ) (k : ℕ)
    → StdSet.IsSorted ltb xs
    → contains xs k ≡ true
    → length (StdSet.insert ltb xs k) ≡ length xs
unfolding contains StdSet.insert
length-insert_old [] k s h = ground arith
length-insert_old (x ∷ xs) k s h = ground (arith, below xs x k s.0, length-insert_old xs k s.1)

pub length-insert_new :
    (xs : List ℕ) (k : ℕ)
    → contains xs k ≡ false
    → length (StdSet.insert ltb xs k) ≡ suc (length xs)
unfolding contains StdSet.insert
length-insert_new [] k h = refl
length-insert_new (x ∷ xs) k h = ground (arith, length-insert_new xs k)

pub count-ext : (p q : ℕ → Bool) (xs : List ℕ) → ((x : ℕ) → p x ≡ q x) → count p xs ≡ count q xs
count-ext p q [] h = refl
count-ext p q (x ∷ xs) h = ground (arith, h x, count-ext p q xs h)

pub count-ext_in :
    (p q : ℕ → Bool) (xs : List ℕ)
    → ((x : ℕ) → contains xs x ≡ true → p x ≡ q x)
    → count p xs ≡ count q xs
unfolding contains
count-ext_in p q [] h = refl
count-ext_in p q (x ∷ xs) h =
    let first = h x (ground arith) in
    let rest = count-ext_in p q xs (λ y m. h y (ground (arith, m))) in ground (arith, first, rest)

count-without :
    (p q : ℕ → Bool) (xs : List ℕ) (x v : ℕ)
    → ((z : ℕ) → q z ≡ (p z && not (v == z)))
    → All (λ y. ltb x y ≡ true) xs
    → v ≤ x
    → count p xs ≡ count q xs
count-without p q [] x v h a l = refl
count-without p q (y ∷ ys) x v h a l = ground (arith, h y, count-without p q ys x v h a.1)

fst_of : (x v : ℕ) → (x == v) ≡ true → x ≡ v
fst_of x v h = ground arith

le_of : (x v : ℕ) → (x == v) ≡ true → v ≤ x
le_of x v h = ground arith

-- A test that fails at one more element of the set.
pub count-remove :
    (p q : ℕ → Bool) (xs : List ℕ) (v : ℕ)
    → ((z : ℕ) → q z ≡ (p z && not (v == z)))
    → StdSet.IsSorted ltb xs
    → contains xs v ≡ true
    → p v ≡ true
    → count p xs ≡ suc (count q xs)
unfolding contains
count-remove p q [] v h s c e = ground arith
count-remove p q (x ∷ xs) v h s c e = elim (Bool-cases (x == v)) [
  | inl same ↦ ground (
    arith,
    h x,
    ==_iff x v,
    ap p (fst_of x v same),
    count-without p q xs x v h s.0 (le_of x v same),
  )
  | inr other ↦ ground (arith, h x, count-remove p q xs v h s.1, s.0)
]

pub NatSet-IsOrder : IsOrder ltb
NatSet-IsOrder = record { irrefl = λ a. ground arith; trans = λ a b c p q. ground arith }

pub length-insert_le : (xs : List ℕ) (k : ℕ) → length xs ≤ length (StdSet.insert ltb xs k)
unfolding StdSet.insert
length-insert_le [] k = omega arith
length-insert_le (x ∷ xs) k = ground (arith, length-insert_le xs k)

pub contains-same : (xs : List ℕ) (n x : ℕ) → (n == x) ≡ true → contains xs n ≡ contains xs x
contains-same xs n x h = ap (contains xs) (fst_of n x h)
