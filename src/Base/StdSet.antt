-- ===== src/Base/StdSet.antt =====
-- std::set<A, Compare> as the list of its elements in the order of Compare. `find` is lower_bound
-- followed by the test for equivalence, `erase` takes a key and removes its equivalents, and
-- `insert` does nothing where an equivalent element is there.
pub mod Laws
use Prim.Native.Nat.{ℕ}
use mathlib.Core.Path.{◌≡◌}
use mathlib.Core.Bool.{Bool, true, false}
use mathlib.Core.Option.{Option, none, some}
use mathlib.Core.List.{List, [], ◌∷◌}
use cyclebite.Base.Tests.{if◌then◌else◌}
use cyclebite.Base.Lists.{All}

module _ {A : Type 0} (less : A → A → Bool) where
  unfoldable pub lower_bound : List A → A → Option A
  lower_bound [] k = none
  lower_bound (x ∷ xs) k = if less x k then lower_bound xs k else some x

  unfoldable pub accept : A → Option A → Option A
  accept k none = none
  accept k (some x) = if less k x then none else some x

  unfoldable pub find : List A → A → Option A
  unfolding lower_bound accept
  find xs k = accept k (lower_bound xs k)

  unfoldable pub insert : List A → A → List A
  insert [] k = k ∷ []
  insert (x ∷ xs) k = if less x k then x ∷ insert xs k else if less k x then k ∷ x ∷ xs else x ∷ xs

  unfoldable pub erase : List A → A → List A
  erase [] k = []
  erase (x ∷ xs) k =
      let rest = erase xs k in if less x k then x ∷ rest else if less k x then x ∷ rest else rest

  abbrev pub IsSorted : List A → Type 0
  IsSorted [] = Unit
  IsSorted (x ∷ xs) = All (λ y. less x y ≡ true) xs × IsSorted xs

  -- What the standard asks of Compare, as far as the proofs need it.
  pub record IsOrder : Type 0 where
    pub irrefl : (a : A) → less a a ≡ false
    pub trans : (a b c : A) → less a b ≡ true → less b c ≡ true → less a c ≡ true
