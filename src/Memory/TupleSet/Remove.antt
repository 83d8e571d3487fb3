-- ===== src/Memory/TupleSet/Remove.antt =====
-- remove_tuple_set ends, keeps the set ordered and disjoint, and leaves the bytes that
-- mem_tuple_exclusion leaves of each tuple.
use cyclebite.Base.{
  ℕ, zero, suc, ◌≤◌, ◌<◌, ◌≡◌, ◌∙◌, ◌↔◌, ◌⊎◌, inl, inr, refl, Bool, true, false, not, ◌&&◌, List,
  [], ◌∷◌, none, some, arith, All, Any, length, Option-cases, All-at, All-map, Any-map, All-zip,
  count, count-le-length,
}
use cyclebite.Base.StdSet.{IsSorted}
use cyclebite.Base.StdSet.Laws.{
  Apart, find-some, find-none, All-erase, All-insert, IsSorted-erase, IsSorted-insert, Any-insert,
  Any-erase, erase-Apart, count-erase-lt, count-insert,
}
use cyclebite.Memory.Tuple.{MemTuple, mt_compare, mem_tuple_exclusion, Owns, Fits, Before}
use cyclebite.Memory.Tuple.Order.{mt_compare_irrefl, mt_compare-IsOrder, mt_compare-Before}
use cyclebite.Memory.Tuple.Exclusion.{
  Keeps, IsPiece, mem_tuple_exclusion-Keeps, mem_tuple_exclusion-IsPiece,
  mem_tuple_exclusion-length,
}
use cyclebite.Memory.TupleSet.{
  TupleSet, find, insert, erase, insert_all, remove_loop, remove_tuple_set, Covers,
}

-- A set of tuples of the machine, ordered by MTCompare.
pub record IsOrdered (array : TupleSet) : Type 0 where
  pub sorted : IsSorted mt_compare array
  pub fits : All Fits array

abbrev pub Disjoint : MemTuple → MemTuple → Type 0
Disjoint t u = Before t u ⊎ Before u t

pub Apart-Disjoint : (t u : MemTuple) → Fits t → Fits u → Apart mt_compare t u ↔ Disjoint t u
Apart-Disjoint t u f g = ground (arith, mt_compare-Before t u f, mt_compare-Before u t g)

-- A tuple that is disjoint from the removed range keeps all its bytes.
Keeps-Disjoint : (r t : MemTuple) (a : ℕ) → Disjoint t r → Keeps r t a ↔ Owns t a
Keeps-Disjoint r t a (inl d) = (λ k. k.0, λ o. (o, omega arith, inl (omega arith)))
Keeps-Disjoint r t a (inr d) = (λ k. k.0, λ o. (o, omega arith, inr (omega arith)))

hits : MemTuple → MemTuple → Bool
hits tuple t = not (mt_compare t tuple) && not (mt_compare tuple t)

hits-found :
    (tuple x : MemTuple)
    → mt_compare x tuple ≡ false
    → mt_compare tuple x ≡ false
    → hits tuple x ≡ true
unfolding hits
hits-found tuple x h k = ground arith

-- The set after one round.
abbrev round : TupleSet → MemTuple → MemTuple → TupleSet
round array x tuple = insert_all (erase array x) (mem_tuple_exclusion x tuple)

Any-Keeps-pieces :
    (tuple x : MemTuple) (a : ℕ) (ps : List MemTuple)
    → All (IsPiece x tuple) ps
    → Any (λ t. Keeps tuple t a) ps ↔ Any (λ t. Owns t a) ps
Any-Keeps-pieces tuple x a [] h = (λ m. m, λ m. m)
Any-Keeps-pieces tuple x a (p ∷ ps) (h, hs) =
    ground (arith, Keeps-Disjoint tuple p a h.3, Any-Keeps-pieces tuple x a ps hs)

-- A set to which the parts of a tuple are added that it had and that was erased.
module _ (tuple x : MemTuple) (g : Fits tuple) (f : Fits x) where
  piece-Apart :
      (p y : MemTuple) → IsPiece x tuple p → Fits y × Apart mt_compare y x → Apart mt_compare y p
  piece-Apart p y i h = ground (arith, Apart-Disjoint y x h.0 f, Apart-Disjoint y p h.0 i.0)

  insert_all-IsOrdered :
      (array : TupleSet) (ps : List MemTuple)
      → All (IsPiece x tuple) ps
      → IsOrdered array
      → IsOrdered (insert_all array ps)
  unfolding insert_all
  insert_all-IsOrdered array [] h s = s
  insert_all-IsOrdered array (p ∷ ps) h s = insert_all-IsOrdered (insert array p) ps h.1 (record {
    sorted = IsSorted-insert mt_compare mt_compare-IsOrder array p s.sorted;
    fits = All-insert mt_compare Fits array p s.fits h.0.0;
  })

  insert_all-Any :
      (P : MemTuple → Type 0) (array : TupleSet) (ps : List MemTuple)
      → All (IsPiece x tuple) ps
      → length ps ≤ 1
      → IsOrdered array
      → All (λ y. Apart mt_compare y x) array
      → Any P (insert_all array ps) ↔ (Any P ps ⊎ Any P array)
  unfolding insert_all
  insert_all-Any P array [] h l s e = (inr, λ m. ground arith)
  insert_all-Any P array (p ∷ []) h l s e =
      let apart =
        All-map _ (λ y. Apart mt_compare y p) (λ y k. piece-Apart p y h.0 k) array
          (All-zip Fits (λ y. Apart mt_compare y x) array s.fits e) in
      ground (arith, Any-insert mt_compare mt_compare-IsOrder P array p s.sorted apart)
  insert_all-Any P array (p ∷ q ∷ ps) h l s e = absurd (omega arith)

  hits-piece : (p : MemTuple) → IsPiece x tuple p → hits tuple p ≡ false
  unfolding hits
  hits-piece p i = ground (arith, Apart-Disjoint p tuple i.0 g)

  insert_all-count :
      (array : TupleSet) (ps : List MemTuple)
      → All (IsPiece x tuple) ps
      → count (hits tuple) (insert_all array ps) ≡ count (hits tuple) array
  unfolding insert_all
  insert_all-count array [] h = refl
  insert_all-count array (p ∷ ps) h =
      insert_all-count (insert array p) ps h.1
      ∙ count-insert mt_compare (hits tuple) array p (hits-piece p h.0)

module _ (tuple : MemTuple) (g : Fits tuple) where
  round-IsOrdered :
      (array : TupleSet) (x : MemTuple) → IsOrdered array → Fits x → IsOrdered (round array x tuple)
  round-IsOrdered array x s f =
      insert_all-IsOrdered tuple x g f (erase array x) _ (mem_tuple_exclusion-IsPiece x tuple f g)
        (record {
          sorted = IsSorted-erase mt_compare array x s.sorted;
          fits = All-erase mt_compare Fits array x s.fits;
        })

  -- A round leaves fewer tuples that meet the removed range.
  round-count :
      (array : TupleSet) (x : MemTuple)
      → Fits x
      → find array tuple ≡ some x
      → count (hits tuple) (round array x tuple) < count (hits tuple) array
  round-count array x f e =
      let found = find-some mt_compare array tuple x e in
      let fewer =
        count-erase-lt mt_compare (hits tuple) array x (mt_compare_irrefl x)
          (hits-found tuple x found.1 found.2) found.0 in
      omega (
        arith,
        fewer,
        insert_all-count tuple x g f (erase array x) (mem_tuple_exclusion x tuple)
            (mem_tuple_exclusion-IsPiece x tuple f g),
      )

  -- A round keeps the bytes that the removal is to keep.
  round-Keeps :
      (array : TupleSet) (x : MemTuple) (a : ℕ)
      → IsOrdered array
      → Fits x
      → find array tuple ≡ some x
      → Any (λ t. Keeps tuple t a) (round array x tuple) ↔ Any (λ t. Keeps tuple t a) array
  round-Keeps array x a s f e =
      let found = find-some mt_compare array tuple x e in
      let pieces = mem_tuple_exclusion-IsPiece x tuple f g in
      let rest : IsOrdered (erase array x) = record {
        sorted = IsSorted-erase mt_compare array x s.sorted;
        fits = All-erase mt_compare Fits array x s.fits;
      } in
      ground (
        arith,
        insert_all-Any tuple x g f (λ t. Keeps tuple t a) (erase array x)
            (mem_tuple_exclusion x tuple) pieces (mem_tuple_exclusion-length x tuple f g) rest
            (erase-Apart mt_compare array x),
        Any-Keeps-pieces tuple x a (mem_tuple_exclusion x tuple) pieces,
        mem_tuple_exclusion-Keeps x tuple f g a,
        Any-erase mt_compare mt_compare-IsOrder (λ t. Keeps tuple t a) array x s.sorted found.0,
      )

-- A set of the machine without bytes of `tuple`: those of `array` that the exclusion keeps.
pub record IsRemoved (array : TupleSet) (tuple : MemTuple) (r : TupleSet) : Type 0 where
  pub is_set : IsOrdered r
  pub disjoint : All (λ t. Disjoint t tuple) r
  pub covers : (a : ℕ) → Covers r a ↔ Any (λ t. Keeps tuple t a) array

Covers-Keeps :
    (tuple : MemTuple) (a : ℕ) (array : TupleSet)
    → All (λ t. Disjoint t tuple) array
    → Any (λ t. Keeps tuple t a) array ↔ Covers array a
Covers-Keeps tuple a [] h = (λ m. m, λ m. m)
Covers-Keeps tuple a (t ∷ ts) h =
    ground (arith, Keeps-Disjoint tuple t a h.0, Covers-Keeps tuple a ts h.1)

module _ (tuple : MemTuple) (g : Fits tuple) where
  not_found-Disjoint :
      (array : TupleSet)
      → IsOrdered array
      → find array tuple ≡ none
      → All (λ t. Disjoint t tuple) array
  not_found-Disjoint array s e =
      All-map _ (λ t. Disjoint t tuple) (λ t h. (Apart-Disjoint t tuple h.0 g).0 h.1) array
        (All-zip Fits _ array s.fits
          (find-none mt_compare mt_compare-IsOrder array tuple s.sorted e))

  remove_loop-IsRemoved :
      (fuel : ℕ) (array : TupleSet)
      → IsOrdered array
      → count (hits tuple) array < fuel
      → (r : TupleSet) × (remove_loop fuel array tuple ≡ some r) × IsRemoved array tuple r
  unfolding remove_loop
  remove_loop-IsRemoved zero array s c = absurd (omega arith)
  remove_loop-IsRemoved (suc fuel) array s c = elim (Option-cases (find array tuple)) [
    | inl e ↦
        let apart = not_found-Disjoint array s e in
        (
          array,
          rw (e, remove_loop) refl,
          record {
            is_set = s;
            disjoint = apart;
            covers = λ a. let k = Covers-Keeps tuple a array apart in (k.1, k.0);
          },
        )
    | inr (x, e) ↦
        let f = All-at Fits x array s.fits (find-some mt_compare array tuple x e).0 in
        let (r, ends, removed) =
          remove_loop-IsRemoved fuel (round array x tuple) (round-IsOrdered tuple g array x s f)
            (omega (arith, round-count tuple g array x f e)) in
        (
          r,
          rw (e, remove_loop) ends,
          record {
            is_set = removed.is_set;
            disjoint = removed.disjoint;
            covers = λ a. ground (arith, removed.covers a, round-Keeps tuple g array x a s f e);
          },
        )
  ]

  -- On a set of the machine remove_tuple_set returns, for a tuple of the machine. The result is a
  -- set of the machine, none of its tuples meets the range of the removed one, and it owns exactly
  -- the bytes a that some tuple t of the given set owns and the removed tuple does not own, where
  -- moreover a lies below the removed range or t does not begin below it.
  pub remove_tuple_set-IsRemoved :
      (array : TupleSet)
      → IsOrdered array
      → (r : TupleSet) × (remove_tuple_set array tuple ≡ some r) × IsRemoved array tuple r
  unfolding remove_tuple_set
  remove_tuple_set-IsRemoved array s =
      remove_loop-IsRemoved (suc (length array)) array s
        (omega (arith, count-le-length (hits tuple) array))

-- What is left was there before, and the removed tuple does not own it.
Keeps-not-Owns :
    (tuple : MemTuple) (a : ℕ) (array : TupleSet)
    → Any (λ t. Keeps tuple t a) array
    → ¬ Owns tuple a
Keeps-not-Owns tuple a [] m = absurd m
Keeps-not-Owns tuple a (t ∷ ts) (inl k) = k.1
Keeps-not-Owns tuple a (t ∷ ts) (inr m) = Keeps-not-Owns tuple a ts m

pub IsRemoved-Covers :
    {array : TupleSet} {tuple : MemTuple} {r : TupleSet} (a : ℕ)
    → IsRemoved array tuple r
    → Covers r a
    → Covers array a × (¬ Owns tuple a)
IsRemoved-Covers {array} {tuple} a h c =
    let k = (h.covers a).0 c in
    (Any-map _ (λ t. Owns t a) (λ t keeps. keeps.0) array k, Keeps-not-Owns tuple a array k)
