-- ===== src/Memory/Communication/Order.antt =====
-- The reported dependencies lead to earlier epochs, and the latest producer is not missed.
use cyclebite.Base.{ℕ, ◌<◌, ◌≡◌, ◌⊎◌, inl, inr, refl, List, [], ◌∷◌, some, arith, All}
use cyclebite.Base.StdSet
use cyclebite.Memory.TupleSet.{TupleSet}
use cyclebite.Memory.Epoch.{Epoch}
use cyclebite.Memory.Communication.{Dependencies, add_entry, task_communication}
use cyclebite.Memory.Communication.LastWriter.{
  LastWrites, WithCopies, Plain, Reads, Writes, In, IsEpoch, IsCommunication,
  task_communication-IsCommunication,
}

-- The epochs are listed from the last one to the first: the identifiers fall.
abbrev pub IsFalling : List Epoch → Type 0
IsFalling [] = Unit
IsFalling (e ∷ es) = All (λ p. p.iid < e.iid) es × IsFalling es

LastWrites-lt :
    (Passed : Epoch → (ℕ → Type 0) → ℕ → Type 0) (ps : List Epoch) (C : ℕ → Type 0) (n q : ℕ)
    → All (λ p. p.iid < n) ps
    → LastWrites Passed ps C q
    → q < n
LastWrites-lt Passed [] C n q h w = absurd w
LastWrites-lt Passed (p ∷ ps) C n q h (inl w) = let first = w.0 in let low = h.0 in omega arith
LastWrites-lt Passed (p ∷ ps) C n q h (inr w) = LastWrites-lt Passed ps _ n q h.1 w

-- All dependencies of an entry are smaller than its epoch.
abbrev pub PointsBack : Dependencies → Type 0
PointsBack d = ((q : ℕ) → In q d.raw → q < d.iid) × ((q : ℕ) → In q d.waw → q < d.iid)

no_or_some : (ids : List ℕ) → (ids ≡ []) ⊎ ((q : ℕ) × (qs : List ℕ) × (ids ≡ q ∷ qs))
no_or_some [] = inl refl
no_or_some (q ∷ qs) = inr (q, qs, refl)

add_entry-PointsBack :
    (d : Dependencies) (ds : List Dependencies)
    → PointsBack d
    → All PointsBack ds
    → All PointsBack (add_entry d ds)
unfolding add_entry
add_entry-PointsBack d ds h k = elim (no_or_some d.raw) [
  | inr (q, qs, e) ↦ rw (e, add_entry) (h, k)
  | inl e ↦ elim (no_or_some d.waw) [
    | inl z ↦ rw (e, add_entry) (rw z k)
    | inr (q, qs, z) ↦ rw (e, add_entry) (rw z (h, k))
  ]
]

communication-PointsBack :
    (es : List Epoch) (ds : List Dependencies)
    → IsFalling es
    → IsCommunication es ds
    → All PointsBack ds
communication-PointsBack [] ds f h = rw h tt
communication-PointsBack (e ∷ []) ds f h = rw h tt
communication-PointsBack (e ∷ earlier ∷ es) ds f (d, ds', back, _, rest, same) = rw same (
    add_entry-PointsBack d ds'
      (
        λ q m.
            rw back.same
              (LastWrites-lt WithCopies (earlier ∷ es) (Reads e) e.iid q f.0 (back.raw q m)),
        λ q m.
            rw back.same (LastWrites-lt Plain (earlier ∷ es) (Writes e) e.iid q f.0 (back.waw q m)),
      )
      (communication-PointsBack (earlier ∷ es) ds' f.1 rest))

-- On epochs of the machine with falling identifiers GenerateTaskCommunication returns, and every
-- dependency that it reports leads from an epoch to one with a smaller identifier, so that the task
-- graph has no cycle.
pub task_communication-PointsBack :
    (lo : ℕ) (es : List Epoch)
    → All (IsEpoch lo) es
    → IsFalling es
    → (ds : List Dependencies) × (task_communication es ≡ some ds) × All PointsBack ds
task_communication-PointsBack lo es w f =
    let (ds, ends, h) = task_communication-IsCommunication lo es w in
    (ds, ends, communication-PointsBack es ds f h)
