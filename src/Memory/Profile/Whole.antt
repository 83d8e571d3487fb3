-- ===== src/Memory/Profile/Whole.antt =====
-- From the first call to the task graph: MemoryInit, the calls of the program, MemoryDestroy and
-- GenerateTaskCommunication, as MemoryDestroy composes them.
use mathlib.Core.List.{reverse, reverse-cons}
use cyclebite.Base.{
  ℕ, ◌+◌, ◌<◌, ◌^◌, ◌≡◌, List, [], ◌∷◌, ◌++◌, map, Option, some, ◌>>=◌, arith, All, All-map, length,
  ltb_iff, >>=-eq-some,
}
use cyclebite.Base.StdSet
use cyclebite.Base.StdSet.{IsSorted}
use cyclebite.Base.StdSet.Laws.{All-insert, IsSorted-insert}
use cyclebite.Memory.Epoch.{Epoch}
use cyclebite.Memory.Communication.{Dependencies, task_communication}
use cyclebite.Memory.Communication.LastWriter.{IsEpoch}
use cyclebite.Memory.Communication.Order.{IsFalling, PointsBack, task_communication-PointsBack}
use cyclebite.Memory.Profile.{Profile, Event, iid_less, memory_init, memory_destroy, run}
use cyclebite.Memory.Profile.Process.{
  HaveKernels, process_epoch_boundaries, process_epoch_boundaries-IsProcessed,
}
use cyclebite.Memory.Profile.Invariant.{IsTraced, IsProfile}
use cyclebite.Memory.Profile.Calls.{IsEvent}
use cyclebite.Memory.Profile.Blocks.{iid_less-IsOrder}
use cyclebite.Memory.Profile.Trace.{run-memory_init}

-- MemoryDestroy: the current epoch ends, the epochs are processed, and their dependencies are
-- found, from the last epoch to the first.
unfoldable pub finish : List ℕ → List (ℕ × List ℕ) → Profile → Option (List Dependencies)
unfolding memory_destroy
finish kernels candidates s = do
  s' ← memory_destroy s
  es ← process_epoch_boundaries kernels candidates s'.epochs
  task_communication (reverse es)

All-append : (P : Epoch → Type 0) (xs ys : List Epoch) → All P xs → All P ys → All P (xs ++ ys)
All-append P [] ys h k = k
All-append P (x ∷ xs) ys h k = (h.0, All-append P xs ys h.1 k)

IsFalling-snoc :
    (xs : List Epoch) (e : Epoch)
    → IsFalling xs
    → All (λ x. e.iid < x.iid) xs
    → IsFalling (xs ++ e ∷ [])
IsFalling-snoc [] e h k = (tt, tt)
IsFalling-snoc (x ∷ xs) e h k =
    (All-append (λ p. p.iid < x.iid) xs (e ∷ []) h.0 (k.0, tt), IsFalling-snoc xs e h.1 k.1)

All-reverse : (P : Epoch → Type 0) (xs : List Epoch) → All P xs → All P (reverse xs)
All-reverse P [] h = tt
All-reverse P (x ∷ xs) h =
    rw reverse-cons (All-append P (reverse xs) (x ∷ []) (All-reverse P xs h.1) (h.0, tt))

-- The epochs, ordered by their identifiers.
abbrev IsRising : List Epoch → Type 0
IsRising [] = Unit
IsRising (e ∷ es) = All (λ p. e.iid < p.iid) es × IsRising es

IsFalling-reverse : (xs : List Epoch) → IsRising xs → IsFalling (reverse xs)
IsFalling-reverse [] h = tt
IsFalling-reverse (x ∷ xs) h = rw reverse-cons (
    IsFalling-snoc (reverse xs) x (IsFalling-reverse xs h.1)
      (All-reverse (λ y. x.iid < y.iid) xs h.0))

IsRising-sorted : (xs : List Epoch) → IsSorted iid_less xs → IsRising xs
IsRising-sorted [] h = tt
IsRising-sorted (x ∷ xs) h =
    (All-map _ _ (λ p l. (ltb_iff x.iid p.iid).0 l) xs h.0, IsRising-sorted xs h.1)

above-same :
    (n : ℕ) (xs ys : List Epoch)
    → map (λ (e : Epoch). e.iid) ys ≡ map (λ (e : Epoch). e.iid) xs
    → All (λ p. n < p.iid) xs
    → All (λ p. n < p.iid) ys
above-same n [] [] e h = tt
above-same n [] (y ∷ ys) e h = absurd (cc)
above-same n (x ∷ xs) [] e h = tt
above-same n (x ∷ xs) (y ∷ ys) e h =
    let head : y.iid ≡ x.iid = cc in
    let tail : map (λ (e : Epoch). e.iid) ys ≡ map (λ (e : Epoch). e.iid) xs = cc in
    (rw head h.0, above-same n xs ys tail h.1)

-- The processing keeps the identifiers, so it keeps the order.
IsRising-same :
    (xs ys : List Epoch)
    → map (λ (e : Epoch). e.iid) ys ≡ map (λ (e : Epoch). e.iid) xs
    → IsRising xs
    → IsRising ys
IsRising-same xs [] e h = tt
IsRising-same [] (y ∷ ys) e h = absurd (cc)
IsRising-same (x ∷ xs) (y ∷ ys) e h =
    let head : y.iid ≡ x.iid = cc in
    let tail : map (λ (e : Epoch). e.iid) ys ≡ map (λ (e : Epoch). e.iid) xs = cc in
    (rw head (above-same x.iid xs ys tail h.0), IsRising-same xs ys tail h.1)

module _ (lo : ℕ) where
  finish-PointsBack :
      (kernels : List ℕ) (candidates : List (ℕ × List ℕ)) (s : Profile)
      → HaveKernels kernels candidates
      → IsProfile lo s
      → (ds : List Dependencies) × (finish kernels candidates s ≡ some ds) × All PointsBack ds
  unfolding finish memory_destroy
  finish-PointsBack kernels candidates s named h =
      let all = StdSet.insert iid_less s.epochs h.epoch in
      let (es, processed, ok, same) =
        process_epoch_boundaries-IsProcessed lo kernels candidates all named
          (All-insert iid_less (IsTraced lo) s.epochs h.epoch h.traced h.current_traced) in
      let rising = IsRising-same all es same (
        IsRising-sorted all
          (IsSorted-insert iid_less iid_less-IsOrder s.epochs h.epoch h.ordered)) in
      let (ds, ends, back) =
        task_communication-PointsBack lo (reverse es) (All-reverse (IsEpoch lo) es ok)
          (IsFalling-reverse es rising) in
      (ds, ground (arith, h.is_current, processed, ends), back)

  -- The profiler as a whole: whatever the epoch boundaries and the task candidates are, if
  -- every candidate has a kernel, a run of the program whose accesses lie in the window ends, its epochs are processed, and every dependency
  -- that is found between them leads from an epoch to an earlier one.
  pub profile-PointsBack :
      (boundaries : List (ℕ × ℕ)) (kernels : List ℕ) (candidates : List (ℕ × List ℕ)) (iid a : ℕ)
      (es : List Event)
      → HaveKernels kernels candidates
      → All (IsEvent lo) es
      → length es + iid + 1 < 2 ^ 64
      → (ds : List Dependencies) × ((run (memory_init boundaries iid a) es
            >>= finish kernels candidates)
          ≡ some ds)
        × All PointsBack ds
  profile-PointsBack boundaries kernels candidates iid a es named w b =
      let (s, ends, h, _, _) = run-memory_init lo boundaries iid a es w b in
      let (ds, finished, back) = finish-PointsBack kernels candidates s named h in
      (ds, >>=-eq-some (finish kernels candidates) ends finished, back)
