-- ===== src/Memory/Communication/LastWriter.antt =====
-- A dependency that GenerateTaskCommunication reports leads to the last writer of a run of bytes.
use Prim.Native.Nat.{max}
use cyclebite.Base.{
  ℕ, ◌+◌, ◌≤◌, ◌≡◌, ◌⊎◌, inl, inr, refl, Bool, true, false, List, [], ◌∷◌, some, ltb, arith, All,
  Any,
}
use cyclebite.Base.StdSet.Laws.{Any-insert_cases}
use cyclebite.Memory.Tuple.{MemTuple, Owns}
use cyclebite.Memory.TupleSet.{TupleSet, Covers}
use cyclebite.Memory.TupleSet.Merge.{IsTupleSet}
use cyclebite.Memory.TupleSet.Remove.{IsOrdered}
use cyclebite.Memory.Epoch.{Epoch}
use cyclebite.Memory.Communication.{
  Explained, Dependencies, add_id, raw_walk, waw_walk, communicate, add_entry, task_communication,
}
use cyclebite.Memory.Communication.Explain.{
  Flags, IsExplained, remove_explained_producers-IsExplained,
}
use cyclebite.Memory.Communication.Window.{
  IsTupleSet-of_Covers, IsTupleSet-IsOrdered, PassesOn, pass_all-IsTupleSet,
}

-- The bytes that the writes and the reads of an epoch touch.
abbrev pub Writes : Epoch → ℕ → Type 0
Writes e a = Covers e.memory_data.w_tuples a

abbrev pub Reads : Epoch → ℕ → Type 0
Reads e a = Covers e.memory_data.r_tuples a

-- 34 consecutive bytes.
abbrev pub Run : (ℕ → Type 0) → Type 0
Run P = (b : ℕ) × ((k : ℕ) → k ≤ 33 → P (b + k))

-- Of the producers, listed from the latest one to the earliest, `q` names one that wrote a run of
-- the bytes of C that no later producer wrote. `Passed p C` are the bytes that are looked for
-- once the producer p has been met.
abbrev pub LastWrites : (Epoch → (ℕ → Type 0) → ℕ → Type 0) → List Epoch → (ℕ → Type 0) → ℕ → Type 0
LastWrites Passed [] C q = ⊥
LastWrites Passed (p ∷ ps) C q =
    ((p.iid ≡ q) × Run (λ a. Passed p C a × Writes p a))
    ⊎ LastWrites Passed ps (λ a. Passed p C a × (¬ Writes p a)) q

-- The copies that a producer makes pass bytes on: memcpy and memmov hide the true producer.
abbrev pub WithCopies : Epoch → (ℕ → Type 0) → ℕ → Type 0
WithCopies p C a = C a ⊎ Any (PassesOn p.memory_data.r_tuples a) p.memory_data.w_tuples

abbrev pub Plain : Epoch → (ℕ → Type 0) → ℕ → Type 0
Plain p C a = C a

abbrev pub In : ℕ → List ℕ → Type 0
In q ids = Any (λ i. i ≡ q) ids

-- An epoch of the machine, in the window of the program's addresses.
pub record IsEpoch (lo : ℕ) (e : Epoch) : Type 0 where
  pub reads : IsTupleSet lo e.memory_data.r_tuples
  pub writes : IsTupleSet lo e.memory_data.w_tuples

run_of_Flags :
    (p : MemTuple) (cs : List MemTuple) → Any (Flags p) cs → Run (λ a. Owns p a × Covers cs a)
run_of_Flags p [] m = absurd m
run_of_Flags p (c ∷ cs) (inl f) = (max p.base c.base, λ k h. (omega arith, inl (omega arith)))
run_of_Flags p (c ∷ cs) (inr m) =
    let (b, run) = run_of_Flags p cs m in (b, λ k h. let r = run k h in (r.0, inr r.1))

run_of_change :
    (ps cs : List MemTuple) → Any (λ p. Any (Flags p) cs) ps → Run (λ a. Covers cs a × Covers ps a)
run_of_change [] cs m = absurd m
run_of_change (p ∷ ps) cs (inl f) =
    let (b, run) = run_of_Flags p cs f in (b, λ k h. let r = run k h in (r.1, inl r.0))
run_of_change (p ∷ ps) cs (inr m) =
    let (b, run) = run_of_change ps cs m in (b, λ k h. let r = run k h in (r.0, inr r.1))

add_id_cases :
    (changes : Bool) (ids : List ℕ) (id q : ℕ)
    → In q (add_id changes ids id)
    → ((changes ≡ true) × (id ≡ q)) ⊎ In q ids
add_id_cases true ids id q m = elim (Any-insert_cases ltb (λ i. i ≡ q) ids id m) [
  | inl e ↦ inl (refl, e)
  | inr k ↦ inr k
]
add_id_cases false ids id q m = inr m

-- A walk that finds the identifiers `r`, from `ids`.
abbrev Finds :
    (Epoch → (ℕ → Type 0) → ℕ → Type 0) → List Epoch → (ℕ → Type 0) → List ℕ → List ℕ → Type 0
Finds Passed ps C ids r = (q : ℕ) → In q r → In q ids ⊎ LastWrites Passed ps C q

module _ (lo : ℕ) where
  -- One producer of a walk: what is searched on, and what its identifier stands for.
  step_Finds :
      (Passed : Epoch → (ℕ → Type 0) → ℕ → Type 0) (p : Epoch) (ps : List Epoch) (C : ℕ → Type 0)
      (consumed : TupleSet) (e : Explained) (ids r : List ℕ)
      → IsExplained p.memory_data.w_tuples consumed e
      → ((a : ℕ) → Covers consumed a → Passed p C a)
      → Finds Passed ps (λ a. Passed p C a × (¬ Writes p a)) (add_id e.changes ids p.iid) r
      → Finds Passed (p ∷ ps) C ids r
  step_Finds Passed p ps C consumed e ids r x sub rest q m = elim (rest q m) [
    | inl k ↦ elim (add_id_cases e.changes ids p.iid q k) [
      | inl (changed, same) ↦
          let (b, run) = run_of_change p.memory_data.w_tuples consumed (x.changed.0 changed) in
          inr (inl (same, (b, λ i h. let h' = run i h in (sub (b + i) h'.0, h'.1))))
      | inr old ↦ inl old
    ]
    | inr later ↦ inr (inr later)
  ]

  waw_walk-Finds :
      (ps : List Epoch) (later : TupleSet) (C : ℕ → Type 0) (ids : List ℕ)
      → All (IsEpoch lo) ps
      → IsOrdered later
      → ((a : ℕ) → Covers later a → C a)
      → (r : List ℕ) × (waw_walk ps later ids ≡ some r) × Finds Plain ps C ids r
  unfolding waw_walk
  waw_walk-Finds [] later C ids w v sub = (ids, refl, λ q m. inl m)
  waw_walk-Finds (p ∷ ps) [] C ids w v sub = (ids, refl, λ q m. inl m)
  waw_walk-Finds (p ∷ ps) (c ∷ cs) C ids w v sub =
      let fits = (IsTupleSet-IsOrdered lo p.memory_data.w_tuples w.0.writes).fits in
      let (e, ends, x) =
        remove_explained_producers-IsExplained p.memory_data.w_tuples (c ∷ cs) fits v in
      let (r, rest, found) =
        waw_walk-Finds ps e.unexplained (λ a. C a × (¬ Writes p a)) (add_id e.changes ids p.iid) w.1
          x.is_set (λ a m. let k = x.unwritten a m in (sub a k.0, k.1)) in
      (r, rw ends rest, step_Finds Plain p ps C (c ∷ cs) e ids r x sub found)

  raw_walk-Finds :
      (ps : List Epoch) (consumed : TupleSet) (C : ℕ → Type 0) (ids : List ℕ)
      → All (IsEpoch lo) ps
      → IsTupleSet lo consumed
      → ((a : ℕ) → Covers consumed a → C a)
      → (r : List ℕ) × (raw_walk ps consumed ids ≡ some r) × Finds WithCopies ps C ids r
  unfolding raw_walk
  raw_walk-Finds [] consumed C ids w v sub = (ids, refl, λ q m. inl m)
  raw_walk-Finds (p ∷ ps) [] C ids w v sub = (ids, refl, λ q m. inl m)
  raw_walk-Finds (p ∷ ps) (c ∷ cs) C ids w v sub =
      let (passed, copies, s, h) =
        pass_all-IsTupleSet lo p.memory_data.r_tuples p.memory_data.w_tuples (c ∷ cs)
          w.0.reads.window v in
      let fits = (IsTupleSet-IsOrdered lo p.memory_data.w_tuples w.0.writes).fits in
      let (e, ends, x) =
        remove_explained_producers-IsExplained p.memory_data.w_tuples passed fits
          (IsTupleSet-IsOrdered lo passed s) in
      let sub' : (a : ℕ) → Covers passed a → WithCopies p C a =
        λ a m. elim ((h a).0 m) [ inl k ↦ inl (sub a k) | inr k ↦ inr k ] in
      let (r, rest, found) =
        raw_walk-Finds ps e.unexplained (λ a. WithCopies p C a × (¬ Writes p a))
          (add_id e.changes ids p.iid) w.1
          (IsTupleSet-of_Covers lo passed e.unexplained s x.is_set (λ a m. (x.unwritten a m).0))
          (λ a m. let k = x.unwritten a m in (sub' a k.0, k.1)) in
      (r, rw (copies, ends) rest, step_Finds WithCopies p ps C passed e ids r x sub' found)

-- The entry of an epoch, with the epochs before it.
pub record IsDependencies (e : Epoch) (earlier : List Epoch) (d : Dependencies) : Type 0 where
  pub same : d.iid ≡ e.iid
  pub raw : (q : ℕ) → In q d.raw → LastWrites WithCopies earlier (Reads e) q
  pub waw : (q : ℕ) → In q d.waw → LastWrites Plain earlier (Writes e) q

no_old : {Q : Type 0} (q : ℕ) → In q [] ⊎ Q → Q
no_old q (inl m) = absurd m
no_old q (inr h) = h

pub communicate-IsDependencies :
    (lo : ℕ) (e : Epoch) (earlier : List Epoch)
    → IsEpoch lo e
    → All (IsEpoch lo) earlier
    → (d : Dependencies) × (communicate e earlier ≡ some d) × IsDependencies e earlier d
unfolding communicate
communicate-IsDependencies lo e earlier w ws =
    let (raw, raw_ends, raw_found) =
      raw_walk-Finds lo earlier e.memory_data.r_tuples (Reads e) [] ws w.reads (λ a m. m) in
    let (waw, waw_ends, waw_found) =
      waw_walk-Finds lo earlier e.memory_data.w_tuples (Writes e) [] ws
        (IsTupleSet-IsOrdered lo e.memory_data.w_tuples w.writes) (λ a m. m) in
    (
      record { iid = e.iid; raw = raw; waw = waw },
      rw (raw_ends, waw_ends) refl,
      record {
        same = refl;
        raw = λ q m. no_old q (raw_found q m);
        waw = λ q m. no_old q (waw_found q m);
      },
    )

-- The entries of the epochs but the first one of the program: an epoch has one exactly where a
-- dependency was found.
abbrev pub IsCommunication : List Epoch → List Dependencies → Type 0
IsCommunication [] ds = ds ≡ []
IsCommunication (e ∷ []) ds = ds ≡ []
IsCommunication (e ∷ earlier ∷ es) ds =
    (d : Dependencies) × (ds' : List Dependencies) × IsDependencies e (earlier ∷ es) d
    × (communicate e (earlier ∷ es) ≡ some d)
    × IsCommunication (earlier ∷ es) ds'
    × (ds ≡ add_entry d ds')

-- On epochs of the machine whose ranges lie within 2^32 addresses GenerateTaskCommunication
-- returns, with an entry for exactly those epochs but the first for which a dependency is found. Each
-- WAW dependency of an epoch names an earlier epoch that wrote 34 consecutive bytes which the epoch
-- wrote and which no epoch in between wrote. Each RAW dependency names an earlier epoch that wrote 34
-- consecutive bytes, each of which was either read by the epoch and written by none in between, or
-- passed on from the reads of an epoch that made a memcpy or memmov: by one in between, where neither
-- it nor an epoch between it and the named one wrote the byte, or by the named one itself.
pub task_communication-IsCommunication :
    (lo : ℕ) (es : List Epoch)
    → All (IsEpoch lo) es
    → (ds : List Dependencies) × (task_communication es ≡ some ds) × IsCommunication es ds
unfolding task_communication
task_communication-IsCommunication lo [] w = ([], refl, refl)
task_communication-IsCommunication lo (e ∷ []) w = ([], refl, refl)
task_communication-IsCommunication lo (e ∷ earlier ∷ es) w =
    let (d, first, h) = communicate-IsDependencies lo e (earlier ∷ es) w.0 w.1 in
    let (ds, rest, k) = task_communication-IsCommunication lo (earlier ∷ es) w.1 in
    (add_entry d ds, rw (first, rest) refl, (d, ds, h, first, k, refl))
