-- ===== src/Tests/Profile.antt =====
-- The memory profiler at concrete inputs.
use cyclebite.Base.{
  ℕ, ◌≡◌, ◌↔◌, ◌⊎◌, refl, false, true, List, [], ◌∷◌, some, ◌>>=◌, arith, All, Any,
}
use cyclebite.Memory.TupleSet.Merge.{IsTupleSet}
use cyclebite.Memory.Epoch.{Epoch, Iteration, empty_epoch}
use cyclebite.Memory.CodeInstance.{add_iteration, IsUnion, add_iteration-IsUnion}
use cyclebite.Memory.Communication.{
  Explained, Dependencies, remove_explained_producers, task_communication,
}
use cyclebite.Memory.Communication.Explain.{IsExplained, remove_explained_producers-IsExplained}
use cyclebite.Memory.Communication.LastWriter.{
  IsEpoch, IsCommunication, task_communication-IsCommunication,
}
use cyclebite.Memory.Communication.Order.{PointsBack, task_communication-PointsBack}
use cyclebite.Memory.Profile.{Profile, Event, increments, stores, copies, memory_init, step, run}
use cyclebite.Memory.Profile.Boundaries.{
  Kernel, HasEdge, find_epoch_boundaries, find_epoch_boundaries_iff,
}
use cyclebite.Memory.Profile.{is_boundary}
use cyclebite.Memory.Profile.Invariant.{IsProfile, Wrote, Read, Records}
use cyclebite.Memory.Profile.Touched.{Stores, StoresBeyond, Loads, LoadsBeyond}
use cyclebite.Memory.Profile.Trace.{run-memory_init, step-Records, init-IsProfile}
use cyclebite.Base.NatSet.{contains}
use cyclebite.Memory.Profile.Process.{HaveKernels}
use cyclebite.Memory.Profile.Whole.{finish, profile-PointsBack}
use cyclebite.Tests.Memory.{early, bridge, two_ranges, two_ranges-IsTupleSet, two_ranges-IsOrdered}

-- An epoch that writes two ranges, and a later one that writes the range that joins them and reads
-- the two.
abbrev first : Epoch
first = record (empty_epoch 0) { memory_data = record { r_tuples = []; w_tuples = two_ranges } }

abbrev second : Epoch
second = record (empty_epoch 1) {
  memory_data = record { r_tuples = two_ranges; w_tuples = bridge ∷ [] };
}

empty-IsTupleSet : IsTupleSet 64 []
empty-IsTupleSet = record { sorted = tt; window = tt }

first-IsEpoch : IsEpoch 64 first
first-IsEpoch = record { reads = empty-IsTupleSet; writes = two_ranges-IsTupleSet }

second-IsEpoch : IsEpoch 64 second
second-IsEpoch = record {
  reads = two_ranges-IsTupleSet;
  writes = record { sorted = (tt, tt); window = omega arith };
}

remove_explained_producers-IsExplained_example :
    (e : Explained) × (remove_explained_producers (bridge ∷ []) two_ranges ≡ some e)
    × IsExplained (bridge ∷ []) two_ranges e
remove_explained_producers-IsExplained_example =
    remove_explained_producers-IsExplained (bridge ∷ []) two_ranges (omega arith)
      two_ranges-IsOrdered

task_communication-IsCommunication_example :
    (ds : List Dependencies) × (task_communication (second ∷ first ∷ []) ≡ some ds)
    × IsCommunication (second ∷ first ∷ []) ds
task_communication-IsCommunication_example =
    task_communication-IsCommunication 64 (second ∷ first ∷ [])
      (second-IsEpoch, (first-IsEpoch, tt))

task_communication-PointsBack_example :
    (ds : List Dependencies) × (task_communication (second ∷ first ∷ []) ≡ some ds)
    × All PointsBack ds
task_communication-PointsBack_example =
    task_communication-PointsBack 64 (second ∷ first ∷ []) (second-IsEpoch, (first-IsEpoch, tt))
      (omega arith)

-- A program that stores 8 bytes in each of two blocks and copies 64 bytes.
abbrev calls : List Event
calls = stores 4096 7 8 ∷ increments 3 ∷ stores 4104 8 8 ∷ copies 4096 8192 64 ∷ []

run-memory_init_example :
    (s : Profile) × (run (memory_init ((2, 3) ∷ []) 0 2) calls ≡ some s)
    × IsProfile 4096 s
    × ((b : ℕ) → Wrote s b ↔ Any (λ ev. Stores ev b ⊎ StoresBeyond ev b) calls)
    × ((b : ℕ) → Read s b ↔ Any (λ ev. Loads ev b ⊎ LoadsBeyond ev b) calls)
run-memory_init_example = run-memory_init 4096 ((2, 3) ∷ []) 0 2 calls (omega arith) (omega arith)

candidate_kernel : HaveKernels (1 ∷ []) ((1, 3 ∷ []) ∷ [])
unfolding contains
candidate_kernel = (refl, tt)

profile-PointsBack_example :
    (ds : List Dependencies) × ((run (memory_init ((2, 3) ∷ []) 0 2) calls
        >>= finish (1 ∷ []) ((1, 3 ∷ []) ∷ []))
      ≡ some ds)
    × All PointsBack ds
profile-PointsBack_example =
    profile-PointsBack 4096 ((2, 3) ∷ []) (1 ∷ []) ((1, 3 ∷ []) ∷ []) 0 2 calls candidate_kernel
      (omega arith) (omega arith)

-- The profile after no call.
started-IsProfile : IsProfile 4096 (memory_init [] 0 2)
started-IsProfile = init-IsProfile 4096 [] 0 2 (omega arith)

step-Records_example :
    (s : Profile) × (step (memory_init [] 0 2) (stores 4096 7 8) ≡ some s)
    × Records 4096 1
        (λ a. Stores (stores 4096 7 8) a ⊎ StoresBeyond (stores 4096 7 8) a)
        (λ a. Loads (stores 4096 7 8) a ⊎ LoadsBeyond (stores 4096 7 8) a)
        (memory_init [] 0 2)
        s
unfolding memory_init
step-Records_example =
    step-Records 4096 (memory_init [] 0 2) (stores 4096 7 8) started-IsProfile (omega arith)
      (omega arith)

-- The first epoch, which allocated and freed what it wrote first.
abbrev scratch : Epoch
scratch = record first { malloc_ptrs = early ∷ []; free_ptrs = 100 ∷ [] }

abbrev loop_kernel : Kernel
loop_kernel = record { has_parents = false; entrances = (1, 2 ∷ []) ∷ []; exits = (2, 3 ∷ []) ∷ [] }

find_epoch_boundaries_iff_example :
    (is_boundary (find_epoch_boundaries (loop_kernel ∷ [])) 2 3 ≡ true)
    ↔ Any
        (λ k. (k.has_parents ≡ false) × (HasEdge 2 3 k.entrances ⊎ HasEdge 2 3 k.exits))
        (loop_kernel ∷ [])
find_epoch_boundaries_iff_example = find_epoch_boundaries_iff (loop_kernel ∷ []) 2 3

-- The iteration of the second epoch is added to that of the first.
add_iteration-IsUnion_example :
    (m : Iteration) × (add_iteration first.memory_data second.memory_data ≡ some m)
    × IsUnion 64 two_ranges (bridge ∷ []) m.w_tuples
    × IsUnion 64 [] two_ranges m.r_tuples
add_iteration-IsUnion_example =
    add_iteration-IsUnion 64 first.memory_data second.memory_data
      (two_ranges-IsTupleSet, empty-IsTupleSet) ((second-IsEpoch).writes, two_ranges-IsTupleSet)
