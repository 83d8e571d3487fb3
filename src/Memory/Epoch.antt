-- ===== src/Memory/Epoch.antt =====
-- Epochs and what they touched (Profile/Backend/Memory/Epoch.cpp, inc/Epoch.h, inc/Iteration.h).
-- A block identifier is the bit pattern of its int64_t. A std::map from blocks is the list of its
-- entries, and std::set<int64_t> the list of its elements, in the order of the keys. The kernel of an epoch is the
-- identifier of the kernel that its pointer leads to.
use cyclebite.Base.{ℕ, ◌+◌, ◌%◌, ◌^◌, List, [], ◌∷◌, Option, none, ltb, if◌then◌else◌}
use cyclebite.Base.StdSet
use cyclebite.Memory.TupleSet.{TupleSet}

pub record Iteration : Type 0 where
  pub r_tuples : TupleSet
  pub w_tuples : TupleSet

pub record Epoch : Type 0 where
  pub iid : ℕ
  pub blocks : List ℕ
  pub entrances : List (ℕ × List ℕ)
  pub exits : List (ℕ × List ℕ)
  pub memory_data : Iteration
  pub freq : List (ℕ × ℕ)
  pub malloc_ptrs : TupleSet
  pub free_ptrs : List ℕ
  pub kernel : Option ℕ

-- A new epoch with the identifier `iid`.
abbrev pub empty_epoch : ℕ → Epoch
empty_epoch iid = record {
  iid = iid;
  blocks = [];
  entrances = [];
  exits = [];
  memory_data = record { r_tuples = []; w_tuples = [] };
  freq = [];
  malloc_ptrs = [];
  free_ptrs = [];
  kernel = none;
}

-- map[key] += 1 on a std::map<int64_t, uint64_t>
unfoldable pub increment : List (ℕ × ℕ) → ℕ → List (ℕ × ℕ)
increment [] k = (k, 1) ∷ []
increment ((j, n) ∷ m) k =
    if ltb j k
    then (j, n) ∷ increment m k
    else if ltb k j
    then (k, 1) ∷ (j, n) ∷ m
    else (j, (n + 1) % 2 ^ 64) ∷ m

-- map[key].insert(value) on a std::map<int64_t, std::set<int64_t>>
unfoldable pub insert_at : List (ℕ × List ℕ) → ℕ → ℕ → List (ℕ × List ℕ)
insert_at [] k v = (k, v ∷ []) ∷ []
insert_at ((j, vs) ∷ m) k v =
    if ltb j k
    then (j, vs) ∷ insert_at m k v
    else if ltb k j
    then (k, v ∷ []) ∷ (j, vs) ∷ m
    else (j, StdSet.insert ltb vs v) ∷ m

unfoldable pub update_blocks : Epoch → ℕ → Epoch
unfolding increment
update_blocks e id = record e { freq = increment e.freq id; blocks = StdSet.insert ltb e.blocks id }

unfoldable pub max_freq : ℕ → List (ℕ × ℕ) → ℕ
max_freq m [] = m
max_freq m ((k, n) ∷ rest) = max_freq (if ltb m n then n else m) rest

unfoldable pub get_max_freq : Epoch → ℕ
unfolding max_freq
get_max_freq e = max_freq 0 e.freq
