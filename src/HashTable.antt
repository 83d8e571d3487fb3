-- ===== src/HashTable.antt =====
-- The hash table of the profiles (Profile/Backend/HashTable/DashHashTable.c), used by one thread, as
-- the reader of the queue uses it: the counters of its users are then 0 between the calls. An
-- element of the union is the words of its storage. A bucket is the list of the popCount elements
-- that live in it; the places after them hold the zeroes of calloc, and nothing writes there but
-- the calls that then count the place. A table has at most 2 ^ 31 buckets: the shift of the code
-- is not defined past that.
pub mod Bucket
pub mod Placement
pub mod Resolve
pub mod Push
pub mod Tally
pub mod Calls
pub mod File
use cyclebite.Base.{
  ℕ, zero, suc, ◌+◌, ◌*◌, ◌/◌, ◌%◌, ◌^◌, Bool, true, false, ◌&&◌, List, [], ◌∷◌, ◌++◌, Option, none,
  some, ◌>>=◌, ◌==◌, if◌then◌else◌, length,
}
use Prim.Native.Nat.{bit_xor}

-- edgeTuple, labelTuple and callerTuple. The label is its address; the position of a caller is in
-- the storage of the frequency.
pub record Element : Type 0 where
  pub source : ℕ
  pub sink : ℕ
  pub frequency : ℕ
  pub label : ℕ

abbrev pub position : Element → ℕ
position e = e.frequency % 2 ^ 32

pub record Table : Type 0 where
  pub size : ℕ
  pub array : ℕ → List Element

abbrev pub tuple_size : ℕ
tuple_size = 15

-- 0x1 << size, in 32 bits. The shift is not defined for a size above 31.
abbrev pub full_size : Table → ℕ
full_size t = 2 ^ t.size % 2 ^ 32

-- The loop over the blocks, in 32 bits.
unfoldable pub hash_loop : ℕ → ℕ → List ℕ → ℕ
hash_loop m y [] = y
hash_loop m y (x ∷ xs) =
    hash_loop ((m + 82520 + 1 + 1) % 2 ^ 32)
      ((y + bit_xor (x / 2 ^ 16) (x * m % 2 ^ 32 + 97531)) % 2 ^ 32) xs

unfoldable pub hash : List ℕ → ℕ
unfolding hash_loop
hash xs = hash_loop 1000003 0x12345678 xs

-- The least significant bits, by the mask (0x1 << size) - 1.
unfoldable pub hash_source : List ℕ → ℕ → ℕ
unfolding hash
hash_source xs size = hash xs % 2 ^ size

unfoldable pub index : ℕ → Element → ℕ
unfolding hash_source
index size e = hash_source (e.source ∷ e.sink ∷ []) size

unfoldable pub same_blocks : Element → Element → Bool
same_blocks a b = b.source == a.source && b.sink == a.sink

unfoldable pub tuple_lookup : List Element → Element → Option Element
tuple_lookup [] k = none
tuple_lookup (e ∷ es) k = if same_blocks k e then some e else tuple_lookup es k

-- A write through the pointer that tupleLookup returns.
unfoldable pub change : (Element → Element) → Element → List Element → List Element
change f k [] = []
change f k (e ∷ es) = if same_blocks k e then f e ∷ es else e ∷ change f k es

abbrev pub array_lookup : Table → Element → List Element
array_lookup t k = t.array (index t.size k)

unfoldable pub read : Table → Element → Option Element
unfolding tuple_lookup
read t k = tuple_lookup (array_lookup t k) k

-- The bucket of the index, written back.
unfoldable pub store : Table → ℕ → List Element → Table
store t i bucket = record t { array = λ j. if j == i then bucket else t.array j }

-- What the calls that write have in common: an element that is found is changed, and a new one is
-- made where there is room. `none` is the result 1, which leaves the table as it is.
unfoldable pub enter : (Element → Element) → Element → Table → Element → Option Table
unfolding tuple_lookup change store
enter f fresh t b = elim (tuple_lookup (array_lookup t b) b) [
  | some _ ↦ some (store t (index t.size b) (change f b (array_lookup t b)))
  | none ↦
      if length (array_lookup t b) == tuple_size
      then none
      else some (store t (index t.size b) (array_lookup t b ++ fresh ∷ []))
]

unfoldable pub write : Table → Element → Option Table
unfolding enter
write t b = enter (λ _. b) b t b

abbrev pub more_frequent : Element → Element
more_frequent e = record e { frequency = (e.frequency + 1) % 2 ^ 64 }

unfoldable pub increment : Table → Element → Option Table
unfolding enter
increment t b =
    enter more_frequent (record { source = b.source; sink = b.sink; frequency = 1; label = 0 }) t b

unfoldable pub increment_label : Table → Element → Option Table
unfolding enter
increment_label t b =
    enter more_frequent
      (record { source = b.source; sink = b.sink; frequency = 1; label = b.label }) t b

-- A table as MarkovInit makes it, with the size that it computes from the number of blocks, and
-- as resolveClash makes it.
abbrev pub empty_table : ℕ → Table
empty_table n = record { size = n; array = λ _. [] }

-- The elements in the order in which resolveClash and WriteEdgeHashTable go through them: those of
-- the first n buckets.
unfoldable pub elements : ℕ → (ℕ → List Element) → List Element
elements zero array = []
elements (suc n) array = elements n array ++ array n

unfoldable pub move_all : Table → List Element → Option Table
unfolding write
move_all t [] = some t
move_all t (e ∷ es) = write t e >>= λ t'. move_all t' es

-- `none` is the exit for a clash while resolving a clash.
unfoldable pub resolve_clash : Table → ℕ → Option Table
unfolding elements move_all
resolve_clash t new_size = move_all (empty_table new_size) (elements (full_size t) t.array)
