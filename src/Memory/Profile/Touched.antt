-- ===== src/Memory/Profile/Touched.antt =====
-- The bytes that the calls of the profiled program touch, and those that the profile holds besides.
use cyclebite.Base.{ℕ, ◌+◌, ◌%◌, ◌^◌, ◌≤◌, ◌<◌, ◌≡◌, ◌↔◌, ◌⊎◌, arith}
use cyclebite.Memory.Profile.{
  Event, increments, stores, loads, copies, moves, sets, mallocs, frees, last_offset,
}
use cyclebite.Memory.Profile.Calls.{written, read, Bytes}

-- The n bytes from an address on.
abbrev pub InRange : ℕ → ℕ → ℕ → Type 0
InRange address n b = (address ≤ b) × (b < address + n)

-- The bytes that a call of the program writes, its size taken as the 32 bits that the handlers keep.
abbrev pub Stores : Event → ℕ → Type 0
Stores (stores address value size) b = InRange address (size % 2 ^ 32) b
Stores (copies src snk size) b = InRange snk (size % 2 ^ 32) b
Stores (moves src snk size) b = InRange snk (size % 2 ^ 32) b
Stores (sets ptr size) b = InRange ptr (size % 2 ^ 32) b
Stores _ b = ⊥

-- The bytes that a call of the program reads.
abbrev pub Loads : Event → ℕ → Type 0
Loads (loads address value size) b = InRange address (size % 2 ^ 32) b
Loads (copies src snk size) b = InRange src (size % 2 ^ 32) b
Loads (moves src snk size) b = InRange src (size % 2 ^ 32) b
Loads _ b = ⊥

-- All 2 ^ 32 bytes from an address on, for a call of size 0.
abbrev pub WhenEmpty : ℕ → ℕ → ℕ → Type 0
WhenEmpty address size b = (size % 2 ^ 32 ≡ 0) × InRange address (2 ^ 32) b

-- The bytes that the profile holds as written though the call does not write them: the one after a
-- store, and 2 ^ 32 bytes for a copy or memset of none.
abbrev pub StoresBeyond : Event → ℕ → Type 0
StoresBeyond (stores address value size) b = b ≡ address + size % 2 ^ 32
StoresBeyond (copies src snk size) b = WhenEmpty snk size b
StoresBeyond (moves src snk size) b = WhenEmpty snk size b
StoresBeyond (sets ptr size) b = WhenEmpty ptr size b
StoresBeyond _ b = ⊥

-- The bytes that the profile holds as read though the call does not read them.
abbrev pub LoadsBeyond : Event → ℕ → Type 0
LoadsBeyond (loads address value size) b = b ≡ address + size % 2 ^ 32
LoadsBeyond (copies src snk size) b = WhenEmpty src size b
LoadsBeyond (moves src snk size) b = WhenEmpty src size b
LoadsBeyond _ b = ⊥

-- A range from an offset of one less than the 32 bits of its size.
last_offset_iff :
    (address size b : ℕ)
    → ((address ≤ b) × (b ≤ address + last_offset size))
      ↔ (InRange address (size % 2 ^ 32) b ⊎ WhenEmpty address size b)
last_offset_iff address size b = ground arith

pub written_iff : (ev : Event) (b : ℕ) → Bytes (written ev) b ↔ (Stores ev b ⊎ StoresBeyond ev b)
written_iff (increments a) b = ground arith
written_iff (stores address value size) b = ground arith
written_iff (loads address value size) b = ground arith
written_iff (copies src snk size) b = ground (arith, last_offset_iff snk size b)
written_iff (moves src snk size) b = ground (arith, last_offset_iff snk size b)
written_iff (sets ptr size) b = ground (arith, last_offset_iff ptr size b)
written_iff (mallocs ptr size) b = ground arith
written_iff (frees ptr) b = ground arith

pub read_iff : (ev : Event) (b : ℕ) → Bytes (read ev) b ↔ (Loads ev b ⊎ LoadsBeyond ev b)
read_iff (increments a) b = ground arith
read_iff (stores address value size) b = ground arith
read_iff (loads address value size) b = ground arith
read_iff (copies src snk size) b = ground (arith, last_offset_iff src size b)
read_iff (moves src snk size) b = ground (arith, last_offset_iff src size b)
read_iff (sets ptr size) b = ground arith
read_iff (mallocs ptr size) b = ground arith
read_iff (frees ptr) b = ground arith
