-- ===== src/Memory.antt =====
-- The memory profiler backend (Profile/Backend/Memory).
pub mod Tuple
pub mod TupleSet
pub mod Epoch
pub mod CodeInstance
pub mod Communication
pub mod Profile
