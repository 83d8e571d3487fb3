-- ===== src/Tests.antt =====
-- The theorems at concrete inputs, and runs of the definitions.
mod Graph
mod Markov
mod Memory
mod Profile
mod HashTable
mod Transforms
