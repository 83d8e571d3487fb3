-- ===== src/Markov.antt =====
-- The backend that records the control flow (Profile/Backend/Markov/Markov.cpp) and the queue of
-- tasks between the program under test and the reader (Profile/Backend/ThreadSafe).
pub mod Task
pub mod Queue
pub mod Handlers
pub mod Tables
