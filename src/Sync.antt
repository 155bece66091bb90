-- ===== src/Sync.antt =====
-- thread/sync.c: semaphores and locks, as threads that interleave.
pub mod Defs
pub mod Steps
pub mod Invariant
pub mod Keep
pub mod Blocked
pub mod Safety
