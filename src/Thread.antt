-- ===== src/Thread.antt =====
-- thread/thread.c: process control blocks, the ready list, scheduling and process numbers, with the
-- parts of userprog/process.c and device/timer.c that it works with.
-- The two lists of threads hold the addresses of their control blocks in order: `LinkedList` shows
-- that the linked lists of the source hold such lists.
pub mod Defs
pub mod Pids
pub mod Invariant
pub mod Ops
pub mod RoundRobin
