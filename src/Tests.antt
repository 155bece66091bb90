-- ===== src/Tests.antt =====
-- Runs at concrete inputs: each shows that a theorem's conditions can hold.
mod Locks
mod Threads
mod Bits
mod Lists
mod Pipes
mod Strings
mod Pages
mod Storage
mod Dirs
mod Shell
mod Processes
mod Tree
mod Drive
