-- ===== src/Paging.antt =====
-- kernel/memory.c: the pools of physical and virtual pages, the page tables and the heap.
pub mod Defs
pub mod Pages
pub mod Heap
pub mod Layout
pub mod Mapping
pub mod Blocks
pub mod Recycle
