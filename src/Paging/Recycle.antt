-- ===== src/Paging/Recycle.antt =====
-- A block of the heap from its list to a caller and back.
use tie_zhu_os.Base.{ℕ, ◌+◌, ◌-◌, ◌%◌, ◌^◌, ◌≡◌, List, [], ◌∷◌, ◌++◌, update, if◌then◌else◌}
use tie_zhu_os.LinkedList.{Addr}
use tie_zhu_os.CString.Blocks.{within}
use tie_zhu_os.Paging.Heap.{Heap, block2arena, set_free_list}

-- The heap behind a block taken from the list `b ∷ bs` of descriptor `d`.
pub record Taken (d : ℕ) (b : Addr) (bs : List Addr) (h h1 : Heap) : Type 0 where
  pub list : (h1.descs d).free_list ≡ bs
  pub counted :
      (h1.arenas (block2arena b)).cnt ≡ ((h.arenas (block2arena b)).cnt + 2 ^ 32 - 1) % 2 ^ 32
  pub kind : (h1.arenas (block2arena b)).desc ≡ (h.arenas (block2arena b)).desc
  pub per_arena : (h1.descs d).blocks_per_arena ≡ (h.descs d).blocks_per_arena
  pub bytes :
      (x : Addr)
      → h1.paging.memory x ≡ (if within b (h.descs d).block_size x then 0 else h.paging.memory x)

abbrev taken_heap : ℕ → Addr → List Addr → ℕ → (Addr → ℕ) → Heap → Heap
taken_heap d b bs cnt m h = record (set_free_list d bs h) {
  paging = record (h.paging) { memory = m };
  arenas = update h.arenas (block2arena b) (record (h.arenas (block2arena b)) { cnt = cnt });
}

abbrev freed_heap : Addr → ℕ → ℕ → Heap → Heap
freed_heap b d cnt h = record (set_free_list d ((h.descs d).free_list ++ b ∷ []) h) {
  arenas = update h.arenas (block2arena b) (record (h.arenas (block2arena b)) { cnt = cnt });
}
