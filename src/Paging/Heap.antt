-- ===== src/Paging/Heap.antt =====
-- The heap of kernel/memory.c: arenas of one page cut into blocks, and larger arenas for one request.
use tie_zhu_os.Base.{
  ℕ, zero, suc, ◌+◌, ◌-◌, ◌*◌, ◌/◌, ◌%◌, ◌^◌, Bool, true, false, not, Option, none, some, List, [],
  ◌∷◌, ◌++◌, update, ltb, leb, ◌==◌, if◌then◌else◌, ◌>>=◌, ◌>>◌, assert,
}
use tie_zhu_os.LinkedList.{Addr, null}
use tie_zhu_os.LinkedList.Chain.{has}
use tie_zhu_os.Thread.Defs.{without}
use tie_zhu_os.CString.{memset}
use tie_zhu_os.Paging.Defs.{PoolFlags, pf_kernel, pf_user, Paging, pg_size}
use tie_zhu_os.Paging.Pages.{malloc_page, mfree_page, pool_of}

-- `mem_block_desc`; `free_list` holds the addresses of the free blocks, in order.
pub record MemBlockDesc : Type 0 where
  pub block_size : ℕ
  pub blocks_per_arena : ℕ
  pub free_list : List Addr

-- `arena`; `desc` is the index of the descriptor, `none` for `NULL`.
pub record Arena : Type 0 where
  pub desc : Option ℕ
  pub cnt : ℕ
  pub large : Bool

-- The descriptors are those of the running thread: the kernel's, or its process's.
pub record Heap : Type 0 where
  pub paging : Paging
  pub descs : ℕ → MemBlockDesc
  pub arenas : Addr → Arena

abbrev pub desc_cnt : ℕ
desc_cnt = 7

abbrev pub arena_size : ℕ
arena_size = 12

abbrev pub new_desc : ℕ → MemBlockDesc
new_desc block_size = record {
  block_size = block_size;
  blocks_per_arena = (pg_size - arena_size) / block_size;
  free_list = [];
}

abbrev pub desc_loop : ℕ → ℕ → ℕ → (ℕ → MemBlockDesc) → ℕ → MemBlockDesc
desc_loop zero desc_idx block_size d = d
desc_loop (suc n) desc_idx block_size d =
    desc_loop n (desc_idx + 1) (block_size * 2 % 2 ^ 16) (update d desc_idx (new_desc block_size))

unfoldable pub block_desk_init : (ℕ → MemBlockDesc) → ℕ → MemBlockDesc
block_desk_init d = desc_loop desc_cnt 0 16 d

abbrev pub arena2block : Addr → ℕ → ℕ → Addr
arena2block a idx block_size = a + arena_size + idx * block_size

abbrev pub block2arena : Addr → Addr
block2arena b = b / pg_size * pg_size

-- The first descriptor whose blocks hold `size` bytes.
unfoldable pub desc_for : ℕ → ℕ → ℕ → (ℕ → MemBlockDesc) → ℕ
desc_for zero desc_idx size d = desc_idx
desc_for (suc n) desc_idx size d =
    let rest = desc_for n (desc_idx + 1) size d in
    if leb size (d desc_idx).block_size then desc_idx else rest

abbrev pub set_free_list : ℕ → List Addr → Heap → Heap
set_free_list d l h = record h { descs = update h.descs d (record (h.descs d) { free_list = l }) }

-- The blocks `idx` and on of the arena are appended to the free list.
unfoldable pub split_loop : ℕ → ℕ → Addr → ℕ → Heap → Option Heap
split_loop zero idx a d h = some h
split_loop (suc n) idx a d h =
    let b = arena2block a idx (h.descs d).block_size in
    assert (not (has b (h.descs d).free_list))
    >> split_loop n (idx + 1) a d (set_free_list d ((h.descs d).free_list ++ b ∷ []) h)

abbrev pub flags_of : Paging → PoolFlags
flags_of s = if s.has_pgdir then pf_user else pf_kernel

abbrev pub clear_bytes_at : Addr → ℕ → Heap → Option Heap
clear_bytes_at a size h = do
  m ← memset a 0 size h.paging.memory
  some (record h { paging = record (h.paging) { memory = m } })

abbrev pub large_pages : ℕ → ℕ
large_pages size = (size + arena_size + pg_size - 1) / pg_size

unfoldable pub malloc_large : ℕ → Heap → Option (Addr × Heap)
malloc_large size h = do
  (a, s) ← malloc_page (flags_of h.paging) (large_pages size) h.paging
  (if a == null then some (null, record h { paging = s }) else (do
    h1 ← clear_bytes_at a (large_pages size * pg_size) (record h { paging = s })
    some (
      a + arena_size,
      record h1 {
        arenas = update h1.arenas a (record { desc = none; cnt = large_pages size; large = true });
      },
    )))

abbrev pub new_arena : ℕ → Heap → Option (Bool × Heap)
new_arena d h = do
  (a, s) ← malloc_page (flags_of h.paging) 1 h.paging
  (if a == null then some (false, record h { paging = s }) else (do
    h1 ← clear_bytes_at a pg_size (record h { paging = s })
    let blocks = (h.descs d).blocks_per_arena
    h2 ← split_loop blocks 0 a d (record h1 {
      arenas = update h1.arenas a (record { desc = some d; cnt = blocks; large = false });
    })
    some (true, h2)))

-- A new arena where the free list is empty; the result tells whether there is a block.
abbrev pub refill : List Addr → ℕ → Heap → Option (Bool × Heap)
refill [] d h = new_arena d h
refill (b ∷ bs) d h = some (true, h)

-- `list_pop` of an empty list does not happen: `refill` has filled it.
abbrev pub pop_block : List Addr → ℕ → Heap → Option (Addr × Heap)
pop_block [] d h = none
pop_block (b ∷ bs) d h = do
  h1 ← clear_bytes_at b (h.descs d).block_size (set_free_list d bs h)
  let a = h1.arenas (block2arena b)
  some (
    b,
    record h1 {
      arenas = update h1.arenas (block2arena b) (record a { cnt = (a.cnt + 2 ^ 32 - 1) % 2 ^ 32 });
    },
  )

unfoldable pub take_block : ℕ → Heap → Option (Addr × Heap)
take_block d h = pop_block (h.descs d).free_list d h

unfoldable pub malloc_small : ℕ → Heap → Option (Addr × Heap)
malloc_small size h = do
  let d = desc_for desc_cnt 0 size h.descs
  (ok, h1) ← refill (h.descs d).free_list d h
  if ok then take_block d h1 else some (null, h1)

unfoldable pub sys_malloc : ℕ → Heap → Option (Addr × Heap)
sys_malloc size h =
    let n = if size == 0 then 1 else size in
    if ltb (pool_of (flags_of h.paging) h.paging).pool_size n
    then some (null, h)
    else (if ltb 1024 n then malloc_large n h else malloc_small n h)

abbrev pub remove_loop : ℕ → ℕ → Addr → ℕ → Heap → Heap
remove_loop zero idx a d h = h
remove_loop (suc n) idx a d h =
    remove_loop n (idx + 1) a d
      (set_free_list d (without (arena2block a idx (h.descs d).block_size) (h.descs d).free_list) h)

abbrev pub freed_pages : PoolFlags → Addr → ℕ → Heap → Option Heap
freed_pages pf a cnt h = do s ← mfree_page pf a cnt h.paging; some (record h { paging = s })

-- The block goes back to its list; an arena whose blocks are all free is given back.
unfoldable pub free_small : Addr → Addr → ℕ → Heap → Option Heap
free_small b a d h =
    let h1 = set_free_list d ((h.descs d).free_list ++ b ∷ []) h in
    let cnt = ((h.arenas a).cnt + 1) % 2 ^ 32 in
    let h2 = record h1 { arenas = update h1.arenas a (record (h.arenas a) { cnt = cnt }) } in
    if cnt == (h.descs d).blocks_per_arena
    then freed_pages (flags_of h.paging) a 1 (remove_loop cnt 0 a d h2)
    else some h2

-- A block without a descriptor that is not large is read through a null pointer: `none`.
abbrev pub free_kind : Option ℕ → Addr → Heap → Option Heap
free_kind none ptr h =
    if (h.arenas (block2arena ptr)).large
    then freed_pages (flags_of h.paging) (block2arena ptr) (h.arenas (block2arena ptr)).cnt h
    else none
free_kind (some d) ptr h = free_small ptr (block2arena ptr) d h

unfoldable pub sys_free : Addr → Heap → Option Heap
sys_free ptr h = assert (not (ptr == null)) >> free_kind (h.arenas (block2arena ptr)).desc ptr h
