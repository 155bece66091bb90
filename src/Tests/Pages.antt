-- ===== src/Tests/Pages.antt =====
-- A machine of 32 MB, one mapped page and a heap of two blocks.
use tie_zhu_os.Base.{
  ℕ, ◌+◌, ◌%◌, ◌≤◌, ◌<◌, ◌≡◌, refl, true, false, some, [], ◌∷◌, ◌==◌, if◌then◌else◌, arith,
}
use tie_zhu_os.Bitmap.{BitMap}
use tie_zhu_os.Paging.Defs.{
  pg_size, Pool, Paging, get_pte_ptr, get_pde_ptr, page_table_add, addr_v2p,
}
use tie_zhu_os.Paging.Heap.{
  MemBlockDesc, arena_size, block_desk_init, Heap, block2arena, arena2block,
}
use tie_zhu_os.Paging.Mapping.{is_present, page_table_add-addr_v2p}
use tie_zhu_os.Paging.Blocks.{arena2block_lem}

abbrev no_bits : BitMap
no_bits = record { bitmap_byte_len = 4; bits = (λ i. 0) }

abbrev pool : Pool
pool = record { pool_bitmap = no_bits; phy_addr_start = 0x200000; pool_size = 0x20000 }

abbrev blank : Paging
blank = record {
  kernel_pool = pool;
  user_pool = pool;
  kernel_vaddr = record { bitmap_vaddr = no_bits; vaddr_start = 0xc0100000 };
  user_vaddr = record { bitmap_vaddr = no_bits; vaddr_start = 0x8048000 };
  has_pgdir = false;
  entries = (λ a. if a == 0xfffffc00 then 7 else 0);
  memory = (λ a. 255);
}

unmapped : is_present (blank.entries (get_pte_ptr 0xc0100000)) ≡ false
unfolding get_pte_ptr
unmapped = refl

page_table_add-addr_v2p_example :
    addr_v2p 0xc0100000 (page_table_add 0xc0100000 0x200000 blank) ≡ 0x200000 + 0xc0100000 % 4096
page_table_add-addr_v2p_example =
    page_table_add-addr_v2p 0xc0100000 0x200000 blank (omega arith) refl unmapped

has_table : is_present (blank.entries (get_pde_ptr 0xc0100000)) ≡ true
unfolding get_pde_ptr
has_table = refl

abbrev new_descs : ℕ → MemBlockDesc
new_descs = block_desk_init (λ k. record { block_size = 0; blocks_per_arena = 0; free_list = [] })

arena2block_lem_example :
    let size = (new_descs 2).block_size in
    (block2arena (arena2block 0xc0100000 3 size) ≡ 0xc0100000)
    × (0xc0100000 + arena_size ≤ arena2block 0xc0100000 3 size)
    × (arena2block 0xc0100000 3 size + size ≤ 0xc0100000 + pg_size)
    × ((j : ℕ) → 3 < j → arena2block 0xc0100000 3 size + size ≤ arena2block 0xc0100000 j size)
unfolding block_desk_init
arena2block_lem_example =
    arena2block_lem (λ k. record { block_size = 0; blocks_per_arena = 0; free_list = [] }) 2
      0xc0100000 3 (omega arith) refl (omega arith)

-- The arena at 8192 has the free blocks 0 and 1 of 64 bytes; another block is in use.
abbrev heap : Heap
heap = record {
  paging = blank;
  descs = (λ d.
      if d == 2
      then record { block_size = 64; blocks_per_arena = 63; free_list = 8204 ∷ 8268 ∷ [] }
      else record { block_size = 16; blocks_per_arena = 255; free_list = [] });
  arenas = (λ a. record { desc = some 2; cnt = 2; large = false });
}
