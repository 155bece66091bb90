-- ===== src/Paging/Layout.antt =====
-- How `mem_pool_init` divides the memory.
use tie_zhu_os.Base.{ℕ, ◌+◌, ◌-◌, ◌*◌, ◌/◌, ◌%◌, ◌^◌, ◌≤◌, ◌<◌, ◌≡◌, refl, subst, false, arith}
use tie_zhu_os.Bitmap.{BitMap, bitmap_init, bit_map_scan_test}
use tie_zhu_os.Bitmap.Laws.{scan_test-bitmap_init}
use tie_zhu_os.Paging.Defs.{Paging, Pool, pg_size, used_mem, mem_pool_init}

-- Every bit of the map stands for a page of the pool, and is free.
pub record IsFresh (p : Pool) : Type 0 where
  pub covered : 8 * p.pool_bitmap.bitmap_byte_len * pg_size ≤ p.pool_size
  pub free :
      (i : ℕ) → i < 8 * p.pool_bitmap.bitmap_byte_len → bit_map_scan_test p.pool_bitmap i ≡ false

abbrev pub Divided : ℕ → Paging → Type 0
Divided all_mem s1 =
    (s1.kernel_pool.phy_addr_start ≡ used_mem)
    × (s1.user_pool.phy_addr_start ≡ used_mem + s1.kernel_pool.pool_size)
    × (s1.user_pool.phy_addr_start + s1.user_pool.pool_size ≤ all_mem)
    × IsFresh s1.kernel_pool
    × IsFresh s1.user_pool
    × (s1.kernel_pool.pool_size + s1.user_pool.pool_size
        ≡ (all_mem - used_mem) / pg_size % 2 ^ 16 * pg_size)

init-IsFresh :
    (m : BitMap) (start size : ℕ)
    → 8 * m.bitmap_byte_len * pg_size ≤ size
    → IsFresh (record { pool_bitmap = bitmap_init m; phy_addr_start = start; pool_size = size })
unfolding bitmap_init
init-IsFresh m start size le = record { covered = le; free = scan_test-bitmap_init m }

-- For at least 2 MB and less than 4 GB of memory, of which 2 MB are in use, `mem_pool_init` makes two
-- pools of free pages, one behind the other, behind the memory in use and inside the memory there
-- is. They hold the number of free pages modulo 2^16.
pub mem_pool_init_lem :
    (all_mem : ℕ) (s s1 : Paging)
    → mem_pool_init all_mem s ≡ s1
    → used_mem ≤ all_mem
    → all_mem < 2 ^ 32
    → Divided all_mem s1
unfolding mem_pool_init
mem_pool_init_lem all_mem s s1 e low high = subst (Divided all_mem) e (
  refl,
  refl,
  omega arith,
  init-IsFresh _ _ _ (omega arith),
  init-IsFresh _ _ _ (omega arith),
  omega arith,
)
