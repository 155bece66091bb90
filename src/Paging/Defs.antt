-- ===== src/Paging/Defs.antt =====
-- The pools of kernel/memory.c, the page tables as the kernel sees them, and the operations on one
-- page. The locks of the pools are those of thread/sync.c and are left out.
use tie_zhu_os.Base.{
  ℕ, ◌+◌, ◌-◌, ◌*◌, ◌/◌, ◌%◌, ◌^◌, Bool, not, Option, none, some, update, ltb, leb, ◌==◌,
  if◌then◌else◌, ◌>>◌, assert, ℤ, pos, negsuc, Memory,
}
use Prim.Native.Nat.{bit_and, bit_or}
use tie_zhu_os.LinkedList.{Addr, null}
use tie_zhu_os.Bitmap.{BitMap, bitmap_init, bitmap_set, bitmap_set_ex, bit_map_scan, clear_bytes}

abbrev pub pg_size : ℕ
pg_size = 4096

-- `pool`
pub record Pool : Type 0 where
  pub pool_bitmap : BitMap
  pub phy_addr_start : ℕ
  pub pool_size : ℕ

-- `virtual_pool`
pub record VirtualPool : Type 0 where
  pub bitmap_vaddr : BitMap
  pub vaddr_start : ℕ

-- `enum pool_flags`
pub data PoolFlags : Type 0 where
  pf_kernel : PoolFlags
  pf_user : PoolFlags

-- `user_vaddr` is the pool of the running process, and `has_pgdir` tells whether it has a page
-- directory; `entries` holds the words of the page tables by their virtual address, `memory` the
-- bytes of the pages.
pub record Paging : Type 0 where
  pub kernel_pool : Pool
  pub user_pool : Pool
  pub kernel_vaddr : VirtualPool
  pub user_vaddr : VirtualPool
  pub has_pgdir : Bool
  pub entries : Memory
  pub memory : Memory

-- `mem_pool_init`; `free_mem` is a `uint32_t`, the numbers of pages are `uint16_t`.
abbrev pub used_mem : ℕ
used_mem = pg_size * 256 + 0x100000

abbrev pub all_free_pages : ℕ → ℕ
all_free_pages all_mem = (all_mem + 2 ^ 32 - used_mem) % 2 ^ 32 / pg_size % 2 ^ 16

unfoldable pub mem_pool_init : ℕ → Paging → Paging
mem_pool_init all_mem s =
    let kernel_free_pages = all_free_pages all_mem / 2 in
    let user_free_pages = all_free_pages all_mem - kernel_free_pages in
    let kbm_length = kernel_free_pages / 8 in
    record s {
      kernel_pool = record {
        pool_bitmap =
            bitmap_init (record (s.kernel_pool.pool_bitmap) { bitmap_byte_len = kbm_length });
        phy_addr_start = used_mem;
        pool_size = kernel_free_pages * pg_size;
      };
      user_pool = record {
        pool_bitmap =
            bitmap_init
              (record (s.user_pool.pool_bitmap) { bitmap_byte_len = user_free_pages / 8 });
        phy_addr_start = used_mem + kernel_free_pages * pg_size;
        pool_size = user_free_pages * pg_size;
      };
      kernel_vaddr = record {
        bitmap_vaddr = bitmap_init (record {
          bitmap_byte_len = kbm_length;
          bits = clear_bytes kbm_length s.kernel_vaddr.bitmap_vaddr.bits;
        });
        vaddr_start = 0xc0100000;
      };
    }

abbrev pub idx_or_fail : ℤ → Option ℕ
idx_or_fail (pos i) = some i
idx_or_fail (negsuc n) = if n == 0 then none else some (2 ^ 32 - 1 - n)

-- `pg_cnt` pages from a virtual pool: the index of the first.
abbrev pub take_vaddr : VirtualPool → ℕ → Option (ℕ × VirtualPool)
take_vaddr p pg_cnt = elim (idx_or_fail (bit_map_scan p.bitmap_vaddr pg_cnt)) [
  | none ↦ none
  | some i ↦ some (
    i * pg_size + p.vaddr_start,
    record p { bitmap_vaddr = bitmap_set_ex p.bitmap_vaddr i 1 pg_cnt },
  )
]

-- `null` is failure; `none` is the failed assertion on the user's stack.
unfoldable pub vaddr_get : PoolFlags → ℕ → Paging → Option (Addr × Paging)
vaddr_get pf_kernel pg_cnt s = elim (take_vaddr s.kernel_vaddr pg_cnt) [
  | none ↦ some (null, s)
  | some (a, p) ↦ some (a % 2 ^ 32, record s { kernel_vaddr = p })
]
vaddr_get pf_user pg_cnt s = elim (take_vaddr s.user_vaddr pg_cnt) [
  | none ↦ some (null, s)
  | some (a, p) ↦
      (assert (ltb (a % 2 ^ 32) (0xc0000000 - pg_size))
        >> some (a % 2 ^ 32, record s { user_vaddr = p }))
]

-- The virtual address of the entry of `vaddr` in its page table, and of that in the page directory.
unfoldable pub get_pte_ptr : ℕ → ℕ
get_pte_ptr vaddr =
    (0xffc00000 + bit_and vaddr 0xffc00000 / 2 ^ 10 + bit_and vaddr 0x003ff000 / 2 ^ 12 * 4)
    % 2 ^ 32

unfoldable pub get_pde_ptr : ℕ → ℕ
get_pde_ptr vaddr = (0xfffff000 + bit_and vaddr 0xffc00000 / 2 ^ 22 * 4) % 2 ^ 32

unfoldable pub palloc : Pool → ℕ × Pool
palloc p = elim (idx_or_fail (bit_map_scan p.pool_bitmap 1)) [
  | none ↦ (null, p)
  | some i ↦ (
    (i * pg_size + p.phy_addr_start) % 2 ^ 32,
    record p { pool_bitmap = bitmap_set p.pool_bitmap i 1 },
  )
]

-- `| PG_P_1 | PG_RW_W | PG_US_U`
abbrev pub entry_of : ℕ → ℕ
entry_of phyaddr = bit_or phyaddr 7

-- The words of the page of `a` are cleared.
abbrev pub clear_table : Addr → Memory → Memory
clear_table a m b = if a / pg_size == b / pg_size then 0 else m b

unfoldable pub page_table_add : ℕ → ℕ → Paging → Paging
page_table_add vaddr page_phyaddr s =
    let pde = get_pde_ptr vaddr in
    let pte = get_pte_ptr vaddr in
    if not (bit_and (s.entries pde) 1 == 0)
    then (if not (bit_and (s.entries pte) 1 == 0)
        then s
        else record s { entries = update s.entries pte (entry_of page_phyaddr) })
    else (let (ptt, pool) = palloc s.kernel_pool in
        record s {
          kernel_pool = pool;
          entries =
              update (clear_table pte (update s.entries pde (entry_of ptt))) pte
                (entry_of page_phyaddr);
        })

unfoldable pub addr_v2p : ℕ → Paging → ℕ
addr_v2p vaddr s =
    (bit_and (s.entries (get_pte_ptr vaddr)) 0xfffff000 + bit_and vaddr 0x00000fff) % 2 ^ 32

-- `pfree`; an address below the pools is an error and changes nothing.
unfoldable pub pfree : ℕ → Paging → Paging
pfree a s =
    let u = s.user_pool in
    let k = s.kernel_pool in
    if leb u.phy_addr_start a
    then record s {
      user_pool = record u {
        pool_bitmap = bitmap_set u.pool_bitmap ((a - u.phy_addr_start) / pg_size) 0;
      };
    }
    else (if leb k.phy_addr_start a
        then record s {
          kernel_pool = record k {
            pool_bitmap = bitmap_set k.pool_bitmap ((a - k.phy_addr_start) / pg_size) 0;
          };
        }
        else s)

-- `free_a_phy_page`, whose `else` has no test: the subtraction wraps.
unfoldable pub free_a_phy_page : ℕ → Paging → Paging
free_a_phy_page a s =
    let u = s.user_pool in
    let k = s.kernel_pool in
    if leb u.phy_addr_start a
    then record s {
      user_pool = record u {
        pool_bitmap = bitmap_set u.pool_bitmap ((a - u.phy_addr_start) / pg_size) 0;
      };
    }
    else record s {
      kernel_pool = record k {
        pool_bitmap =
            bitmap_set k.pool_bitmap ((a + 2 ^ 32 - k.phy_addr_start) % 2 ^ 32 / pg_size) 0;
      };
    }

abbrev pub give_vaddr : VirtualPool → ℕ → ℕ → VirtualPool
give_vaddr p vaddr pg_cnt = record p {
  bitmap_vaddr =
      bitmap_set_ex p.bitmap_vaddr ((vaddr + 2 ^ 32 - p.vaddr_start) % 2 ^ 32 / pg_size) 0 pg_cnt;
}

unfoldable pub vaddr_remove : PoolFlags → ℕ → ℕ → Paging → Paging
vaddr_remove pf_kernel vaddr pg_cnt s = record s {
  kernel_vaddr = give_vaddr s.kernel_vaddr vaddr pg_cnt;
}
vaddr_remove pf_user vaddr pg_cnt s = record s { user_vaddr = give_vaddr s.user_vaddr vaddr pg_cnt }

-- `*pte &= PG_P_0` clears the whole entry.
unfoldable pub page_table_pte_remove : ℕ → Paging → Paging
page_table_pte_remove vaddr s =
    let pte = get_pte_ptr vaddr in
    record s { entries = update s.entries pte (bit_and (s.entries pte) 0) }
