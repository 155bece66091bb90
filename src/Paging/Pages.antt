-- ===== src/Paging/Pages.antt =====
-- The operations of kernel/memory.c on runs of pages.
use tie_zhu_os.Base.{
  ℕ, zero, suc, ◌+◌, ◌-◌, ◌*◌, ◌/◌, ◌%◌, ◌^◌, Bool, true, false, Option, none, some, leb, ◌==◌,
  if◌then◌else◌, ◌>>=◌, ◌>>◌, assert,
}
use tie_zhu_os.LinkedList.{Addr, null}
use tie_zhu_os.Bitmap.{bitmap_set}
use tie_zhu_os.CString.{memset}
use tie_zhu_os.Paging.Defs.{
  Pool, VirtualPool, PoolFlags, pf_kernel, pf_user, Paging, pg_size, vaddr_get, palloc,
  page_table_add, addr_v2p, pfree, vaddr_remove, page_table_pte_remove,
}

abbrev pub at_least_one : ℕ → ℕ
at_least_one n = if n == 0 then 1 else n

abbrev pub pool_of : PoolFlags → Paging → Pool
pool_of pf_kernel s = s.kernel_pool
pool_of pf_user s = s.user_pool

abbrev pub set_pool : PoolFlags → Pool → Paging → Paging
set_pool pf_kernel p s = record s { kernel_pool = p }
set_pool pf_user p s = record s { user_pool = p }

-- A page for `vaddr`; 0 where there is none.
unfoldable pub palloc_from : PoolFlags → Paging → ℕ × Paging
palloc_from pf s = let (a, p) = palloc (pool_of pf s) in (a, set_pool pf p s)

-- The loop of `malloc_page`. On failure the pages it has mapped stay mapped.
unfoldable pub map_loop : ℕ → PoolFlags → ℕ → Paging → Bool × Paging
map_loop zero pf vaddr s = (true, s)
map_loop (suc pg_cnt) pf vaddr s =
    let (a, s1) = palloc_from pf s in
    let rest = map_loop pg_cnt pf ((vaddr + pg_size) % 2 ^ 32) (page_table_add vaddr a s1) in
    if a == null then (false, s1) else rest

unfoldable pub malloc_page : PoolFlags → ℕ → Paging → Option (Addr × Paging)
malloc_page pf pg_cnt s = do
  (vaddr_start, s1) ← vaddr_get pf (at_least_one pg_cnt) s
  some (
      if vaddr_start == null
      then (null, s1)
      else (let (ok, s2) = map_loop (at_least_one pg_cnt) pf vaddr_start s1 in
          if ok then (vaddr_start, s2) else (null, s2)))

abbrev pub zeroed_pages : ℕ → Addr × Paging → Option (Addr × Paging)
zeroed_pages pg_cnt (vaddr, s) =
    if vaddr == null
    then some (null, s)
    else (do m ← memset vaddr 0 (pg_cnt * pg_size) s.memory; some (vaddr, record s { memory = m }))

unfoldable pub get_kernel_pages : ℕ → Paging → Option (Addr × Paging)
get_kernel_pages pg_cnt s =
    malloc_page pf_kernel (at_least_one pg_cnt) s >>= zeroed_pages (at_least_one pg_cnt)

-- The pages are kernel pages, too.
unfoldable pub get_user_pages : ℕ → Paging → Option (Addr × Paging)
get_user_pages pg_cnt s =
    malloc_page pf_kernel (at_least_one pg_cnt) s >>= zeroed_pages (at_least_one pg_cnt)

abbrev pub mark_vaddr : VirtualPool → ℕ → Option VirtualPool
mark_vaddr p vaddr =
    assert (leb p.vaddr_start vaddr)
    >> some (record p {
      bitmap_vaddr = bitmap_set p.bitmap_vaddr ((vaddr - p.vaddr_start) / pg_size) 1;
    })

-- The bit of `vaddr` in the virtual pool; a thread without a page directory is a panic.
abbrev pub mark_page : PoolFlags → ℕ → Paging → Option Paging
mark_page pf_user vaddr s =
    if s.has_pgdir
    then (do p ← mark_vaddr s.user_vaddr vaddr; some (record s { user_vaddr = p }))
    else none
mark_page pf_kernel vaddr s =
    if s.has_pgdir
    then (do p ← mark_vaddr s.kernel_vaddr vaddr; some (record s { kernel_vaddr = p }))
    else none

-- Whether the lock of the pool was released comes with the result: it is not where no page is free.
unfoldable pub get_a_page : PoolFlags → ℕ → Paging → Option (Addr × Bool × Paging)
get_a_page pf vaddr s = do
  s1 ← mark_page pf vaddr s
  let (a, s2) = palloc_from pf s1
  some (if a == null then (null, false, s2) else (vaddr, true, page_table_add vaddr a s2))

unfoldable pub get_a_page_without_opvaddrbitmap : PoolFlags → ℕ → Paging → Addr × Paging
get_a_page_without_opvaddrbitmap pf vaddr s =
    let (a, s1) = palloc_from pf s in
    if a == null then (null, s1) else (vaddr, page_table_add vaddr a s1)

-- One of the loops of `mfree_page`; `start` is that of the pool it asserts.
unfoldable pub free_loop : ℕ → ℕ → ℕ → Paging → Option Paging
free_loop zero start vaddr s = some s
free_loop (suc cnt) start vaddr s =
    assert (leb start (addr_v2p vaddr s))
    >> free_loop cnt start ((vaddr + pg_size) % 2 ^ 32)
        (page_table_pte_remove vaddr (pfree (addr_v2p vaddr s) s))

unfoldable pub mfree_page : PoolFlags → ℕ → ℕ → Paging → Option Paging
mfree_page pf vaddr cnt s =
    let phy_addr = addr_v2p vaddr s in
    if leb s.user_pool.phy_addr_start phy_addr
    then (do
      s1 ← free_loop cnt s.user_pool.phy_addr_start vaddr s
      some (vaddr_remove pf vaddr cnt s1))
    else (if leb s.kernel_pool.phy_addr_start phy_addr
        then (do
          s1 ← free_loop cnt s.kernel_pool.phy_addr_start vaddr s
          some (vaddr_remove pf vaddr cnt s1))
        else some s)
