-- ===== src/Process.antt =====
-- userprog/wait_exit.c: the end of a process, and its parent's wait for it. The three parts of the
-- kernel's state that an exit changes are those of Thread, Files and Paging.
use tie_zhu_os.Base.{
  ℕ, zero, suc, ◌+◌, ◌-◌, ◌*◌, ◌/◌, ◌%◌, ◌^◌, ltb, Bool, true, false, Option, none, some, List, [],
  ◌∷◌, ℤ, pos, negsuc, minus_one, ◌==◌, if◌then◌else◌, ◌>>=◌,
}
use tie_zhu_os.LinkedList.{Addr, null}
use tie_zhu_os.Bitmap.{BitMap}
use tie_zhu_os.Thread.Defs.{
  TaskStatus, hanging, waiting, Kernel, set_task, thread_unlock, thread_block, thread_exit,
  pid2thread,
}
use tie_zhu_os.Files.Defs.{Files}
use tie_zhu_os.Files.Calls.{sys_close}
use tie_zhu_os.Paging.Defs.{PoolFlags, pf_kernel, Paging, get_pte_ptr, pg_size, free_a_phy_page}
use tie_zhu_os.Paging.Mapping.{is_present}
use tie_zhu_os.Paging.Pages.{mfree_page}
pub mod Waiting
pub mod Exit

pub record Machine : Type 0 where
  pub kernel : Kernel
  pub files : Files
  pub paging : Paging

-- Equality of numbers that can be -1.
abbrev pub is_pid : ℤ → ℕ → Bool
is_pid (pos n) pid = n == pid
is_pid (negsuc n) pid = false

abbrev pub is_hanging : TaskStatus → Bool
is_hanging hanging = true
is_hanging _ = false

abbrev pub is_waiting : TaskStatus → Bool
is_waiting waiting = true
is_waiting _ = false

-- `find_child`, as it compares the thread's own number; `find_hanging_child`.
abbrev pub find_child : Kernel → ℕ → Addr → Bool
find_child k ppid t = (k.task t).pid == ppid

abbrev pub find_hanging_child : Kernel → ℕ → Addr → Bool
find_hanging_child k ppid t =
    if is_pid (k.task t).parent_pid ppid then is_hanging (k.task t).status else false

-- `list_traversal`: the first thread that passes, or `NULL`.
unfoldable pub first_thread : (Addr → Bool) → List Addr → Option Addr
first_thread test [] = none
first_thread test (t ∷ ts) = if test t then some t else first_thread test ts

-- `init_adopt_a_child` for each thread: the children of `pid` become those of process 1.
abbrev pub adopt_one : ℕ → Addr → Kernel → Kernel
adopt_one pid t k =
    if is_pid (k.task t).parent_pid pid
    then set_task t (record (k.task t) { parent_pid = pos 1 }) k
    else k

unfoldable pub adopt_children : ℕ → List Addr → Kernel → Kernel
adopt_children pid [] k = k
adopt_children pid (t ∷ ts) k = adopt_children pid ts (adopt_one pid t k)

-- The page that an entry names.
abbrev pub page_of : ℕ → ℕ
page_of entry = entry / pg_size * pg_size

-- The pages of one table of the directory.
unfoldable pub free_table : ℕ → ℕ → ℕ → Paging → Paging
free_table zero pte_idx first_pte s = s
free_table (suc n) pte_idx first_pte s =
    let pte = s.entries (first_pte + 4 * pte_idx) in
    free_table n (pte_idx + 1) first_pte
      (if is_present pte then free_a_phy_page (page_of pte) s else s)

-- The user's part of the directory: the pages of each table, and the table.
unfoldable pub free_tables : ℕ → ℕ → ℕ → Paging → Paging
unfolding free_table
free_tables zero pde_idx pgdir s = s
free_tables (suc n) pde_idx pgdir s =
    let pde = s.entries (pgdir + 4 * pde_idx) in
    free_tables n (pde_idx + 1) pgdir (
      if is_present pde
      then free_a_phy_page (page_of pde) (free_table 1024 0 (get_pte_ptr (pde_idx * 0x400000)) s)
      else s)

-- The open files from `fd_idx` on.
unfoldable pub close_files : ℕ → ℕ → Files → Option Files
close_files zero fd_idx f = some f
close_files (suc n) fd_idx f = elim (f.fd_table fd_idx) [
  | negsuc i ↦ close_files n (fd_idx + 1) f
  | pos i ↦ sys_close fd_idx f >>= λ r. close_files n (fd_idx + 1) r.1
]

-- `release_prog_resource` of the running process, whose virtual pages have the bitmap at `bits`.
unfoldable pub release_prog_resource : ℕ → Machine → Option (Paging × Files)
unfolding free_tables close_files
release_prog_resource bits m = do
  let s = free_tables 768 0 (m.kernel.task m.kernel.cur).pgdir m.paging
  let pages = m.paging.user_vaddr.bitmap_vaddr.bitmap_byte_len / pg_size
  s1 ← mfree_page pf_kernel bits pages s
  f ← close_files 5 3 m.files
  some (s1, f)

-- The value of a byte as an `int8_t`, and what is left of an `int32_t` in one.
abbrev pub signed_byte : ℕ → ℤ
signed_byte b = if ltb b 128 then pos b else negsuc (255 - b)

abbrev pub int8_of : ℤ → ℤ
int8_of (pos n) = signed_byte (n % 256)
int8_of (negsuc n) = signed_byte (255 - n % 256)

-- The first part of `sys_exit`: the status, and the children.
unfoldable pub leave : ℤ → Kernel → Kernel
unfolding adopt_children
leave status k =
    let k1 = set_task k.cur (record (k.task k.cur) { exit_status = int8_of status }) k in
    adopt_children (k.task k.cur).pid k.thread_all_list k1

-- The last part: a parent that waits is woken, and the process hangs.
abbrev pub parent_thread : ℤ → Kernel → Addr
parent_thread (pos pid) k = pid2thread pid k
parent_thread (negsuc n) k = null

unfoldable pub wake_parent : Kernel → Option Kernel
wake_parent k =
    let parent = parent_thread (k.task k.cur).parent_pid k in
    if parent == null
    then some k
    else (if is_waiting (k.task parent).status then thread_unlock parent k else some k)

unfoldable pub hang_up : Kernel → Option Kernel
unfolding wake_parent
hang_up k = do k1 ← wake_parent k; thread_block hanging k1

unfoldable pub sys_exit : ℤ → ℕ → Machine → Option Machine
sys_exit status bits m = do
  let k1 = leave status m.kernel
  (s, f) ← release_prog_resource bits (record m { kernel = k1 })
  k ← hang_up k1
  some (record { kernel = k; files = f; paging = s })

-- What a round of `sys_wait` comes to: a child with its status, -1, or a wait.
pub data Waited : Type 0 where
  reaped : ℕ → ℤ → Kernel → Waited
  no_child : Waited
  waits : Kernel → Waited

-- The hanging child that was found, and the child that may still run.
abbrev pub wait_for : Option Addr → Option Addr → Kernel → Option Waited
wait_for (some t) child k =
    thread_exit t false k >>= λ k1. some (reaped (k.task t).pid (k.task t).exit_status k1)
wait_for none none k = some no_child
wait_for none (some t) k = thread_block waiting k >>= λ k1. some (waits k1)

unfoldable pub sys_wait : Kernel → Option Waited
unfolding first_thread
sys_wait k =
    let pid = (k.task k.cur).pid in
    wait_for (first_thread (find_hanging_child k pid) k.thread_all_list)
      (first_thread (find_child k pid) k.thread_all_list) k
