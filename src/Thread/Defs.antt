-- ===== src/Thread/Defs.antt =====
-- The state of thread/thread.c and its operations. An operation that ends in `switch_to` ends at
-- the switch: what follows it in the source is run when the thread is resumed.
use tie_zhu_os.Base.{
  ℕ, ◌+◌, ◌-◌, ◌%◌, ◌^◌, Bool, true, false, not, Option, none, some, List, [], ◌∷◌, ◌++◌, ℤ, pos,
  negsuc, minus_one, update, replicate, ◌==◌, if◌then◌else◌, ◌>>=◌, ◌>>◌, assert,
}
use tie_zhu_os.LinkedList.{Addr, null}
use tie_zhu_os.LinkedList.Chain.{has}
use tie_zhu_os.Bitmap.{BitMap, bit_map_scan, bitmap_set}

-- `enum task_status`
pub data TaskStatus : Type 0 where
  running ready blocked waiting hanging died : TaskStatus

-- `task_struct`, the fields that the modelled code uses; `exit_status` is an `int8_t`.
pub record Task : Type 0 where
  pub pid : ℕ
  pub status : TaskStatus
  pub priority : ℕ
  pub ticks : ℕ
  pub elapsed_ticks : ℕ
  pub fd_table : List ℤ
  pub pgdir : Addr
  pub cwd_inode_nr : ℕ
  pub parent_pid : ℤ
  pub exit_status : ℤ
  pub stack_magic : ℕ

abbrev pub max_files_open_per_proc : ℕ
max_files_open_per_proc = 8

abbrev pub stack_magic_value : ℕ
stack_magic_value = 0x889978af

-- The global variables of the scheduler. `cur` is the thread that runs, `cr3` and `esp0` what
-- `process_activate` sets, `translate` is `addr_v2p` in the kernel's address space, and `freed`
-- lists the pages handed to `mfree_page`.
pub record Kernel : Type 0 where
  pub cur : Addr
  pub task : Addr → Task
  pub thread_ready_list : List Addr
  pub thread_all_list : List Addr
  pub idle_thread : Addr
  pub main_thread : Addr
  pub intr_on : Bool
  pub ticks : ℕ
  pub cr3 : ℕ
  pub esp0 : ℕ
  pub translate : ℕ → ℕ
  pub freed : List Addr
  pub pid_bitmap : BitMap
  pub pid_start : ℕ

abbrev pub set_task : Addr → Task → Kernel → Kernel
set_task t x k = record k { task = update k.task t x }

abbrev pub set_status : Addr → TaskStatus → Kernel → Kernel
set_status t s k = set_task t (record (k.task t) { status = s }) k

abbrev pub is_running : TaskStatus → Bool
is_running running = true
is_running _ = false

-- The three states in which a thread is blocked.
abbrev pub is_asleep : TaskStatus → Bool
is_asleep blocked = true
is_asleep waiting = true
is_asleep hanging = true
is_asleep _ = false

-- `list_remove` of a node that stands in the list.
abbrev pub without : Addr → List Addr → List Addr
without a [] = []
without a (x ∷ xs) = if a == x then xs else x ∷ without a xs

-- `thread_unlock`: the thread goes to the front of the ready list, its state set to running.
unfoldable pub thread_unlock : Addr → Kernel → Option Kernel
thread_unlock t k = do
  assert (is_asleep (k.task t).status)
  assert (not (has t k.thread_ready_list))
  some (set_status t running (record k { thread_ready_list = t ∷ k.thread_ready_list }))

-- `page_dir_activate` and `process_activate`
unfoldable pub page_dir_activate : Addr → Kernel → Kernel
page_dir_activate t k =
    let dir = (k.task t).pgdir in
    record k { cr3 = if dir == null then 0x100000 else k.translate dir }

unfoldable pub process_activate : Addr → Kernel → Kernel
unfolding page_dir_activate
process_activate t k = record (page_dir_activate t k) {
  esp0 = if (k.task t).pgdir == null then k.esp0 else t + 4096;
}

-- The first part of `schedule`: a thread that is still running goes to the end of the ready list
-- with a full time slice.
unfoldable pub expire : Kernel → Option Kernel
expire k =
    let t = k.task k.cur in
    if is_running t.status
    then (do
      assert (not (has k.cur k.thread_ready_list))
      some (
          set_task k.cur (record t { ticks = t.priority; status = ready })
            (record k { thread_ready_list = k.thread_ready_list ++ k.cur ∷ [] })))
    else some k

-- The second part: with nothing ready the idle thread is woken.
unfoldable pub wake_idle : Kernel → Option Kernel
unfolding thread_unlock
wake_idle k = elim k.thread_ready_list [ [] ↦ thread_unlock k.idle_thread k | _ ∷ _ ↦ some k ]

-- The third part: the first ready thread runs. (The list is not empty there.)
unfoldable pub switch_next : Kernel → Option Kernel
unfolding process_activate
switch_next k = elim k.thread_ready_list [
  | [] ↦ none
  | next ∷ rest ↦
      let k1 = set_status next running (record k { thread_ready_list = rest }) in
      some (record (process_activate next k1) { cur = next })
]

unfoldable pub schedule : Kernel → Option Kernel
schedule k = do assert (not k.intr_on); k1 ← expire k; k2 ← wake_idle k1; switch_next k2

unfoldable pub thread_block : TaskStatus → Kernel → Option Kernel
unfolding schedule
thread_block state k = do
  assert (is_asleep state)
  schedule (set_status k.cur state (record k { intr_on = false }))

unfoldable pub thread_yield : Kernel → Option Kernel
unfolding schedule
thread_yield k = schedule (
    set_status k.cur ready
      (record k { intr_on = false; thread_ready_list = k.thread_ready_list ++ k.cur ∷ [] }))

-- The two counters that each timer interrupt raises are `uint32_t`.
abbrev pub count_tick : Kernel → Kernel
count_tick k =
    let t = k.task k.cur in
    set_task k.cur (record t { elapsed_ticks = (t.elapsed_ticks + 1) % 2 ^ 32 })
      (record k { ticks = (k.ticks + 1) % 2 ^ 32 })

abbrev pub spend_tick : Kernel → Kernel
spend_tick k = let t = k.task k.cur in set_task k.cur (record t { ticks = t.ticks - 1 }) k

-- `intr_timer_handler` of device/timer.c
unfoldable pub intr_timer_handler : Kernel → Option Kernel
intr_timer_handler k =
    assert ((k.task k.cur).stack_magic == stack_magic_value)
    >> (let k1 = count_tick k in
        if (k.task k.cur).ticks == 0 then schedule k1 else some (spend_tick k1))

-- `allocate_pid`, under its lock. The bitmap index found is never -1, so the assertion holds; the
-- sum stays below 2 ^ 15.
unfoldable pub allocate_pid : Kernel → Option (ℕ × Kernel)
allocate_pid k = elim (bit_map_scan k.pid_bitmap 1) [
  | negsuc n ↦ none
  | pos bit_idx ↦
      some (bit_idx + k.pid_start, record k { pid_bitmap = bitmap_set k.pid_bitmap bit_idx 1 })
]

-- `pid - pid_start` as a `uint32_t` index.
unfoldable pub release_pid : ℕ → Kernel → Kernel
release_pid pid k = record k {
  pid_bitmap = bitmap_set k.pid_bitmap ((pid + 2 ^ 32 - k.pid_start) % 2 ^ 32) 0;
}

-- `mfree_page(PF_KERNEL, page, 1)`, recorded.
abbrev pub free_page : Addr → Kernel → Kernel
free_page page k = record k { freed = page ∷ k.freed }

-- `thread_exit` up to the last test, `if (need_schedule) schedule()`.
unfoldable pub reap : Addr → Kernel → Kernel
unfolding release_pid
reap t k =
    let k1 = set_status t died (record k { intr_on = false }) in
    let k2 = record k1 {
      thread_ready_list = without t k1.thread_ready_list;
      thread_all_list = without t k1.thread_all_list;
    } in
    let k3 = if (k.task t).pgdir == null then k2 else free_page (k.task t).pgdir k2 in
    let k4 = release_pid (k.task t).pid k3 in if t == k.main_thread then k4 else free_page t k4

unfoldable pub thread_exit : Addr → Bool → Kernel → Option Kernel
unfolding reap schedule
thread_exit t need_schedule k = if need_schedule then schedule (reap t k) else some (reap t k)

-- The first thread of the list whose number is `pid`, `null` if there is none.
unfoldable pub find_pid : (Addr → Task) → ℕ → List Addr → Addr
find_pid task pid [] = null
find_pid task pid (t ∷ ts) = if (task t).pid == pid then t else find_pid task pid ts

unfoldable pub pid2thread : ℕ → Kernel → Addr
unfolding find_pid
pid2thread pid k = find_pid k.task pid k.thread_all_list

-- `init_thread`: a control block of zeros, then the fields that the source sets.
unfoldable pub init_thread : Addr → ℕ → Kernel → Option Kernel
unfolding allocate_pid
init_thread t priority k = do
  (pid, k1) ← allocate_pid k
  some (
      set_task t
        (record {
          pid = pid;
          status = if t == k.main_thread then running else ready;
          priority = priority;
          ticks = priority;
          elapsed_ticks = 0;
          fd_table = pos 0 ∷ pos 1 ∷ pos 2 ∷ replicate 5 minus_one;
          pgdir = null;
          cwd_inode_nr = 0;
          parent_pid = minus_one;
          exit_status = pos 0;
          stack_magic = stack_magic_value;
        })
        k1)

-- `thread_start` from the page on that `get_kernel_pages(1)` returns; the initial stack of the new
-- thread, which `thread_create` lays out, is not part of the state.
unfoldable pub thread_start : Addr → ℕ → Kernel → Option Kernel
unfolding init_thread
thread_start page priority k = do
  k1 ← init_thread page priority k
  assert (not (has page k1.thread_all_list))
  assert (not (has page k1.thread_ready_list))
  some (record k1 {
    thread_all_list = k1.thread_all_list ++ page ∷ [];
    thread_ready_list = k1.thread_ready_list ++ page ∷ [];
  })
