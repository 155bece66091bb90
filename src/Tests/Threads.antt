-- ===== src/Tests/Threads.antt =====
-- The scheduler with three threads, and process numbers.
use tie_zhu_os.Base.{
  ℕ, ◌+◌, ◌/◌, ◌%◌, ◌<◌, ◌≤◌, ◌≡◌, inr, refl, ap, ◌∙◌, true, false, some, [], ◌∷◌, ltb, ◌==◌,
  if◌then◌else◌, arith, pos, minus_one,
}
use tie_zhu_os.LinkedList.{Addr, null}
use tie_zhu_os.LinkedList.Chain.{has}
use tie_zhu_os.Bitmap.{byte_test, bit_map_scan_test}
use tie_zhu_os.Bitmap.Laws.{byte_test_full}
use tie_zhu_os.Thread.Defs.{
  TaskStatus, running, ready, blocked, Task, Kernel, schedule, thread_block, thread_unlock,
  release_pid, stack_magic_value,
}
use tie_zhu_os.Thread.Invariant.{
  status_of, is_active, IsScheduled, CanSchedule, queue, next_of, schedule-IsScheduled,
}
use tie_zhu_os.Thread.Ops.{thread_block-IsScheduled, thread_unlock-IsScheduled}
use tie_zhu_os.Thread.RoundRobin.{interrupts, interrupts_slice}
use tie_zhu_os.Thread.Pids.{used, Allocates, allocate_pid-Allocates, used-release_pid}

abbrev pub task : TaskStatus → Task
task s = record {
  pid = 0;
  status = s;
  priority = 2;
  ticks = 1;
  elapsed_ticks = 0;
  fd_table = [];
  pgdir = null;
  cwd_inode_nr = 0;
  parent_pid = minus_one;
  exit_status = pos 0;
  stack_magic = stack_magic_value;
}

-- Thread 8 runs, 16 is ready, and 24, the idle thread, is blocked.
abbrev pub three : Kernel
three = record {
  cur = 8;
  task = (λ t. if t == 8 then task running else (if t == 16 then task ready else task blocked));
  thread_ready_list = 16 ∷ [];
  thread_all_list = 24 ∷ 8 ∷ 16 ∷ [];
  idle_thread = 24;
  main_thread = 8;
  intr_on = false;
  ticks = 0;
  cr3 = 0;
  esp0 = 0;
  translate = (λ a. a);
  freed = [];
  pid_bitmap = record { bitmap_byte_len = 128; bits = (λ i. if i == 0 then 3 else 0) };
  pid_start = 1;
}

three-active :
    (t : Addr) → has t three.thread_ready_list ≡ true → is_active (status_of three t) ≡ true
three-active t h = ground (arith, h)

three-CanSchedule : CanSchedule three
three-CanSchedule = record {
  intr_off = refl;
  cur_out = λ e. refl;
  distinct = (refl, tt);
  active = three-active;
  idle = λ e. inr refl;
}

pub three-IsScheduled : IsScheduled three
three-IsScheduled = record {
  cur_running = refl;
  cur_out = refl;
  distinct = (refl, tt);
  active = three-active;
  idle = λ e. inr refl;
}

schedule-IsScheduled_example :
    (k2 : Kernel) × (schedule three ≡ some k2)
    × IsScheduled k2
    × ((k2.cur, k2.thread_ready_list) ≡ next_of 24 (queue three))
schedule-IsScheduled_example = schedule-IsScheduled three three-CanSchedule

thread_block-IsScheduled_example :
    (k2 : Kernel) × (thread_block blocked three ≡ some k2)
    × IsScheduled k2
    × ((k2.cur, k2.thread_ready_list) ≡ next_of 24 (16 ∷ []))
thread_block-IsScheduled_example = thread_block-IsScheduled three blocked refl three-IsScheduled

thread_unlock-IsScheduled_example :
    (k2 : Kernel) × (thread_unlock 24 three ≡ some k2)
    × IsScheduled k2
    × (k2.cur ≡ 8)
    × (k2.thread_ready_list ≡ 24 ∷ 16 ∷ [])
thread_unlock-IsScheduled_example = thread_unlock-IsScheduled three 24 refl three-IsScheduled

interrupts_slice_example :
    ((m : ℕ)
      → m ≤ 1
      → (k1 : Kernel) × (interrupts m three ≡ some k1)
        × (k1.cur ≡ 8)
        × (k1.thread_ready_list ≡ three.thread_ready_list))
    × ((k2 : Kernel) × (interrupts 2 three ≡ some k2)
        × IsScheduled k2
        × ((k2.cur, k2.thread_ready_list) ≡ next_of 24 (16 ∷ 8 ∷ [])))
interrupts_slice_example = interrupts_slice 1 three refl refl three-IsScheduled

three-IsBytes : (i : ℕ) → three.pid_bitmap.bits i < 256
three-IsBytes i = ground arith

bit_two : used three 2 ≡ false
unfolding bit_map_scan_test
bit_two = refl

allocate_pid-Allocates_example :
    (i : ℕ) × (k2 : Kernel) × Allocates three i k2 × ((j : ℕ) → j < i → used three j ≡ true)
allocate_pid-Allocates_example =
    allocate_pid-Allocates three 2 three-IsBytes bit_two (omega arith) (omega arith)

-- The first 256 numbers are in use.
abbrev crowded : Kernel
crowded = record three {
  pid_bitmap = record { bitmap_byte_len = 128; bits = (λ i. if ltb i 32 then 255 else 0) };
}

all_used : (j : ℕ) → j < 256 → used crowded j ≡ true
unfolding bit_map_scan_test
all_used j h =
    ap (λ b. byte_test b (j % 8)) {x = crowded.pid_bitmap.bits (j / 8)} {y = 255} (ground arith)
    ∙ byte_test_full (j % 8) (omega arith)

used-release_pid_example :
    used (release_pid (1 + 1) three) 0 ≡ (if 1 == 0 then false else used three 0)
used-release_pid_example = used-release_pid three 1 0 three-IsBytes (omega arith)
