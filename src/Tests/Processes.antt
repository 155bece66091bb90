-- ===== src/Tests/Processes.antt =====
-- A parent that waits for its child, and a thread without children.
use tie_zhu_os.Base.{
  ℕ, zero, suc, ◌+◌, ◌<◌, ◌*◌, ◌≡◌, refl, true, false, Bool, none, some, [], ◌∷◌, ◌==◌,
  if◌then◌else◌, arith, ℤ, pos, minus_one, inr, >>=-some, Option,
}
use tie_zhu_os.LinkedList.{Addr, null}
use tie_zhu_os.Bitmap.{BitMap}
use tie_zhu_os.Thread.Defs.{
  TaskStatus, running, blocked, waiting, died, Task, Kernel, without, pid2thread, find_pid,
  stack_magic_value,
}
use tie_zhu_os.Thread.Invariant.{IsScheduled, status_of, next_of}
use tie_zhu_os.Files.Defs.{Inode, Files, fd_idx2global_ftable_idx, file_close}
use tie_zhu_os.Files.Pipe.{is_pipe}
use tie_zhu_os.Files.Calls.{sys_close}
use tie_zhu_os.Paging.Defs.{Pool, Paging, pf_kernel, addr_v2p, get_pte_ptr}
use tie_zhu_os.Paging.Mapping.{is_present}
use tie_zhu_os.Paging.Pages.{mfree_page, free_loop}
use tie_zhu_os.Process.{
  Machine, is_hanging, find_hanging_child, first_thread, release_prog_resource, leave, free_tables,
  close_files, reaped, waits, sys_exit, sys_wait,
}
use tie_zhu_os.Process.Waiting.{sys_wait_never_fails}
use tie_zhu_os.Process.Exit.{sys_exit-sys_wait}

abbrev task : ℕ → ℤ → TaskStatus → Task
task n parent s = record {
  pid = n;
  status = s;
  priority = 2;
  ticks = 1;
  elapsed_ticks = 0;
  fd_table = [];
  pgdir = 4096;
  cwd_inode_nr = 0;
  parent_pid = parent;
  exit_status = pos 0;
  stack_magic = stack_magic_value;
}

-- Process 3, at 8, runs, process 1, at 16, waits for it, and the idle thread, at 24, is blocked.
abbrev kernel : Kernel
kernel = record {
  cur = 8;
  task = (λ t.
      if t == 8
      then task 3 (pos 1) running
      else (if t == 16 then task 1 minus_one waiting else task 2 minus_one blocked));
  thread_ready_list = [];
  thread_all_list = 24 ∷ 8 ∷ 16 ∷ [];
  idle_thread = 24;
  main_thread = 8;
  intr_on = false;
  ticks = 0;
  cr3 = 0;
  esp0 = 0;
  translate = (λ a. a);
  freed = [];
  pid_bitmap = record { bitmap_byte_len = 128; bits = (λ i. 3) };
  pid_start = 1;
}

kernel-IsScheduled : IsScheduled kernel
kernel-IsScheduled = record {
  cur_running = refl;
  cur_out = refl;
  distinct = tt;
  active = λ t h. ground (arith, h);
  idle = λ h. inr refl;
}

no_hanging : first_thread (find_hanging_child kernel 3) (24 ∷ 8 ∷ 16 ∷ []) ≡ none
unfolding first_thread
no_hanging = refl

sys_wait_never_fails_example :
    (k1 : Kernel) × (sys_wait kernel ≡ some (waits k1))
    × IsScheduled k1
    × ((k1.cur, k1.thread_ready_list) ≡ next_of 24 [])
sys_wait_never_fails_example = sys_wait_never_fails kernel kernel-IsScheduled refl no_hanging

waiting_parent : pid2thread 1 kernel ≡ 16
unfolding pid2thread find_pid
waiting_parent = refl

no_hanging_thread : (t : Addr) → is_hanging (status_of kernel t) ≡ false
no_hanging_thread t = ground arith

abbrev no_bits : BitMap
no_bits = record { bitmap_byte_len = 4096; bits = (λ i. 0) }

abbrev pool : ℕ → Pool
pool start = record { pool_bitmap = no_bits; phy_addr_start = start; pool_size = 0x20000 }

-- The page with the bitmap is mapped to 0x101000.
abbrev paging : Paging
paging = record {
  kernel_pool = pool 0x100000;
  user_pool = pool 0x200000;
  kernel_vaddr = record { bitmap_vaddr = no_bits; vaddr_start = 0xc0100000 };
  user_vaddr = record { bitmap_vaddr = no_bits; vaddr_start = 0x8048000 };
  has_pgdir = true;
  entries = (λ a. if a == 0xfff00400 then 0x101007 else 0);
  memory = (λ a. 0);
}

abbrev inode : Inode
inode = record { i_no = 4; i_bsize = 100; i_open_cnts = 1; write_deny = true; i_sectors = (λ k. 0) }

-- Descriptor 4 is open.
abbrev files : Files
files = record {
  fd_table = (λ fd. if fd == 4 then pos fd else minus_one);
  file_table = (λ g. record { fd_pos = 7; fd_flag = 1; fd_inode = 64 });
  inodes = (λ a. inode);
  open_inodes = 64 ∷ [];
  queues = (λ a. record {
    holder = null;
    producer = null;
    consumer = null;
    buffer = (λ i. 0);
    head = 0;
    tail = 0;
  });
  freed = [];
}

abbrev machine : Machine
machine = record { kernel = kernel; files = files; paging = paging }

free_tables_none :
    (n pde_idx pgdir : ℕ) (s : Paging)
    → ((j : ℕ) → j < pde_idx + n → is_present (s.entries (pgdir + 4 * j)) ≡ false)
    → free_tables n pde_idx pgdir s ≡ s
unfolding free_tables
free_tables_none zero pde_idx pgdir s h = refl
free_tables_none (suc n) pde_idx pgdir s h =
    rw (h pde_idx (omega arith))
      (free_tables_none n (pde_idx + 1) pgdir s (λ j lt. h j (omega arith)))

absent : (j : ℕ) → j < 0 + 768 → is_present (paging.entries (4096 + 4 * j)) ≡ false
absent j h = let other : (4096 + 4 * j == 0xfff00400) ≡ false = ground (arith, h) in rw other refl

abbrev is_done : {A : Type 0} → Option A → Bool
is_done (some r) = true
is_done none = false

freed : is_done (mfree_page pf_kernel 0xc0100000 1 paging) ≡ true
unfolding mfree_page addr_v2p get_pte_ptr free_loop
freed = refl

close_done : is_done (close_files 5 3 files) ≡ true
unfolding close_files sys_close fd_idx2global_ftable_idx is_pipe file_close
close_done = refl

finished : {A : Type 0} (o : Option A) → is_done o ≡ true → (r : A) × (o ≡ some r)
finished (some r) h = (r, refl)
finished none h = absurd (cc)

released :
    (r : Paging × Files) × (release_prog_resource 0xc0100000
        (record machine { kernel = leave (pos 300) kernel })
      ≡ some r)
unfolding release_prog_resource leave
released =
    let (s, e) = finished _ freed in
    let (f, g) = finished _ close_done in
    ((s, f), rw (free_tables_none 768 0 4096 paging absent) (>>=-some _ e (>>=-some _ g refl)))

sys_exit-sys_wait_example :
    (m2 : Machine) × (k3 : Kernel) × (sys_exit (pos 300) 0xc0100000 machine ≡ some m2)
    × (m2.kernel.cur ≡ 16)
    × (sys_wait m2.kernel ≡ some (reaped 3 (pos 44) k3))
    × (k3.thread_all_list ≡ without 8 (24 ∷ 8 ∷ 16 ∷ []))
    × (status_of k3 8 ≡ died)
sys_exit-sys_wait_example =
    sys_exit-sys_wait (pos 300) 0xc0100000 machine released.0.0 released.0.1 16 kernel-IsScheduled
      refl (ground arith) refl refl waiting_parent (ground arith) no_hanging_thread released.1
