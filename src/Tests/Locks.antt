-- ===== src/Tests/Locks.antt =====
-- Two threads and a lock.
use tie_zhu_os.Base.{◌≡◌, ◌⊎◌, refl, true, some, [], ◌∷◌, ◌==◌, if◌then◌else◌, inr, arith}
use tie_zhu_os.LinkedList.{Addr}
use tie_zhu_os.LinkedList.Chain.{has}
use tie_zhu_os.Thread.Defs.{
  running, ready, blocked, Kernel, thread_block, schedule, expire, wake_idle, switch_next,
  process_activate, page_dir_activate,
}
use tie_zhu_os.Thread.Invariant.{status_of, is_active, IsScheduled}
use tie_zhu_os.Sync.Defs.{
  downing, sleeping, taken, zeroed, System, lock_init, lock_acquire, sema_down, set_holder,
  set_repeat, lock_release, clear_holder, move, set_sem, set_kernel,
}
use tie_zhu_os.Sync.Steps.{
  acquire, down, name, enter, release, unname, elsewhere, start, Reach, begin, next,
}
use tie_zhu_os.Sync.Invariant.{is_critical}
use tie_zhu_os.Sync.Safety.{next_call, holds_alone, never_fails, wakeup_pending}
use tie_zhu_os.Tests.Threads.{task, three, three-IsScheduled}

-- Thread 8 takes the lock.
abbrev asked : System
asked = lock_acquire 8 (start three)

abbrev has_taken : System
has_taken = move 8 taken (set_sem (record { value = 0; waiters = [] }) asked)

abbrev held : System
held = set_repeat 8 (set_holder 8 has_taken)

Reach-taken : Reach has_taken
unfolding sema_down lock_acquire lock_init
Reach-taken =
    next (next (begin three three-IsScheduled) (acquire 8 refl (ground arith) (ground arith) refl))
      (down 8 has_taken refl refl refl)

Reach-held : Reach held
unfolding set_holder set_repeat lock_acquire lock_init
Reach-held = next (next Reach-taken (name 8 refl refl)) (enter 8 refl refl)

-- Then thread 16 runs.
abbrev second : Kernel
second = record three {
  cur = 16;
  task = (λ t. if t == 16 then task running else (if t == 8 then task ready else task blocked));
  thread_ready_list = 8 ∷ [];
}

second-active :
    (t : Addr) → has t second.thread_ready_list ≡ true → is_active (status_of second t) ≡ true
second-active t h = ground (arith, h)

second-IsScheduled : IsScheduled second
second-IsScheduled = record {
  cur_running = refl;
  cur_out = refl;
  distinct = (refl, tt);
  active = second-active;
  idle = λ e. inr refl;
}

abbrev switched : System
switched = set_kernel second held

Reach-switched : Reach switched
unfolding set_holder set_repeat lock_acquire lock_init
Reach-switched =
    next Reach-held (elsewhere second second-IsScheduled refl (λ t h. absurd (ground (arith, h))))

-- It asks for the lock and waits.
waits : (k : Kernel) × (thread_block blocked second ≡ some k)
unfolding thread_block schedule expire wake_idle switch_next process_activate page_dir_activate
waits = (_, refl)

abbrev contended : System
contended = set_kernel waits.0 (
    move 16 sleeping (set_sem (record { value = 0; waiters = 16 ∷ [] }) (move 16 downing switched)))

Reach-contended : Reach contended
unfolding sema_down lock_acquire set_holder set_repeat lock_init waits thread_block
Reach-contended =
    next (next Reach-switched (acquire 16 refl (ground arith) (ground arith) refl))
      (down 16 contended refl refl refl)

-- Thread 8, which runs then, releases the lock, up to `sema_up`.
abbrev released : System
released =
    clear_holder 8
      (move 8 zeroed (record contended { lock = record (contended.lock) { holder_repeat_nm = 0 } }))

Reach-released : Reach released
unfolding sema_down lock_acquire lock_release clear_holder set_holder set_repeat lock_init waits
    thread_block
Reach-released = next (next Reach-contended (release 8 _ refl refl refl)) (unname 8 refl refl)

abbrev owner : Addr
owner = 8

holds_alone_example : (owner ≡ owner) × (held.lock.holder ≡ owner)
unfolding set_holder set_repeat lock_acquire lock_init
holds_alone_example = holds_alone held Reach-held owner owner refl refl

never_fails_example :
    (u : System) × (next_call (released.pc released.kernel.cur) released.kernel.cur released
      ≡ some u)
never_fails_example = never_fails released Reach-released

wakeup_pending_example :
    ((t : Addr) × (is_critical (contended.pc t) ≡ true))
    ⊎ ((contended.lock.semaphore.value ≡ 1) × ((t : Addr) × (contended.pc t ≡ downing)))
wakeup_pending_example = wakeup_pending contended Reach-contended (λ e. absurd (ground (arith, e)))
