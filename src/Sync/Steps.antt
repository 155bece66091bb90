-- ===== src/Sync/Steps.antt =====
-- The interleavings of threads that use one lock.
use tie_zhu_os.Base.{◌≡◌, ◌≢◌, true, some}
use tie_zhu_os.LinkedList.{Addr, null}
use tie_zhu_os.LinkedList.Chain.{has}
use tie_zhu_os.Thread.Defs.{blocked, Kernel}
use tie_zhu_os.Thread.Invariant.{status_of, IsScheduled}
use tie_zhu_os.Sync.Defs.{
  outside, downing, taken, named, inside, zeroed, dropped, System, lock_init, lock_acquire,
  sema_down, set_holder, set_repeat, lock_release, clear_holder, sema_up, set_kernel,
}

-- The running thread makes its next step. A thread that is outside may ask for the lock, but for the idle thread, which
-- uses none; the holder may ask again or release. `elsewhere` is all that other code and the timer do: any thread may
-- run next, and threads block and wake, but the invariant of the scheduler holds, and nothing else wakes a thread that
-- waits for the lock.
pub data Step (s : System) : System → Type 0 where
  acquire :
      (t : Addr)
      → s.kernel.cur ≡ t
      → t ≢ null
      → t ≢ s.kernel.idle_thread
      → s.pc t ≡ outside
      → Step s (lock_acquire t s)
  acquire_again : (t : Addr) → s.kernel.cur ≡ t → s.pc t ≡ inside → Step s (lock_acquire t s)
  down :
      (t : Addr) (u : System)
      → s.kernel.cur ≡ t
      → s.pc t ≡ downing
      → sema_down t s ≡ some u
      → Step s u
  name : (t : Addr) → s.kernel.cur ≡ t → s.pc t ≡ taken → Step s (set_holder t s)
  enter : (t : Addr) → s.kernel.cur ≡ t → s.pc t ≡ named → Step s (set_repeat t s)
  release :
      (t : Addr) (u : System)
      → s.kernel.cur ≡ t
      → s.pc t ≡ inside
      → lock_release t s ≡ some u
      → Step s u
  unname : (t : Addr) → s.kernel.cur ≡ t → s.pc t ≡ zeroed → Step s (clear_holder t s)
  up :
      (t : Addr) (u : System)
      → s.kernel.cur ≡ t
      → s.pc t ≡ dropped
      → sema_up t s ≡ some u
      → Step s u
  elsewhere :
      (k : Kernel)
      → IsScheduled k
      → k.idle_thread ≡ s.kernel.idle_thread
      → ((t : Addr) → has t s.lock.semaphore.waiters ≡ true → status_of k t ≡ blocked)
      → Step s (set_kernel k s)

-- No thread uses the new lock.
abbrev pub start : Kernel → System
start k = record { lock = lock_init; pc = (λ t. outside); kernel = k }

pub data Reach : System → Type 0 where
  begin : (k : Kernel) → IsScheduled k → Reach (start k)
  next : {s u : System} → Reach s → Step s u → Reach u
