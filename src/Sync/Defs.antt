-- ===== src/Sync/Defs.antt =====
-- The data of thread/sync.c and its operations, cut where a thread can be interrupted: `sema_down`
-- and `sema_up` run with interrupts off, the other statements of a lock one at a time.
use tie_zhu_os.Base.{
  ℕ, ◌+◌, ◌-◌, ◌%◌, ◌^◌, Option, none, some, List, [], ◌∷◌, ◌++◌, update, ltb, ◌==◌, if◌then◌else◌,
  ◌>>=◌, ◌>>◌, assert,
}
use tie_zhu_os.LinkedList.{Addr, null}
use tie_zhu_os.LinkedList.Chain.{has}
use tie_zhu_os.Thread.Defs.{blocked, Kernel, thread_unlock, thread_block}

-- `semaphore`; `waiters` holds the threads that wait, in order.
pub record Semaphore : Type 0 where
  pub value : ℕ
  pub waiters : List Addr

-- `lock`
pub record Lock : Type 0 where
  pub holder : Addr
  pub semaphore : Semaphore
  pub holder_repeat_nm : ℕ

pub seam_init : ℕ → Semaphore
seam_init value = record { value = value; waiters = [] }

unfoldable pub lock_init : Lock
unfolding seam_init
lock_init = record { holder = null; semaphore = seam_init 1; holder_repeat_nm = 0 }

-- Where a thread stands in its use of the lock.
pub data Pc : Type 0 where
  outside : Pc  -- in no operation, and not the holder
  downing : Pc  -- at the test of the loop in `sema_down`
  sleeping : Pc  -- blocked by `sema_down`, in the list of waiters
  taken : Pc  -- behind `sema_down`
  named : Pc  -- behind `pLock->holder = ...`
  inside : Pc  -- holds the lock
  zeroed : Pc  -- behind `pLock->holder_repeat_nm = 0`
  dropped : Pc  -- behind `pLock->holder = NULL`

-- The lock, the threads, and the scheduler with the thread that runs.
pub record System : Type 0 where
  pub lock : Lock
  pub pc : Addr → Pc
  pub kernel : Kernel

abbrev pub move : Addr → Pc → System → System
move t p s = record s { pc = update s.pc t p }

abbrev pub set_kernel : Kernel → System → System
set_kernel k s = record s { kernel = k }

abbrev pub set_sem : Semaphore → System → System
set_sem m s = record s { lock = record (s.lock) { semaphore = m } }

-- `lock_acquire` up to `sema_down`, or all of it where the thread holds the lock.
unfoldable pub lock_acquire : Addr → System → System
lock_acquire t s =
    if s.lock.holder == t
    then record s {
      lock = record (s.lock) { holder_repeat_nm = (s.lock.holder_repeat_nm + 1) % 2 ^ 32 };
    }
    else move t downing s

-- One round of the loop of `sema_down` by the thread that runs: it takes the semaphore, or waits, which ends at the
-- switch of `thread_block`. `none` is a failed assertion, there or in `schedule` too, or a round that would be made for
-- ever with interrupts off: the thread waits already.
unfoldable pub sema_down : Addr → System → Option System
sema_down t s =
    let m = s.lock.semaphore in
    if m.value == 0
    then (if has t m.waiters
        then none
        else (thread_block blocked s.kernel >>= λ k. some (
            set_kernel k
              (move t sleeping (set_sem (record m { waiters = m.waiters ++ t ∷ [] }) s)))))
    else (assert (m.value - 1 == 0)
        >> some (move t taken (set_sem (record m { value = m.value - 1 }) s)))

-- The two statements behind `sema_down` in `lock_acquire`.
unfoldable pub set_holder : Addr → System → System
set_holder t s = move t named (record s { lock = record (s.lock) { holder = t } })

unfoldable pub set_repeat : Addr → System → System
set_repeat t s = move t inside (record s { lock = record (s.lock) { holder_repeat_nm = 1 } })

-- `lock_release` up to its second assignment.
unfoldable pub lock_release : Addr → System → Option System
lock_release t s =
    assert (s.lock.holder == t)
    >> some (
        if ltb 1 s.lock.holder_repeat_nm
        then record s { lock = record (s.lock) { holder_repeat_nm = s.lock.holder_repeat_nm - 1 } }
        else move t zeroed (record s { lock = record (s.lock) { holder_repeat_nm = 0 } }))

unfoldable pub clear_holder : Addr → System → System
clear_holder t s = move t dropped (record s { lock = record (s.lock) { holder = null } })

-- `sema_up`; `thread_unlock` sends the first waiter back to the test of its loop, if its assertions hold.
abbrev pub woken : Addr → List Addr → System → System
woken x xs s = move x downing (set_sem (record (s.lock.semaphore) { waiters = xs }) s)

abbrev pub wake_first : List Addr → System → Option System
wake_first [] s = some s
wake_first (x ∷ xs) s = thread_unlock x s.kernel >>= λ k. some (set_kernel k (woken x xs s))

unfoldable pub sema_up : Addr → System → Option System
sema_up t s =
    assert (s.lock.semaphore.value == 0)
    >> (wake_first s.lock.semaphore.waiters s >>= λ s1. some (
        move t outside
          (set_sem (record (s1.lock.semaphore) { value = s1.lock.semaphore.value + 1 }) s1)))
