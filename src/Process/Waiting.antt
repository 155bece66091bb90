-- ===== src/Process/Waiting.antt =====
-- What a parent's wait gives, and how it meets the exit of a child.
use tie_zhu_os.Base.{
  ◌≡◌, ◌≢◌, refl, ap, ◌∙◌, subst, Bool, true, false, none, some, List, [], ◌∷◌, ◌==◌, >>=-some,
  >>-assert, arith, Bool-cases, inl, inr,
}
use mathlib.Core.Path.{ap₂}
use tie_zhu_os.LinkedList.{Addr, null}
use tie_zhu_os.LinkedList.Chain.{has}
use tie_zhu_os.Thread.Defs.{
  running, hanging, waiting, Kernel, is_asleep, set_status, thread_unlock, thread_block, expire,
  wake_idle, switch_next, schedule, process_activate,
}
use tie_zhu_os.Thread.Invariant.{IsScheduled, status_of, next_of}
use tie_zhu_os.Thread.Ops.{asleep-not-ready, thread_unlock-IsScheduled, thread_block-IsScheduled}
use tie_zhu_os.Process.{
  is_waiting, find_child, find_hanging_child, first_thread, parent_thread, wake_parent, hang_up,
  waits, wait_for, sys_wait,
}

-- The first thread of a list that passes a test.
pub first_thread_finds :
    (test : Addr → Bool) (ts : List Addr) (t : Addr)
    → has t ts ≡ true
    → test t ≡ true
    → (u : Addr) × (first_thread test ts ≡ some u) × (has u ts ≡ true) × (test u ≡ true)
unfolding first_thread
first_thread_finds test [] t h pass = absurd (cc)
first_thread_finds test (x ∷ xs) t h pass = elim (Bool-cases (test x)) [
  | inl here ↦ (x, rw here refl, ground arith, here)
  | inr not_here ↦ elim (Bool-cases (t == x)) [
    | inl same ↦
        absurd (ground (arith, not_here, pass, ap test {x = t} {y = x} (ground (arith, same))))
    | inr other ↦
        let (u, e, h1, p) = first_thread_finds test xs t (ground (arith, h, other)) pass in
        (u, rw not_here e, ground (arith, h1), p)
  ]
]

-- `sys_wait` of a listed thread, where no child hangs, never returns -1: `find_child` takes the caller for
-- a child of its own. The caller waits, also where it has no children, the scheduler's invariant holds,
-- and the first ready thread, or the idle thread, runs.
pub sys_wait_never_fails :
    (k : Kernel)
    → IsScheduled k
    → has k.cur k.thread_all_list ≡ true
    → first_thread (find_hanging_child k (k.task k.cur).pid) k.thread_all_list ≡ none
    → (k1 : Kernel) × (sys_wait k ≡ some (waits k1))
      × IsScheduled k1
      × ((k1.cur, k1.thread_ready_list) ≡ next_of k.idle_thread k.thread_ready_list)
unfolding sys_wait
sys_wait_never_fails k v listed no_hanging =
    let pid = (k.task k.cur).pid in
    let (t, e, _, _) =
      first_thread_finds (find_child k pid) k.thread_all_list k.cur listed (ground arith) in
    let (k1, blocked, v1, order) = thread_block-IsScheduled k waiting refl v in
    (k1, ap₂ (λ a b. wait_for a b k) no_hanging e ∙ >>=-some _ blocked refl, v1, order)

-- The state after `hang_up`: the parent runs in front of the threads that were ready, and of the
-- process itself nothing changes but its state.
pub record HungUp (k : Kernel) (p : Addr) (k2 : Kernel) : Type 0 where
  pub scheduled : IsScheduled k2
  pub runs : k2.cur ≡ p
  pub ready : k2.thread_ready_list ≡ k.thread_ready_list
  pub listed : k2.thread_all_list ≡ k.thread_all_list
  pub hangs : status_of k2 k.cur ≡ hanging
  pub others : (t : Addr) → t ≢ k.cur → t ≢ p → status_of k2 t ≡ status_of k t
  pub pids : (t : Addr) → (k2.task t).pid ≡ (k.task t).pid
  pub parents : (t : Addr) → (k2.task t).parent_pid ≡ (k.task t).parent_pid
  pub statuses : (t : Addr) → (k2.task t).exit_status ≡ (k.task t).exit_status

-- The steps of `thread_block` where another thread `p` is the first of the ready list.
module _ (k : Kernel) (p : Addr) (rest : List Addr) (e : k.thread_ready_list ≡ p ∷ rest) where
  abbrev hanging_now : Kernel
  hanging_now = set_status k.cur hanging (record k { intr_on = false })

  abbrev switched : Kernel
  switched =
      record (process_activate p
        (set_status p running (record hanging_now { thread_ready_list = rest }))) { cur = p }

  hangs_now : status_of hanging_now k.cur ≡ hanging
  hangs_now = ground arith

  expire_hanging : expire hanging_now ≡ some hanging_now
  unfolding expire
  expire_hanging = rw hangs_now refl

  wake_hanging : wake_idle hanging_now ≡ some hanging_now
  unfolding wake_idle
  wake_hanging = rw e refl

  switch_hanging : switch_next hanging_now ≡ some switched
  unfolding switch_next
  switch_hanging = rw e refl

  block_to : thread_block hanging k ≡ some switched
  unfolding thread_block schedule
  block_to = >>=-some _ expire_hanging (>>=-some _ wake_hanging switch_hanging)

-- The state in which `wake_parent` leaves a parent that waits.
abbrev woken : Addr → Kernel → Kernel
woken p k = set_status p running (record k { thread_ready_list = p ∷ k.thread_ready_list })

module _ (k : Kernel) (p : Addr) (v : IsScheduled k)
    (parent : parent_thread (k.task k.cur).parent_pid k ≡ p) (real : p ≢ null)
    (sleeps : status_of k p ≡ waiting) where
  asleep : is_asleep (status_of k p) ≡ true
  asleep = rw sleeps refl

  unlock_woken : thread_unlock p k ≡ some (woken p k)
  unfolding thread_unlock
  unlock_woken = >>-assert asleep (>>-assert (rw (asleep-not-ready k p asleep v) refl) refl)

  wake_woken : wake_parent k ≡ some (woken p k)
  unfolding wake_parent
  wake_woken =
      let test : (p == null) ≡ false = ground (arith, real) in
      let waits_now : is_waiting (status_of k p) ≡ true = rw sleeps refl in
      rw (parent, test, waits_now) unlock_woken

  apart : p ≢ k.cur
  apart e = absurd (ground (arith, v.cur_running, sleeps, ap (status_of k) e))

  switched_on : Kernel
  switched_on = switched (woken p k) p k.thread_ready_list refl

  switched-IsScheduled : IsScheduled switched_on
  unfolding switched_on
  switched-IsScheduled =
      let (u, unlocked, v1, _, _) = thread_unlock-IsScheduled k p asleep v in
      let woken_v : IsScheduled (woken p k) = subst IsScheduled (cc (unlocked, unlock_woken)) v1 in
      let (w, blocked, v2, _) = thread_block-IsScheduled (woken p k) hanging refl woken_v in
      subst IsScheduled (cc (blocked, block_to (woken p k) p k.thread_ready_list refl)) v2

  -- The parent runs as soon as the process hangs.
  pub hang_up-HungUp : (k2 : Kernel) × (hang_up k ≡ some k2) × HungUp k p k2
  unfolding hang_up switched_on process_activate
  hang_up-HungUp = (
    switched_on,
    >>=-some (λ k1. thread_block hanging k1) wake_woken
        (block_to (woken p k) p k.thread_ready_list refl),
    record {
      scheduled = switched-IsScheduled;
      runs = refl;
      ready = refl;
      listed = refl;
      hangs = ground (arith, apart);
      others = λ t c d. ground (arith, c, d);
      pids = λ t. ground arith;
      parents = λ t. ground arith;
      statuses = λ t. ground arith;
    },
  )
