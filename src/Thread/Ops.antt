-- ===== src/Thread/Ops.antt =====
-- Blocking, yielding and waking keep the invariant of the scheduler.
use tie_zhu_os.Base.{
  ◌≡◌, ◌≢◌, refl, ap, sym, ◌∙◌, some_injective, inl, inr, true, false, some, [], ◌∷◌, ◌++◌, arith,
  Bool-cases, >>-assert,
}
use tie_zhu_os.LinkedList.{Addr}
use tie_zhu_os.LinkedList.Chain.{has, has-append}
use tie_zhu_os.Thread.Defs.{
  TaskStatus, running, ready, blocked, Kernel, is_running, is_asleep, set_status, thread_unlock,
  thread_block, thread_yield,
}
use tie_zhu_os.Thread.Invariant.{
  status_of, IsScheduled, CanSchedule, next_of, schedule-IsScheduled, Keeps, schedule-Keeps,
  Distinct-concat,
}

block-CanSchedule :
    (k : Kernel) (state : TaskStatus)
    → is_asleep state ≡ true
    → IsScheduled k
    → CanSchedule (set_status k.cur state (record k { intr_on = false }))
block-CanSchedule k state h v = record {
  intr_off = refl;
  cur_out = λ r. v.cur_out;
  distinct = v.distinct;
  active = λ t m. ground (arith, v.active t, v.cur_out);
  idle = λ m. ground (arith, v.idle);
}

asleep-not-running : (state : TaskStatus) → is_asleep state ≡ true → is_running state ≡ false
asleep-not-running state h = ground arith

-- A running thread that blocks in one of the three sleeping states gives the processor to the first
-- ready thread, to the idle thread if none is ready, and leaves the ready list otherwise as it is.
pub thread_block-IsScheduled :
    (k : Kernel) (state : TaskStatus)
    → is_asleep state ≡ true
    → IsScheduled k
    → (k2 : Kernel) × (thread_block state k ≡ some k2)
      × IsScheduled k2
      × ((k2.cur, k2.thread_ready_list) ≡ next_of k.idle_thread k.thread_ready_list)
unfolding thread_block
thread_block-IsScheduled k state h v =
    let (k2, e, v2, n) = schedule-IsScheduled _ (block-CanSchedule k state h v) in
    (k2, >>-assert h e, v2, ground arith)

yield-CanSchedule :
    (k : Kernel)
    → IsScheduled k
    → CanSchedule (
        set_status k.cur ready
          (record k { intr_on = false; thread_ready_list = k.thread_ready_list ++ k.cur ∷ [] }))
yield-CanSchedule k v = record {
  intr_off = refl;
  cur_out = λ r. ground arith;
  distinct = Distinct-concat k.cur k.thread_ready_list v.distinct v.cur_out;
  active = λ t m. ground (arith, has-append t k.thread_ready_list (k.cur ∷ []), v.active t);
  idle = λ m. ground (arith, has-append k.idle_thread k.thread_ready_list (k.cur ∷ []), v.idle);
}

-- A thread that yields goes behind all ready threads.
pub thread_yield-IsScheduled :
    (k : Kernel)
    → IsScheduled k
    → (k2 : Kernel) × (thread_yield k ≡ some k2)
      × IsScheduled k2
      × ((k2.cur, k2.thread_ready_list) ≡ next_of k.idle_thread (k.thread_ready_list ++ k.cur ∷ []))
unfolding thread_yield
thread_yield-IsScheduled k v =
    let (k2, e, v2, n) = schedule-IsScheduled _ (yield-CanSchedule k v) in (k2, e, v2, ground arith)

pub asleep-not-ready :
    (k : Kernel) (t : Addr)
    → is_asleep (status_of k t) ≡ true
    → IsScheduled k
    → has t k.thread_ready_list ≡ false
asleep-not-ready k t h v = elim (Bool-cases (has t k.thread_ready_list)) [
  | inl here ↦ absurd (ground (arith, v.active t here))
  | inr out ↦ out
]

-- A sleeping thread that is woken goes in front of all ready threads; nothing else moves.
pub thread_unlock-IsScheduled :
    (k : Kernel) (t : Addr)
    → is_asleep (status_of k t) ≡ true
    → IsScheduled k
    → (k2 : Kernel) × (thread_unlock t k ≡ some k2)
      × IsScheduled k2
      × (k2.cur ≡ k.cur)
      × (k2.thread_ready_list ≡ t ∷ k.thread_ready_list)
unfolding thread_unlock
thread_unlock-IsScheduled k t h v =
    let out = asleep-not-ready k t h v in
    (
      set_status t running (record k { thread_ready_list = t ∷ k.thread_ready_list }),
      >>-assert h (>>-assert (rw out refl) refl),
      record {
        cur_running = ground arith;
        cur_out = ground (arith, v.cur_out, v.cur_running);
        distinct = (out, v.distinct);
        active = λ u m. ground (arith, v.active u);
        idle = λ m. ground (arith, v.idle);
      },
      refl,
      refl,
    )

-- The thread that blocks is blocked, and so are those that were.
pub thread_block-Keeps :
    (k : Kernel)
    → IsScheduled k
    → k.cur ≢ k.idle_thread
    → (k2 : Kernel) × (thread_block blocked k ≡ some k2)
      × IsScheduled k2
      × Keeps k k2
      × (status_of k2 k.cur ≡ blocked)
unfolding thread_block
thread_block-Keeps k v other =
    let (k2, e, v2, keeps) = schedule-Keeps _ (block-CanSchedule k blocked refl v) in
    let (same, stay) = keeps in
    (
      k2,
      >>-assert {b = is_asleep blocked} refl e,
      v2,
      (same, λ w apart h. stay w apart (ground (arith, h))),
      stay k.cur other (ground arith),
    )

-- The threads other than the one that is woken keep their states.
pub thread_unlock-others :
    (k k2 : Kernel) (t w : Addr)
    → thread_unlock t k ≡ some k2
    → is_asleep (status_of k t) ≡ true
    → IsScheduled k
    → w ≢ t
    → (k2.idle_thread ≡ k.idle_thread) × (status_of k2 w ≡ status_of k w)
unfolding thread_unlock
thread_unlock-others k k2 t w e h v other =
    let out = asleep-not-ready k t h v in
    let same : k2
        ≡ set_status t running (record k { thread_ready_list = t ∷ k.thread_ready_list }) =
      some_injective (sym e ∙ >>-assert h (>>-assert (rw out refl) refl)) in
    (
      ap {A = Kernel} {B = Addr} (λ x. x.idle_thread) same,
      ap (λ x. status_of x w) same ∙ ground (arith, other),
    )
