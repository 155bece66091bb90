-- ===== src/Thread/RoundRobin.antt =====
-- The timer: a thread runs for its time slice and then waits for every thread that is ready.
use tie_zhu_os.Base.{
  ℕ, zero, suc, ◌≤◌, ◌≡◌, refl, true, false, Option, some, [], ◌∷◌, ◌++◌, arith, ◌==◌, ◌>>=◌,
  >>-assert, >>=-some, ◌∙◌,
}
use tie_zhu_os.Thread.Defs.{
  Kernel, schedule, intr_timer_handler, stack_magic_value, count_tick, spend_tick,
}
use tie_zhu_os.Thread.Invariant.{IsScheduled, CanSchedule, next_of, schedule-IsScheduled}

-- A timer interrupt: the processor turns interrupts off and calls the handler.
abbrev pub interrupt : Kernel → Option Kernel
interrupt k = intr_timer_handler (record k { intr_on = false })

-- `n` timer interrupts.
pub interrupts : ℕ → Kernel → Option Kernel
interrupts zero k = some k
interrupts (suc n) k = interrupt k >>= interrupts n

abbrev slice_left : Kernel → ℕ
slice_left k = (k.task k.cur).ticks

abbrev IsSound : Kernel → Type 0
IsSound k = (k.task k.cur).stack_magic ≡ stack_magic_value

handler_within :
    (k : Kernel)
    → ((k.task k.cur).stack_magic == stack_magic_value) ≡ true
    → ((k.task k.cur).ticks == 0) ≡ false
    → intr_timer_handler k ≡ some (spend_tick (count_tick k))
unfolding intr_timer_handler
handler_within k m e = >>-assert m (rw e refl)

handler_last :
    (k : Kernel)
    → ((k.task k.cur).stack_magic == stack_magic_value) ≡ true
    → ((k.task k.cur).ticks == 0) ≡ true
    → intr_timer_handler k ≡ schedule (count_tick k)
unfolding intr_timer_handler
handler_last k m e = >>-assert m (rw e refl)

-- One interrupt within the time slice.
interrupt_within :
    (k : Kernel) (n : ℕ)
    → slice_left k ≡ suc n
    → IsSound k
    → IsScheduled k
    → (k2 : Kernel) × (interrupt k ≡ some k2)
      × IsScheduled k2
      × (slice_left k2 ≡ n)
      × IsSound k2
      × (k2.cur ≡ k.cur)
      × (k2.thread_ready_list ≡ k.thread_ready_list)
      × (k2.idle_thread ≡ k.idle_thread)
interrupt_within k n e m v = (
  spend_tick (count_tick (record k { intr_on = false })),
  handler_within _ (ground arith) (ground arith),
  record {
    cur_running = ground (arith, v.cur_running);
    cur_out = v.cur_out;
    distinct = v.distinct;
    active = λ t h. ground (arith, v.active t, v.cur_out);
    idle = λ h. ground (arith, v.idle, v.cur_running);
  },
  ground arith,
  ground arith,
  refl,
  refl,
  refl,
)

count-CanSchedule :
    (k : Kernel) → IsScheduled k → CanSchedule (count_tick (record k { intr_on = false }))
count-CanSchedule k v = record {
  intr_off = refl;
  cur_out = λ r. v.cur_out;
  distinct = v.distinct;
  active = λ t h. ground (arith, v.active t, v.cur_out);
  idle = λ h. ground (arith, v.idle, v.cur_running);
}

-- The interrupt at the end of the slice.
interrupt_last :
    (k : Kernel)
    → slice_left k ≡ 0
    → IsSound k
    → IsScheduled k
    → (k2 : Kernel) × (interrupt k ≡ some k2)
      × IsScheduled k2
      × ((k2.cur, k2.thread_ready_list) ≡ next_of k.idle_thread (k.thread_ready_list ++ k.cur ∷ []))
interrupt_last k e m v =
    let (k2, e2, v2, n) = schedule-IsScheduled _ (count-CanSchedule k v) in
    (k2, handler_last _ (ground arith) (ground arith) ∙ e2, v2, ground arith)

-- Within the slice the thread keeps the processor.
interrupts_within :
    (m n : ℕ) (k : Kernel)
    → m ≤ n
    → slice_left k ≡ n
    → IsSound k
    → IsScheduled k
    → (k1 : Kernel) × (interrupts m k ≡ some k1)
      × (k1.cur ≡ k.cur)
      × (k1.thread_ready_list ≡ k.thread_ready_list)
unfolding interrupts
interrupts_within zero n k le e m v = (k, refl, refl, refl)
interrupts_within (suc m) zero k le e sound v = absurd (omega (arith, le))
interrupts_within (suc m) (suc n) k le e sound v =
    let (k1, e1, v1, l1, m1, c1, r1, _) = interrupt_within k n e sound v in
    let (k2, e2, c2, r2) = interrupts_within m n k1 (omega (arith, le)) l1 m1 v1 in
    (k2, >>=-some _ e1 e2, c2 ∙ c1, r2 ∙ r1)

-- The interrupt behind the slice.
interrupts_last :
    (n : ℕ) (k : Kernel)
    → slice_left k ≡ n
    → IsSound k
    → IsScheduled k
    → (k2 : Kernel) × (interrupts (suc n) k ≡ some k2)
      × IsScheduled k2
      × ((k2.cur, k2.thread_ready_list) ≡ next_of k.idle_thread (k.thread_ready_list ++ k.cur ∷ []))
unfolding interrupts
interrupts_last zero k e m v =
    let (k2, e2, v2, n2) = interrupt_last k e m v in (k2, >>=-some _ e2 refl, v2, n2)
interrupts_last (suc n) k e m v =
    let (k1, e1, v1, l1, m1, c1, r1, i1) = interrupt_within k n e m v in
    let (k2, e2, v2, n2) = interrupts_last n k1 l1 m1 v1 in (k2, >>=-some _ e1 e2, v2, ground arith)

-- Where a slice has `n` ticks left and the thread's stack is sound, no assertion fails in `n` + 1 timer interrupts:
-- after each of the first `n` the same thread runs and the ready list is as before, and at the next one the thread
-- goes behind all ready threads, and the first of them runs.
pub interrupts_slice :
    (n : ℕ) (k : Kernel)
    → slice_left k ≡ n
    → IsSound k
    → IsScheduled k
    → ((m : ℕ)
        → m ≤ n
        → (k1 : Kernel) × (interrupts m k ≡ some k1)
          × (k1.cur ≡ k.cur)
          × (k1.thread_ready_list ≡ k.thread_ready_list))
      × ((k2 : Kernel) × (interrupts (suc n) k ≡ some k2)
          × IsScheduled k2
          × ((k2.cur, k2.thread_ready_list)
              ≡ next_of k.idle_thread (k.thread_ready_list ++ k.cur ∷ [])))
interrupts_slice n k e m v = (λ j le. interrupts_within j n k le e m v, interrupts_last n k e m v)
