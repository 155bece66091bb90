-- ===== src/Thread/Invariant.antt =====
-- The invariant of the scheduler, and that every operation that switches keeps it and never fails
-- an assertion.
use tie_zhu_os.Base.{
  ◌≡◌, ◌≢◌, refl, ap, ◌⊎◌, inl, inr, Bool, true, false, some, List, [], ◌∷◌, ◌++◌, arith,
  if◌then◌else◌, ◌>>=◌, List-cases, Bool-cases, update, >>=-some, >>-assert, ◌∙◌,
}
use mathlib.Core.Path.{ap₂}
use tie_zhu_os.LinkedList.{Addr}
use tie_zhu_os.LinkedList.Chain.{has, Distinct, has-append}
use tie_zhu_os.Thread.Defs.{
  TaskStatus, running, ready, blocked, Kernel, set_status, is_running, is_asleep, process_activate,
  expire, wake_idle, switch_next, schedule,
}

abbrev pub is_active : TaskStatus → Bool
is_active running = true
is_active ready = true
is_active _ = false

abbrev pub status_of : Kernel → Addr → TaskStatus
status_of k t = (k.task t).status

-- What holds whenever a thread runs.
pub record IsScheduled (k : Kernel) : Type 0 where
  pub cur_running : status_of k k.cur ≡ running
  pub cur_out : has k.cur k.thread_ready_list ≡ false
  pub distinct : Distinct k.thread_ready_list
  pub active : (t : Addr) → has t k.thread_ready_list ≡ true → is_active (status_of k t) ≡ true
  pub idle :
      has k.idle_thread k.thread_ready_list ≡ false
      → (k.idle_thread ≡ k.cur) ⊎ (is_asleep (status_of k k.idle_thread) ≡ true)

-- What `schedule` needs.
pub record CanSchedule (k : Kernel) : Type 0 where
  pub intr_off : k.intr_on ≡ false
  pub cur_out : is_running (status_of k k.cur) ≡ true → has k.cur k.thread_ready_list ≡ false
  pub distinct : Distinct k.thread_ready_list
  pub active : (t : Addr) → has t k.thread_ready_list ≡ true → is_active (status_of k t) ≡ true
  pub idle :
      has k.idle_thread k.thread_ready_list ≡ false
      → ((k.idle_thread ≡ k.cur) × (is_running (status_of k k.cur) ≡ true))
        ⊎ (is_asleep (status_of k k.idle_thread) ≡ true)

-- The threads in the order in which they run next.
abbrev pub queue : Kernel → List Addr
queue k =
    if is_running (status_of k k.cur)
    then k.thread_ready_list ++ k.cur ∷ []
    else k.thread_ready_list

-- The idle thread is the same, and other threads that are blocked stay so.
abbrev pub Keeps : Kernel → Kernel → Type 0
Keeps k k1 =
    (k1.idle_thread ≡ k.idle_thread)
    × ((w : Addr) → w ≢ k.idle_thread → status_of k w ≡ blocked → status_of k1 w ≡ blocked)

-- The state before the switch: the queue is the ready list, and interrupts are off.
record Queued (k k1 : Kernel) : Type 0 where
  list : k1.thread_ready_list ≡ queue k
  distinct : Distinct k1.thread_ready_list
  active : (t : Addr) → has t k1.thread_ready_list ≡ true → is_active (status_of k1 t) ≡ true
  keeps : Keeps k k1
  idle :
      has k1.idle_thread k1.thread_ready_list ≡ false
      → is_asleep (status_of k1 k1.idle_thread) ≡ true

pub Distinct-concat :
    (a : Addr) (xs : List Addr) → Distinct xs → has a xs ≡ false → Distinct (xs ++ a ∷ [])
Distinct-concat a [] d h = ground arith
Distinct-concat a (x ∷ xs) d h = ground (arith, Distinct-concat a xs d.1, has-append x xs (a ∷ []))

expire-Queued : (k : Kernel) → CanSchedule k → (k1 : Kernel) × (expire k ≡ some k1) × Queued k k1
unfolding expire
expire-Queued k c = elim (Bool-cases (is_running (status_of k k.cur))) [
  | inl run ↦ (
    record k {
      task =
          update k.task k.cur
            (record (k.task k.cur) { ticks = (k.task k.cur).priority; status = ready });
      thread_ready_list = k.thread_ready_list ++ k.cur ∷ [];
    },
    rw (run, c.cur_out run),
    record {
      list = rw run;
      distinct = Distinct-concat k.cur k.thread_ready_list c.distinct (c.cur_out run);
      active = λ t h. ground (arith, has-append t k.thread_ready_list (k.cur ∷ []), c.active t);
      keeps = (refl, λ w other h. ground (arith, h, run));
      idle = λ h. ground (arith, has-append k.idle_thread k.thread_ready_list (k.cur ∷ []), c.idle);
    },
  )
  | inr stopped ↦ (
    k,
    rw stopped,
    record {
      list = rw stopped;
      distinct = c.distinct;
      active = c.active;
      keeps = (refl, λ w other h. h);
      idle = λ h. ground (arith, c.idle h);
    },
  )
]

-- The thread that runs next and the threads left behind it, the idle thread where nothing waits.
abbrev pub next_of : Addr → List Addr → Addr × List Addr
next_of idle [] = (idle, [])
next_of idle (x ∷ xs) = (x, xs)

switch_next_lem :
    (k1 : Kernel) (x : Addr) (rest : List Addr)
    → k1.thread_ready_list ≡ x ∷ rest
    → Distinct (x ∷ rest)
    → ((t : Addr) → has t (x ∷ rest) ≡ true → is_active (status_of k1 t) ≡ true)
    → (has k1.idle_thread (x ∷ rest) ≡ false → is_asleep (status_of k1 k1.idle_thread) ≡ true)
    → (k2 : Kernel) × (switch_next k1 ≡ some k2)
      × IsScheduled k2
      × (k2.cur ≡ x)
      × (k2.thread_ready_list ≡ rest)
      × (k2.idle_thread ≡ k1.idle_thread)
      × ((w : Addr) → w ≢ x → status_of k1 w ≡ blocked → status_of k2 w ≡ blocked)
unfolding switch_next
switch_next_lem k1 x rest e d act idle =
    let k2 = set_status x running (record k1 { thread_ready_list = rest }) in
    (
      record (process_activate x k2) { cur = x },
      rw e,
      record {
        cur_running = ground arith;
        cur_out = ground arith;
        distinct = ground arith;
        active = λ t h. ground (arith, act t);
        idle = λ h. ground (arith, idle);
      },
      refl,
      refl,
      refl,
      λ w other h. ground (arith, other, h),
    )

wake_idle_empty :
    (k : Kernel)
    → k.thread_ready_list ≡ []
    → is_asleep (status_of k k.idle_thread) ≡ true
    → wake_idle k
      ≡ some
          (set_status k.idle_thread running (record k { thread_ready_list = k.idle_thread ∷ [] }))
unfolding wake_idle
wake_idle_empty k e h = rw (e, h)

wake_idle_cons :
    (k : Kernel) (x : Addr) (rest : List Addr)
    → k.thread_ready_list ≡ x ∷ rest
    → wake_idle k ≡ some k
unfolding wake_idle
wake_idle_cons k x rest e = rw e

-- What the last two parts do from a queue.
Dispatched : Kernel → Kernel → Type 0
Dispatched k1 k2 =
    IsScheduled k2
    × ((k2.cur, k2.thread_ready_list) ≡ next_of k1.idle_thread k1.thread_ready_list)
    × Keeps k1 k2

-- A thread that can run is not blocked.
blocked-ne :
    (k : Kernel) (x w : Addr) (rest : List Addr)
    → ((t : Addr) → has t (x ∷ rest) ≡ true → is_active (status_of k t) ≡ true)
    → status_of k w ≡ blocked
    → w ≢ x
blocked-ne k x w rest act h e = ground (arith, act x, h, ap (status_of k) e)

dispatch :
    (k k1 : Kernel)
    → Queued k k1
    → (k2 : Kernel) × ((wake_idle k1 >>= switch_next) ≡ some k2) × Dispatched k1 k2
unfolding Dispatched
dispatch k k1 q = elim (List-cases k1.thread_ready_list) [
  | inl empty ↦
      let (k2, e2, v, c2, r2, i2, others) =
        switch_next_lem
          (set_status k1.idle_thread running
            (record k1 { thread_ready_list = k1.idle_thread ∷ [] }))
          k1.idle_thread [] refl (refl, tt) (λ t h. ground arith) (λ h. absurd (ground arith)) in
      (
        k2,
        >>=-some _ (wake_idle_empty k1 empty (q.idle (rw empty))) e2,
        (v, ground arith, (i2, λ w other h. others w other (ground (arith, other, h)))),
      )
  | inr (x, rest, e) ↦
      let (k2, e2, v, c2, r2, i2, others) =
        switch_next_lem k1 x rest e (rw e at q.distinct) (rw e at q.active) (rw e at q.idle) in
      (
        k2,
        >>=-some _ (wake_idle_cons k1 x rest e) e2,
        (
          v,
          ground arith,
          (i2, λ w other h. others w (blocked-ne k1 x w rest (rw e at q.active) h) h),
        ),
      )
]

-- Under its condition `schedule` fails no assertion, the thread at the front of the queue runs (the
-- idle thread where the queue is empty), the others keep their order, and the invariant holds.
pub schedule-IsScheduled :
    (k : Kernel)
    → CanSchedule k
    → (k2 : Kernel) × (schedule k ≡ some k2)
      × IsScheduled k2
      × ((k2.cur, k2.thread_ready_list) ≡ next_of k.idle_thread (queue k))
unfolding schedule Dispatched
schedule-IsScheduled k c =
    let (k1, e1, q) = expire-Queued k c in
    let (k2, e2, d) = dispatch k k1 q in
    (k2, >>-assert (rw c.intr_off refl) (>>=-some _ e1 e2), d.0, d.1 ∙ ap₂ next_of q.keeps.0 q.list)

-- Other threads that are blocked stay so.
pub schedule-Keeps :
    (k : Kernel)
    → CanSchedule k
    → (k2 : Kernel) × (schedule k ≡ some k2) × IsScheduled k2 × Keeps k k2
unfolding schedule Dispatched
schedule-Keeps k c =
    let (k1, e1, q) = expire-Queued k c in
    let (k2, e2, d) = dispatch k k1 q in
    let (v, _, keeps) = d in
    let (same, stay) = keeps in
    (
      k2,
      >>-assert (rw c.intr_off refl) (>>=-some _ e1 e2),
      v,
      (same ∙ q.keeps.0, λ w other h. stay w (λ e. other (e ∙ q.keeps.0)) (q.keeps.1 w other h)),
    )
