-- ===== src/Sync/Blocked.antt =====
-- The threads that wait for a lock are blocked, so that no assertion of the scheduler fails in the calls of a semaphore.
use tie_zhu_os.Base.{
  ◌+◌, ◌≡◌, ◌≢◌, refl, ap, sym, ◌∙◌, inl, inr, Bool, true, false, Option, ◌>>=◌, some, List, [],
  ◌∷◌, ◌++◌, arith, ◌==◌, >>-assert, >>=-some, Bool-cases, List-cases, update, subst,
}
use tie_zhu_os.LinkedList.{Addr}
use tie_zhu_os.LinkedList.Chain.{has, Distinct, has-append}
use tie_zhu_os.Thread.Defs.{blocked, Kernel, is_asleep}
use tie_zhu_os.Thread.Invariant.{status_of, IsScheduled}
use tie_zhu_os.Thread.Ops.{thread_block-Keeps, thread_unlock-IsScheduled, thread_unlock-others}
use tie_zhu_os.Sync.Defs.{
  Pc, outside, downing, sleeping, taken, dropped, System, Lock, sema_down, sema_up, wake_first,
  woken, move, set_sem, set_kernel,
}
use tie_zhu_os.Sync.Invariant.{IsLocked, IsLocked-set_kernel}
use tie_zhu_os.Sync.Keep.{down_waits, down_takes, critical-zero, up_alone, up_wakes}

pub record AreBlocked (s : System) : Type 0 where
  pub scheduled : IsScheduled s.kernel
  pub asleep : (t : Addr) → has t s.lock.semaphore.waiters ≡ true → status_of s.kernel t ≡ blocked
  pub idle_outside : s.pc s.kernel.idle_thread ≡ outside

abbrev pub is_outside : Pc → Bool
is_outside outside = true
is_outside _ = false

pub ne_idle :
    (s : System) (t : Addr) → is_outside (s.pc t) ≡ false → AreBlocked s → t ≢ s.kernel.idle_thread
ne_idle s t h b e = ground (arith, h, b.idle_outside, ap s.pc e)

-- A step of a thread other than the idle thread that leaves the waiters and the scheduler.
pub move-AreBlocked :
    (s : System) (t : Addr) (p : Pc) (l : Lock)
    → t ≢ s.kernel.idle_thread
    → l.semaphore.waiters ≡ s.lock.semaphore.waiters
    → AreBlocked s
    → AreBlocked (record { lock = l; pc = update s.pc t p; kernel = s.kernel })
move-AreBlocked s t p l other same b = record {
  scheduled = b.scheduled;
  asleep = λ u h. b.asleep u (ap (has u) (sym same) ∙ h);
  idle_outside = ground (arith, other, b.idle_outside);
}

waits-AreBlocked :
    (s : System) (t : Addr) (k : Kernel)
    → s.kernel.cur ≡ t
    → t ≢ s.kernel.idle_thread
    → IsLocked s
    → AreBlocked s
    → IsScheduled k
    → k.idle_thread ≡ s.kernel.idle_thread
    → ((w : Addr)
        → w ≢ s.kernel.idle_thread
        → status_of s.kernel w ≡ blocked
        → status_of k w ≡ blocked)
    → status_of k s.kernel.cur ≡ blocked
    → AreBlocked (
        set_kernel k (
          move t sleeping (
            set_sem
              (record (s.lock.semaphore) { waiters = s.lock.semaphore.waiters ++ t ∷ [] })
              s)))
waits-AreBlocked s t k runs other v b scheduled same stay sleeps = record {
  scheduled = scheduled;
  asleep = λ u h. elim (Bool-cases (has u s.lock.semaphore.waiters)) [
    | inl before ↦ stay u (ne_idle s u (ground (arith, v.waiting u, before)) b) (b.asleep u before)
    | inr new ↦
        let here : u ≡ t = ground (arith, h, new, has-append u s.lock.semaphore.waiters (t ∷ [])) in
        ap (status_of k) (here ∙ sym runs) ∙ sleeps
  ];
  idle_outside = ground (arith, other, b.idle_outside, ap s.pc same, same);
}

-- The round of the loop fails no assertion, on either branch, and keeps both invariants.
pub down-Safe :
    (s : System) (t : Addr)
    → s.kernel.cur ≡ t
    → s.pc t ≡ downing
    → IsLocked s
    → AreBlocked s
    → (u : System) × (sema_down t s ≡ some u) × IsLocked u × AreBlocked u
unfolding sema_down
down-Safe s t runs e v b = elim (Bool-cases (s.lock.semaphore.value == 0)) [
  | inl zero ↦
      let (k, blocks, scheduled, keeps, sleeps) =
        thread_block-Keeps s.kernel b.scheduled (λ i. other (sym runs ∙ i)) in
      let (same, stay) = keeps in
      (
        _,
        rw (zero, v.waiting t, e) (>>=-some _ blocks refl),
        IsLocked-set_kernel _ k (down_waits s t e (ground arith) v),
        waits-AreBlocked s t k runs other v b scheduled same stay sleeps,
      )
  | inr one ↦ (
    _,
    ground (arith, v.bit),
    down_takes s t e (ground (arith, v.bit)) v,
    move-AreBlocked s t taken _ other refl b,
  )
]
  where
    other : t ≢ s.kernel.idle_thread
    other = ne_idle s t (rw e refl) b

abbrev leave : Addr → System → System
leave t s =
    move t outside (set_sem (record (s.lock.semaphore) { value = s.lock.semaphore.value + 1 }) s)

-- The first waiter is woken; the others stay blocked.
woken-AreBlocked :
    (s : System) (t x : Addr) (xs : List Addr) (k : Kernel)
    → s.lock.semaphore.waiters ≡ x ∷ xs
    → IsLocked s
    → AreBlocked s
    → IsScheduled k
    → t ≢ s.kernel.idle_thread
    → ((w : Addr)
        → w ≢ x
        → (k.idle_thread ≡ s.kernel.idle_thread) × (status_of k w ≡ status_of s.kernel w))
    → x ≢ s.kernel.idle_thread
    → AreBlocked (leave t (set_kernel k (woken x xs s)))
woken-AreBlocked s t x xs k w v b scheduled other keeps awake = record {
  scheduled = scheduled;
  asleep = λ u h.
      let apart : u ≢ x = λ i. ground (arith, h, d.0, ap (λ y. has y xs) i) in
      (keeps u apart).1 ∙ b.asleep u (rw w (ground (arith, h)));
  idle_outside =
      let same = (keeps t0 t0_ne).0 in
      ground (arith, other, awake, b.idle_outside, ap s.pc same, same);
}
  where
    d : Distinct (x ∷ xs)
    d = subst Distinct w v.distinct

    t0 : Addr
    t0 = s.kernel.idle_thread

    t0_ne : t0 ≢ x
    t0_ne = λ i. awake (sym i)

-- The call fails no assertion, on either branch, and keeps both invariants.
pub up-Safe :
    (s : System) (t : Addr)
    → s.pc t ≡ dropped
    → IsLocked s
    → AreBlocked s
    → (u : System) × (sema_up t s ≡ some u) × IsLocked u × AreBlocked u
unfolding sema_up
up-Safe s t e v b = elim (List-cases s.lock.semaphore.waiters) [
  | inl empty ↦ (
    leave t s,
    >>-assert (ground (arith, zero)) (ap after empty),
    up_alone s t e zero empty v,
    move-AreBlocked s t outside _ other refl b,
  )
  | inr (x, xs, w) ↦
      let here : has x s.lock.semaphore.waiters ≡ true = rw w (ground arith) in
      let sleeps : is_asleep (status_of s.kernel x) ≡ true = rw (b.asleep x here) refl in
      let (k, wakes, scheduled, _, _) = thread_unlock-IsScheduled s.kernel x sleeps b.scheduled in
      let awake : x ≢ s.kernel.idle_thread = ne_idle s x (ground (arith, v.waiting x, here)) b in
      (
        leave t (set_kernel k (woken x xs s)),
        >>-assert (ground (arith, zero)) (ap after w ∙ >>=-some _ (>>=-some _ wakes refl) refl),
        IsLocked-set_kernel _ k (up_wakes s t x xs e zero w v),
        woken-AreBlocked s t x xs k w v b scheduled other
            (λ u apart. thread_unlock-others s.kernel k x u wakes sleeps b.scheduled apart) awake,
      )
]
  where
    zero : s.lock.semaphore.value ≡ 0
    zero = critical-zero s t (rw e refl) v

    other : t ≢ s.kernel.idle_thread
    other = ne_idle s t (rw e refl) b

    after : List Addr → Option System
    after ws = wake_first ws s >>= λ s1. some (leave t s1)
