-- ===== src/Sync/Safety.antt =====
-- What a lock of thread/sync.c gives the threads that share it, on every interleaving.
use tie_zhu_os.Base.{
  ◌-◌, ◌≡◌, ◌≢◌, ap, sym, ◌∙◌, true, Option, some, [], ltb, subst, some_injective, arith, ◌==◌,
  refl, Bool-cases, inl, inr, ◌⊎◌,
}
use tie_zhu_os.LinkedList.{Addr}
use tie_zhu_os.LinkedList.Chain.{has}
use tie_zhu_os.Thread.Defs.{Kernel}
use tie_zhu_os.Thread.Invariant.{IsScheduled}
use tie_zhu_os.Sync.Defs.{
  Pc, outside, downing, sleeping, taken, named, inside, zeroed, dropped, Lock, System, lock_init,
  lock_acquire, set_holder, set_repeat, clear_holder, sema_down, lock_release, sema_up,
}
use tie_zhu_os.Sync.Steps.{
  Step, acquire, acquire_again, down, name, enter, release, unname, up, elsewhere, start, Reach,
  begin, next,
}
use tie_zhu_os.Sync.Invariant.{
  IsLocked, IsLocked-set_kernel, is_critical, start-IsLocked, acquire-IsLocked, again-IsLocked,
}
use tie_zhu_os.Sync.Keep.{name-IsLocked, enter-IsLocked, release-IsLocked, unname-IsLocked, held}
use tie_zhu_os.Sync.Blocked.{AreBlocked, ne_idle, move-AreBlocked, down-Safe, up-Safe}

-- What holds in every reachable state.
pub record IsSafe (s : System) : Type 0 where
  pub locked : IsLocked s
  pub blocks : AreBlocked s

-- The lock changes, but not its waiters.
lock-AreBlocked :
    (s : System) (l : Lock)
    → l.semaphore.waiters ≡ s.lock.semaphore.waiters
    → AreBlocked s
    → AreBlocked (record s { lock = l })
lock-AreBlocked s l same b = record {
  scheduled = b.scheduled;
  asleep = λ u h. b.asleep u (ap (has u) (sym same) ∙ h);
  idle_outside = b.idle_outside;
}

acquire-AreBlocked :
    (s : System) (t : Addr)
    → t ≢ s.kernel.idle_thread
    → AreBlocked s
    → AreBlocked (lock_acquire t s)
unfolding lock_acquire
acquire-AreBlocked s t other b = elim (Bool-cases (s.lock.holder == t)) [
  | inl mine ↦ rw mine (lock-AreBlocked s _ refl b)
  | inr free ↦ rw free (move-AreBlocked s t downing s.lock other refl b)
]

release-AreBlocked :
    (s u : System) (t : Addr)
    → t ≢ s.kernel.idle_thread
    → (s.lock.holder == t) ≡ true
    → lock_release t s ≡ some u
    → AreBlocked s
    → AreBlocked u
unfolding lock_release
release-AreBlocked s u t other held r b = elim (Bool-cases (ltb 1 s.lock.holder_repeat_nm)) [
  | inl again ↦ subst AreBlocked (some_injective (sym (rw (held, again) refl) ∙ r)) (
      lock-AreBlocked s (record (s.lock) { holder_repeat_nm = s.lock.holder_repeat_nm - 1 }) refl b)
  | inr last ↦
      subst AreBlocked (some_injective (sym (rw (held, last) refl) ∙ r))
        (move-AreBlocked s t zeroed (record (s.lock) { holder_repeat_nm = 0 }) other refl b)
]

-- A call that gives one result gives no other.
same :
    {m : Option System} {u : System}
    → m ≡ some u
    → (w : System) × (m ≡ some w) × IsLocked w × AreBlocked w
    → IsSafe u
same r (w, e, v, b) = subst IsSafe (ground (arith, r, e)) (record { locked = v; blocks = b })

same_lock :
    {m : Option System} {u : System}
    → m ≡ some u
    → (w : System) × (m ≡ some w) × IsLocked w
    → IsLocked u
same_lock r (w, e, v) = subst IsLocked (ground (arith, r, e)) v

start-IsSafe : (k : Kernel) → IsScheduled k → IsSafe (start k)
unfolding lock_init
start-IsSafe k h = record {
  locked = start-IsLocked k;
  blocks = record {
    scheduled = h;
    asleep = (λ t here. absurd (ground arith));
    idle_outside = refl;
  };
}

Step-IsSafe : {s u : System} → Step s u → IsSafe s → IsSafe u
unfolding set_holder set_repeat clear_holder
Step-IsSafe {s} (acquire t runs real other e) i = record {
  locked = acquire-IsLocked _ t real e i.locked;
  blocks = acquire-AreBlocked _ t other i.blocks;
}
Step-IsSafe {s} (acquire_again t runs e) i = record {
  locked = again-IsLocked _ t e i.locked;
  blocks = acquire-AreBlocked _ t (ne_idle s t (rw e refl) i.blocks) i.blocks;
}
Step-IsSafe (down t u runs e r) i = same r (down-Safe _ t runs e i.locked i.blocks)
Step-IsSafe {s} (name t runs e) i = record {
  locked = name-IsLocked _ t e i.locked;
  blocks = move-AreBlocked s t named _ (ne_idle s t (rw e refl) i.blocks) refl i.blocks;
}
Step-IsSafe {s} (enter t runs e) i = record {
  locked = enter-IsLocked _ t e i.locked;
  blocks = move-AreBlocked s t inside _ (ne_idle s t (rw e refl) i.blocks) refl i.blocks;
}
Step-IsSafe {s} (release t u runs e r) i = record {
  locked = same_lock r (release-IsLocked _ t e i.locked);
  blocks =
      release-AreBlocked s u t (ne_idle s t (rw e refl) i.blocks) (held s t e i.locked) r i.blocks;
}
Step-IsSafe {s} (unname t runs e) i = record {
  locked = unname-IsLocked _ t e i.locked;
  blocks = move-AreBlocked s t dropped _ (ne_idle s t (rw e refl) i.blocks) refl i.blocks;
}
Step-IsSafe (up t u runs e r) i = same r (up-Safe _ t e i.locked i.blocks)
Step-IsSafe {s} (elsewhere k h idle stay) i = record {
  locked = IsLocked-set_kernel s k i.locked;
  blocks = record {
    scheduled = h;
    asleep = stay;
    idle_outside = ap s.pc idle ∙ i.blocks.idle_outside;
  };
}

-- Every state that the threads can reach is safe.
pub Reach-IsSafe : {s : System} → Reach s → IsSafe s
Reach-IsSafe (begin k h) = start-IsSafe k h
Reach-IsSafe (next r e) = Step-IsSafe e (Reach-IsSafe r)

-- Two threads that hold the lock in a reachable state are the same thread, and the lock names it.
pub holds_alone :
    (s : System)
    → Reach s
    → (t u : Addr) → s.pc t ≡ inside
    → s.pc u ≡ inside
    → (t ≡ u) × (s.lock.holder ≡ t)
holds_alone s r t u e f = (v.single t u (rw e refl) (rw f refl), v.holder t (rw e refl))
  where
    v : IsLocked s
    v = (Reach-IsSafe r).locked

-- The call that can fail where thread `t` stands, made by it.
abbrev pub next_call : Pc → Addr → System → Option System
next_call downing t s = sema_down t s
next_call inside t s = lock_release t s
next_call dropped t s = sema_up t s
next_call _ t s = some s

call_succeeds :
    (p : Pc) (t : Addr) (s : System)
    → s.kernel.cur ≡ t
    → s.pc t ≡ p
    → IsSafe s
    → (u : System) × (next_call p t s ≡ some u)
call_succeeds downing t s runs e i =
    let (u, d, _, _) = down-Safe s t runs e i.locked i.blocks in (u, d)
call_succeeds inside t s runs e i = let (u, d, _) = release-IsLocked s t e i.locked in (u, d)
call_succeeds dropped t s runs e i = let (u, d, _, _) = up-Safe s t e i.locked i.blocks in (u, d)
call_succeeds outside t s runs e i = (s, refl)
call_succeeds sleeping t s runs e i = (s, refl)
call_succeeds taken t s runs e i = (s, refl)
call_succeeds named t s runs e i = (s, refl)
call_succeeds zeroed t s runs e i = (s, refl)

-- In a reachable state, no call of `sema_down`, `lock_release` or `sema_up` that the running thread can make fails an
-- assertion, of its own or of `thread_block`, `schedule` or `thread_unlock` within it, or spins with interrupts off.
pub never_fails :
    (s : System) → Reach s → (u : System) × (next_call (s.pc s.kernel.cur) s.kernel.cur s ≡ some u)
never_fails s r = call_succeeds (s.pc s.kernel.cur) s.kernel.cur s refl refl (Reach-IsSafe r)

-- No wakeup is lost: in a reachable state where a thread waits, another thread is behind `sema_down`,
-- and its `sema_up` is to come, or the semaphore is free and a thread that was woken is at its test.
pub wakeup_pending :
    (s : System)
    → Reach s
    → s.lock.semaphore.waiters ≢ []
    → ((t : Addr) × (is_critical (s.pc t) ≡ true))
      ⊎ ((s.lock.semaphore.value ≡ 1) × ((t : Addr) × (s.pc t ≡ downing)))
wakeup_pending s r some_wait = elim (Bool-cases (s.lock.semaphore.value == 0)) [
  | inl zero ↦ inl (v.busy (ground arith))
  | inr one ↦ inr (ground (arith, v.bit), v.woken (ground (arith, v.bit)) some_wait)
]
  where
    v : IsLocked s
    v = (Reach-IsSafe r).locked
