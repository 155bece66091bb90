-- ===== src/Sync/Invariant.antt =====
-- The invariant of a lock that threads share, and that every step keeps it.
use tie_zhu_os.Base.{
  ◌≤◌, ◌≡◌, refl, ◌≢◌, ap, inl, inr, Bool, true, false, [], arith, ◌==◌, Bool-cases,
}
use tie_zhu_os.LinkedList.{Addr, null}
use tie_zhu_os.LinkedList.Chain.{has, Distinct}
use tie_zhu_os.Thread.Defs.{Kernel}
use tie_zhu_os.Sync.Defs.{
  Pc, outside, downing, sleeping, taken, named, inside, zeroed, dropped, System, lock_init,
  lock_acquire, set_kernel,
}
use tie_zhu_os.Sync.Steps.{start}

-- Between `sema_down` and `sema_up`.
abbrev pub is_critical : Pc → Bool
is_critical taken = true
is_critical named = true
is_critical inside = true
is_critical zeroed = true
is_critical dropped = true
is_critical _ = false

-- Named as the holder.
abbrev pub is_holder : Pc → Bool
is_holder named = true
is_holder inside = true
is_holder zeroed = true
is_holder _ = false

abbrev pub is_sleeping : Pc → Bool
is_sleeping sleeping = true
is_sleeping _ = false

pub record IsLocked (s : System) : Type 0 where
  pub bit : s.lock.semaphore.value ≤ 1
  pub free : s.lock.semaphore.value ≡ 1 → (t : Addr) → is_critical (s.pc t) ≡ false
  pub busy : s.lock.semaphore.value ≡ 0 → (t : Addr) × (is_critical (s.pc t) ≡ true)
  pub single : (t u : Addr) → is_critical (s.pc t) ≡ true → is_critical (s.pc u) ≡ true → t ≡ u
  pub holder : (t : Addr) → is_holder (s.pc t) ≡ true → s.lock.holder ≡ t
  pub named : s.lock.holder ≢ null → is_holder (s.pc s.lock.holder) ≡ true
  pub waiting : (t : Addr) → has t s.lock.semaphore.waiters ≡ is_sleeping (s.pc t)
  pub distinct : Distinct s.lock.semaphore.waiters
  pub woken :
      s.lock.semaphore.value ≡ 1 → s.lock.semaphore.waiters ≢ [] → (t : Addr) × (s.pc t ≡ downing)
  pub real : s.pc null ≡ outside

pub start-IsLocked : (k : Kernel) → IsLocked (start k)
unfolding lock_init
start-IsLocked k = record {
  bit = ground arith;
  free = λ e t. refl;
  busy = λ e. absurd (ground arith);
  single = λ t u h k. absurd (ground arith);
  holder = λ t h. absurd (ground arith);
  named = λ h. absurd (h refl);
  waiting = λ t. refl;
  distinct = tt;
  woken = λ e h. absurd (h refl);
  real = refl;
}

-- The invariant is about the lock and where the threads are.
pub IsLocked-set_kernel : (s : System) (k : Kernel) → IsLocked s → IsLocked (set_kernel k s)
IsLocked-set_kernel s k v = record {
  bit = v.bit;
  free = v.free;
  busy = v.busy;
  single = v.single;
  holder = v.holder;
  named = v.named;
  waiting = v.waiting;
  distinct = v.distinct;
  woken = v.woken;
  real = v.real;
}

-- The holder, and every thread in its critical section, is a thread.
critical-ne-null : {s : System} → IsLocked s → (t : Addr) → is_critical (s.pc t) ≡ true → t ≢ null
critical-ne-null {s} v t h e = ground (arith, v.real, ap s.pc e)

pub acquire-IsLocked :
    (s : System) (t : Addr) → t ≢ null → s.pc t ≡ outside → IsLocked s → IsLocked (lock_acquire t s)
unfolding lock_acquire
acquire-IsLocked s t real e v = elim (Bool-cases (s.lock.holder == t)) [
  | inl mine ↦ absurd (ground (arith, v.named, ap s.pc {x = s.lock.holder} {y = t}))
  | inr other ↦ rw other (record {
    bit = v.bit;
    free = λ one u. ground (arith, v.free one u);
    busy = λ zero. let (u, c) = v.busy zero in (u, ground arith);
    single = λ u w. ground (arith, v.single u w);
    holder = λ u. ground (arith, v.holder u);
    named = λ h. ground (arith, v.named h);
    waiting = λ u. ground (arith, v.waiting u);
    distinct = v.distinct;
    woken = λ one some. (t, ground arith);
    real = ground (arith, v.real);
  })
]

pub again-IsLocked :
    (s : System) (t : Addr) → s.pc t ≡ inside → IsLocked s → IsLocked (lock_acquire t s)
unfolding lock_acquire
again-IsLocked s t e v = rw (mine s t e v) (record {
  bit = v.bit;
  free = v.free;
  busy = v.busy;
  single = v.single;
  holder = v.holder;
  named = v.named;
  waiting = v.waiting;
  distinct = v.distinct;
  woken = v.woken;
  real = v.real;
})
  where
    mine : (s : System) (t : Addr) → s.pc t ≡ inside → IsLocked s → (s.lock.holder == t) ≡ true
    mine s t e v = ground (arith, v.holder t)
