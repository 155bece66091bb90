-- ===== src/Sync/Keep.antt =====
-- The steps of a lock's critical section and of its semaphore keep the invariant.
use tie_zhu_os.Base.{
  ◌+◌, ◌-◌, ltb, subst, ◌≡◌, refl, ◌≢◌, inl, inr, true, some, List, [], ◌∷◌, ◌++◌, arith, ◌==◌,
  Bool-cases, update,
}
use tie_zhu_os.LinkedList.{Addr, null}
use tie_zhu_os.LinkedList.Chain.{Distinct, has-append}
use tie_zhu_os.Sync.Defs.{
  Pc, outside, downing, sleeping, taken, named, inside, zeroed, dropped, System, Lock, set_holder,
  set_repeat, lock_release, clear_holder, woken, move, set_sem,
}
use tie_zhu_os.Thread.Invariant.{Distinct-concat}
use tie_zhu_os.Sync.Invariant.{IsLocked, is_critical, is_holder, is_sleeping}

-- A step within the critical section leaves the semaphore alone.
critical_move :
    (s : System) (t : Addr) (p : Pc) (l : Lock)
    → is_critical (s.pc t) ≡ true
    → is_critical p ≡ true
    → l.semaphore ≡ s.lock.semaphore
    → ((u : Addr) → is_holder (update s.pc t p u) ≡ true → l.holder ≡ u)
    → (l.holder ≢ null → is_holder (update s.pc t p l.holder) ≡ true)
    → IsLocked s
    → IsLocked (record { lock = l; pc = update s.pc t p; kernel = s.kernel })
critical_move s t p l c cp e is_named names v = record {
  bit = rw e v.bit;
  free = λ one. absurd (ground (arith, v.free (rw e at one) t));
  busy = λ zero. (t, ground arith);
  single = λ u w. ground (arith, v.single u w, v.single t w, v.single u t);
  holder = is_named;
  named = names;
  waiting = λ u. rw e (ground (arith, v.waiting u));
  distinct = rw e v.distinct;
  woken = λ one. absurd (ground (arith, v.free (rw e at one) t));
  real = ground (arith, v.real);
}

-- No other thread is the holder, and the holder is the one critical thread.
sole-holder :
    (s : System) (t u : Addr)
    → is_critical (s.pc t) ≡ true
    → is_holder (s.pc u) ≡ true
    → IsLocked s
    → u ≡ t
sole-holder s t u c h v = v.single u t (ground arith) c

pub name-IsLocked :
    (s : System) (t : Addr) → s.pc t ≡ taken → IsLocked s → IsLocked (set_holder t s)
unfolding set_holder
name-IsLocked s t e v =
    critical_move s t named _ (rw e refl) refl refl
      (λ u h. ground (arith, sole-holder s t u (rw e refl))) (λ h. ground arith) v

pub enter-IsLocked :
    (s : System) (t : Addr) → s.pc t ≡ named → IsLocked s → IsLocked (set_repeat t s)
unfolding set_repeat
enter-IsLocked s t e v =
    critical_move s t inside _ (rw e refl) refl refl (λ u h. ground (arith, v.holder u, v.holder t))
      (λ h. ground (arith, v.named h)) v

pub held : (s : System) (t : Addr) → s.pc t ≡ inside → IsLocked s → (s.lock.holder == t) ≡ true
held s t e v = ground (arith, v.holder t)

-- The holder's release does not fail, on either branch.
pub release-IsLocked :
    (s : System) (t : Addr)
    → s.pc t ≡ inside
    → IsLocked s
    → (u : System) × (lock_release t s ≡ some u) × IsLocked u
unfolding lock_release
release-IsLocked s t e v = elim (Bool-cases (ltb 1 s.lock.holder_repeat_nm)) [
  | inl again ↦ (
    record s { lock = record (s.lock) { holder_repeat_nm = s.lock.holder_repeat_nm - 1 } },
    rw (held s t e v, again) refl,
    record {
      bit = v.bit;
      free = v.free;
      busy = v.busy;
      single = v.single;
      holder = v.holder;
      named = v.named;
      waiting = v.waiting;
      distinct = v.distinct;
      woken = v.woken;
      real = v.real;
    },
  )
  | inr last ↦ (
    move t zeroed (record s { lock = record (s.lock) { holder_repeat_nm = 0 } }),
    rw (held s t e v, last) refl,
    critical_move s t zeroed (record (s.lock) { holder_repeat_nm = 0 }) (rw e refl) refl refl
        (λ w h. ground (arith, v.holder w, v.holder t)) (λ h. ground (arith, v.named h)) v,
  )
]

pub unname-IsLocked :
    (s : System) (t : Addr) → s.pc t ≡ zeroed → IsLocked s → IsLocked (clear_holder t s)
unfolding clear_holder
unname-IsLocked s t e v =
    critical_move s t dropped _ (rw e refl) refl refl
      (λ u h. ground (arith, sole-holder s t u (rw e refl))) (λ h. absurd (h refl)) v

pub down_waits :
    (s : System) (t : Addr)
    → s.pc t ≡ downing
    → s.lock.semaphore.value ≡ 0
    → IsLocked s
    → IsLocked (
        move t sleeping
          (set_sem (record (s.lock.semaphore) { waiters = s.lock.semaphore.waiters ++ t ∷ [] }) s))
down_waits s t e zero v = record {
  bit = v.bit;
  free = λ one. absurd (omega arith);
  busy = λ z. let (u, c) = v.busy z in (u, ground arith);
  single = λ u w. ground (arith, v.single u w);
  holder = λ u. ground (arith, v.holder u);
  named = λ h. ground (arith, v.named h);
  waiting = λ u. ground (arith, v.waiting u, has-append u s.lock.semaphore.waiters (t ∷ []));
  distinct = Distinct-concat t s.lock.semaphore.waiters v.distinct (ground (arith, v.waiting t));
  woken = λ one. absurd (omega arith);
  real = ground (arith, v.real);
}

pub down_takes :
    (s : System) (t : Addr)
    → s.pc t ≡ downing
    → s.lock.semaphore.value ≡ 1
    → IsLocked s
    → IsLocked (
        move t taken (set_sem (record (s.lock.semaphore) { value = s.lock.semaphore.value - 1 }) s))
down_takes s t e one v = record {
  bit = omega arith;
  free = λ h. absurd (omega arith);
  busy = λ z. (t, ground arith);
  single = λ u w. ground (arith, v.free one u, v.free one w);
  holder = λ u. ground (arith, v.free one u);
  named = λ h. ground (arith, v.named h, v.free one s.lock.holder);
  waiting = λ u. ground (arith, v.waiting u);
  distinct = v.distinct;
  woken = λ h. absurd (omega arith);
  real = ground (arith, v.real);
}

pub critical-zero :
    (s : System) (t : Addr) → is_critical (s.pc t) ≡ true → IsLocked s → s.lock.semaphore.value ≡ 0
critical-zero s t c v = elim (Bool-cases (s.lock.semaphore.value == 0)) [
  | inl zero ↦ ground arith
  | inr more ↦ absurd (cc (c, v.free (ground (arith, v.bit)) t))
]

pub up_alone :
    (s : System) (t : Addr)
    → s.pc t ≡ dropped
    → s.lock.semaphore.value ≡ 0
    → s.lock.semaphore.waiters ≡ []
    → IsLocked s
    → IsLocked (
        move t outside
          (set_sem (record (s.lock.semaphore) { value = s.lock.semaphore.value + 1 }) s))
up_alone s t e zero empty v = record {
  bit = omega arith;
  free = λ h u. ground (arith, v.single u t);
  busy = λ h. absurd (omega arith);
  single = λ u w. ground (arith, v.single u w, v.single t w, v.single u t);
  holder = λ u. ground (arith, v.holder u);
  named = λ h. ground (arith, v.named h);
  waiting = λ u. ground (arith, v.waiting u);
  distinct = v.distinct;
  woken = λ h some. absurd (some empty);
  real = ground (arith, v.real);
}

pub up_wakes :
    (s : System) (t x : Addr) (xs : List Addr)
    → s.pc t ≡ dropped
    → s.lock.semaphore.value ≡ 0
    → s.lock.semaphore.waiters ≡ x ∷ xs
    → IsLocked s
    → IsLocked (
        move t outside
          (set_sem (record { value = s.lock.semaphore.value + 1; waiters = xs }) (woken x xs s)))
up_wakes s t x xs e zero w v = record {
  bit = omega arith;
  free = λ h u. ground (arith, v.single u t, sleeps);
  busy = λ h. absurd (omega arith);
  single = λ u w. ground (arith, v.single u w, v.single t w, v.single u t, sleeps);
  holder = λ u. ground (arith, v.holder u, sleeps);
  named = λ h. ground (arith, v.named h, sleeps);
  waiting = λ u. ground (arith, v.waiting u, sleeps, d);
  distinct = d.1;
  woken = λ h some. (x, ground (arith, sleeps));
  real = ground (arith, v.real, sleeps);
}
  where
    sleeps : is_sleeping (s.pc x) ≡ true
    sleeps = ground (arith, v.waiting x, w)

    d : Distinct (x ∷ xs)
    d = subst Distinct w v.distinct
