-- ===== src/Process/Exit.antt =====
-- The exit status of a process reaches the parent that waits for it.
use tie_zhu_os.Base.{
  ℕ, ◌≡◌, ◌≢◌, refl, ap, sym, ◌∙◌, subst, true, false, some, List, [], ◌∷◌, ℤ, pos, ◌==◌, >>=-some,
  arith, Bool-cases, inl, inr,
}
use mathlib.Core.Path.{ap₂}
use tie_zhu_os.LinkedList.{Addr, null}
use tie_zhu_os.LinkedList.Chain.{has}
use tie_zhu_os.Thread.Defs.{
  hanging, waiting, died, Kernel, Task, set_task, without, thread_exit, reap, find_pid, pid2thread,
}
use tie_zhu_os.Thread.Invariant.{IsScheduled, status_of}
use tie_zhu_os.Files.Defs.{Files}
use tie_zhu_os.Paging.Defs.{Paging}
use tie_zhu_os.Process.{
  Machine, is_hanging, is_pid, find_child, find_hanging_child, first_thread, parent_thread,
  adopt_one, adopt_children, release_prog_resource, int8_of, leave, reaped, wait_for, sys_exit,
  sys_wait,
}
use tie_zhu_os.Process.Waiting.{first_thread_finds, HungUp, hang_up-HungUp}

-- What the adoption of the children of `pid` changes: only numbers of parents.
record Adopted (pid : ℕ) (k k1 : Kernel) : Type 0 where
  rest : k1 ≡ record k { task = k1.task }
  status : (t : Addr) → status_of k1 t ≡ status_of k t
  number : (t : Addr) → (k1.task t).pid ≡ (k.task t).pid
  exit : (t : Addr) → (k1.task t).exit_status ≡ (k.task t).exit_status
  parent :
      (t : Addr)
      → is_pid (k.task t).parent_pid pid ≡ false
      → (k1.task t).parent_pid ≡ (k.task t).parent_pid

adopt_one-Adopted : (pid : ℕ) (t : Addr) (k : Kernel) → Adopted pid k (adopt_one pid t k)
adopt_one-Adopted pid t k = elim (Bool-cases (is_pid (k.task t).parent_pid pid)) [
  | inl child ↦ rw child (record {
    rest = refl;
    status = λ u. ground (arith, ap (status_of k) {x = t} {y = u});
    number = λ u. ground (arith, ap (λ w. (k.task w).pid) {x = t} {y = u});
    exit = λ u. ground (arith, ap (λ w. (k.task w).exit_status) {x = t} {y = u});
    parent = λ u h. elim (Bool-cases (t == u)) [
      | inl same ↦ absurd (
          ground (
            arith,
            child,
            h,
            ap (λ w. is_pid (k.task w).parent_pid pid) {x = t} {y = u} (ground (arith, same)),
          ))
      | inr apart ↦ ground (arith, apart)
    ];
  })
  | inr other ↦ rw other (record {
    rest = refl;
    status = λ u. refl;
    number = λ u. refl;
    exit = λ u. refl;
    parent = λ u h. refl;
  })
]

adopt_children-Adopted :
    (pid : ℕ) (ts : List Addr) (k : Kernel) → Adopted pid k (adopt_children pid ts k)
unfolding adopt_children
adopt_children-Adopted pid [] k = record {
  rest = refl;
  status = λ u. refl;
  number = λ u. refl;
  exit = λ u. refl;
  parent = λ u h. refl;
}
adopt_children-Adopted pid (t ∷ ts) k =
    let a = adopt_one-Adopted pid t k in
    let b = adopt_children-Adopted pid ts (adopt_one pid t k) in
    record {
      rest =
          b.rest
          ∙ ap {A = Kernel}
              (λ q. record q { task = (adopt_children pid ts (adopt_one pid t k)).task }) a.rest;
      status = λ u. b.status u ∙ a.status u;
      number = λ u. b.number u ∙ a.number u;
      exit = λ u. b.exit u ∙ a.exit u;
      parent = λ u h. b.parent u (ap (λ q. is_pid q pid) (a.parent u h) ∙ h) ∙ a.parent u h;
    }

-- `leave` keeps the schedule, and sets the status.
record Left (status : ℤ) (k k1 : Kernel) : Type 0 where
  rest : k1 ≡ record k { task = k1.task }
  state : (t : Addr) → status_of k1 t ≡ status_of k t
  number : (t : Addr) → (k1.task t).pid ≡ (k.task t).pid
  exit : (k1.task k.cur).exit_status ≡ int8_of status
  parent :
      is_pid (k.task k.cur).parent_pid (k.task k.cur).pid ≡ false
      → (k1.task k.cur).parent_pid ≡ (k.task k.cur).parent_pid

leave-Left : (status : ℤ) (k : Kernel) → Left status k (leave status k)
unfolding leave
leave-Left status k =
    let k1 = set_task k.cur (record (k.task k.cur) { exit_status = int8_of status }) k in
    let a = adopt_children-Adopted (k.task k.cur).pid k.thread_all_list k1 in
    record {
      rest = a.rest;
      state = λ t. a.status t ∙ ground (arith, ap (status_of k) {x = k.cur} {y = t});
      number = λ t. a.number t ∙ ground (arith, ap (λ w. (k.task w).pid) {x = k.cur} {y = t});
      exit = a.exit k.cur ∙ ground arith;
      parent = λ h. a.parent k.cur (ground (arith, h)) ∙ ground arith;
    }

Left-IsScheduled : (status : ℤ) (k k1 : Kernel) → Left status k k1 → IsScheduled k → IsScheduled k1
Left-IsScheduled status k k1 l v = subst IsScheduled (sym l.rest) (record {
  cur_running = l.state k.cur ∙ v.cur_running;
  cur_out = v.cur_out;
  distinct = v.distinct;
  active = λ t h. rw (l.state t) (v.active t h);
  idle = λ h. rw (l.state k.idle_thread) (v.idle h);
})

-- A wait of the thread `p` where the child `c` is the only thread that hangs.
module _ (k : Kernel) (c : Addr) (listed : has c k.thread_all_list ≡ true)
    (hangs : status_of k c ≡ hanging)
    (child : is_pid (k.task c).parent_pid (k.task k.cur).pid ≡ true)
    (alone : (t : Addr) → t ≢ c → is_hanging (status_of k t) ≡ false) where
  finds_child : first_thread (find_hanging_child k (k.task k.cur).pid) k.thread_all_list ≡ some c
  finds_child =
      let (u, e, _, pass) =
        first_thread_finds (find_hanging_child k (k.task k.cur).pid) k.thread_all_list c listed
          (rw (child, hangs) refl) in
      elim (Bool-cases (u == c)) [
        | inl same ↦ e ∙ ap some (ground (arith, same))
        | inr other ↦ absurd (ground (arith, pass, alone u (ground (arith, other))))
      ]

  waits_for_child : sys_wait k ≡ some (reaped (k.task c).pid (k.task c).exit_status (reap c k))
  unfolding sys_wait thread_exit
  waits_for_child =
      ap (λ t. wait_for t (first_thread (find_child k (k.task k.cur).pid) k.thread_all_list) k)
        finds_child

reap_unlists :
    (c : Addr) (k : Kernel)
    → ((reap c k).thread_all_list ≡ without c k.thread_all_list) × (status_of (reap c k) c ≡ died)
unfolding reap
reap_unlists c k = (ground arith, ground arith)

find_pid_same :
    (task task' : Addr → Task) (pid : ℕ) (ts : List Addr)
    → ((t : Addr) → (task t).pid ≡ (task' t).pid)
    → find_pid task pid ts ≡ find_pid task' pid ts
unfolding find_pid
find_pid_same task task' pid [] same = refl
find_pid_same task task' pid (t ∷ ts) same =
    ground (arith, same t, find_pid_same task task' pid ts same)

Left-parent :
    (status : ℤ) (k k1 : Kernel) (pid : ℕ) → Left status k k1 → pid2thread pid k1 ≡ pid2thread pid k
unfolding pid2thread
Left-parent status k k1 pid l =
    ap (λ q. find_pid k1.task pid q.thread_all_list) l.rest
    ∙ find_pid_same k1.task k.task pid k.thread_all_list l.number

not_same_pid : (a b : ℕ) → a ≢ b → is_pid (pos a) b ≡ false
not_same_pid a b other = ground (arith, other)

same_pid : (a b : ℕ) → a ≡ b → is_pid (pos a) b ≡ true
same_pid a b same = ground (arith, same)

-- The parent's `sys_wait` after the process of `k` has left and hangs.
module _ (status : ℤ) (k k1 k2 : Kernel) (p : Addr) (l : Left status k k1)
    (listed : has k.cur k.thread_all_list ≡ true)
    (child_of : (k1.task k.cur).parent_pid ≡ pos (k.task p).pid)
    (none_hangs : (t : Addr) → is_hanging (status_of k t) ≡ false) (same_cur : k1.cur ≡ k.cur)
    (same_all : k1.thread_all_list ≡ k.thread_all_list) (u : HungUp k1 p k2) where
  child_hangs : status_of k2 k.cur ≡ hanging
  child_hangs = ap (status_of k2) (sym same_cur) ∙ u.hangs

  child_listed : has k.cur k2.thread_all_list ≡ true
  child_listed = ap (has k.cur) (u.listed ∙ same_all) ∙ listed

  child_of_runner : is_pid (k2.task k.cur).parent_pid (k2.task k2.cur).pid ≡ true
  child_of_runner =
      ap (λ q. is_pid q (k2.task k2.cur).pid) (u.parents k.cur ∙ child_of)
      ∙ same_pid _ _ (sym (l.number p) ∙ sym (u.pids p) ∙ ap (λ t. (k2.task t).pid) (sym u.runs))

  only_child : (t : Addr) → t ≢ k.cur → is_hanging (status_of k2 t) ≡ false
  only_child t other = elim (Bool-cases (t == p)) [
    | inl same ↦ ap is_hanging (
        ap (status_of k2) (ground (arith, same))
        ∙ ap (status_of k2) (sym u.runs)
        ∙ u.scheduled.cur_running)
    | inr apart ↦
        ap is_hanging (u.others t (λ e. other (e ∙ same_cur)) (ground (arith, apart)) ∙ l.state t)
        ∙ none_hangs t
  ]

  waits_for_status : sys_wait k2 ≡ some (reaped (k.task k.cur).pid (int8_of status) (reap k.cur k2))
  waits_for_status =
      waits_for_child k2 k.cur child_listed child_hangs child_of_runner only_child
      ∙ ap₂ (λ n st. some (reaped n st (reap k.cur k2))) (u.pids k.cur ∙ l.number k.cur)
          (u.statuses k.cur ∙ l.exit)

  reaped_list : (reap k.cur k2).thread_all_list ≡ without k.cur k.thread_all_list
  reaped_list = (reap_unlists k.cur k2).0 ∙ ap (without k.cur) (u.listed ∙ same_all)

-- A process whose parent waits, where no other thread hangs and the release of the process's own resources fails no
-- assertion, exits: the parent runs next, its `sys_wait` gives the number of the process and what is left of its exit
-- status in 8 bits with a sign, and the process leaves the list of all threads.
pub sys_exit-sys_wait :
    (status : ℤ) (bits : ℕ) (m : Machine) (s : Paging) (f : Files) (p : Addr)
    → IsScheduled m.kernel
    → has m.kernel.cur m.kernel.thread_all_list ≡ true
    → p ≢ null
    → status_of m.kernel p ≡ waiting
    → (m.kernel.task m.kernel.cur).parent_pid ≡ pos (m.kernel.task p).pid
    → pid2thread (m.kernel.task p).pid m.kernel ≡ p
    → (m.kernel.task p).pid ≢ (m.kernel.task m.kernel.cur).pid
    → ((t : Addr) → is_hanging (status_of m.kernel t) ≡ false)
    → release_prog_resource bits (record m { kernel = leave status m.kernel }) ≡ some (s, f)
    → (m2 : Machine) × (k3 : Kernel) × (sys_exit status bits m ≡ some m2)
      × (m2.kernel.cur ≡ p)
      × (sys_wait m2.kernel ≡ some (reaped (m.kernel.task m.kernel.cur).pid (int8_of status) k3))
      × (k3.thread_all_list ≡ without m.kernel.cur m.kernel.thread_all_list)
      × (status_of k3 m.kernel.cur ≡ died)
unfolding sys_exit
sys_exit-sys_wait status bits m s f p v listed real sleeps parent found other none_hangs released =
    let k = m.kernel in
    let k1 = leave status k in
    let l = leave-Left status k in
    let child_of =
      l.parent (ap (λ q. is_pid q (k.task k.cur).pid) parent ∙ not_same_pid _ _ other) ∙ parent in
    let same_cur : k1.cur ≡ k.cur = ap {A = Kernel} {B = Addr} (λ q. q.cur) l.rest in
    let parent_of : parent_thread (k1.task k1.cur).parent_pid k1 ≡ p =
      ap (λ t. parent_thread (k1.task t).parent_pid k1) same_cur
      ∙ ap (λ q. parent_thread q k1) child_of
      ∙ Left-parent status k k1 (k.task p).pid l
      ∙ found in
    let (k2, hung, u) =
      hang_up-HungUp k1 p (Left-IsScheduled status k k1 l v) parent_of real (l.state p ∙ sleeps) in
    let same_all : k1.thread_all_list ≡ k.thread_all_list =
      ap {A = Kernel} {B = List Addr} (λ q. q.thread_all_list) l.rest in
    (
      record { kernel = k2; files = f; paging = s },
      reap k.cur k2,
      >>=-some _ released (>>=-some _ hung refl),
      u.runs,
      waits_for_status status k k1 k2 p l listed child_of none_hangs same_cur same_all u,
      reaped_list status k k1 k2 p l listed child_of none_hangs same_cur same_all u,
      (reap_unlists k.cur k2).1,
    )
