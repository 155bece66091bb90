-- ===== src/Files/Open.antt =====
-- What `sys_pipe` sets up.
use tie_zhu_os.Base.{
  ℕ, ◌≤◌, ◌<◌, ◌≡◌, ◌∙◌, ◌≢◌, refl, ap, subst, true, not, some, [], ◌==◌, >>=-some, >>-assert,
  arith, Bool-cases, inl, inr, ℤ, pos, negsuc, is_minus_one, update,
}
use tie_zhu_os.LinkedList.{Addr, null}
use tie_zhu_os.IoQueue.{ioqueue_init}
use tie_zhu_os.IoQueue.Contents.{contents}
use tie_zhu_os.Files.Defs.{
  Files, max_file_open, get_free_slot_in_file_table, pcb_fd_install, set_file,
}
use tie_zhu_os.Files.Pipe.{pipe_flag, sys_pipe, set_queue}
use tie_zhu_os.Files.Table.{FirstFree, Installs, pcb_fd_install_lem, get_free_slot_lem}
use tie_zhu_os.Files.Close.{IsPipeOf}

record Installed (a g : ℕ) (s : Files) : Type 0 where
  result : pcb_fd_install g s ≡ (pos a, record s { fd_table = update s.fd_table a (pos g) })
  low : 3 ≤ a
  high : a < 8
  was_free : is_minus_one (s.fd_table a) ≡ true

install_some :
    (g f : ℕ) (s : Files) (r : ℤ) (s1 : Files)
    → pcb_fd_install g s ≡ (r, s1)
    → Installs 3 5 g s r s1
    → 3 ≤ f
    → f < 8
    → is_minus_one (s.fd_table f) ≡ true
    → (a : ℕ) × Installed a g s
install_some g f s (negsuc k) s1 e (_, _, h) le lt free = absurd (ground (arith, h f))
install_some g f s (pos a) s1 e (low, high, free, _, r) le lt _ = (
  a,
  record { result = e ∙ ap (λ x. (pos a, x)) r; low = low; high = omega arith; was_free = free },
)

-- A descriptor is free in the table of a thread.
abbrev pub IsFree : ℕ → Files → Type 0
IsFree f s = (3 ≤ f) × (f < 8) × (is_minus_one (s.fd_table f) ≡ true)

install_next : (g f : ℕ) (s : Files) → IsFree f s → (a : ℕ) × Installed a g s
install_next g f s (le, lt, free) = install_some g f s _ _ refl (pcb_fd_install_lem g s) le lt free

install_two :
    (g f h : ℕ) (s : Files)
    → IsFree f s
    → IsFree h s
    → f ≢ h
    → (a : ℕ) × (b : ℕ) × Installed a g s
      × Installed b g (record s { fd_table = update s.fd_table a (pos g) })
install_two g f h s free_f free_h ne =
    let (a, i) = install_next g f s free_f in
    elim (Bool-cases (f == a)) [
      | inl same ↦
          let (b, j) =
            install_next g h (record s { fd_table = update s.fd_table a (pos g) })
              (free_h.0, free_h.1, ground (arith, free_h.2)) in
          (a, b, i, j)
      | inr other ↦
          let (b, j) =
            install_next g f (record s { fd_table = update s.fd_table a (pos g) })
              (free_f.0, free_f.1, ground (arith, free_f.2)) in
          (a, b, i, j)
    ]

abbrev with_pipe : Addr → ℕ → Files → Files
with_pipe page g s =
    set_file g (record { fd_pos = 2; fd_flag = pipe_flag; fd_inode = page })
      (set_queue page (ioqueue_init (λ i. 0)) s)

slot_in : (g : ℕ) (s : Files) → get_free_slot_in_file_table s ≡ some g → g < max_file_open
slot_in g s slot =
    let (_, lt, _, _) = subst (FirstFree 3 29 s) slot (get_free_slot_lem s) in omega arith

-- Where the file table has a free entry and the thread two free descriptors, `sys_pipe` gives two
-- different descriptors of one new pipe with an empty queue; the pipe counts both.
pub sys_pipe_lem :
    (page g f h : ℕ) (s : Files)
    → page ≢ null
    → get_free_slot_in_file_table s ≡ some g
    → IsFree f s
    → IsFree h s
    → f ≢ h
    → (a : ℕ) × (b : ℕ) × (s1 : Files) × (sys_pipe page s ≡ some (pos a, pos b, s1))
      × (a ≢ b)
      × IsPipeOf a g 2 s1
      × IsPipeOf b g 2 s1
      × ((s1.file_table g).fd_inode ≡ page)
      × (contents (s1.queues page) ≡ [])
unfolding sys_pipe ioqueue_init
sys_pipe_lem page g f h s real slot free_f free_h ne =
    let (a, b, i, j) = install_two g f h (with_pipe page g s) free_f free_h ne in
    (
      a,
      b,
      record (with_pipe page g s) { fd_table = update (update s.fd_table a (pos g)) b (pos g) },
      >>=-some _ slot
          (>>-assert {b = not (page == null)} (ground arith) (rw (i.result, j.result) refl)),
      ground (arith, j.was_free),
      record {
        able = omega (arith, i.low);
        refers = ground arith;
        in_table = slot_in g s slot;
        flagged = ground arith;
        counts = ground arith;
      },
      record {
        able = omega (arith, j.low);
        refers = ground arith;
        in_table = slot_in g s slot;
        flagged = ground arith;
        counts = ground arith;
      },
      ground arith,
      ground arith,
    )
