-- ===== src/Files/Table.antt =====
-- The allocation of descriptors and of entries of the file table, and what closing them gives back.
use tie_zhu_os.Base.{
  ℕ, zero, suc, ◌+◌, ◌≤◌, ◌<◌, ◌≡◌, ◌≢◌, refl, ap, true, false, Option, none, some, ◌==◌, arith,
  Bool-cases, inl, inr, ℤ, pos, negsuc, is_minus_one, update,
}
use tie_zhu_os.LinkedList.{null}
use tie_zhu_os.Files.Defs.{
  Files, free_slot_loop, get_free_slot_in_file_table, fd_install_loop, pcb_fd_install,
}

-- The first of `n` entries from `i` on whose `fd_inode` is `NULL`.
abbrev pub FirstFree : ℕ → ℕ → Files → Option ℕ → Type 0
FirstFree i n s none = (j : ℕ) → i ≤ j → j < i + n → (s.file_table j).fd_inode ≢ null
FirstFree i n s (some g) =
    (i ≤ g)
    × (g < i + n)
    × ((s.file_table g).fd_inode ≡ null)
    × ((j : ℕ) → i ≤ j → j < g → (s.file_table j).fd_inode ≢ null)

further_free :
    (i n : ℕ) (s : Files) (r : Option ℕ)
    → (s.file_table i).fd_inode ≢ null
    → FirstFree (i + 1) n s r
    → FirstFree i (suc n) s r
further_free i n s none used f = λ j le lt. ground (arith, f j, ap s.file_table {x = i} {y = j})
further_free i n s (some g) used (le, lt, free, f) =
    (omega arith, omega arith, free, λ j a b. ground (arith, f j, ap s.file_table {x = i} {y = j}))

free_slot_loop_lem : (n i : ℕ) (s : Files) → FirstFree i n s (free_slot_loop n i s)
free_slot_loop_lem zero i s = λ j le lt. absurd (omega arith)
free_slot_loop_lem (suc n) i s = elim (Bool-cases ((s.file_table i).fd_inode == null)) [
  | inl free ↦ rw free (omega arith, omega arith, ground arith, λ j a b. absurd (omega arith))
  | inr used ↦ rw used (further_free i n s _ (ground arith) (free_slot_loop_lem n (i + 1) s))
]

-- `get_free_slot_in_file_table` gives the first of the entries 3 to 31 that is free, and runs off its
-- end just when none is.
pub get_free_slot_lem : (s : Files) → FirstFree 3 29 s (get_free_slot_in_file_table s)
unfolding get_free_slot_in_file_table
get_free_slot_lem s = free_slot_loop_lem 29 3 s

-- The installation of `g` at the first free one of `n` descriptors from `i` on.
abbrev pub Installs : ℕ → ℕ → ℕ → Files → ℤ → Files → Type 0
Installs i n g s (negsuc k) s1 =
    (k ≡ 0) × (s1 ≡ s) × ((j : ℕ) → i ≤ j → j < i + n → is_minus_one (s.fd_table j) ≡ false)
Installs i n g s (pos fd) s1 =
    (i ≤ fd)
    × (fd < i + n)
    × (is_minus_one (s.fd_table fd) ≡ true)
    × ((j : ℕ) → i ≤ j → j < fd → is_minus_one (s.fd_table j) ≡ false)
    × (s1 ≡ record s { fd_table = update s.fd_table fd (pos g) })

further-Installs :
    (i n g : ℕ) (s : Files) (r : ℤ) (s1 : Files)
    → is_minus_one (s.fd_table i) ≡ false
    → Installs (i + 1) n g s r s1
    → Installs i (suc n) g s r s1
further-Installs i n g s (negsuc k) s1 used (e, f, h) =
    (e, f, λ j le lt. ground (arith, h j, ap s.fd_table {x = i} {y = j}))
further-Installs i n g s (pos fd) s1 used (le, lt, free, h, e) =
    (omega arith, omega arith, free, λ j a b. ground (arith, h j, ap s.fd_table {x = i} {y = j}), e)

fd_install_loop_lem :
    (n i g : ℕ) (s : Files)
    → Installs i n g s (fd_install_loop n i g s).0 (fd_install_loop n i g s).1
fd_install_loop_lem zero i g s = (refl, refl, λ j le lt. absurd (omega arith))
fd_install_loop_lem (suc n) i g s = elim (Bool-cases (is_minus_one (s.fd_table i))) [
  | inl free ↦ rw free (omega arith, omega arith, free, λ j a b. absurd (omega arith), refl)
  | inr used ↦ rw used (further-Installs i n g s _ _ used (fd_install_loop_lem n (i + 1) g s))
]

-- `pcb_fd_install` installs the entry at the first free one of the descriptors 3 to 7 and changes
-- nothing else; it returns -1 and changes nothing just when none is free.
pub pcb_fd_install_lem :
    (g : ℕ) (s : Files) → Installs 3 5 g s (pcb_fd_install g s).0 (pcb_fd_install g s).1
unfolding pcb_fd_install
pcb_fd_install_lem g s = fd_install_loop_lem 5 3 g s
