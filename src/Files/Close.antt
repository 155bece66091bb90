-- ===== src/Files/Close.antt =====
-- What `sys_close` gives back.
use tie_zhu_os.Base.{
  ℕ, suc, ◌^◌, ◌≤◌, ◌<◌, ◌≡◌, ◌≢◌, refl, true, false, some, ◌∷◌, ltb, if◌then◌else◌, ◌==◌, >>=-some,
  >>-assert, arith, pos, minus_one, update,
}
use tie_zhu_os.LinkedList.{null}
use tie_zhu_os.Thread.Defs.{without}
use tie_zhu_os.Files.Defs.{Files, max_file_open, fd_idx2global_ftable_idx, inode_close, file_close}
use tie_zhu_os.Files.Pipe.{is_pipe, pipe_flag}
use tie_zhu_os.Files.Calls.{sys_close, pipe_close, clear_fd}

fd_lookup :
    (fd g : ℕ) (s : Files)
    → s.fd_table fd ≡ pos g
    → g < max_file_open
    → fd_idx2global_ftable_idx fd s ≡ some g
unfolding fd_idx2global_ftable_idx
fd_lookup fd g s e lt = rw e (>>-assert (ground arith) refl)

is_pipe_lookup :
    (fd g : ℕ) (s : Files)
    → s.fd_table fd ≡ pos g
    → g < max_file_open
    → is_pipe fd s ≡ some ((s.file_table g).fd_flag == pipe_flag)
unfolding is_pipe
is_pipe_lookup fd g s e lt = >>=-some _ (fd_lookup fd g s e lt) refl

close_open :
    (fd g : ℕ) (s : Files)
    → 2 ≤ fd
    → s.fd_table fd ≡ pos g
    → g < max_file_open
    → sys_close fd s
      ≡ some (
        true,
        clear_fd fd
            (if (s.file_table g).fd_flag == pipe_flag then pipe_close g s else file_close g s),
      )
unfolding sys_close
close_open fd g s le e lt =
    rw can (>>=-some _ (fd_lookup fd g s e lt) (>>=-some _ (is_pipe_lookup fd g s e lt) refl))
  where
    can : ltb fd 2 ≡ false
    can = ground arith

-- A descriptor `fd` of entry `g`, which is a pipe with `n` descriptors.
pub record IsPipeOf (fd g n : ℕ) (s : Files) : Type 0 where
  pub able : 2 ≤ fd
  pub refers : s.fd_table fd ≡ pos g
  pub in_table : g < max_file_open
  pub flagged : (s.file_table g).fd_flag ≡ pipe_flag
  pub counts : (s.file_table g).fd_pos ≡ n

-- Closing a descriptor of a pipe succeeds and frees the descriptor. The count goes down by one; with
-- the last descriptor, and no earlier, the buffer is given back and the entry of the table is free.
pub pipe_close_lem :
    (fd g n : ℕ) (s : Files)
    → n < 2 ^ 32
    → IsPipeOf fd g (suc n) s
    → (s1 : Files) × (sys_close fd s ≡ some (true, s1))
      × (s1.fd_table ≡ update s.fd_table fd minus_one)
      × ((s1.file_table g).fd_pos ≡ n)
      × ((s1.file_table g).fd_flag ≡ pipe_flag)
      × ((s1.file_table g).fd_inode ≡ (if n == 0 then null else (s.file_table g).fd_inode))
      × (s1.freed ≡ (if n == 0 then (s.file_table g).fd_inode ∷ s.freed else s.freed))
      × ((j : ℕ) → j ≢ g → s1.file_table j ≡ s.file_table j)
unfolding pipe_close
pipe_close_lem fd g n s small p = (
  clear_fd fd (pipe_close g s),
  rw (close_open fd g s p.able p.refers p.in_table, flag) refl,
  ground (arith, p.counts),
  ground (arith, p.counts),
  ground (arith, p.counts, p.flagged),
  ground (arith, p.counts),
  ground (arith, p.counts),
  λ j ne. ground (arith, p.counts),
)
  where
    flag : ((s.file_table g).fd_flag == pipe_flag) ≡ true
    flag = ground (arith, p.flagged)

-- A descriptor `fd` of entry `g`, which is the file `a` that is open `n` times.
pub record IsFileOf (fd g a n : ℕ) (s : Files) : Type 0 where
  pub able : 2 ≤ fd
  pub refers : s.fd_table fd ≡ pos g
  pub in_table : g < max_file_open
  pub plain : (s.file_table g).fd_flag ≢ pipe_flag
  pub object : (s.file_table g).fd_inode ≡ a
  pub counts : (s.inodes a).i_open_cnts ≡ n

-- Closing a descriptor of a file succeeds, frees the descriptor and its entry of the table and lets
-- others write the file. Its open count goes down by one; at zero, and not before, the inode leaves
-- the list of open inodes and is given back.
pub file_close_lem :
    (fd g a n : ℕ) (s : Files)
    → n < 2 ^ 32
    → IsFileOf fd g a (suc n) s
    → (s1 : Files) × (sys_close fd s ≡ some (true, s1))
      × (s1.fd_table ≡ update s.fd_table fd minus_one)
      × ((s1.file_table g).fd_inode ≡ null)
      × ((s1.inodes a).i_open_cnts ≡ n)
      × ((s1.inodes a).write_deny ≡ false)
      × (s1.open_inodes ≡ (if n == 0 then without a s.open_inodes else s.open_inodes))
      × (s1.freed ≡ (if n == 0 then a ∷ s.freed else s.freed))
unfolding file_close inode_close
file_close_lem fd g a n s small p = (
  clear_fd fd (file_close g s),
  rw (close_open fd g s p.able p.refers p.in_table, flag) refl,
  ground (arith, p.counts),
  ground (arith, p.counts),
  ground (arith, p.counts, p.object),
  ground (arith, p.counts, p.object),
  ground (arith, p.counts, p.object),
  ground (arith, p.counts, p.object),
)
  where
    flag : ((s.file_table g).fd_flag == pipe_flag) ≡ false
    flag = ground (arith, p.plain)
