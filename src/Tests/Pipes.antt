-- ===== src/Tests/Pipes.antt =====
-- A queue of three bytes and the pipe over it.
use tie_zhu_os.Base.{
  ℕ, ◌≡◌, ◌≢◌, refl, true, false, some, List, [], ◌∷◌, ltb, ◌==◌, if◌then◌else◌, arith, update, ℤ,
  pos, minus_one, replicate,
}
use tie_zhu_os.LinkedList.{null}
use tie_zhu_os.IoQueue.{IoQueue, ioq_getchar, ioq_putchar}
use tie_zhu_os.IoQueue.Contents.{IsQueue, contents, Gets, Puts, ioq_getchar-Gets, ioq_putchar-Puts}
use tie_zhu_os.Files.Defs.{Inode, Files, get_free_slot_in_file_table, fd_idx2global_ftable_idx}
use tie_zhu_os.Files.Pipe.{Moved, pipe_flag, pipe_of, pipe_write, sys_pipe, set_queue}
use tie_zhu_os.Files.Calls.{sys_close}
use tie_zhu_os.Files.Transfer.{Writes, pipe_write_lem, pipe_write_waits}
use tie_zhu_os.Files.Close.{IsPipeOf, IsFileOf, pipe_close_lem}
use tie_zhu_os.Files.Open.{sys_pipe_lem}

-- The bytes 10, 11 and 12, across the end of the buffer; thread 9 waits to write.
abbrev ring : IoQueue
ring = record {
  holder = null;
  producer = 9;
  consumer = null;
  buffer = (λ i. if i == 62 then 10 else (if i == 63 then 11 else 12));
  head = 1;
  tail = 62;
}

ring-IsQueue : IsQueue ring
ring-IsQueue = record { head_in = omega arith; tail_in = omega arith }

ioq_getchar-Gets_example : Gets 8 ring (ioq_getchar 8 ring)
ioq_getchar-Gets_example = ioq_getchar-Gets 8 ring ring-IsQueue

ioq_putchar-Puts_example : Puts 8 77 ring (ioq_putchar 8 77 ring)
ioq_putchar-Puts_example = ioq_putchar-Puts 8 77 ring ring-IsQueue

abbrev inode : Inode
inode = record { i_no = 4; i_bsize = 100; i_open_cnts = 1; write_deny = true; i_sectors = (λ k. 0) }

-- Descriptor 3 is a pipe, with its queue at 4096, and descriptor 4 a file, with its inode at 64.
abbrev files : Files
files = record {
  fd_table = (λ fd. if ltb fd 5 then pos fd else minus_one);
  file_table = (λ g.
      if g == 3
      then record { fd_pos = 1; fd_flag = pipe_flag; fd_inode = 4096 }
      else (if g == 4
          then record { fd_pos = 7; fd_flag = 1; fd_inode = 64 }
          else record { fd_pos = 0; fd_flag = 0; fd_inode = null }));
  inodes = (λ a. inode);
  open_inodes = 64 ∷ [];
  queues = (λ a. ring);
  freed = [];
}

pipe_of_three : pipe_of 3 files ≡ some 4096
unfolding fd_idx2global_ftable_idx
pipe_of_three = refl

pipe_write_lem_example :
    (m : Moved) × (pipe_write 8 3 (1 ∷ 2 ∷ []) files
      ≡ some (pos 2, m, set_queue 4096 m.queue files))
    × Writes (1 ∷ 2 ∷ []) ring m
pipe_write_lem_example =
    pipe_write_lem 8 3 4096 (1 ∷ 2 ∷ []) files pipe_of_three ring-IsQueue (omega arith)

abbrev sixty_one : List ℕ
sixty_one = replicate 61 5

pipe_write_waits_example :
    (n : ℤ) × (m : Moved) × (pipe_write 8 3 sixty_one files
      ≡ some (n, m, set_queue 4096 m.queue files))
    × (m.finished ≡ false)
pipe_write_waits_example =
    pipe_write_waits 8 3 4096 sixty_one files pipe_of_three ring-IsQueue (omega arith)

slot_five : get_free_slot_in_file_table files ≡ some 5
unfolding get_free_slot_in_file_table
slot_five = refl

sys_pipe_lem_example :
    (a : ℕ) × (b : ℕ) × (s1 : Files) × (sys_pipe 8192 files ≡ some (pos a, pos b, s1))
    × (a ≢ b)
    × IsPipeOf a 5 2 s1
    × IsPipeOf b 5 2 s1
    × ((s1.file_table 5).fd_inode ≡ 8192)
    × (contents (s1.queues 8192) ≡ [])
sys_pipe_lem_example =
    sys_pipe_lem 8192 5 5 6 files (ground arith) slot_five (omega arith, omega arith, refl)
      (omega arith, omega arith, refl) (ground arith)

three-IsPipeOf : IsPipeOf 3 3 1 files
three-IsPipeOf = record {
  able = omega arith;
  refers = refl;
  in_table = omega arith;
  flagged = refl;
  counts = refl;
}

pipe_close_lem_example :
    (s1 : Files) × (sys_close 3 files ≡ some (true, s1))
    × (s1.fd_table ≡ update files.fd_table 3 minus_one)
    × ((s1.file_table 3).fd_pos ≡ 0)
    × ((s1.file_table 3).fd_flag ≡ pipe_flag)
    × ((s1.file_table 3).fd_inode ≡ (if 0 == 0 then null else 4096))
    × (s1.freed ≡ (if 0 == 0 then 4096 ∷ [] else []))
    × ((j : ℕ) → j ≢ 3 → s1.file_table j ≡ files.file_table j)
pipe_close_lem_example = pipe_close_lem 3 3 0 files (omega arith) three-IsPipeOf

four-IsFileOf : IsFileOf 4 4 64 1 files
four-IsFileOf = record {
  able = omega arith;
  refers = refl;
  in_table = omega arith;
  plain = ground arith;
  object = refl;
  counts = refl;
}
