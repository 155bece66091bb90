-- ===== src/Fs/Io.antt =====
-- `sys_write` and `sys_read` of fs/fs.c: a descriptor leads to a pipe, the console or keyboard, or a file.
use tie_zhu_os.Base.{
  ℕ, ◌-◌, ◌^◌, Bool, true, not, ◌||◌, Option, none, some, List, [], ◌∷◌, length, ltb, ◌==◌,
  if◌then◌else◌, ◌>>=◌, ◌>>◌, assert, ℤ, pos, negsuc, minus_one,
}
use tie_zhu_os.LinkedList.{Addr}
use tie_zhu_os.IoQueue.{IoQueue}
use tie_zhu_os.Files.Defs.{fd_idx2global_ftable_idx, set_inode, set_file}
use tie_zhu_os.Files.Pipe.{Moved, read_loop, is_pipe, pipe_read, pipe_write}
use tie_zhu_os.Fs.Transfer.{file_write, file_read}
use tie_zhu_os.Fs.System.{FileSystem, set_files, set_volume}
use tie_zhu_os.Fs.Opening.{o_write, o_rw}
pub mod Piped

-- What a call comes to: its result, unless the thread waits in the middle of it, the bytes it moved or shows, the threads it
-- woke, and the state.
pub record Io : Type 0 where
  pub finished : Bool
  pub result : ℤ
  pub bytes : List ℕ
  pub woken : List Addr
  pub system : FileSystem

-- The result where no thread waits or wakes.
abbrev pub at_once : ℤ → List ℕ → FileSystem → Io
at_once result bytes s = record {
  finished = true;
  result = result;
  bytes = bytes;
  woken = [];
  system = s;
}

abbrev pub of_pipe : ℤ → Moved → FileSystem → Io
of_pipe result m s = record {
  finished = m.finished;
  result = result;
  bytes = m.bytes;
  woken = m.woken;
  system = s;
}

-- `file_write` of the entry `g`, which must be open for writing.
abbrev pub write_entry : Bool → List ℕ → ℕ → FileSystem → Option Io
write_entry got buf g s =
    let f = s.files.file_table g in
    if o_rw f.fd_flag || o_write f.fd_flag
    then (do
      w ← file_write got buf f (s.files.inodes f.fd_inode) s.volume
      some (
          at_once w.result buf (
            set_volume w.volume
              (set_files (set_file g w.file (set_inode f.fd_inode w.inode s.files)) s))))
    else some (at_once minus_one [] s)

-- `file_read` of the entry `g`.
abbrev pub read_entry : Bool → ℕ → ℕ → FileSystem → Option Io
read_entry got count g s = do
  let f = s.files.file_table g
  (result, bytes, f1) ← file_read got count f (s.files.inodes f.fd_inode) s.volume
  some (at_once result bytes (set_files (set_file g f1 s.files) s))

abbrev pub write_pipe : Addr → ℕ → List ℕ → FileSystem → Option Io
write_pipe t fd buf s = do
  (result, m, files) ← pipe_write t fd buf s.files
  some (of_pipe result m (set_files files s))

-- A `uint32_t` returned as an `int32_t`.
abbrev pub int32_of : ℕ → ℤ
int32_of n = if ltb n (2 ^ 31) then pos n else negsuc (2 ^ 32 - 1 - n)

abbrev pub read_pipe : Addr → ℕ → ℕ → FileSystem → Option Io
read_pipe t fd count s = do
  (result, m, files) ← pipe_read t fd count s.files
  some (of_pipe (int32_of result) m (set_files files s))

-- The bytes in front of the first zero.
abbrev pub shown : List ℕ → List ℕ
shown [] = []
shown (b ∷ bs) = let rest = shown bs in if b == 0 then [] else b ∷ rest

-- The console gets the bytes up to the first zero; its buffer holds 1024 bytes with the zero behind them.
abbrev pub write_console : List ℕ → FileSystem → Option Io
write_console buf s = do
  assert (ltb (length buf) 1024)
  some (at_once (pos (length buf)) (shown buf) s)

-- `sys_write` by the thread `t`.
unfoldable pub sys_write : Bool → Addr → ℤ → List ℕ → FileSystem → Option Io
sys_write got t (negsuc n) buf s =
    some (at_once (if length buf == 0 then pos 0 else minus_one) [] s)
sys_write got t (pos fd) buf s = if length buf == 0 then some (at_once (pos 0) [] s) else (do
  pipe ← is_pipe fd s.files
  (if pipe
      then write_pipe t fd buf s
      else (if fd == 1
          then write_console buf s
          else (do g ← fd_idx2global_ftable_idx fd s.files; write_entry got buf g s))))

-- The number of bytes, -1 for none.
abbrev pub read_count : List ℕ → ℤ
read_count [] = minus_one
read_count (b ∷ bs) = pos (length (b ∷ bs))

-- `ioq_getchar` of the keyboard's queue, for each byte; the count is read as an `int32_t`.
abbrev pub read_keyboard : Addr → ℕ → IoQueue → FileSystem → Io × IoQueue
read_keyboard t count keyboard s =
    let m = read_loop (if ltb count (2 ^ 31) then count else 0) t keyboard in
    (of_pipe (read_count m.bytes) m s, m.queue)

-- `sys_read` by the thread `t` into a buffer that is not `NULL`, with the keyboard's queue.
unfoldable pub sys_read : Bool → Addr → ℤ → ℕ → IoQueue → FileSystem → Option (Io × IoQueue)
sys_read got t (negsuc n) count keyboard s =
    some (at_once (if count == 0 then pos 0 else minus_one) [] s, keyboard)
sys_read got t (pos fd) count keyboard s =
    if count == 0 then some (at_once (pos 0) [] s, keyboard) else (do
      pipe ← is_pipe fd s.files
      (if pipe
          then (do io ← read_pipe t fd count s; some (io, keyboard))
          else (if fd == 0 then some (read_keyboard t count keyboard s) else (do
            g ← fd_idx2global_ftable_idx fd s.files
            io ← read_entry got count g s
            some (io, keyboard)))))
