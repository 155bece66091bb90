-- ===== src/Files/Pipe.antt =====
-- shell/pipe.c: pipes are entries of the file table whose object is a queue.
use tie_zhu_os.Base.{
  ℕ, zero, suc, ◌-◌, ◌^◌, Bool, true, false, not, Option, some, List, [], ◌∷◌, take, length, update,
  ltb, ◌==◌, if◌then◌else◌, ◌>>=◌, ◌>>◌, assert, ℤ, pos,
}
use tie_zhu_os.LinkedList.{Addr, null}
use tie_zhu_os.IoQueue.{
  IoQueue, locked_out, waits, done, ioqueue_init, ioq_getchar, ioq_putchar, ioq_length, buffer_size,
}
use tie_zhu_os.Files.Defs.{
  Files, get_free_slot_in_file_table, pcb_fd_install, fd_idx2global_ftable_idx, set_file,
}

abbrev pub pipe_flag : ℕ
pipe_flag = 65535

unfoldable pub is_pipe : ℕ → Files → Option Bool
is_pipe local_fd s = do
  global_fd ← fd_idx2global_ftable_idx local_fd s
  some ((s.file_table global_fd).fd_flag == pipe_flag)

abbrev pub set_queue : Addr → IoQueue → Files → Files
set_queue a q s = record s { queues = update s.queues a q }

-- Gives the two descriptors; `page` is what `get_kernel_pages` returns, a page of zeros.
unfoldable pub sys_pipe : Addr → Files → Option (ℤ × ℤ × Files)
unfolding ioqueue_init
sys_pipe page s = do
  global_fd ← get_free_slot_in_file_table s
  assert (not (page == null))
  let s1 = set_queue page (ioqueue_init (λ i. 0)) s
  let s2 = set_file global_fd (record { fd_pos = 2; fd_flag = pipe_flag; fd_inode = page }) s1
  let (fd0, s3) = pcb_fd_install global_fd s2
  let (fd1, s4) = pcb_fd_install global_fd s3
  some (fd0, fd1, s4)

-- What a loop over the bytes of a transfer comes to: whether it ends (else the thread waits at a
-- byte), the bytes it moved, the threads it woke, and the queue.
pub record Moved : Type 0 where
  pub finished : Bool
  pub bytes : List ℕ
  pub woken : List Addr
  pub queue : IoQueue

abbrev pub moved_byte : ℕ → Addr → Moved → Moved
moved_byte byte w m = record m { bytes = byte ∷ m.bytes; woken = w ∷ m.woken }

abbrev pub stopped : IoQueue → Moved
stopped q = record { finished = false; bytes = []; woken = []; queue = q }

unfoldable pub read_loop : ℕ → Addr → IoQueue → Moved
read_loop zero t q = record { finished = true; bytes = []; woken = []; queue = q }
read_loop (suc n) t q = elim (ioq_getchar t q) [
  | locked_out ↦ stopped q
  | waits r ↦ stopped r
  | done byte w r ↦ moved_byte byte w (read_loop n t r)
]

unfoldable pub write_loop : List ℕ → Addr → IoQueue → Moved
write_loop [] t q = record { finished = true; bytes = []; woken = []; queue = q }
write_loop (b ∷ bs) t q = elim (ioq_putchar t b q) [
  | locked_out ↦ stopped q
  | waits r ↦ stopped r
  | done byte w r ↦ moved_byte byte w (write_loop bs t r)
]

abbrev pub smaller : ℕ → ℕ → ℕ
smaller a count = if ltb count a then count else a

-- The queue of a descriptor.
abbrev pub pipe_of : ℕ → Files → Option Addr
pipe_of fd s = do global_fd ← fd_idx2global_ftable_idx fd s; some (s.file_table global_fd).fd_inode

-- Where the transfer ends, the result is the number of bytes; for none it is -1 as a `uint32_t`.
abbrev pub moved_count : List ℕ → ℕ
moved_count [] = 2 ^ 32 - 1
moved_count (b ∷ bs) = length (b ∷ bs)

unfoldable pub pipe_read : Addr → ℕ → ℕ → Files → Option (ℕ × Moved × Files)
pipe_read t fd count s = do
  ioq ← pipe_of fd s
  let m = read_loop (smaller (ioq_length (s.queues ioq)) count) t (s.queues ioq)
  some (moved_count m.bytes, m, set_queue ioq m.queue s)

-- `buf` holds `count` bytes.
unfoldable pub pipe_write : Addr → ℕ → List ℕ → Files → Option (ℤ × Moved × Files)
pipe_write t fd buf s = do
  ioq ← pipe_of fd s
  let ioq_left = buffer_size - ioq_length (s.queues ioq)
  let m = write_loop (take (smaller ioq_left (length buf)) buf) t (s.queues ioq)
  some (pos (length m.bytes), m, set_queue ioq m.queue s)

unfoldable pub sys_fd_redirect : ℕ → ℕ → Files → Files
sys_fd_redirect old_local_fd new_local_fd s =
    if ltb new_local_fd 3
    then record s { fd_table = update s.fd_table old_local_fd (pos new_local_fd) }
    else record s { fd_table = update s.fd_table old_local_fd (s.fd_table new_local_fd) }
