-- ===== src/Fs/Io/Piped.antt =====
-- `sys_write` and `sys_read` of fs/fs.c on the two ends of a pipe.
use tie_zhu_os.Base.{
  ℕ, ◌+◌, ◌≤◌, ◌<◌, ◌≡◌, ◌∙◌, refl, ap, Bool, true, false, some, List, [], ◌∷◌, ◌++◌, take, length,
  take_all, update, length-append, arith, min, ◌==◌, ◌>>=◌, pos,
}
use tie_zhu_os.LinkedList.{Addr}
use tie_zhu_os.IoQueue.{IoQueue}
use tie_zhu_os.IoQueue.Contents.{IsQueue, contents}
use tie_zhu_os.Files.Defs.{Files, fd_idx2global_ftable_idx}
use tie_zhu_os.Files.Pipe.{moved_count, is_pipe, pipe_flag, pipe_of, set_queue}
use tie_zhu_os.Files.Transfer.{pipe_read_lem, pipe_write_lem}
use tie_zhu_os.Fs.System.{FileSystem, set_files}
use tie_zhu_os.Fs.Io.{int32_of, Io, of_pipe, write_pipe, read_pipe, sys_write, sys_read}

-- The descriptor `fd` refers to the pipe in the entry `g` of the file table.
abbrev pub IsEnd : ℕ → ℕ → Files → Type 0
IsEnd fd g s = (fd_idx2global_ftable_idx fd s ≡ some g) × ((s.file_table g).fd_flag ≡ pipe_flag)

IsEnd-is_pipe : (fd g : ℕ) (s : Files) → IsEnd fd g s → is_pipe fd s ≡ some true
unfolding is_pipe
IsEnd-is_pipe fd g s (e, flag) = rw (e, flag) refl

end_queue : (fd g : ℕ) (s : Files) → IsEnd fd g s → pipe_of fd s ≡ some (s.file_table g).fd_inode
end_queue fd g s (e, _) = rw e refl

some_count : (n : ℕ) → 0 < n → n == 0 ≡ false
some_count n h = ground (arith, h)

to_pipe :
    (got : Bool) (t : Addr) (fd : ℕ) (buf : List ℕ) (s : FileSystem)
    → 0 < length buf
    → is_pipe fd s.files ≡ some true
    → sys_write got t (pos fd) buf s ≡ write_pipe t fd buf s
unfolding sys_write
to_pipe got t fd buf s some_bytes e = rw (some_count (length buf) some_bytes, e) refl

from_pipe :
    (got : Bool) (t : Addr) (fd count : ℕ) (keyboard : IoQueue) (s : FileSystem)
    → 0 < count
    → is_pipe fd s.files ≡ some true
    → sys_read got t (pos fd) count keyboard s
      ≡ (read_pipe t fd count s >>= λ io. some (io, keyboard))
unfolding sys_read
from_pipe got t fd count keyboard s some_bytes e = rw (some_count count some_bytes, e) refl

-- A write that moves the whole buffer behind the contents of the queue.
abbrev pub Sent : Bool → Addr → ℕ → ℕ → List ℕ → FileSystem → Io → Type 0
Sent got t fd g buf s w =
    let a = (s.files.file_table g).fd_inode in
    (sys_write got t (pos fd) buf s ≡ some w)
    × (w.finished ≡ true)
    × (w.result ≡ pos (length buf))
    × (q : IoQueue) × (w.system ≡ set_files (set_queue a q s.files) s)
    × (contents q ≡ contents (s.files.queues a) ++ buf)
    × IsQueue q

sys_write-Sent :
    (got : Bool) (t : Addr) (fd g : ℕ) (buf : List ℕ) (s : FileSystem)
    → IsEnd fd g s.files
    → let q = s.files.queues (s.files.file_table g).fd_inode in
      IsQueue q
      → 0 < length buf
      → length (contents q) + length buf ≤ 63
      → (w : Io) × Sent got t fd g buf s w
sys_write-Sent got t fd g buf s is_end v some_bytes room =
    let a = (s.files.file_table g).fd_inode in
    let (m, e, moved) = pipe_write_lem t fd a buf s.files (end_queue fd g s.files is_end) v room in
    let (finished, _, behind, w) = moved in
    (
      of_pipe (pos (length buf)) m (set_files (set_queue a m.queue s.files) s),
      (
        to_pipe got t fd buf s some_bytes (IsEnd-is_pipe fd g s.files is_end) ∙ rw e refl,
        finished,
        refl,
        m.queue,
        refl,
        behind,
        w,
      ),
    )

count_of_all :
    (bytes all : List ℕ)
    → bytes ≡ all
    → 0 < length all
    → length all ≤ 63
    → int32_of (moved_count bytes) ≡ pos (length all)
count_of_all bytes [] e some_bytes few = absurd (omega (arith, some_bytes))
count_of_all bytes (b ∷ bs) e some_bytes few = rw e (ground (arith, few))

-- A read that gives the bytes `all`.
abbrev pub Received : Bool → Addr → ℕ → List ℕ → IoQueue → FileSystem → Io → Type 0
Received got t fd all keyboard s r =
    (sys_read got t (pos fd) (length all) keyboard s ≡ some (r, keyboard))
    × (r.finished ≡ true)
    × (r.bytes ≡ all)
    × (r.result ≡ pos (length all))

take_whole : (all xs : List ℕ) → xs ≡ all → take (min (length all) (length xs)) xs ≡ all
take_whole all xs e = rw e (take_all (min (length all) (length all)) all (omega arith))

sys_read-Received :
    (got : Bool) (t : Addr) (fd g : ℕ) (all : List ℕ) (keyboard : IoQueue) (s : FileSystem)
    → IsEnd fd g s.files
    → let q = s.files.queues (s.files.file_table g).fd_inode in
      IsQueue q
      → contents q ≡ all
      → 0 < length all
      → length all ≤ 63
      → (r : Io) × Received got t fd all keyboard s r
sys_read-Received got t fd g all keyboard s is_end v holds some_bytes few =
    let a = (s.files.file_table g).fd_inode in
    let (m, e, moved) =
      pipe_read_lem t fd (length all) a s.files (end_queue fd g s.files is_end) v in
    let (finished, front, _, _) = moved in
    let bytes : m.bytes ≡ all = front ∙ take_whole all _ holds in
    (
      of_pipe (int32_of (moved_count m.bytes)) m (set_files (set_queue a m.queue s.files) s),
      (
        from_pipe got t fd (length all) keyboard s some_bytes (IsEnd-is_pipe fd g s.files is_end)
            ∙ rw e refl,
        finished,
        bytes,
        count_of_all m.bytes all bytes some_bytes few,
      ),
    )

stored : (a : Addr) (q : IoQueue) (qs : Addr → IoQueue) → update qs a q a ≡ q
stored a q qs = ground arith

-- Where the two descriptors are ends of one pipe, `sys_write` of one or more bytes for which the queue has room,
-- of its 63, writes them all without waiting, and then `sys_read` of as many bytes as the queue holds gives what was
-- in the queue before and behind it the bytes written, without waiting.
pub sys_read-sys_write :
    (got : Bool) (t u : Addr) (wfd rfd g : ℕ) (buf : List ℕ) (keyboard : IoQueue) (s : FileSystem)
    → IsEnd wfd g s.files
    → IsEnd rfd g s.files
    → IsQueue (s.files.queues (s.files.file_table g).fd_inode)
    → 0 < length buf
    → length (contents (s.files.queues (s.files.file_table g).fd_inode)) + length buf ≤ 63
    → (w : Io) × Sent got t wfd g buf s w
      × ((r : Io) × Received got u rfd
            (contents (s.files.queues (s.files.file_table g).fd_inode) ++ buf)
            keyboard
            w.system
            r)
unfolding fd_idx2global_ftable_idx
sys_read-sys_write got t u wfd rfd g buf keyboard s writes reads v some_bytes room =
    let before = contents (s.files.queues (s.files.file_table g).fd_inode) in
    let (w, sent) = sys_write-Sent got t wfd g buf s writes v some_bytes room in
    let (_, _, _, q, state, holds, w_q) = sent in
    let a = (s.files.file_table g).fd_inode in
    let there : update s.files.queues a q a ≡ q = stored a q s.files.queues in
    (
      w,
      sent,
      rw state (
          sys_read-Received got u rfd g (before ++ buf) keyboard
            (set_files (set_queue a q s.files) s) reads (rw there w_q) (ap contents there ∙ holds)
            (omega (arith, some_bytes, length-append before buf))
            (omega (arith, room, length-append before buf))),
    )
