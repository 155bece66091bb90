-- ===== src/Files/Calls.antt =====
-- The calls of fs/fs.c on a descriptor that do not read or write the disk.
use tie_zhu_os.Base.{
  ℕ, zero, suc, ◌+◌, ◌-◌, ◌^◌, ◌%◌, Bool, true, false, not, ◌||◌, Option, none, some, ◌∷◌, update,
  ltb, ◌==◌, if◌then◌else◌, ◌>>=◌, ℤ, pos, negsuc, minus_one,
}
use tie_zhu_os.LinkedList.{null}
use tie_zhu_os.Files.Defs.{Files, fd_idx2global_ftable_idx, set_file, set_inode, dec_32, file_close}
use tie_zhu_os.Files.Pipe.{is_pipe}

-- `--f_pipe->fd_pos`; the buffer of a pipe is freed with its last descriptor.
unfoldable pub pipe_close : ℕ → Files → Files
pipe_close g s =
    let f = s.file_table g in
    if dec_32 f.fd_pos == 0
    then record (set_file g (record f { fd_pos = 0; fd_inode = null }) s) {
      freed = f.fd_inode ∷ s.freed;
    }
    else set_file g (record f { fd_pos = dec_32 f.fd_pos }) s

abbrev pub clear_fd : ℕ → Files → Files
clear_fd fd_idx s = record s { fd_table = update s.fd_table fd_idx minus_one }

unfoldable pub sys_close : ℕ → Files → Option (Bool × Files)
sys_close fd_idx s = if ltb fd_idx 2 then some (false, s) else (do
  global_fd ← fd_idx2global_ftable_idx fd_idx s
  pipe ← is_pipe fd_idx s
  some (true, clear_fd fd_idx (if pipe then pipe_close global_fd s else file_close global_fd s)))

-- `enum whence`
pub data Whence : Type 0 where
  seek_set : Whence
  seek_cur : Whence
  seek_end : Whence

-- The sum of a position and an offset, where neither wraps.
abbrev pub plus : ℕ → ℤ → ℤ
plus n (pos m) = pos (n + m)
plus n (negsuc m) = if ltb m n then pos (n - (m + 1)) else negsuc (m - n)

abbrev pub new_pos : ℕ → ℕ → ℤ → Whence → ℤ
new_pos fd_pos file_size offset seek_cur = plus fd_pos offset
new_pos fd_pos file_size offset seek_set = offset
new_pos fd_pos file_size offset seek_end = plus file_size offset

-- `new_pos <= 0 || new_pos > file_size - 1` fails.
abbrev pub seek_to : ℕ → ℤ → Option ℕ
seek_to file_size (negsuc n) = none
seek_to file_size (pos n) = if n == 0 || not (ltb n file_size) then none else some n

unfoldable pub sys_lseek : ℕ → ℤ → Whence → Files → Option (ℤ × Files)
sys_lseek fd offset whence s = do
  g ← fd_idx2global_ftable_idx fd s
  let f = s.file_table g
  let file_size = (s.inodes f.fd_inode).i_bsize
  some (elim (seek_to file_size (new_pos f.fd_pos file_size offset whence)) [
    | none ↦ (minus_one, s)
    | some p ↦ (pos p, set_file g (record f { fd_pos = p }) s)
  ])

-- `update_inode_open_cnts` of userprog/fork.c: the child's descriptors, a copy of the parent's, count
-- as further opens.
abbrev pub count_fd : ℕ → Files → Option Files
count_fd local_fd s = elim (s.fd_table local_fd) [
  | negsuc n ↦ if n == 0 then some s else none
  | pos g ↦ (do
    pipe ← is_pipe local_fd s
    let f = s.file_table g
    let i = s.inodes f.fd_inode
    some (
        if pipe
        then set_file g (record f { fd_pos = (f.fd_pos + 1) % 2 ^ 32 }) s
        else set_inode f.fd_inode (record i { i_open_cnts = (i.i_open_cnts + 1) % 2 ^ 32 }) s))
]

abbrev pub count_loop : ℕ → ℕ → Files → Option Files
count_loop zero local_fd s = some s
count_loop (suc n) local_fd s = count_fd local_fd s >>= count_loop n (local_fd + 1)

unfoldable pub update_inode_open_cnts : Files → Option Files
update_inode_open_cnts s = count_loop 5 3 s
