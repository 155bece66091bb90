-- ===== src/Files/Defs.antt =====
-- The file table of the system, the descriptors of the running thread, and the objects they refer to
-- (fs/file.c, fs/inode.h, fs/fs.c).
use tie_zhu_os.Base.{
  ℕ, zero, suc, ◌+◌, ◌-◌, ◌^◌, Bool, false, Option, none, some, List, ◌∷◌, update, ltb, ◌==◌,
  if◌then◌else◌, ◌>>◌, assert, ℤ, pos, negsuc, minus_one, is_minus_one,
}
use tie_zhu_os.LinkedList.{Addr, null}
use tie_zhu_os.IoQueue.{IoQueue}
use tie_zhu_os.Thread.Defs.{without}

-- `inode`; its tag is an entry of `open_inodes`.
pub record Inode : Type 0 where
  pub i_no : ℕ
  pub i_bsize : ℕ
  pub i_open_cnts : ℕ
  pub write_deny : Bool
  pub i_sectors : ℕ → ℕ

-- `file`; for a pipe `fd_inode` is the address of its queue, and `fd_pos` counts its descriptors.
pub record File : Type 0 where
  pub fd_pos : ℕ
  pub fd_flag : ℕ
  pub fd_inode : Addr

abbrev pub max_file_open : ℕ
max_file_open = 32

abbrev pub max_files_open_per_proc : ℕ
max_files_open_per_proc = 8

-- `open_inodes` is the list of the current partition; `freed` holds what was given back to the
-- allocators, the newest first.
pub record Files : Type 0 where
  pub fd_table : ℕ → ℤ
  pub file_table : ℕ → File
  pub inodes : Addr → Inode
  pub open_inodes : List Addr
  pub queues : Addr → IoQueue
  pub freed : List Addr

-- `none`: the loop ends, and the function with it, without a `return`.
abbrev pub free_slot_loop : ℕ → ℕ → Files → Option ℕ
free_slot_loop zero fd_idx s = none
free_slot_loop (suc n) fd_idx s =
    let rest = free_slot_loop n (fd_idx + 1) s in
    if (s.file_table fd_idx).fd_inode == null then some fd_idx else rest

unfoldable pub get_free_slot_in_file_table : Files → Option ℕ
get_free_slot_in_file_table s = free_slot_loop 29 3 s

abbrev pub fd_install_loop : ℕ → ℕ → ℕ → Files → ℤ × Files
fd_install_loop zero local_fd_idx g s = (minus_one, s)
fd_install_loop (suc n) local_fd_idx g s =
    let rest = fd_install_loop n (local_fd_idx + 1) g s in
    if is_minus_one (s.fd_table local_fd_idx)
    then (pos local_fd_idx, record s { fd_table = update s.fd_table local_fd_idx (pos g) })
    else rest

unfoldable pub pcb_fd_install : ℕ → Files → ℤ × Files
pcb_fd_install global_fd_idx s = fd_install_loop 5 3 global_fd_idx s

-- `fd_table[fd_idx]`, where the descriptor is open.
abbrev pub global_idx : ℤ → Option ℕ
global_idx (pos g) = assert (ltb g max_file_open) >> some g
global_idx (negsuc n) = none

unfoldable pub fd_idx2global_ftable_idx : ℕ → Files → Option ℕ
fd_idx2global_ftable_idx fd_idx s = global_idx (s.fd_table fd_idx)

abbrev pub set_file : ℕ → File → Files → Files
set_file g f s = record s { file_table = update s.file_table g f }

abbrev pub set_inode : Addr → Inode → Files → Files
set_inode a i s = record s { inodes = update s.inodes a i }

-- The count is a `uint32_t`.
abbrev pub dec_32 : ℕ → ℕ
dec_32 n = if n == 0 then 2 ^ 32 - 1 else n - 1

unfoldable pub inode_close : Addr → Files → Files
inode_close a s =
    let i = s.inodes a in
    let s1 = set_inode a (record i { i_open_cnts = dec_32 i.i_open_cnts }) s in
    if dec_32 i.i_open_cnts == 0
    then record s1 { open_inodes = without a s1.open_inodes; freed = a ∷ s1.freed }
    else s1

-- `file_close` of the entry `g`.
unfoldable pub file_close : ℕ → Files → Files
unfolding inode_close
file_close g s =
    let f = s.file_table g in
    let s1 = set_inode f.fd_inode (record (s.inodes f.fd_inode) { write_deny = false }) s in
    set_file g (record f { fd_inode = null }) (inode_close f.fd_inode s1)
