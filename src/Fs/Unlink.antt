-- ===== src/Fs/Unlink.antt =====
-- The removal of files and directories in fs/fs.c: `inode_delete`, `inode_release`, `sys_unlink`, `dir_remove` and
-- `sys_rmdir`. `got` tells whether `sys_malloc` gives the buffers.
use tie_zhu_os.Base.{
  ℕ, zero, suc, ◌+◌, ◌-◌, ◌%◌, ◌^◌, Bool, true, false, not, ◌&&◌, ◌||◌, Option, none, some, List,
  [], ltb, leb, ◌==◌, if◌then◌else◌, ◌>>=◌, ◌>>◌, assert, Memory,
}
use tie_zhu_os.LinkedList.{null}
use tie_zhu_os.Files.Defs.{Inode, Files, inode_close, max_file_open}
use tie_zhu_os.Fs.Disk.{ide_read, ide_write}
use tie_zhu_os.Fs.Inodes.{inode_size, inode_locate, inode_open, copy_inode_isectors}
use tie_zhu_os.Fs.Blocks.{Volume}
use tie_zhu_os.Fs.Removal.{free_block, delete_dir_entry}
use tie_zhu_os.Fs.System.{
  Dir, FileSystem, Allocator, set_files, set_volume, inode_of, dir_open, dir_close, free_inode_no,
  inode_bitmap_sync, put_back,
}
use tie_zhu_os.Fs.Search.{ft_regular, ft_directory, Searched, search_file}

-- `memset` of the inode in the buffer.
abbrev pub clear_inode : ℕ → Memory → Memory
clear_inode off m j = if leb off j && ltb j (off + inode_size) then 0 else m j

unfoldable pub inode_delete : ℕ → Volume → Option Volume
inode_delete inode_no v = do
  p ← inode_locate v.inode_table_lba inode_no
  some (record v {
    disk =
        ide_write p.sec_lba (clear_inode p.off_size (ide_read p.sec_lba v.disk))
          (if p.two_sec then 2 else 1) v.disk;
  })

-- A block whose number is not that of the first data block is given back.
abbrev pub release_block : ℕ → Volume → Option Volume
release_block lba v =
    assert (not ((lba + 2 ^ 32 - v.data_start_lba) % 2 ^ 32 == 0)) >> some (free_block lba v)

-- The blocks `block_idx` and on of the local table.
unfoldable pub release_loop : ℕ → ℕ → Memory → Volume → Option Volume
release_loop zero block_idx all_blocks v = some v
release_loop (suc n) block_idx all_blocks v =
    (if all_blocks block_idx == 0 then some v else release_block (all_blocks block_idx) v)
    >>= release_loop n (block_idx + 1) all_blocks

-- The blocks of an inode, its indirect table first.
unfoldable pub release_blocks : Inode → Volume → Option Volume
unfolding release_loop
release_blocks i v =
    let all_blocks = copy_inode_isectors i v.disk (λ k. 0) in
    if i.i_sectors 12 == 0
    then release_loop 12 0 all_blocks v
    else release_block (i.i_sectors 12) v >>= release_loop 140 0 all_blocks

unfoldable pub inode_release : Allocator → ℕ → FileSystem → Option FileSystem
unfolding release_blocks
inode_release new inode_no s = do
  (a, f) ← inode_open s.volume.inode_table_lba (new s) inode_no s.volume.disk s.files
  v ← release_blocks (f.inodes a) s.volume
  let s1 = inode_bitmap_sync inode_no (free_inode_no inode_no (set_volume v (set_files f s)))
  v1 ← inode_delete inode_no s1.volume
  some (set_files (inode_close a s1.files) (set_volume v1 s1))

-- Whether one of the entries of the file table is open on the inode.
unfoldable pub in_use : ℕ → ℕ → ℕ → Files → Bool
in_use zero file_idx inode_no f = false
in_use (suc n) file_idx inode_no f =
    let further = in_use n (file_idx + 1) inode_no f in
    let a = (f.file_table file_idx).fd_inode in
    (not (a == null) && (f.inodes a).i_no == inode_no) || further

abbrev pub delete_from : Dir → ℕ → FileSystem → Option (Bool × FileSystem)
delete_from parent_dir inode_no s = do
  (deleted, g) ← delete_dir_entry inode_no (inode_of parent_dir s) s.volume
  some (deleted, put_back parent_dir g s)

-- The entry and the inode of a file that is not in use.
abbrev pub unlink_file : Allocator → Dir → ℕ → FileSystem → Option (Bool × FileSystem)
unlink_file new parent_dir inode_no s = do
  (deleted, s1) ← delete_from parent_dir inode_no s
  s2 ← (if deleted then inode_release new inode_no s1 else some s1)
  some (deleted, dir_close parent_dir s2)

-- The file of a path that was found; the directory is closed behind it, but not where the path is that of
-- a directory or is not found.
unfoldable pub unlink_found :
    Allocator → Bool → Option ℕ × Searched × FileSystem → Option (Bool × FileSystem)
unlink_found new got (none, r, s) = some (false, s)
unlink_found new got (some inode_no, r, s) =
    if r.file_type == ft_directory
    then some (false, s)
    else (if in_use max_file_open 0 inode_no s.files || not got
        then some (false, dir_close r.parent_dir s)
        else unlink_file new r.parent_dir inode_no s)

unfoldable pub sys_unlink : Allocator → Bool → ℕ → List ℕ → FileSystem → Option (Bool × FileSystem)
unfolding unlink_found
sys_unlink new got junk path s = search_file new junk path [] s >>= unlink_found new got

-- `dir_is_empty`: the size is that of "." and "..".
abbrev pub dir_is_empty : Dir → FileSystem → Bool
dir_is_empty d s = (inode_of d s).i_bsize == 48

-- Whether one of the blocks `block_idx` and on is in use.
unfoldable pub has_block : ℕ → ℕ → Inode → Bool
has_block zero block_idx i = false
has_block (suc n) block_idx i = not (i.i_sectors block_idx == 0) || has_block n (block_idx + 1) i

unfoldable pub dir_remove : Allocator → Bool → Dir → Dir → FileSystem → Option (Bool × FileSystem)
unfolding has_block
dir_remove new got parent_dir child_dir s =
    let i = inode_of child_dir s in
    if has_block 12 1 i || not got then some (false, s) else (do
      (_, s1) ← delete_from parent_dir i.i_no s
      s2 ← inode_release new i.i_no s1
      some (true, s2))

-- A directory that was found.
abbrev pub remove_found : Allocator → Bool → Dir → ℕ → FileSystem → Option (Bool × FileSystem)
remove_found new got parent_dir inode_no s = do
  (d, s1) ← dir_open new inode_no s
  (state, s2) ← (if dir_is_empty d s1 then dir_remove new got parent_dir d s1 else some (false, s1))
  some (state, dir_close d s2)

unfoldable pub rmdir_found :
    Allocator → Bool → Option ℕ × Searched × FileSystem → Option (Bool × FileSystem)
rmdir_found new got (none, r, s) = some (false, dir_close r.parent_dir s)
rmdir_found new got (some inode_no, r, s) =
    if r.file_type == ft_regular then some (false, dir_close r.parent_dir s) else (do
      (state, s1) ← remove_found new got r.parent_dir inode_no s
      some (state, dir_close r.parent_dir s1))

unfoldable pub sys_rmdir : Allocator → Bool → ℕ → List ℕ → FileSystem → Option (Bool × FileSystem)
unfolding rmdir_found
sys_rmdir new got junk path s = search_file new junk path [] s >>= rmdir_found new got
