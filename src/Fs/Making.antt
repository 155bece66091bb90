-- ===== src/Fs/Making.antt =====
-- `sys_mkdir` of fs/fs.c. `got` tells whether `sys_malloc` gives the buffers, and `old` is what the memory of the
-- local inode holds before.
use tie_zhu_os.Base.{
  ℕ, Bool, true, false, not, Option, none, some, List, [], ◌==◌, if◌then◌else◌, ◌>>=◌, ◌>>◌, assert,
  Memory, update,
}
use tie_zhu_os.Files.Defs.{Inode}
use tie_zhu_os.Fs.Disk.{ide_write}
use tie_zhu_os.Fs.Blocks.{block_bitmap_alloc, sync_block}
use tie_zhu_os.Fs.Path.{path_depth_cnt}
use tie_zhu_os.Fs.Dirs.{put_entry, create_dir_entry, sync_dir_entry}
use tie_zhu_os.Fs.Removal.{dot, dot_dot, free_block}
use tie_zhu_os.Fs.System.{
  Dir, FileSystem, Allocator, set_volume, inode_of, dir_close, inode_create, free_inode_no,
  inode_bitmap_sync, sync_inode, put_back,
}
use tie_zhu_os.Fs.Search.{ft_directory, Searched, search_file}
use tie_zhu_os.Fs.Opening.{last_name}

-- The entries "." and ".." in a cleared block.
abbrev pub dot_entries : ℕ → ℕ → Memory
dot_entries inode_no parent_no =
    put_entry (record { filename = dot_dot; i_no = parent_no; f_type = ft_directory }) 1
      (put_entry (record { filename = dot; i_no = inode_no; f_type = ft_directory }) 0 (λ i. 0))

-- The steps of `rollback`, the first to be undone first.
abbrev pub undo_1 : Dir → FileSystem → FileSystem
undo_1 parent_dir s = dir_close parent_dir s

abbrev pub undo_2 : ℕ → Dir → FileSystem → FileSystem
undo_2 inode_no parent_dir s = undo_1 parent_dir (free_inode_no inode_no s)

abbrev pub undo_3 : ℕ → ℕ → Dir → FileSystem → FileSystem
undo_3 lba inode_no parent_dir s =
    undo_2 inode_no parent_dir (set_volume (free_block lba s.volume) s)

-- Step 6: the inodes and the bitmap are stored.
unfoldable pub finish_mkdir : Dir → Inode → ℕ → FileSystem → Option (Bool × FileSystem)
finish_mkdir parent_dir i inode_no s = do
  s1 ← sync_inode (inode_of parent_dir s) s
  s2 ← sync_inode i s1
  some (true, dir_close parent_dir (inode_bitmap_sync inode_no s2))

-- Steps 4 and 5: the new directory's entries, and its own entry in the directory above.
unfoldable pub fill_dir :
    Bool → Dir → List ℕ → Inode → ℕ → ℕ → FileSystem → Option (Bool × FileSystem)
unfolding finish_mkdir
fill_dir got parent_dir dirname i inode_no lba s = do
  let v = s.volume
  let entries = dot_entries inode_no (inode_of parent_dir s).i_no
  let v1 = record v { disk = ide_write lba entries 1 v.disk }
  e ← create_dir_entry dirname i.i_no ft_directory
  (stored, g) ← sync_dir_entry got e (inode_of parent_dir s) v1
  let s1 = put_back parent_dir g s
  (if stored
      then finish_mkdir parent_dir (record i { i_bsize = 48 }) inode_no s1
      else some (false, undo_3 lba inode_no parent_dir s1))

-- Step 3: a block for the entries, which is not the first data block.
abbrev pub give_block : Bool → Dir → List ℕ → Inode → ℕ → FileSystem → Option (Bool × FileSystem)
give_block got parent_dir dirname i inode_no s =
    let (block, v) = block_bitmap_alloc got s.volume in
    elim block [
      | none ↦ some (false, undo_2 inode_no parent_dir (set_volume v s))
      | some lba ↦
          assert (not (lba == v.data_start_lba))
          >> fill_dir got parent_dir dirname (record i { i_sectors = update i.i_sectors 0 lba })
              inode_no lba (set_volume (sync_block lba v) s)
    ]

-- Step 2: an inode; its number 0 is taken for a failure.
unfoldable pub make_dir : Bool → Inode → Searched → FileSystem → Option (Bool × FileSystem)
unfolding fill_dir
make_dir got old r s = do
  dirname ← last_name r.searched_path
  let (created, s1) = inode_create old s
  elim created [
    | none ↦ some (false, undo_1 r.parent_dir s1)
    | some (inode_no, i) ↦
        if inode_no == 0
        then some (false, undo_1 r.parent_dir s1)
        else give_block got r.parent_dir dirname i inode_no s1
  ]

-- Step 1: nothing of that name is there, and the directory above is.
unfoldable pub mkdir_found :
    Bool → Inode → List ℕ → Option ℕ × Searched × FileSystem → Option (Bool × FileSystem)
unfolding make_dir
mkdir_found got old path (some i, r, s) = some (false, undo_1 r.parent_dir s)
mkdir_found got old path (none, r, s) = path_depth_cnt path >>= λ pathname_depth.
    path_depth_cnt r.searched_path >>= λ path_search_depth.
    if pathname_depth == path_search_depth
    then make_dir got old r s
    else some (false, undo_1 r.parent_dir s)

unfoldable pub sys_mkdir :
    Allocator → Bool → Inode → ℕ → List ℕ → FileSystem → Option (Bool × FileSystem)
unfolding mkdir_found
sys_mkdir new got old junk path s =
    if got then search_file new junk path [] s >>= mkdir_found got old path else some (false, s)
