-- ===== src/Fs/Opening.antt =====
-- `file_create`, `file_open` and `sys_open` of fs/fs.c. Where the file table is full the source uses a result
-- that its function does not return: `none`. `got` tells whether `sys_malloc` gives the buffers.
use tie_zhu_os.Base.{
  ℕ, ◌+◌, ◌/◌, ◌%◌, ◌^◌, Bool, true, false, not, ◌||◌, Option, none, some, List, [], ◌∷◌, ◌==◌,
  if◌then◌else◌, ◌>>=◌, ℤ, minus_one,
}
use tie_zhu_os.LinkedList.{Addr, null}
use tie_zhu_os.Files.Defs.{set_inode, set_file, get_free_slot_in_file_table, pcb_fd_install}
use tie_zhu_os.Fs.Inodes.{inode_init, inode_open}
use tie_zhu_os.Fs.Path.{slash, path_depth_cnt}
use tie_zhu_os.Fs.Dirs.{create_dir_entry, sync_dir_entry}
use tie_zhu_os.Fs.System.{
  Dir, FileSystem, Allocator, set_files, inode_of, dir_close, inode_bitmap_alloc, free_inode_no,
  inode_bitmap_sync, sync_inode, put_back,
}
use tie_zhu_os.Fs.Search.{ft_regular, ft_directory, Searched, search_file}

-- The bits of `enum oflags`
abbrev pub o_write : ℕ → Bool
o_write flags = flags % 2 == 1

abbrev pub o_rw : ℕ → Bool
o_rw flags = flags / 2 % 2 == 1

abbrev pub o_creat : ℕ → Bool
o_creat flags = flags / 4 % 2 == 1

-- The structure `new_file_inode` in the heap and in the file table.
abbrev pub place_file : ℕ → ℕ → Addr → ℕ → FileSystem → FileSystem
place_file inode_no flag a g s =
    set_files
      (set_file g (record { fd_pos = 0; fd_flag = flag; fd_inode = a })
        (set_inode a (inode_init inode_no (s.files.inodes a)) s.files))
      s

-- Step 3 of the return after an error, and those behind it.
abbrev pub roll_back : ℕ → Addr → ℕ → FileSystem → FileSystem
roll_back inode_no a g s =
    let f = s.files in
    free_inode_no inode_no (
      set_files
        (record (set_file g (record { fd_pos = 0; fd_flag = 0; fd_inode = null }) f) {
          freed = a ∷ f.freed;
        })
        s)

-- The inodes of the directory and of the file and the bitmap are stored, and the file is open.
unfoldable pub finish_create : Dir → ℕ → Addr → ℕ → FileSystem → Option (ℤ × FileSystem)
finish_create parent_dir inode_no a g s = do
  s1 ← sync_inode (inode_of parent_dir s) s
  s2 ← sync_inode (s1.files.inodes a) s1
  let s3 = inode_bitmap_sync inode_no s2
  let i = s3.files.inodes a
  let f = set_inode a (record i { i_open_cnts = (i.i_open_cnts + 1) % 2 ^ 32 }) s3.files
  let (fd, f1) = pcb_fd_install g (record f { open_inodes = a ∷ f.open_inodes })
  some (fd, set_files f1 s3)

-- The directory gets its entry.
abbrev pub enter_file : Bool → Dir → List ℕ → ℕ → Addr → ℕ → FileSystem → Option (ℤ × FileSystem)
enter_file got parent_dir filename inode_no a g s = do
  e ← create_dir_entry filename inode_no ft_regular
  (stored, grown) ← sync_dir_entry got e (inode_of parent_dir s) s.volume
  let s1 = put_back parent_dir grown s
  (if stored
      then finish_create parent_dir inode_no a g s1
      else some (minus_one, roll_back inode_no a g s1))

abbrev pub create_inode :
    Allocator → Bool → Dir → List ℕ → ℕ → ℕ → FileSystem → Option (ℤ × FileSystem)
create_inode new got parent_dir filename flag inode_no s =
    let a = new s in
    if a == null
    then some (minus_one, free_inode_no inode_no s)
    else get_free_slot_in_file_table s.files >>= λ g.
        enter_file got parent_dir filename inode_no a g (place_file inode_no flag a g s)

unfoldable pub file_create :
    Allocator → Bool → Dir → List ℕ → ℕ → FileSystem → Option (ℤ × FileSystem)
file_create new got parent_dir filename flag s =
    if got
    then (let (inode_no, s1) = inode_bitmap_alloc s in
        elim inode_no [
          | none ↦ some (minus_one, s1)
          | some i ↦ create_inode new got parent_dir filename flag i s1
        ])
    else some (minus_one, s)

-- Behind the test for another writer: the descriptor.
abbrev pub install : ℕ → FileSystem → Option (ℤ × FileSystem)
install g s = let (fd, f) = pcb_fd_install g s.files in some (fd, set_files f s)

-- A file that is being written is refused, with its entry left in the file table.
unfoldable pub claim : ℕ → Addr → ℕ → FileSystem → Option (ℤ × FileSystem)
claim flag a g s =
    let i = s.files.inodes a in
    if o_write flag || o_rw flag
    then (if i.write_deny
        then some (minus_one, s)
        else install g (set_files (set_inode a (record i { write_deny = true }) s.files) s))
    else install g s

unfoldable pub file_open : Allocator → ℕ → ℕ → FileSystem → Option (ℤ × FileSystem)
unfolding claim
file_open new inode_no flag s = do
  g ← get_free_slot_in_file_table s.files
  (a, f) ← inode_open s.volume.inode_table_lba (new s) inode_no s.volume.disk s.files
  claim flag a g (set_files (set_file g (record { fd_pos = 0; fd_flag = flag; fd_inode = a }) f) s)

-- `strrchar(path, '/') + 1`, where the path has a slash.
abbrev pub is_slash : ℕ → Bool
is_slash c = c == slash

unfoldable pub last_name : List ℕ → Option (List ℕ)
last_name [] = none
last_name (c ∷ cs) = elim (last_name cs) [
  | some name ↦ some name
  | none ↦ if is_slash c then some cs else none
]

abbrev pub ends_with_slash : List ℕ → Bool
ends_with_slash [] = false
ends_with_slash (c ∷ []) = c == slash
ends_with_slash (c ∷ d ∷ ds) = ends_with_slash (d ∷ ds)

-- The part behind the creation: the file is searched again, and opened; `fd` is the descriptor before.
abbrev pub open_again :
    Allocator → ℕ → List ℕ → ℕ → ℤ → Searched → FileSystem → Option (ℤ × FileSystem)
open_again new junk path flags fd r s = do
  (inode_no, r1, s1) ← search_file new junk path r.searched_path s
  (fd1, s2) ← elim inode_no [ none ↦ some (fd, s1) | some i ↦ file_open new i flags s1 ]
  some (fd1, dir_close r1.parent_dir s2)

-- `case O_CREAT`
unfoldable pub open_creating :
    Allocator → Bool → ℕ → List ℕ → ℕ → Option ℕ → Searched → FileSystem → Option (ℤ × FileSystem)
open_creating new got junk path flags (some i) r s = open_again new junk path flags minus_one r s
open_creating new got junk path flags none r s = do
  name ← last_name r.searched_path
  (fd, s1) ← file_create new got r.parent_dir name flags s
  open_again new junk path flags fd r (dir_close r.parent_dir s1)

-- The refusals behind that of a directory, in order: a path that is not all there, a missing file, a file to be created
-- that exists.
abbrev pub is_refused : ℕ → ℕ → ℕ → Option ℕ → Bool
is_refused pathname_depth path_search_depth flags inode_no =
    not (path_search_depth == pathname_depth)
    || elim inode_no [ none ↦ not (o_creat flags) | some i ↦ flags == 4 ]

unfoldable pub open_found :
    Allocator
    → Bool
    → ℕ
    → List ℕ
    → ℕ
    → ℕ
    → Option ℕ × Searched × FileSystem
    → Option (ℤ × FileSystem)
open_found new got junk path pathname_depth flags (inode_no, r, s) =
    if r.file_type == ft_directory
    then some (minus_one, dir_close r.parent_dir s)
    else (path_depth_cnt r.searched_path >>= λ path_search_depth.
        if is_refused pathname_depth path_search_depth flags inode_no
        then some (minus_one, dir_close r.parent_dir s)
        else (if o_creat flags
            then open_creating new got junk path flags inode_no r s
            else elim inode_no [
              | none ↦ some (minus_one, dir_close r.parent_dir s)
              | some i ↦ file_open new i flags s
            ]))

unfoldable pub sys_open : Allocator → Bool → ℕ → List ℕ → ℕ → FileSystem → Option (ℤ × FileSystem)
unfolding open_found
sys_open new got junk path flags s =
    if ends_with_slash path
    then some (minus_one, s)
    else (path_depth_cnt path >>= λ pathname_depth.
        search_file new junk path [] s >>= open_found new got junk path pathname_depth flags)
