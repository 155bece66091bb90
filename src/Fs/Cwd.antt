-- ===== src/Fs/Cwd.antt =====
-- The working directory and the calls that only look at files in fs/fs.c: `sys_getcwd`, `sys_chdir`, `sys_stat`,
-- `sys_opendir`, `sys_closedir`, `sys_readdir` and `sys_rewinddir`.
use tie_zhu_os.Base.{
  ℕ, zero, suc, ◌+◌, ◌*◌, Bool, true, not, Option, none, some, List, [], ◌∷◌, ◌++◌, length, ltb,
  leb, ◌==◌, if◌then◌else◌, ◌>>=◌, ◌>>◌, assert, Memory,
}
use tie_zhu_os.Files.Defs.{Inode, inode_close}
use tie_zhu_os.Fs.Disk.{Disk, ide_read}
use tie_zhu_os.Fs.Inodes.{inode_open, copy_inode_isectors}
use tie_zhu_os.Fs.Path.{slash}
use tie_zhu_os.Fs.Dirs.{dir_entry_size, entries_per_sec, i_no_at}
use tie_zhu_os.Fs.Removal.{dir_read}
use tie_zhu_os.Fs.System.{Dir, FileSystem, Allocator, set_files, inode_of, dir_open, dir_close}
use tie_zhu_os.Fs.Search.{ft_directory, max_path_len, Searched, is_root_path, search_file}

-- The string at an address, of at most `n` bytes.
abbrev pub string_at : ℕ → ℕ → Memory → List ℕ
string_at zero a m = []
string_at (suc n) a m =
    let further = string_at n (a + 1) m in if m a == 0 then [] else m a ∷ further

-- The inode is opened and closed again: its contents and the state behind.
unfoldable pub look_at : Allocator → ℕ → FileSystem → Option (Inode × FileSystem)
look_at new inode_no s = do
  (a, f) ← inode_open s.volume.inode_table_lba (new s) inode_no s.volume.disk s.files
  some (f.inodes a, set_files (inode_close a f) s)

-- The second entry of the first block is "..".
unfoldable pub get_parent_dir_inode_nr : Allocator → ℕ → FileSystem → Option (ℕ × FileSystem)
unfolding look_at
get_parent_dir_inode_nr new child_inode_nr s = do
  (i, s1) ← look_at new child_inode_nr s
  assert (not (i.i_sectors 0 == 0))
  some (i_no_at (ide_read (i.i_sectors 0) s.volume.disk) 1, s1)

-- The entries `k` and on of a block: the name of that with the number.
unfoldable pub child_in_sector : ℕ → ℕ → ℕ → Memory → Option (List ℕ)
child_in_sector zero k c_inode_nr buf = none
child_in_sector (suc n) k c_inode_nr buf =
    let further = child_in_sector n (k + 1) c_inode_nr buf in
    if i_no_at buf k == c_inode_nr then some (string_at 16 (k * dir_entry_size) buf) else further

-- The blocks `block_idx` and on; `dir_entry_idx` goes on from one block to the next, at the end of the first.
unfoldable pub child_loop : ℕ → ℕ → ℕ → ℕ → Memory → Disk → Option (List ℕ)
unfolding child_in_sector
child_loop zero block_idx k c_inode_nr all_blocks disk = none
child_loop (suc n) block_idx k c_inode_nr all_blocks disk =
    let skip = child_loop n (block_idx + 1) k c_inode_nr all_blocks disk in
    let further = child_loop n (block_idx + 1) entries_per_sec c_inode_nr all_blocks disk in
    if all_blocks block_idx == 0
    then skip
    else (if k == 0
        then elim (child_in_sector entries_per_sec 0 c_inode_nr
            (ide_read (all_blocks block_idx) disk)) [ some name ↦ some name | none ↦ further ]
        else further)

unfoldable pub child_name : Inode → ℕ → Disk → Option (List ℕ)
unfolding child_loop
child_name i c_inode_nr disk =
    let all_blocks = copy_inode_isectors i disk (λ k. 0) in
    child_loop (if all_blocks 12 == 0 then 12 else 140) 0 0 c_inode_nr all_blocks disk

-- The name that the directory `p_inode_nr` has for the inode; `none` inside is `false`.
unfoldable pub get_child_dir_name :
    Allocator → ℕ → ℕ → FileSystem → Option (Option (List ℕ) × FileSystem)
unfolding look_at child_name
get_child_dir_name new p_inode_nr c_inode_nr s = do
  (i, s1) ← look_at new p_inode_nr s
  some (child_name i c_inode_nr s.volume.disk, s1)

-- The loop of `sys_getcwd` up to the root, which gives the names from the lowest on, each behind a slash, in
-- `text`, in a buffer of 512 bytes with its 0; `none` inside is the return of `NULL`.
unfoldable pub climb_loop :
    Allocator → ℕ → ℕ → List ℕ → FileSystem → Option (Option (List ℕ) × FileSystem)
climb_loop new fuel zero text s = some (some text, s)
climb_loop new zero (suc c) text s = none
climb_loop new (suc fuel) (suc c) text s = do
  (p, s1) ← get_parent_dir_inode_nr new (suc c) s
  (name, s2) ← get_child_dir_name new p (suc c) s1
  elim name [
    | none ↦ some (none, s2)
    | some n ↦
        assert (ltb (length (text ++ slash ∷ n)) max_path_len)
        >> climb_loop new fuel p (text ++ slash ∷ n) s2
  ]

-- A string cut in front of its last slash, with the rest; `none` where there is no slash.
unfoldable pub cut_last : List ℕ → Option (List ℕ × List ℕ)
cut_last [] = none
cut_last (c ∷ cs) = elim (cut_last cs) [
  | some (front, rest) ↦ some (c ∷ front, rest)
  | none ↦ if c == slash then some ([], c ∷ cs) else none
]

-- The names are appended to `buf`, which has `size` bytes, from the last on.
unfoldable pub reverse_loop : ℕ → ℕ → List ℕ → List ℕ → Option (List ℕ)
reverse_loop size zero full_path_reverse buf = elim (cut_last full_path_reverse) [
  | none ↦ some buf
  | some _ ↦ none
]
reverse_loop size (suc fuel) full_path_reverse buf = elim (cut_last full_path_reverse) [
  | none ↦ some buf
  | some (front, name) ↦
      assert (ltb (length (buf ++ name)) size) >> reverse_loop size fuel front (buf ++ name)
]

abbrev pub reversed : ℕ → Option (List ℕ) × FileSystem → Option (Option (List ℕ) × FileSystem)
reversed size (none, s) = some (none, s)
reversed size (some text, s) = reverse_loop size (length text) text [] >>= λ buf. some (some buf, s)

-- `sys_getcwd` of a thread in the directory `cwd_inode_nr` into a buffer of `size` bytes; the number of rounds to the
-- root is at most `fuel`. `none` is a failed assertion or a write behind a buffer.
unfoldable pub sys_getcwd :
    Allocator → ℕ → Bool → ℕ → ℕ → FileSystem → Option (Option (List ℕ) × FileSystem)
unfolding climb_loop reverse_loop
sys_getcwd new fuel got size cwd_inode_nr s =
    if got
    then (assert (leb cwd_inode_nr 4096)
        >> (if cwd_inode_nr == 0
            then assert (ltb 1 size) >> some (some (slash ∷ []), s)
            else climb_loop new fuel cwd_inode_nr [] s >>= reversed size))
    else some (none, s)

-- `sys_chdir`: the number of the new directory, if it is one. The directory that was opened stays open.
unfoldable pub sys_chdir : Allocator → ℕ → List ℕ → FileSystem → Option (Option ℕ × FileSystem)
sys_chdir new junk path s = do
  (inode_no, r, s1) ← search_file new junk path [] s
  some (if r.file_type == ft_directory then inode_no else none, s1)

-- `_stat`
pub record Stat : Type 0 where
  pub st_ino : ℕ
  pub st_size : ℕ
  pub st_file_type : ℕ

abbrev pub stat_of : Inode → ℕ → Stat
stat_of i file_type = record { st_ino = i.i_no; st_size = i.i_bsize; st_file_type = file_type }

-- The inode that was opened stays open.
abbrev pub stat_found :
    Allocator → Option ℕ × Searched × FileSystem → Option (Option Stat × FileSystem)
stat_found new (none, r, s) = some (none, s)
stat_found new (some inode_no, r, s) = do
  (a, f) ← inode_open s.volume.inode_table_lba (new s) inode_no s.volume.disk s.files
  some (some (stat_of (f.inodes a) r.file_type), set_files f s)

unfoldable pub sys_stat : Allocator → ℕ → List ℕ → FileSystem → Option (Option Stat × FileSystem)
sys_stat new junk path s =
    if is_root_path path
    then some (
      some (record {
        st_ino = 0;
        st_size = (inode_of s.root_dir s).i_bsize;
        st_file_type = ft_directory;
      }),
      s,
    )
    else search_file new junk path [] s >>= stat_found new

-- `sys_opendir`; the directory above is closed.
abbrev pub opendir_found :
    Allocator → Option ℕ × Searched × FileSystem → Option (Option Dir × FileSystem)
opendir_found new (none, r, s) = some (none, dir_close r.parent_dir s)
opendir_found new (some inode_no, r, s) =
    if r.file_type == ft_directory
    then (do (d, s1) ← dir_open new inode_no s; some (some d, dir_close r.parent_dir s1))
    else some (none, dir_close r.parent_dir s)

unfoldable pub sys_opendir : Allocator → ℕ → List ℕ → FileSystem → Option (Option Dir × FileSystem)
sys_opendir new junk name s =
    assert (ltb (length name) max_path_len)
    >> (if is_root_path name
        then some (some s.root_dir, s)
        else search_file new junk name [] s >>= opendir_found new)

-- `none` is `NULL`. The result of `sys_closedir` is true in both cases, since -1 is.
unfoldable pub sys_closedir : Option Dir → FileSystem → Bool × FileSystem
sys_closedir none s = (true, s)
sys_closedir (some d) s = (true, dir_close d s)

unfoldable pub sys_readdir : Dir → FileSystem → Option (Option (ℕ × ℕ) × Dir)
sys_readdir d s = do
  (place, dir_pos) ← dir_read d.dir_pos (inode_of d s) s.volume.disk
  some (place, record d { dir_pos = dir_pos })

unfoldable pub sys_rewinddir : Dir → Dir
sys_rewinddir d = record d { dir_pos = 0 }
