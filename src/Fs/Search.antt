-- ===== src/Fs/Search.antt =====
-- `search_file` of fs/fs.c: a path is followed from directory to directory.
use tie_zhu_os.Base.{
  ℕ, zero, suc, Bool, ◌&&◌, ◌||◌, Option, none, some, List, [], ◌∷◌, ◌++◌, length, ltb, leb, ◌==◌,
  if◌then◌else◌, ◌>>=◌, ◌>>◌, assert,
}
use tie_zhu_os.Fs.Path.{slash, next_name, same_text, starts_with_slash}
use tie_zhu_os.Fs.Dirs.{search_dir_entry}
use tie_zhu_os.Fs.System.{Dir, FileSystem, Allocator, inode_of, dir_open, dir_close}

-- `enum file_type`
abbrev pub ft_unknow : ℕ
ft_unknow = 0

abbrev pub ft_regular : ℕ
ft_regular = 1

abbrev pub ft_directory : ℕ
ft_directory = 2

abbrev pub max_path_len : ℕ
max_path_len = 512

-- `path_seach_record`
pub record Searched : Type 0 where
  pub searched_path : List ℕ
  pub parent_dir : Dir
  pub file_type : ℕ

-- The number of the inode, where `none` is -1, with the record and the state.
abbrev pub Found : Type 0
Found = Option ℕ × Searched × FileSystem

-- Behind the whole path: the directory is closed, and its parent opened.
unfoldable pub end_search : Allocator → ℕ → ℕ → Searched → FileSystem → Option Found
end_search new last parent_inode_no r s = do
  (d, s1) ← dir_open new parent_inode_no (dir_close r.parent_dir s)
  some (some last, record r { parent_dir = d; file_type = ft_directory }, s1)

-- The directory of an entry takes the place of the directory that it stands in.
unfoldable pub enter : Allocator → ℕ → Searched → FileSystem → Option (Searched × FileSystem)
enter new inode_no r s = do
  (d, s1) ← dir_open new inode_no (dir_close r.parent_dir s)
  some (record r { parent_dir = d }, s1)

abbrev pub add_name : List ℕ → Searched → Searched
add_name name r = record r { searched_path = r.searched_path ++ slash ∷ name }

-- The loop, with the name and the rest of the path; `last` is `dir_e.i_no`. `searched_path` must have room for the
-- name and its 0.
unfoldable pub search_loop :
    Allocator → ℕ → Option (List ℕ × List ℕ) → ℕ → ℕ → Searched → FileSystem → Option Found
search_loop new fuel none last parent_inode_no r s = end_search new last parent_inode_no r s
search_loop new fuel (some ([], rest)) last parent_inode_no r s =
    end_search new last parent_inode_no r s
search_loop new zero (some (c ∷ cs, rest)) last parent_inode_no r s = none
search_loop new (suc fuel) (some (c ∷ cs, rest)) last parent_inode_no r s =
    let r1 = add_name (c ∷ cs) r in
    let i = inode_of r.parent_dir s in
    assert (ltb (length r1.searched_path) max_path_len)
    >> elim (search_dir_entry i (c ∷ cs) s.volume.disk) [
      | none ↦ some (none, r1, s)
      | some e ↦ next_name rest >>= λ parsed.
          (let into =
              enter new e.i_no r1 s >>= λ t. search_loop new fuel parsed e.i_no i.i_no t.0 t.1 in
            let on = search_loop new fuel parsed e.i_no parent_inode_no r1 s in
            if e.f_type == ft_directory
            then into
            else (if e.f_type == ft_regular
                then some (some e.i_no, record r1 { file_type = ft_regular }, s)
                else on))
    ]

-- "/", "/." and "/.."
abbrev pub is_root_path : List ℕ → Bool
is_root_path path =
    same_text path (slash ∷ [])
    || same_text path (slash ∷ 46 ∷ [])
    || same_text path (slash ∷ 46 ∷ 46 ∷ [])

-- `search_file`. The case of the root has no `return`: it only clears `searched_path`, which is `old` before.
-- `junk` is what the variable `dir_e` holds at first.
unfoldable pub search_file : Allocator → ℕ → List ℕ → List ℕ → FileSystem → Option Found
search_file new junk path old s =
    assert (leb 1 (length path) && leb (length path) max_path_len && starts_with_slash path)
    >> (next_name path >>= λ parsed.
        search_loop new (length path) parsed junk 0
          (record {
            searched_path = if is_root_path path then [] else old;
            parent_dir = s.root_dir;
            file_type = ft_unknow;
          })
          s)
