-- ===== src/Fs/Found.antt =====
-- What the calls that search a path come to.
use tie_zhu_os.Base.{
  ℕ, suc, ◌<◌, ◌≤◌, ◌≡◌, ◌≢◌, refl, ap, sym, ◌∙◌, Bool, true, false, none, some, List, [], ◌∷◌,
  ◌++◌, length, length-append, ◌==◌, if◌then◌else◌, >>=-some, >>-assert, subst, append-nil, All,
  Bool-cases, arith, inl, inr, ◌⊎◌, minus_one,
}
use tie_zhu_os.Files.Defs.{Inode}
use tie_zhu_os.Fs.Path.{slash, path_depth_cnt}
use tie_zhu_os.Fs.Names.{
  IsPlain, AreNames, slashes, join, names_of, next_name-names, path_depth_cnt-join,
}
use tie_zhu_os.Fs.System.{FileSystem, Allocator, inode_of, dir_close}
use tie_zhu_os.Fs.Views.{once, view, AreCounted, IsFresh, Same, Same-refl}
use tie_zhu_os.Fs.Search.{ft_unknow, ft_directory, Searched, is_root_path, search_file}
use tie_zhu_os.Fs.Follow.{
  Target, known, follow, path_of, one_slash, join-one_slash, length-one_slash, follow-AreNames,
}
use tie_zhu_os.Fs.Follow.Loop.{Holds, search_loop-follow}
use tie_zhu_os.Fs.Opening.{o_creat, is_refused, ends_with_slash, open_found, sys_open}
use tie_zhu_os.Fs.Cwd.{sys_chdir}

-- The root directory is open, with the number 0, and open inodes are counted.
pub record IsSound (s : FileSystem) (root : Inode) : Type 0 where
  pub is_root : s.root_dir.is_root ≡ true
  pub opened : once (inode_of s.root_dir s) ≡ root
  pub shown : view s 0 ≡ some root
  pub counted : AreCounted s
  pub number : root.i_no ≡ 0

names_bound : (names : List (ℕ × List ℕ)) → length names ≤ length (join names)
names_bound [] = omega arith
names_bound ((n, name) ∷ names) = omega (
  arith,
  names_bound names,
  length-append (slashes n) (name ++ join names),
  length-append name (join names),
)

either_nil : (b : Bool) → (if◌then◌else◌ {A = List ℕ} b [] []) ≡ []
either_nil true = refl
either_nil false = refl

closed_root : (s : FileSystem) → s.root_dir.is_root ≡ true → Same s (dir_close s.root_dir s)
unfolding dir_close
closed_root s root =
    let same : dir_close s.root_dir s ≡ s = ground (arith, root) in
    subst (Same s) (sym same) (Same-refl s)

-- `search_file` of a path with one or more names, each behind slashes: the inode and the type are those to which
-- the names lead from the root, the searched path has the names that were looked up, and closing the
-- directory that stays open gives the state back, but for memory outside the open inodes. The names have at most 15
-- bytes and the path at most 511.
pub search_file-follow :
    (new : Allocator) (junk n : ℕ) (name : List ℕ) (names : List (ℕ × List ℕ)) (root : Inode)
    (s : FileSystem) (t : Target)
    → IsFresh new
    → IsSound s root
    → AreNames ((n, name) ∷ names)
    → length (join ((n, name) ∷ names)) < 512
    → follow (known s) s.volume.disk junk root (name ∷ names_of names) ≡ some t
    → (r : Searched) × (s1 : FileSystem) × (search_file new junk (join ((n, name) ∷ names)) [] s
        ≡ some (t.inode_no, r, s1))
      × (r.file_type ≡ t.file_type)
      × (r.searched_path ≡ path_of t.seen)
      × Same s (dir_close r.parent_dir s1)
unfolding search_file
search_file-follow new junk n name names root s t fresh sound h short e =
    let path = join ((n, name) ∷ names) in
    let root_held : Holds s s s.root_dir root = record {
      closed = closed_root s sound.is_root;
      volume = refl;
      shows = sound.opened;
    } in
    let (o, parsed) = next_name-names ((n, name) ∷ names) h in
    let cleared = ap length (either_nil (is_root_path path)) in
    let (r, s1, found, ty, text, j, held) =
      search_loop-follow new fresh s sound.counted (length path) junk 0 root root
        ((n, name) ∷ names) o
        (record {
          searched_path = if is_root_path path then [] else [];
          parent_dir = s.root_dir;
          file_type = ft_unknow;
        })
        s t (names_bound ((n, name) ∷ names)) h parsed (omega (arith, short, cleared)) refl
        sound.shown (ap (view s) sound.number ∙ sound.shown) root_held e in
    (
      r,
      s1,
      >>-assert (ground (arith, short)) (>>=-some _ parsed found),
      ty,
      text ∙ ap (λ x. x ++ path_of t.seen) (either_nil (is_root_path path)),
      held.closed,
    )

ends-append :
    (xs : List ℕ) (y : ℕ) (ys : List ℕ) → ends_with_slash (xs ++ y ∷ ys) ≡ ends_with_slash (y ∷ ys)
ends-append [] y ys = refl
ends-append (x ∷ []) y ys = refl
ends-append (x ∷ x2 ∷ xs) y ys = ends-append (x2 ∷ xs) y ys

ends_plain : (c : ℕ) (cs : List ℕ) → All IsPlain (c ∷ cs) → ends_with_slash (c ∷ cs) ≡ false
ends_plain c [] (h, _) = ground (arith, h)
ends_plain c (d ∷ ds) (_, h) = ends_plain d ds h

-- A path of names ends with the last of them.
ends-join :
    (n : ℕ) (name : List ℕ) (names : List (ℕ × List ℕ))
    → AreNames ((n, name) ∷ names)
    → ends_with_slash (join ((n, name) ∷ names)) ≡ false
ends-join n [] names (h, _) = absurd h
ends-join n (c ∷ cs) [] (h, _) =
    ends-append (slashes (suc n)) c (cs ++ [])
    ∙ ap (λ x. ends_with_slash (c ∷ x)) (append-nil cs)
    ∙ ends_plain c cs h.0
ends-join n (c ∷ cs) ((m, next) ∷ names) (_, hs) =
    ends-append (slashes (suc n)) c (cs ++ join ((m, next) ∷ names))
    ∙ ends-append (c ∷ cs) slash (slashes m ++ (next ++ join names))
    ∙ ends-join m next names hs

depth-path_of :
    (names : List (List ℕ))
    → AreNames (one_slash names)
    → path_depth_cnt (path_of names) ≡ some (length names)
depth-path_of names h =
    ap path_depth_cnt (sym (join-one_slash names))
    ∙ path_depth_cnt-join (one_slash names) h
    ∙ ap some (length-one_slash names)

names_plain : (names : List (ℕ × List ℕ)) → AreNames names → AreNames (one_slash (names_of names))
names_plain [] h = tt
names_plain ((n, name) ∷ names) (h, hs) = (h, names_plain names hs)

module _ (new : Allocator) (junk n : ℕ) (name : List ℕ) (names : List (ℕ × List ℕ)) (root : Inode)
    (s : FileSystem) (t : Target) (fresh : IsFresh new) (sound : IsSound s root)
    (h : AreNames ((n, name) ∷ names)) (short : length (join ((n, name) ∷ names)) < 512)
    (leads : follow (known s) s.volume.disk junk root (name ∷ names_of names) ≡ some t) where
  -- `sys_chdir` moves to the inode where the path leads, if that is a directory, and else fails.
  pub sys_chdir-follow :
      (s1 : FileSystem) × (sys_chdir new junk (join ((n, name) ∷ names)) s
        ≡ some (if t.file_type == ft_directory then t.inode_no else none, s1))
  unfolding sys_chdir
  sys_chdir-follow =
      let (r, s1, found, ty, _, _) =
        search_file-follow new junk n name names root s t fresh sound h short leads in
      (
        s1,
        >>=-some _ found (ap (λ x. some (if x == ft_directory then t.inode_no else none, s1)) ty),
      )

  -- What `sys_open` finds wrong with the path.
  abbrev pub IsRefused : ℕ → Type 0
  IsRefused flags =
      (t.file_type ≡ ft_directory)
      ⊎ (length t.seen ≢ suc (length names))
      ⊎ ((t.inode_no ≡ none) × (o_creat flags ≡ false))
      ⊎ ((i : ℕ) × (t.inode_no ≡ some i) × (flags ≡ 4))

  -- Behind the test for a directory, one of the others is true.
  refused_path :
      (flags : ℕ)
      → t.file_type ≢ ft_directory
      → IsRefused flags
      → is_refused (suc (length names)) (length t.seen) flags t.inode_no ≡ true
  refused_path flags no_dir (inl dir) = absurd (no_dir dir)
  refused_path flags no_dir (inr (inl part)) = ground (arith, part)
  refused_path flags no_dir (inr (inr (inl (missing, no_creat)))) =
      rw (missing, no_creat) (ground arith)
  refused_path flags no_dir (inr (inr (inr (i, there, only_creat)))) =
      rw (there, only_creat) (ground arith)

  -- `sys_open` of a path that leads to a directory, that is not all there, of a missing file that is not to be
  -- created, or of a file that is to be created only but exists, fails and gives the state back, but for memory
  -- outside the open inodes. The names have at most 15 bytes and the path at most 511.
  pub sys_open-refuses :
      (got : Bool) (flags : ℕ)
      → IsRefused flags
      → (s1 : FileSystem) × (sys_open new got junk (join ((n, name) ∷ names)) flags s
          ≡ some (minus_one, s1))
        × Same s s1
  unfolding sys_open open_found
  sys_open-refuses got flags wrong =
      let (r, s1, found, ty, text, same) =
        search_file-follow new junk n name names root s t fresh sound h short leads in
      let depth : path_depth_cnt r.searched_path ≡ some (length t.seen) =
        ap path_depth_cnt text
        ∙ depth-path_of t.seen (
            follow-AreNames (known s) s.volume.disk junk root (name ∷ names_of names) t
              (h.0, names_plain names h.1) leads) in
      (
        dir_close r.parent_dir s1,
        rw (ends-join n name names h) (
            >>=-some _ (path_depth_cnt-join ((n, name) ∷ names) h) (
              >>=-some _ found (elim (Bool-cases (r.file_type == ft_directory)) [
                | inl dir ↦ rw dir refl
                | inr no_dir ↦ rw no_dir (
                    >>=-some _ depth (
                      rw (refused_path flags (λ e. absurd (ground (arith, ty, no_dir, e))) wrong)
                        refl))
              ]))),
        same,
      )
