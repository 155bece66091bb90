-- ===== src/Fs/Follow.antt =====
-- Where a path leads: its names looked up one after the other, from directory to directory.
use tie_zhu_os.Base.{
  ℕ, zero, suc, ◌≤◌, ◌≡◌, refl, ap, sym, ◌∙◌, true, false, Option, none, some, List, [], ◌∷◌, ◌++◌,
  length, append_assoc, append-nil, ◌==◌, if◌then◌else◌, ◌>>=◌, >>=-some, >>=-eq-some,
  some_injective, subst, arith, Bool-cases, Option-cases, inl, inr,
}
use mathlib.Core.Path.{ap₂}
use tie_zhu_os.Files.Defs.{Inode}
use tie_zhu_os.Fs.Disk.{Disk}
use tie_zhu_os.Fs.Blocks.{Volume}
use tie_zhu_os.Fs.Path.{slash, path_parse}
use tie_zhu_os.Fs.Names.{AreNames, join, names_of, path_parse-join}
use tie_zhu_os.Fs.Dirs.{DirEntry, search_dir_entry}
use tie_zhu_os.Fs.System.{Dir, FileSystem, Allocator, set_files, inode_of, dir_open, dir_close}
use tie_zhu_os.Fs.Views.{
  once, view, AreCounted, IsFresh, Same, Same-trans, Same-view, Same-AreCounted, inode_open-Opened,
}
use tie_zhu_os.Fs.Search.{
  ft_unknow, ft_regular, ft_directory, Searched, Found, end_search, enter, add_name, search_loop,
}
pub mod Loop

-- Where a path leads: the number of the inode or nothing, the type, and the names that were looked up.
pub record Target : Type 0 where
  pub inode_no : Option ℕ
  pub file_type : ℕ
  pub seen : List (List ℕ)

abbrev pub passed : List ℕ → Target → Target
passed name t = record t { seen = name ∷ t.seen }

abbrev pub only : List ℕ → Option ℕ → ℕ → Target
only name n ty = record { inode_no = n; file_type = ty; seen = name ∷ [] }

-- The names looked up one after the other, from the directory `i`, the one with the number `last`; `none` where
-- the number of a directory is not that of an inode.
unfoldable pub follow : (ℕ → Option Inode) → Disk → ℕ → Inode → List (List ℕ) → Option Target
follow shown disk last i [] =
    some (record { inode_no = some last; file_type = ft_directory; seen = [] })
follow shown disk last i (name ∷ names) = elim (search_dir_entry i name disk) [
  | none ↦ some (only name none ft_unknow)
  | some e ↦
      let into =
        shown e.i_no >>= λ j. follow shown disk e.i_no j names >>= λ t. some (passed name t) in
      let on = follow shown disk e.i_no i names >>= λ t. some (passed name t) in
      if e.f_type == ft_directory
      then into
      else (if e.f_type == ft_regular then some (only name (some e.i_no) ft_regular) else on)
]

-- The path of names, with one slash in front of each.
abbrev pub path_of : List (List ℕ) → List ℕ
path_of [] = []
path_of (name ∷ names) = slash ∷ (name ++ path_of names)

-- The names that were looked up are names of the path.
abbrev pub one_slash : List (List ℕ) → List (ℕ × List ℕ)
one_slash [] = []
one_slash (name ∷ names) = (0, name) ∷ one_slash names

pub join-one_slash : (names : List (List ℕ)) → join (one_slash names) ≡ path_of names
join-one_slash [] = refl
join-one_slash (name ∷ names) = ap (λ x. slash ∷ (name ++ x)) (join-one_slash names)

pub length-one_slash : (names : List (List ℕ)) → length (one_slash names) ≡ length names
length-one_slash [] = refl
length-one_slash (name ∷ names) = ap suc (length-one_slash names)

-- The inode with a number, if it has that number itself.
abbrev pub known : FileSystem → ℕ → Option Inode
known s n = view s n >>= λ i. if i.i_no == n then some i else none

known_lem :
    (s : FileSystem) (n : ℕ) (i : Inode) → known s n ≡ some i → (view s n ≡ some i) × (i.i_no ≡ n)
known_lem s n i e =
    let (j, shown, test) = >>=-eq-some (view s n) _ e in
    elim (Bool-cases (j.i_no == n)) [
      | inl same ↦
          let eq : j ≡ i = some_injective (sym (rw same refl) ∙ test) in
          (shown ∙ ap some eq, ap {A = Inode} {B = ℕ} (λ x. x.i_no) (sym eq) ∙ ground (arith, same))
      | inr other ↦ absurd (ground (arith, test, other))
    ]

-- One name of `follow`.
module _ (shown : ℕ → Option Inode) (disk : Disk) (last : ℕ) (i : Inode) (name : List ℕ)
    (names : List (List ℕ)) where
  follow_missing :
      search_dir_entry i name disk ≡ none
      → follow shown disk last i (name ∷ names) ≡ some (only name none ft_unknow)
  unfolding follow
  follow_missing e = rw (follow, e) refl

  follow_into :
      (e : DirEntry)
      → search_dir_entry i name disk ≡ some e
      → (e.f_type == ft_directory) ≡ true
      → follow shown disk last i (name ∷ names)
        ≡ (shown e.i_no >>= λ j. follow shown disk e.i_no j names >>= λ t. some (passed name t))
  unfolding follow
  follow_into e found dir = rw (follow, found, dir) refl

  follow_regular :
      (e : DirEntry)
      → search_dir_entry i name disk ≡ some e
      → (e.f_type == ft_directory) ≡ false
      → (e.f_type == ft_regular) ≡ true
      → follow shown disk last i (name ∷ names) ≡ some (only name (some e.i_no) ft_regular)
  unfolding follow
  follow_regular e found dir file = rw (follow, found, dir, file) refl

  follow_on :
      (e : DirEntry)
      → search_dir_entry i name disk ≡ some e
      → (e.f_type == ft_directory) ≡ false
      → (e.f_type == ft_regular) ≡ false
      → follow shown disk last i (name ∷ names)
        ≡ (follow shown disk e.i_no i names >>= λ t. some (passed name t))
  unfolding follow
  follow_on e found dir file = rw (follow, found, dir, file) refl

pub follow-AreNames :
    (shown : ℕ → Option Inode) (disk : Disk) (last : ℕ) (i : Inode) (names : List (List ℕ))
    (t : Target)
    → AreNames (one_slash names)
    → follow shown disk last i names ≡ some t
    → AreNames (one_slash t.seen)
unfolding follow
follow-AreNames shown disk last i [] t h e =
    subst (λ x. AreNames (one_slash x.seen)) (some_injective e) tt
follow-AreNames shown disk last i (name ∷ names) t (h, hs) e =
    elim (Option-cases (search_dir_entry i name disk)) [
      | inl missing ↦
          subst (λ x. AreNames (one_slash x.seen))
            (some_injective (sym (follow_missing shown disk last i name names missing) ∙ e)) (h, tt)
      | inr (d, found) ↦ elim (Bool-cases (d.f_type == ft_directory)) [
        | inl dir ↦
            let (j, _, e1) =
              >>=-eq-some (shown d.i_no) _
                (sym (follow_into shown disk last i name names d found dir) ∙ e) in
            let (t1, e2, same) = >>=-eq-some (follow shown disk d.i_no j names) _ e1 in
            subst (λ x. AreNames (one_slash x.seen)) (some_injective same)
              (h, follow-AreNames shown disk d.i_no j names t1 hs e2)
        | inr no_dir ↦ elim (Bool-cases (d.f_type == ft_regular)) [
          | inl file ↦
              subst (λ x. AreNames (one_slash x.seen))
                (some_injective
                  (sym (follow_regular shown disk last i name names d found no_dir file) ∙ e))
                (h, tt)
          | inr no_file ↦
              let (t1, e2, same) =
                >>=-eq-some (follow shown disk d.i_no i names) _
                  (sym (follow_on shown disk last i name names d found no_dir no_file) ∙ e) in
              subst (λ x. AreNames (one_slash x.seen)) (some_injective same)
                (h, follow-AreNames shown disk d.i_no i names t1 hs e2)
        ]
      ]
    ]
