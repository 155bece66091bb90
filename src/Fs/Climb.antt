-- ===== src/Fs/Climb.antt =====
-- `sys_getcwd` gives the path of the working directory.
use tie_zhu_os.Base.{
  ℕ, zero, suc, ◌+◌, ◌*◌, ◌<◌, ltb, ◌≤◌, ◌≡◌, ◌≢◌, refl, ap, sym, ◌∙◌, true, false, none, some,
  List, [], ◌∷◌, ◌++◌, length, length-append, append_assoc, append-nil, leb, ◌==◌, >>=-some,
  >>-assert, All, Memory, Bool-cases, inl, inr, arith,
}
use mathlib.Core.Path.{ap₂}
use tie_zhu_os.Files.Defs.{Inode}
use tie_zhu_os.Fs.Disk.{Disk, ide_read}
use tie_zhu_os.Fs.Inodes.{copy_inode_isectors}
use tie_zhu_os.Fs.Blocks.{Volume}
use tie_zhu_os.Fs.Path.{slash}
use tie_zhu_os.Fs.Names.{IsPlain, above, text_of}
use tie_zhu_os.Fs.Dirs.{dir_entry_size, entries_per_sec, name_at, i_no_at}
use tie_zhu_os.Fs.Removal.{dot_dot}
use tie_zhu_os.Fs.System.{FileSystem, Allocator}
use tie_zhu_os.Fs.Views.{
  once, view, AreCounted, IsFresh, Same, Same-refl, Same-trans, Same-view, Same-AreCounted,
  inode_open-Opened,
}
use tie_zhu_os.Fs.Follow.{path_of}
use tie_zhu_os.Fs.Climb.Named.{IsNamed, child_name-IsNamed}
use tie_zhu_os.Fs.Climb.Turned.{length-above, reversed-text}
use tie_zhu_os.Fs.Cwd.{
  look_at, get_parent_dir_inode_nr, string_at, child_in_sector, child_loop, child_name,
  get_child_dir_name, climb_loop, cut_last, reverse_loop, reversed, sys_getcwd,
}
pub mod Named
pub mod Turned

-- The names from a directory up to the root. The second entry of each directory is "..", and the directory that it
-- leads to has the name.
abbrev pub IsChain : FileSystem → ℕ → List (List ℕ) → Type 0
IsChain s zero [] = Unit
IsChain s zero (name ∷ names) = ⊥
IsChain s (suc c) [] = ⊥
IsChain s (suc c) (name ∷ names) =
    (i : Inode) × (p : Inode) × (view s (suc c) ≡ some i)
    × (i.i_sectors 0 ≢ 0)
    × (name_at (ide_read (i.i_sectors 0) s.volume.disk) dir_entry_size dot_dot ≡ true)
    × (view s (i_no_at (ide_read (i.i_sectors 0) s.volume.disk) 1) ≡ some p)
    × IsNamed p (suc c) s.volume.disk name
    × All IsPlain name
    × IsChain s (i_no_at (ide_read (i.i_sectors 0) s.volume.disk) 1) names

child_name-once :
    (i : Inode) (c : ℕ) (disk : Disk) → child_name (once i) c disk ≡ child_name i c disk
unfolding child_name copy_inode_isectors
child_name-once i c disk = refl

module _ (new : Allocator) (fresh : IsFresh new) (s0 : FileSystem) (counted : AreCounted s0) where
  look_at-view :
      (n : ℕ) (i : Inode) (s : FileSystem)
      → Same s0 s
      → view s0 n ≡ some i
      → (j : Inode) × (s1 : FileSystem) × (look_at new n s ≡ some (j, s1))
        × (once j ≡ i)
        × Same s0 s1
  unfolding look_at
  look_at-view n i s m shown =
      let (a, f, e, o) =
        inode_open-Opened new fresh n i s (Same-AreCounted s0 s m counted)
          (Same-view s0 s n m ∙ shown) in
      (f.inodes a, _, >>=-some _ e refl, o.shows, Same-trans s0 s _ m o.closes)

  parent-view :
      (n : ℕ) (i : Inode) (s : FileSystem)
      → Same s0 s
      → view s0 n ≡ some i
      → i.i_sectors 0 ≢ 0
      → (s1 : FileSystem) × (get_parent_dir_inode_nr new n s
          ≡ some (i_no_at (ide_read (i.i_sectors 0) s0.volume.disk) 1, s1))
        × Same s0 s1
  unfolding get_parent_dir_inode_nr
  parent-view n i s m shown real =
      let (j, s1, looked, same, m1) = look_at-view n i s m shown in
      let first = ap {A = Inode} {B = ℕ} (λ x. x.i_sectors 0) same in
      let number = ap₂ (λ (a : ℕ) (v : Volume). i_no_at (ide_read a v.disk) 1) first m.volume in
      (
        s1,
        >>=-some _ looked (>>-assert (ground (arith, real, first)) (ap (λ x. some (x, s1)) number)),
        m1,
      )

  child-view :
      (n c : ℕ) (p : Inode) (name : List ℕ) (s : FileSystem)
      → Same s0 s
      → view s0 n ≡ some p
      → IsNamed p c s0.volume.disk name
      → (s1 : FileSystem) × (get_child_dir_name new n c s ≡ some (some name, s1)) × Same s0 s1
  unfolding get_child_dir_name
  child-view n c p name s m shown found =
      let (j, s1, looked, same, m1) = look_at-view n p s m shown in
      let named =
        sym (child_name-once j c s.volume.disk)
        ∙ ap₂ (λ (x : Inode) (v : Volume). child_name x c v.disk) same m.volume
        ∙ child_name-IsNamed p c s0.volume.disk name found in
      (s1, >>=-some _ looked (ap (λ x. some (x, s1)) named), m1)

  climb_loop-IsChain :
      (fuel c : ℕ) (names : List (List ℕ)) (text : List ℕ) (s : FileSystem)
      → length names ≤ fuel
      → length text + length (path_of names) < 512
      → Same s0 s
      → IsChain s0 c names
      → (s1 : FileSystem) × (climb_loop new fuel c text s ≡ some (some (text ++ path_of names), s1))
        × Same s0 s1
  unfolding climb_loop
  climb_loop-IsChain fuel zero [] text s le room m chain =
      (s, ap (λ x. some (some x, s)) (sym (append-nil text)), m)
  climb_loop-IsChain fuel zero (name ∷ names) text s le room m chain = absurd chain
  climb_loop-IsChain fuel (suc c) [] text s le room m chain = absurd chain
  climb_loop-IsChain zero (suc c) (name ∷ names) text s le room m chain = absurd (omega arith)
  climb_loop-IsChain (suc fuel) (suc c) (name ∷ names) text s le room m
        (i, p, shown, real, _, above_shown, named, _, chain) =
      let (s1, got_parent, m1) = parent-view (suc c) i s m shown real in
      let (s2, got_name, m2) = child-view _ (suc c) p name s1 m1 above_shown named in
      let size_0 = length-append text (slash ∷ name) in
      let size_1 = length-append name (path_of names) in
      let fits : ltb (length (text ++ slash ∷ name)) 512 ≡ true =
        ground (arith, room, size_0, size_1) in
      let (s3, further, m3) =
        climb_loop-IsChain fuel _ names (text ++ slash ∷ name) s2 (omega (arith, le))
          (omega (arith, room, size_0, size_1)) m2 chain in
      (
        s3,
        >>=-some _ got_parent (
            >>=-some _ got_name (
              >>-assert fits further
              ∙ ap (λ x. some (some x, s3)) (append_assoc text (slash ∷ name) (path_of names)))),
        m3,
      )

chain-All :
    (s : FileSystem) (names : List (List ℕ)) (c : ℕ) → IsChain s c names → All (All IsPlain) names
chain-All s [] c h = tt
chain-All s (name ∷ names) zero h = absurd h
chain-All s (name ∷ names) (suc c) (i, p, _, _, _, _, _, plain, chain) =
    (plain, chain-All s names (i_no_at (ide_read (i.i_sectors 0) s.volume.disk) 1) chain)

-- In a directory whose names up to the root are `names`, each in the first block of the directory above it, at the
-- first place with the number of its inode, where that directory is what the second entry, "..", leads to, with fuel
-- for each of them, and where the text of its path has at most 511 bytes and fits the buffer with its 0, `sys_getcwd`
-- gives that text, and gives the state back, but for memory outside the open inodes.
pub sys_getcwd-text_of :
    (new : Allocator) (fuel size c : ℕ) (names : List (List ℕ)) (s : FileSystem)
    → IsFresh new
    → AreCounted s
    → c ≤ 4096
    → length names ≤ fuel
    → length (text_of names) < 512
    → length (text_of names) < size
    → IsChain s c names
    → (s1 : FileSystem) × (sys_getcwd new fuel true size c s ≡ some (some (text_of names), s1))
      × Same s s1
unfolding sys_getcwd
sys_getcwd-text_of new fuel size zero [] s fresh counted small le short room chain =
    (s, >>-assert {b = ltb 1 size} (ground (arith, room)) refl, Same-refl s)
sys_getcwd-text_of new fuel size zero (name ∷ names) s fresh counted small le short room chain =
    absurd chain
sys_getcwd-text_of new fuel size (suc c) [] s fresh counted small le short room chain = absurd chain
sys_getcwd-text_of new fuel size (suc c) (name ∷ names) s fresh counted small le short room chain =
    let (s1, climbed, m) =
      climb_loop-IsChain new fresh s counted fuel (suc c) (name ∷ names) [] s le
        (omega (arith, short, length-above (name ∷ names))) (Same-refl s) chain in
    let inside : (suc c == 0) ≡ false = ground arith in
    (
      s1,
      >>-assert {b = leb (suc c) 4096} (ground (arith, small)) (
          rw inside (
            >>=-some (reversed size) climbed (
              reversed-text size (name ∷ names) s1 room
                (chain-All s (name ∷ names) (suc c) chain)))),
      m,
    )
