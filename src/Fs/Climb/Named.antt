-- ===== src/Fs/Climb/Named.antt =====
-- `get_child_dir_name` of fs/fs.c finds the name of a directory in the first block of the one above.
use tie_zhu_os.Base.{
  ℕ, zero, suc, ◌+◌, ◌*◌, ◌<◌, ◌≤◌, ◌≡◌, ◌≢◌, refl, ap, ◌∙◌, true, false, some, List, [], ◌∷◌,
  length, ◌==◌, Memory, Bool-cases, inl, inr, arith,
}
use tie_zhu_os.Files.Defs.{Inode}
use tie_zhu_os.Fs.Disk.{Disk, ide_read}
use tie_zhu_os.Fs.Inodes.{copy_inode_isectors}
use tie_zhu_os.Fs.Dirs.{dir_entry_size, entries_per_sec, name_at, i_no_at}
use tie_zhu_os.Fs.Cwd.{string_at, child_in_sector, child_loop, child_name}

-- The first block of a directory with the inode `p` has, for the inode `c`, the name at the place `place`, and no
-- place before that has the number.
pub record IsNamed (p : Inode) (c : ℕ) (disk : Disk) (name : List ℕ) : Type 0 where
  pub place : ℕ
  pub block : p.i_sectors 0 ≢ 0
  pub within : place < entries_per_sec
  pub number : i_no_at (ide_read (p.i_sectors 0) disk) place ≡ c
  pub first : (j : ℕ) → j < place → i_no_at (ide_read (p.i_sectors 0) disk) j ≢ c
  pub text : name_at (ide_read (p.i_sectors 0) disk) (place * dir_entry_size) name ≡ true
  pub short : length name ≤ 15

string_at-name :
    (n a : ℕ) (name : List ℕ) (m : Memory)
    → name_at m a name ≡ true
    → length name < n
    → string_at n a m ≡ name
unfolding name_at
string_at-name zero a name m e lt = absurd (omega arith)
string_at-name (suc n) a [] m e lt = ground (arith, e)
string_at-name (suc n) a (c ∷ cs) m e lt =
    ground (arith, e, string_at-name n (a + 1) cs m (ground (arith, e)) (omega (arith, lt)))

child_in_sector-place :
    (n k c place : ℕ) (buf : Memory)
    → k ≤ place
    → place < k + n
    → i_no_at buf place ≡ c
    → ((j : ℕ) → k ≤ j → j < place → i_no_at buf j ≢ c)
    → child_in_sector n k c buf ≡ some (string_at 16 (place * dir_entry_size) buf)
unfolding child_in_sector
child_in_sector-place zero k c place buf le lt number first = absurd (omega arith)
child_in_sector-place (suc n) k c place buf le lt number first = elim (Bool-cases (k == place)) [
  | inl here ↦
      let same : k ≡ place = ground (arith, here) in
      let found : (i_no_at buf k == c) ≡ true = ground (arith, ap (i_no_at buf) same, number) in
      rw found (ap (λ x. some (string_at 16 (x * dir_entry_size) buf)) same)
  | inr later ↦
      let more : k < place = ground (arith, later) in
      let other : (i_no_at buf k == c) ≡ false = ground (arith, first k (omega arith) more) in
      rw other (
        child_in_sector-place n (k + 1) c place buf (omega (arith, more)) (omega (arith, lt)) number
          (λ j low high. first j (omega (arith, low)) high))
]

child_loop-first :
    (n c : ℕ) (all_blocks : Memory) (disk : Disk) (name : List ℕ)
    → all_blocks 0 ≢ 0
    → child_in_sector entries_per_sec 0 c (ide_read (all_blocks 0) disk) ≡ some name
    → child_loop (suc n) 0 0 c all_blocks disk ≡ some name
unfolding child_loop
child_loop-first n c all_blocks disk name real found =
    let block : (all_blocks 0 == 0) ≡ false = ground (arith, real) in rw (block, found) refl

-- The name is found.
pub child_name-IsNamed :
    (p : Inode) (c : ℕ) (disk : Disk) (name : List ℕ)
    → IsNamed p c disk name
    → child_name p c disk ≡ some name
unfolding child_name copy_inode_isectors
child_name-IsNamed p c disk name h =
    let all_blocks = copy_inode_isectors p disk (λ k. 0) in
    let buf = ide_read (p.i_sectors 0) disk in
    let found : child_in_sector entries_per_sec 0 c buf ≡ some name =
      child_in_sector-place entries_per_sec 0 c h.place buf (omega arith) h.within h.number
        (λ j low high. h.first j high)
      ∙ ap some
          (string_at-name 16 (h.place * dir_entry_size) name buf h.text (omega (arith, h.short))) in
    elim (Bool-cases (all_blocks 12 == 0)) [
      | inl direct ↦ rw direct (child_loop-first 11 c all_blocks disk name h.block found)
      | inr table ↦ rw table (child_loop-first 139 c all_blocks disk name h.block found)
    ]
