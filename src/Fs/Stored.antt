-- ===== src/Fs/Stored.antt =====
-- Inodes that were stored and are read again.
use tie_zhu_os.Base.{
  ℕ, ◌+◌, ◌-◌, ◌*◌, ◌/◌, ◌%◌, ◌^◌, ◌≤◌, ◌<◌, ◌≡◌, refl, ap, ◌∙◌, some, ltb, if◌then◌else◌, >>=-some,
  >>-assert, arith, Memory,
}
use tie_zhu_os.Files.Defs.{Inode}
use tie_zhu_os.Fs.Disk.{Disk, ide_read, ide_write}
use tie_zhu_os.Fs.Inodes.{
  InodePosition, inode_size, inode_locate, word_of, byte_of, inode_bytes, load_word, put_inode,
  inode_sync, loaded, inode_read,
}

-- The numbers of the structure fit their words.
pub record IsWords (i : Inode) : Type 0 where
  pub number : i.i_no < 256
  pub size : i.i_bsize < 2 ^ 32
  pub blocks : (k : ℕ) → k < 13 → i.i_sectors k < 2 ^ 32

pub bytes_load :
    (w : ℕ)
    → w < 2 ^ 32
    → byte_of w 0 + 256 * byte_of w 1 + 65536 * byte_of w 2 + 16777216 * byte_of w 3 ≡ w
bytes_load w h = omega arith

byte_at : (i : Inode) (k c : ℕ) → c < 4 → inode_bytes i (4 * k + c) ≡ byte_of (word_of i k) c
unfolding inode_bytes
byte_at i k c h =
    ap (λ n. byte_of (word_of i n) ((4 * k + c) % 4)) {x = (4 * k + c) / 4} {y = k} (omega arith)
    ∙ ap (byte_of (word_of i k)) {x = (4 * k + c) % 4} {y = c} (omega arith)

word_load :
    (i : Inode) (k : ℕ) → word_of i k < 2 ^ 32 → load_word (inode_bytes i) (4 * k) ≡ word_of i k
word_load i k h = omega (
  arith,
  ap (inode_bytes i) {x = 4 * k} {y = 4 * k + 0} (omega arith),
  byte_at i k 0 (omega arith),
  byte_at i k 1 (omega arith),
  byte_at i k 2 (omega arith),
  byte_at i k 3 (omega arith),
  bytes_load (word_of i k) h,
)

-- The place of the inode `n`.
abbrev place : ℕ → ℕ → InodePosition
place table n = record {
  two_sec = ltb (512 - n * inode_size % 512) inode_size;
  sec_lba = table + n * inode_size / 512;
  off_size = n * inode_size % 512 % 256;
}

locate-place : (table n : ℕ) → n < 4096 → inode_locate table n ≡ some (place table n)
unfolding inode_locate
locate-place table n h = >>-assert {b = ltb n 4096} (ground arith) refl

first_sector :
    (lba at_lba cnt off : ℕ) (buf : Memory) (disk : Disk)
    → at_lba ≡ lba
    → off < 512
    → 0 < cnt
    → ide_read at_lba (ide_write lba buf cnt disk) off ≡ buf off
first_sector lba at_lba cnt off buf disk e h some_sec =
    ground (arith, ap buf {x = (at_lba + off / 512 - lba) * 512 + off % 512} {y = off})

-- In the sector of the inode, `disk1` has the bytes of `disk` with those of the inode put over them.
abbrev HasBytes : ℕ → Inode → Disk → Disk → Type 0
HasBytes table i disk disk1 =
    ((n j : ℕ)
      → n < 4096
      → j < inode_size
      → table + n * inode_size / 512 ≡ table + i.i_no * inode_size / 512
      → ide_read (place table n).sec_lba disk1 ((place table n).off_size + j)
        ≡ put_inode i (place table i.i_no).off_size (ide_read (place table i.i_no).sec_lba disk)
            ((place table n).off_size + j))

-- The bytes from the place of an inode on, after it was stored there.
stored_bytes :
    (start table : ℕ) (i : Inode) (disk : Disk)
    → i.i_no < 256
    → start < table
    → (disk1 : Disk) × (inode_sync start table i disk ≡ some disk1) × HasBytes table i disk disk1
unfolding inode_sync
stored_bytes start table i disk small lt = (
  ide_write (place table i.i_no).sec_lba buf (if (place table i.i_no).two_sec then 2 else 1) disk,
  >>=-some _ (ap (inode_locate table) (omega arith) ∙ locate-place table i.i_no (omega arith))
      (>>-assert {b = ltb start (place table i.i_no).sec_lba} (ground arith) refl),
  λ n j hn hj same. first_sector _ _ _ _ buf disk same (omega arith) (ground arith),
)
  where
    buf : Memory
    buf = put_inode i (place table i.i_no).off_size (ide_read (place table i.i_no).sec_lba disk)

put_here :
    (i : Inode) (off j : ℕ) (m : Memory)
    → j < inode_size
    → put_inode i off m (off + j) ≡ inode_bytes i j
put_here i off j m h = ground (arith, ap (inode_bytes i) {x = off + j - off} {y = j})

-- A word of a buffer that holds the bytes of the word `k` of the inode.
word_agrees :
    (i : Inode) (r : Memory) (a k : ℕ)
    → ((n q : ℕ) → n + 4 * k ≡ q + a → a ≤ n → n < a + 4 → r n ≡ inode_bytes i q)
    → word_of i k < 2 ^ 32
    → load_word r a ≡ word_of i k
word_agrees i r a k same w = omega (
  arith,
  same a (4 * k) (omega arith) (omega arith) (omega arith),
  same (a + 1) (4 * k + 1) (omega arith) (omega arith) (omega arith),
  same (a + 2) (4 * k + 2) (omega arith) (omega arith) (omega arith),
  same (a + 3) (4 * k + 3) (omega arith) (omega arith) (omega arith),
  word_load i k w,
)

-- The bytes of the disk from the place of the inode `n` on.
abbrev read_at : ℕ → ℕ → Disk → Memory
read_at table n disk j = ide_read (place table n).sec_lba disk ((place table n).off_size + j)

-- The bytes at its own place.
own_bytes :
    (table : ℕ) (i : Inode) (disk disk1 : Disk)
    → i.i_no < 256
    → HasBytes table i disk disk1
    → (j : ℕ) → j < inode_size
    → ide_read (place table i.i_no).sec_lba disk1 ((place table i.i_no).off_size + j)
      ≡ inode_bytes i j
own_bytes table i disk disk1 small f j h =
    f i.i_no j (omega arith) h refl
    ∙ put_here i (place table i.i_no).off_size j (ide_read (place table i.i_no).sec_lba disk) h

-- An inode with a number below 256 that `inode_sync` stored is read back with its number, its size
-- and its 13 blocks.
pub inode_sync-inode_read :
    (start table : ℕ) (i : Inode) (disk : Disk)
    → IsWords i
    → start < table
    → (disk1 : Disk) × (r : Inode) × (inode_sync start table i disk ≡ some disk1)
      × (inode_read table i.i_no disk1 ≡ some r)
      × (r.i_no ≡ i.i_no)
      × (r.i_bsize ≡ i.i_bsize)
      × ((k : ℕ) → k < 13 → r.i_sectors k ≡ i.i_sectors k)
unfolding inode_read
inode_sync-inode_read start table i disk v lt =
    let (disk1, e, f) = stored_bytes start table i disk v.number lt in
    (
      disk1,
      loaded (read_at table i.i_no disk1),
      e,
      >>=-some _ (locate-place table i.i_no (omega (arith, v.number))) refl,
      word_agrees i (read_at table i.i_no disk1) 0 0
          (λ n q e low high.
            own_bytes table i disk disk1 v.number f n (omega arith)
            ∙ ap (inode_bytes i) (omega arith))
          (omega (arith, v.number)),
      word_agrees i (read_at table i.i_no disk1) 4 1
          (λ n q e low high.
            own_bytes table i disk disk1 v.number f n (omega arith)
            ∙ ap (inode_bytes i) (omega arith))
          v.size,
      λ k h.
          word_agrees i (read_at table i.i_no disk1) (16 + 4 * k) (k + 4)
            (λ n q e low high.
              own_bytes table i disk disk1 v.number f n (omega arith)
              ∙ ap (inode_bytes i) (omega arith))
            (ground (arith, block k h, v.blocks k))
          ∙ block k h,
    )
  where
    block : (k : ℕ) → k < 13 → word_of i (k + 4) ≡ i.i_sectors k
    block k h = ground (arith, ap i.i_sectors {x = k + 4 - 4} {y = k})

-- Where the number is 4: the bytes from 48 on at the place of the inode 0.
shared_bytes :
    (table : ℕ) (i : Inode) (disk disk1 : Disk)
    → i.i_no ≡ 4
    → HasBytes table i disk disk1
    → (j : ℕ) → j < 28
    → ide_read (place table 0).sec_lba disk1 ((place table 0).off_size + (48 + j)) ≡ inode_bytes i j
shared_bytes table i disk disk1 four f j h =
    f 0 (48 + j) (omega arith) (omega arith) (omega (arith, four))
    ∙ ap (put_inode i (place table i.i_no).off_size (ide_read (place table i.i_no).sec_lba disk))
        (omega (arith, four))
    ∙ put_here i (place table i.i_no).off_size j (ide_read (place table i.i_no).sec_lba disk)
        (omega arith)

-- Two inodes share their bytes on the disk: the offset in the sector is cut to 8 bits. The one with
-- number 4, when it is stored, puts its number into block 8 of the one with number 0, as that is
-- read afterwards, and its size into block 9.
pub inode_sync_overlap :
    (start table : ℕ) (i : Inode) (disk : Disk)
    → IsWords i
    → i.i_no ≡ 4
    → start < table
    → (disk1 : Disk) × (r : Inode) × (inode_sync start table i disk ≡ some disk1)
      × (inode_read table 0 disk1 ≡ some r)
      × (r.i_sectors 8 ≡ 4)
      × (r.i_sectors 9 ≡ i.i_bsize)
unfolding inode_read
inode_sync_overlap start table i disk v four lt =
    let (disk1, e, f) = stored_bytes start table i disk v.number lt in
    (
      disk1,
      loaded (read_at table 0 disk1),
      e,
      >>=-some _ (locate-place table 0 (omega arith)) refl,
      word_agrees i (read_at table 0 disk1) 48 0
            (λ n q e low high.
              ap (read_at table 0 disk1) (omega arith)
              ∙ shared_bytes table i disk disk1 four f q (omega arith))
            (omega (arith, v.number))
          ∙ four,
      word_agrees i (read_at table 0 disk1) 52 1
          (λ n q e low high.
            ap (read_at table 0 disk1) (omega arith)
            ∙ shared_bytes table i disk disk1 four f q (omega arith))
          v.size,
    )
