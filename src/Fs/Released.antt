-- ===== src/Fs/Released.antt =====
-- The bits of the block bitmap when an inode is released.
use tie_zhu_os.Base.{
  ℕ, zero, suc, ◌+◌, ◌-◌, ◌%◌, ◌^◌, ◌<◌, ◌≡◌, ◌≢◌, refl, ◌∙◌, Bool, false, not, ◌&&◌, ◌||◌, some,
  ◌==◌, if◌then◌else◌, >>=-some, >>-assert, arith, Memory, Bool-cases, inl, inr,
}
use tie_zhu_os.Bitmap.{bit_map_scan_test}
use tie_zhu_os.Bitmap.Laws.{IsBytes, bitmap_set-IsBytes, scan_test-bitmap_set}
use tie_zhu_os.Files.Defs.{Inode}
use tie_zhu_os.Fs.Inodes.{copy_inode_isectors}
use tie_zhu_os.Fs.Blocks.{Volume, bitmap_sync}
use tie_zhu_os.Fs.Removal.{free_block}
use tie_zhu_os.Fs.Unlink.{release_block, release_loop, release_blocks}

-- The bit of a block.
abbrev pub bit_of : ℕ → ℕ → ℕ
bit_of data_start_lba lba = (lba + 2 ^ 32 - data_start_lba) % 2 ^ 32

-- Whether one of the blocks `block_idx` and on has the bit `j`.
abbrev pub has_bit : ℕ → ℕ → Memory → ℕ → ℕ → Bool
has_bit zero block_idx all_blocks start j = false
has_bit (suc n) block_idx all_blocks start j =
    (not (all_blocks block_idx == 0) && bit_of start (all_blocks block_idx) == j)
    || has_bit n (block_idx + 1) all_blocks start j

-- The first data block is not among the blocks.
abbrev pub AreReleasable : ℕ → ℕ → Memory → ℕ → Type 0
AreReleasable n block_idx all_blocks start =
    (k : ℕ) → k < block_idx + n → all_blocks k ≢ 0 → bit_of start (all_blocks k) ≢ 0

-- The bits `freed` are cleared in the bitmap, and no others.
pub record Cleared (freed : ℕ → Bool) (v v1 : Volume) : Type 0 where
  pub bits :
      (j : ℕ)
      → bit_map_scan_test v1.block_bitmap j
        ≡ (if freed j then false else bit_map_scan_test v.block_bitmap j)
  pub bytes : IsBytes v1.block_bitmap
  pub start : v1.data_start_lba ≡ v.data_start_lba

nothing-Cleared : (v : Volume) → IsBytes v.block_bitmap → Cleared (λ j. false) v v
nothing-Cleared v bytes = record { bits = λ j. refl; bytes = bytes; start = refl }

Cleared-trans :
    (f g h : ℕ → Bool) (v v1 v2 : Volume)
    → Cleared f v v1
    → Cleared g v1 v2
    → ((j : ℕ) → h j ≡ (f j || g j))
    → Cleared h v v2
Cleared-trans f g h v v1 v2 c d both = record {
  bits = λ j. ground (arith, c.bits j, d.bits j, both j);
  bytes = d.bytes;
  start = d.start ∙ c.start;
}

free_block-Cleared :
    (lba : ℕ) (v : Volume)
    → IsBytes v.block_bitmap
    → Cleared (λ j. bit_of v.data_start_lba lba == j) v (free_block lba v)
unfolding free_block bitmap_sync
free_block-Cleared lba v bytes = record {
  bits = λ j.
      scan_test-bitmap_set v.block_bitmap (bit_of v.data_start_lba lba) 0 j (inl refl) bytes
      ∙ ground arith;
  bytes = bitmap_set-IsBytes v.block_bitmap (bit_of v.data_start_lba lba) 0 (inl refl) bytes;
  start = refl;
}

release_block-free :
    (lba : ℕ) (v : Volume)
    → bit_of v.data_start_lba lba ≢ 0
    → release_block lba v ≡ some (free_block lba v)
release_block-free lba v real =
    >>-assert {b = not (bit_of v.data_start_lba lba == 0)} (ground (arith, real)) refl

release_loop-Cleared :
    (n block_idx : ℕ) (all_blocks : Memory) (v : Volume)
    → IsBytes v.block_bitmap
    → AreReleasable n block_idx all_blocks v.data_start_lba
    → (v1 : Volume) × (release_loop n block_idx all_blocks v ≡ some v1)
      × Cleared (has_bit n block_idx all_blocks v.data_start_lba) v v1
unfolding release_loop free_block bitmap_sync
release_loop-Cleared zero block_idx all_blocks v bytes ok = (v, refl, nothing-Cleared v bytes)
release_loop-Cleared (suc n) block_idx all_blocks v bytes ok =
    elim (Bool-cases (all_blocks block_idx == 0)) [
      | inl skip ↦
          let (v1, e, c) =
            release_loop-Cleared n (block_idx + 1) all_blocks v bytes
              (λ k lt. ok k (omega arith)) in
          (
            v1,
            rw skip e,
            Cleared-trans (λ j. false) (has_bit n (block_idx + 1) all_blocks v.data_start_lba) _ v v
                v1 (nothing-Cleared v bytes) c (λ j. rw skip refl),
          )
      | inr real ↦
          let lba = all_blocks block_idx in
          let c = free_block-Cleared lba v bytes in
          let nonzero = ok block_idx (omega arith) (ground (arith, real)) in
          let (v1, e, d) =
            release_loop-Cleared n (block_idx + 1) all_blocks (free_block lba v) c.bytes
              (λ k lt. ok k (omega arith)) in
          (
            v1,
            rw real (
                >>=-some (release_loop n (block_idx + 1) all_blocks)
                  (release_block-free lba v nonzero) e),
            Cleared-trans (λ j. bit_of v.data_start_lba lba == j)
                (has_bit n (block_idx + 1) all_blocks v.data_start_lba) _ v (free_block lba v) v1 c
                d (λ j. rw real refl),
          )
    ]

-- Whether the indirect table of an inode has the bit `j`, or one of its blocks.
abbrev pub inode_has_bit : Inode → Volume → ℕ → Bool
inode_has_bit i v j =
    (not (i.i_sectors 12 == 0) && bit_of v.data_start_lba (i.i_sectors 12) == j)
    || has_bit (if i.i_sectors 12 == 0 then 12 else 140) 0 (copy_inode_isectors i v.disk (λ k. 0))
        v.data_start_lba j

-- The release of an inode whose blocks and indirect table are not the first data block fails no assertion,
-- clears the bits of its blocks and of the table in the bitmap, and leaves all others.
pub release_blocks-Cleared :
    (i : Inode) (v : Volume)
    → IsBytes v.block_bitmap
    → AreReleasable 140 0 (copy_inode_isectors i v.disk (λ k. 0)) v.data_start_lba
    → (i.i_sectors 12 ≢ 0 → bit_of v.data_start_lba (i.i_sectors 12) ≢ 0)
    → (v1 : Volume) × (release_blocks i v ≡ some v1) × Cleared (inode_has_bit i v) v v1
unfolding release_blocks free_block bitmap_sync
release_blocks-Cleared i v bytes ok table =
    let all_blocks = copy_inode_isectors i v.disk (λ k. 0) in
    elim (Bool-cases (i.i_sectors 12 == 0)) [
      | inl direct ↦
          let (v1, e, c) =
            release_loop-Cleared 12 0 all_blocks v bytes (λ k lt. ok k (omega arith)) in
          (
            v1,
            rw direct e,
            Cleared-trans (λ j. false) (has_bit 12 0 all_blocks v.data_start_lba) _ v v v1
                (nothing-Cleared v bytes) c (λ j. rw direct refl),
          )
      | inr indirect ↦
          let lba = i.i_sectors 12 in
          let c = free_block-Cleared lba v bytes in
          let (v1, e, d) = release_loop-Cleared 140 0 all_blocks (free_block lba v) c.bytes ok in
          (
            v1,
            rw indirect (
                >>=-some (release_loop 140 0 all_blocks)
                  (release_block-free lba v (table (ground (arith, indirect)))) e),
            Cleared-trans (λ j. bit_of v.data_start_lba lba == j)
                (has_bit 140 0 all_blocks v.data_start_lba) _ v (free_block lba v) v1 c d
                (λ j. rw indirect refl),
          )
    ]
