-- ===== src/Fs/Blocks.antt =====
-- The blocks of a partition and of a file: `block_bitmap_alloc` and `bitmap_sync` of fs/file.c, and the
-- part of `file_write` of fs/fs.c that gives a file its blocks.
use tie_zhu_os.Base.{
  ℕ, zero, suc, ◌+◌, ◌-◌, ◌*◌, ◌/◌, ◌%◌, Bool, true, false, not, ◌&&◌, Option, none, some, ltb, leb,
  ◌==◌, if◌then◌else◌, ◌>>◌, assert, Memory, update,
}
use tie_zhu_os.Bitmap.{BitMap, bit_map_scan, bitmap_set}
use tie_zhu_os.Paging.Defs.{idx_or_fail}
use tie_zhu_os.Files.Defs.{Inode}
use tie_zhu_os.Fs.Disk.{Disk, ide_read, ide_write}
use tie_zhu_os.Fs.Inodes.{byte_of, load_word}

-- The partition in use: its disk, its block bitmap and the addresses of its super block.
pub record Volume : Type 0 where
  pub disk : Disk
  pub block_bitmap : BitMap
  pub start_lba : ℕ
  pub block_bitmap_lba : ℕ
  pub inode_table_lba : ℕ
  pub data_start_lba : ℕ

-- `bitmap_sync` for `BLOCK_BITMAP`: the sector of the map with the bit is written.
unfoldable pub bitmap_sync : ℕ → Volume → Volume
bitmap_sync bit_idx v =
    let off_sec = bit_idx / 4096 in
    record v {
      disk =
          ide_write (v.block_bitmap_lba + off_sec) (λ i. v.block_bitmap.bits (off_sec * 512 + i)) 1
            v.disk;
    }

-- A block that was free, cleared on the disk; `none` is -1. `got` tells whether `sys_malloc` gives the
-- buffer.
unfoldable pub block_bitmap_alloc : Bool → Volume → Option ℕ × Volume
block_bitmap_alloc got v =
    if got
    then elim (idx_or_fail (bit_map_scan v.block_bitmap 1)) [
      | none ↦ (none, v)
      | some bit_idx ↦ (
        some (v.data_start_lba + bit_idx),
        record v {
          block_bitmap = bitmap_set v.block_bitmap bit_idx 1;
          disk = ide_write (v.data_start_lba + bit_idx) (λ i. 0) 1 v.disk;
        },
      )
    ]
    else (none, v)

-- A file that gets its blocks: `all_block` is the local table of block addresses.
pub record Growing : Type 0 where
  pub volume : Volume
  pub inode : Inode
  pub all_block : Memory

abbrev pub sync_block : ℕ → Volume → Volume
sync_block lba v = bitmap_sync (lba - v.data_start_lba) v

abbrev pub set_sector : ℕ → ℕ → Growing → Growing
set_sector k lba g = record g {
  inode = record (g.inode) { i_sectors = update g.inode.i_sectors k lba };
}

abbrev pub set_block : ℕ → ℕ → Growing → Growing
set_block k lba g = record g { all_block = update g.all_block k lba }

-- A new block, with the bitmap stored behind it; `false` is the return of -1.
abbrev pub with_block :
    Bool → (ℕ → Growing → Option (Bool × Growing)) → Growing → Option (Bool × Growing)
with_block got next g =
    let (block, v) = block_bitmap_alloc got g.volume in
    elim block [
      | none ↦ some (false, record g { volume = v })
      | some lba ↦ next lba (record g { volume = sync_block lba v })
    ]

-- The loops that allocate the blocks `block_idx` and on: the direct ones go into the inode, too.
unfoldable pub grow_loop : Bool → ℕ → ℕ → Growing → Option (Bool × Growing)
grow_loop got zero block_idx g = some (true, g)
grow_loop got (suc n) block_idx g =
    with_block got
      (λ lba g1.
        if ltb block_idx 12
        then (assert (g1.inode.i_sectors block_idx == 0)
            >> grow_loop got n (block_idx + 1)
                (set_block block_idx lba (set_sector block_idx lba g1)))
        else grow_loop got n (block_idx + 1) (set_block block_idx lba g1))
      g

-- The indirect table is read behind the 12 direct blocks, or written from there.
abbrev pub read_table : Growing → Growing
read_table g = record g {
  all_block = (λ k.
      if leb 12 k && ltb k 140
      then load_word (ide_read (g.inode.i_sectors 12) g.volume.disk) (4 * (k - 12))
      else g.all_block k);
}

abbrev pub write_table : Growing → Growing
write_table g = record g {
  volume = record (g.volume) {
    disk =
        ide_write (g.inode.i_sectors 12) (λ j. byte_of (g.all_block (12 + j / 4)) (j % 4)) 1
          g.volume.disk;
  };
}

abbrev pub keep_last : ℕ → Growing → Growing
keep_last used g = set_block (used - 1) (g.inode.i_sectors (used - 1)) g

-- The first block of a file that has none.
abbrev pub first_block : Bool → Growing → Option (Bool × Growing)
first_block got g =
    if g.inode.i_sectors 0 == 0
    then with_block got (λ lba g1. assert (not (lba == 0)) >> some (true, set_sector 0 lba g1)) g
    else some (true, g)

-- Behind a loop that did not fail the table is written.
abbrev pub then_table : Option (Bool × Growing) → Option (Bool × Growing)
then_table none = none
then_table (some (false, g)) = some (false, g)
then_table (some (true, g)) = some (true, write_table g)

-- The blocks of a file of `used` blocks that is to have `will`.
unfoldable pub grow : Bool → ℕ → ℕ → Growing → Option (Bool × Growing)
grow got used will g =
    if will == used
    then (if leb will 12
        then some (true, keep_last used g)
        else (assert (not (g.inode.i_sectors 12 == 0)) >> some (true, read_table g)))
    else (if leb will 12
        then grow_loop got (will - used) used (keep_last used g)
        else (if leb used 12
            then with_block got
                (λ lba g1.
                  assert (g1.inode.i_sectors 12 == 0)
                  >> then_table (grow_loop got (will - used) used (set_sector 12 lba g1)))
                (keep_last used g)
            else (assert (not (g.inode.i_sectors 12 == 0))
                >> then_table (grow_loop got (will - used) used (read_table g)))))
