-- ===== src/Fs/Removal.antt =====
-- fs/dir.c: `delete_dir_entry` and `dir_read`, over the blocks of a directory and its indirect table.
use tie_zhu_os.Base.{
  ℕ, zero, suc, ◌+◌, ◌-◌, ◌*◌, ◌%◌, ◌^◌, Bool, true, false, not, ◌&&◌, Option, none, some, List, [],
  ◌∷◌, ltb, leb, ◌==◌, if◌then◌else◌, ◌>>=◌, ◌>>◌, assert, Memory, update,
}
use tie_zhu_os.Bitmap.{bitmap_set}
use tie_zhu_os.Files.Defs.{Inode}
use tie_zhu_os.Fs.Disk.{Disk, ide_read, ide_write}
use tie_zhu_os.Fs.Inodes.{inode_sync, copy_inode_isectors}
use tie_zhu_os.Fs.Blocks.{Volume, Growing, bitmap_sync, set_sector, set_block, write_table}
use tie_zhu_os.Fs.Dirs.{
  DirEntry, dir_entry_size, entries_per_sec, name_at, i_no_at, f_type_at, set_disk,
}
pub mod Listing

-- What the walk over a sector has found: the entry ".", the number of entries besides "." and "..",
-- and the place of the last of them with the number of the inode.
pub record Walked : Type 0 where
  pub is_dir_first_block : Bool
  pub dir_entry_cnt : ℕ
  pub dir_entry_found : Option ℕ

abbrev pub dot : List ℕ
dot = 46 ∷ []

abbrev pub dot_dot : List ℕ
dot_dot = 46 ∷ 46 ∷ []

-- One entry.
unfoldable pub walk_entry : ℕ → ℕ → Memory → Walked → Walked
walk_entry inode_no k buf w =
    if f_type_at buf k == 0
    then w
    else (if name_at buf (k * dir_entry_size) dot
        then record w { is_dir_first_block = true }
        else (if name_at buf (k * dir_entry_size) dot_dot then w else record w {
          dir_entry_cnt = w.dir_entry_cnt + 1;
          dir_entry_found = if i_no_at buf k == inode_no then some k else w.dir_entry_found;
        }))

unfoldable pub walk_sector : ℕ → ℕ → ℕ → Memory → Walked → Walked
walk_sector zero k inode_no buf w = w
walk_sector (suc n) k inode_no buf w =
    walk_sector n (k + 1) inode_no buf (walk_entry inode_no k buf w)

abbrev pub not_walked : Walked
not_walked = record { is_dir_first_block = false; dir_entry_cnt = 0; dir_entry_found = none }

-- The bit of a block is cleared, and its part of the bitmap stored.
unfoldable pub free_block : ℕ → Volume → Volume
unfolding bitmap_sync
free_block lba v =
    let bit_idx = (lba + 2 ^ 32 - v.data_start_lba) % 2 ^ 32 in
    bitmap_sync bit_idx (record v { block_bitmap = bitmap_set v.block_bitmap bit_idx 0 })

-- The entries of the indirect table from `k` on that are in use.
pub indirect_blocks : ℕ → ℕ → Memory → ℕ
indirect_blocks zero k all_blocks = 0
indirect_blocks (suc n) k all_blocks =
    (if all_blocks k == 0 then 0 else 1) + indirect_blocks n (k + 1) all_blocks

abbrev pub free_in_volume : ℕ → Growing → Growing
free_in_volume lba g = record g { volume = free_block lba g.volume }

-- A block whose only entry goes is given back; with the last indirect block, so is the table.
unfoldable pub drop_block : ℕ → Growing → Option Growing
unfolding indirect_blocks
drop_block block_idx g =
    let g1 = free_in_volume (g.all_block block_idx) g in
    if ltb block_idx 12
    then some (set_sector block_idx 0 g1)
    else (let used = indirect_blocks 128 12 g.all_block in
        assert (leb 1 used)
        >> some (
            if used == 1
            then set_sector 12 0 (free_in_volume (g.inode.i_sectors 12) g1)
            else write_table (set_block block_idx 0 g1)))

-- Only the entry is cleared.
abbrev pub cleared_entry : ℕ → Memory → Memory
cleared_entry k buf i =
    if leb (k * dir_entry_size) i && ltb i (k * dir_entry_size + dir_entry_size) then 0 else buf i

abbrev pub clear_entry : ℕ → ℕ → Growing → Growing
clear_entry block_idx k g =
    let lba = g.all_block block_idx in
    set_disk (ide_write lba (cleared_entry k (ide_read lba g.volume.disk)) 1 g.volume.disk) g

-- The directory is an entry shorter, and its inode is stored.
unfoldable pub shrink : Growing → Option (Bool × Growing)
shrink g = do
  assert (leb dir_entry_size g.inode.i_bsize)
  let i = record (g.inode) { i_bsize = g.inode.i_bsize - dir_entry_size }
  disk ← inode_sync g.volume.start_lba g.volume.inode_table_lba i g.volume.disk
  some (true, set_disk disk (record g { inode = i }))

unfoldable pub remove_entry : ℕ → Walked → ℕ → Growing → Option (Bool × Growing)
unfolding drop_block shrink
remove_entry block_idx w k g = do
  assert (leb 1 w.dir_entry_cnt)
  g1 ←
      (if w.dir_entry_cnt == 1 && not w.is_dir_first_block
        then drop_block block_idx g
        else some (clear_entry block_idx k g))
  shrink g1

-- The loop over the blocks.
unfoldable pub delete_loop : ℕ → ℕ → ℕ → Growing → Option (Bool × Growing)
delete_loop zero block_idx inode_no g = some (false, g)
delete_loop (suc n) block_idx inode_no g =
    let further = delete_loop n (block_idx + 1) inode_no g in
    let io_buf = ide_read (g.all_block block_idx) g.volume.disk in
    let w = walk_sector entries_per_sec 0 inode_no io_buf not_walked in
    if g.all_block block_idx == 0
    then further
    else elim w.dir_entry_found [ none ↦ further | some k ↦ remove_entry block_idx w k g ]

unfoldable pub delete_dir_entry : ℕ → Inode → Volume → Option (Bool × Growing)
delete_dir_entry inode_no i v =
    delete_loop 140 0 inode_no
      (record { volume = v; inode = i; all_block = copy_inode_isectors i v.disk (λ k. 0) })

-- The loop of `dir_read` over the entries of a sector, to the one behind `dir_pos` bytes of entries:
-- its place, or the bytes passed.
pub read_sector : ℕ → ℕ → ℕ → ℕ → Memory → Option ℕ × ℕ
read_sector zero k dir_pos cur_pos buf = (none, cur_pos)
read_sector (suc n) k dir_pos cur_pos buf =
    let passed = read_sector n (k + 1) dir_pos (cur_pos + dir_entry_size) buf in
    let unused = read_sector n (k + 1) dir_pos cur_pos buf in
    if f_type_at buf k == 0
    then unused
    else (if ltb cur_pos dir_pos then passed else (some k, cur_pos))

-- Behind a sector: the entry found, or the next block.
abbrev pub after_sector : (ℕ → Option (ℕ × ℕ)) → ℕ → ℕ → Option ℕ × ℕ → Option (ℕ × ℕ)
after_sector further lba dir_pos (none, cur_pos) = further cur_pos
after_sector further lba dir_pos (some k, cur_pos) = assert (cur_pos == dir_pos) >> some (lba, k)

-- The loop over the blocks; behind the local table the address read is not one of the directory:
-- `none`. The result is the sector and the place of the entry.
pub dir_read_loop : ℕ → ℕ → ℕ → ℕ → Memory → Disk → Option (ℕ × ℕ)
dir_read_loop zero block_idx dir_pos cur_pos all_blocks disk = none
dir_read_loop (suc n) block_idx dir_pos cur_pos all_blocks disk =
    let skip = dir_read_loop n (block_idx + 1) dir_pos cur_pos all_blocks disk in
    let lba = all_blocks block_idx in
    let next =
      after_sector (λ pos. dir_read_loop n (block_idx + 1) dir_pos pos all_blocks disk) lba dir_pos
        (read_sector entries_per_sec 0 dir_pos cur_pos (ide_read lba disk)) in
    if lba == 0 then skip else next

-- `dir_read`: the place of the next entry with the new `dir_pos`; `NULL` at the end.
unfoldable pub dir_read : ℕ → Inode → Disk → Option (Option (ℕ × ℕ) × ℕ)
dir_read dir_pos i disk =
    if ltb dir_pos i.i_bsize
    then (do
      place ← dir_read_loop 140 0 dir_pos 0 (copy_inode_isectors i disk (λ k. 0)) disk
      some (some place, (dir_pos + dir_entry_size) % 2 ^ 32))
    else some (none, dir_pos)
