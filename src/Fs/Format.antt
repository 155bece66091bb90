-- ===== src/Fs/Format.antt =====
-- `partition_format` of fs/fs.c: the super block and the first contents of a partition.
use tie_zhu_os.Base.{
  ℕ, zero, suc, ◌+◌, ◌-◌, ◌*◌, ◌/◌, ◌%◌, ◌^◌, ◌<◌, ◌≤◌, ◌≡◌, refl, ap, sym, ◌∙◌, subst, Bool, true,
  false, ◌&&◌, ltb, leb, ◌==◌, if◌then◌else◌, Memory, update, arith,
}
use tie_zhu_os.Bitmap.{byte_set}
use tie_zhu_os.Fs.Disk.{Disk, ide_write}
use tie_zhu_os.Fs.Inodes.{byte_of}
pub mod Layout

-- `DIV_ROUND_UP`
abbrev pub div_round_up : ℕ → ℕ → ℕ
div_round_up x step = (x + step - 1) % 2 ^ 32 / step

-- `super_block`
pub record SuperBlock : Type 0 where
  pub magic : ℕ
  pub sec_cnt : ℕ
  pub inode_cnt : ℕ
  pub part_lba_base : ℕ
  pub block_bitmap_lba : ℕ
  pub block_bitmap_sects : ℕ
  pub inode_bitmap_lba : ℕ
  pub inode_bitmap_sects : ℕ
  pub inode_table_lba : ℕ
  pub inode_table_sects : ℕ
  pub root_inode_no : ℕ
  pub dir_entry_size : ℕ
  pub data_start_lba : ℕ

-- The sectors in front of the data: 1 for the boot sector, 1 for the super block, 608 for 4096 inodes of 76 bytes
-- and 1 for their bitmap.
abbrev pub inode_table_sects : ℕ
inode_table_sects = div_round_up (76 * 4096) 512

abbrev pub free_sects : ℕ → ℕ
free_sects sec_cnt = (sec_cnt + 2 ^ 32 - (1 + 1 + inode_table_sects + 1)) % 2 ^ 32

-- The bits of the block bitmap, and its sectors.
abbrev pub block_bitmap_bit_len : ℕ → ℕ
block_bitmap_bit_len sec_cnt =
    (free_sects sec_cnt + 2 ^ 32 - div_round_up (free_sects sec_cnt) 4096) % 2 ^ 32

unfoldable pub super_block : ℕ → ℕ → SuperBlock
super_block start_lba sec_cnt =
    let block_sects = div_round_up (block_bitmap_bit_len sec_cnt) 4096 in
    record {
      magic = 0x10190498;
      sec_cnt = sec_cnt;
      inode_cnt = 4096;
      part_lba_base = start_lba;
      block_bitmap_lba = (start_lba + 2) % 2 ^ 32;
      block_bitmap_sects = block_sects;
      inode_bitmap_lba = (start_lba + 2 + block_sects) % 2 ^ 32;
      inode_bitmap_sects = 1;
      inode_table_lba = (start_lba + 2 + block_sects + 1) % 2 ^ 32;
      inode_table_sects = inode_table_sects;
      root_inode_no = 0;
      dir_entry_size = 24;
      data_start_lba = (start_lba + 2 + block_sects + 1 + inode_table_sects) % 2 ^ 32;
    }

-- The word `k` of the super block.
abbrev pub sb_word : SuperBlock → ℕ → ℕ
sb_word sb zero = sb.magic
sb_word sb (suc zero) = sb.sec_cnt
sb_word sb (suc (suc zero)) = sb.inode_cnt
sb_word sb (suc (suc (suc zero))) = sb.part_lba_base
sb_word sb (suc (suc (suc (suc zero)))) = sb.block_bitmap_lba
sb_word sb (suc (suc (suc (suc (suc zero))))) = sb.block_bitmap_sects
sb_word sb (suc (suc (suc (suc (suc (suc zero)))))) = sb.inode_bitmap_lba
sb_word sb (suc (suc (suc (suc (suc (suc (suc zero))))))) = sb.inode_bitmap_sects
sb_word sb (suc (suc (suc (suc (suc (suc (suc (suc zero)))))))) = sb.inode_table_lba
sb_word sb (suc (suc (suc (suc (suc (suc (suc (suc (suc zero))))))))) = sb.inode_table_sects
sb_word sb (suc (suc (suc (suc (suc (suc (suc (suc (suc (suc zero)))))))))) = sb.root_inode_no
sb_word sb (suc (suc (suc (suc (suc (suc (suc (suc (suc (suc (suc zero))))))))))) =
    sb.dir_entry_size
sb_word sb (suc (suc (suc (suc (suc (suc (suc (suc (suc (suc (suc (suc k)))))))))))) =
    sb.data_start_lba

-- Its bytes; what follows the words is what the stack holds.
abbrev pub sb_bytes : SuperBlock → Memory → Memory
sb_bytes sb pad i = if ltb i 52 then byte_of (sb_word sb (i / 4)) (i % 4) else pad i

-- `memset` of a part of the buffer, and a word stored in it.
abbrev pub fill : ℕ → ℕ → ℕ → Memory → Memory
fill start size value buf i = if leb start i && ltb i (start + size) then value else buf i

abbrev pub put_word : ℕ → ℕ → Memory → Memory
put_word a w buf i = if leb a i && ltb i (a + 4) then byte_of w (i - a) else buf i

-- The bits 0 to `block_bitmap_last_bit` of the byte at `a` are cleared.
unfoldable pub clear_low : ℕ → ℕ → ℕ → Memory → Memory
clear_low zero bit_idx a buf = buf
clear_low (suc n) bit_idx a buf =
    clear_low n (bit_idx + 1) a (update buf a (byte_set (buf a) bit_idx 0))

-- The block bitmap: the first block is in use, and so is what the last sector has behind the bitmap.
abbrev pub block_map : ℕ → Memory → Memory
block_map bit_len buf =
    let last_byte = bit_len / 8 in
    clear_low (bit_len % 8 + 1) 0 (last_byte + 1)
      (fill (last_byte + 1) (512 - last_byte % 512) 0xff (update buf 0 1))

-- The inode of the root directory, and its entries "." and "..".
abbrev pub root_inode : ℕ → Memory → Memory
root_inode data_start_lba buf = put_word 16 data_start_lba (put_word 0 0 (put_word 4 48 buf))

abbrev pub root_entries : Memory → Memory
root_entries buf = put_word 40 0 (
    put_word 44 2 (
      update
        (update (update (put_word 16 0 (put_word 20 2 (update (update buf 0 46) 1 0))) 24 46) 25 46)
        26 0))

-- The number of sectors of the buffer; only as many bytes are cleared from one table to the next.
abbrev pub buf_size : SuperBlock → ℕ
buf_size sb =
    let larger =
      if leb sb.inode_bitmap_sects sb.block_bitmap_sects
      then sb.block_bitmap_sects
      else sb.inode_bitmap_sects in
    if ltb larger sb.inode_table_sects then sb.inode_table_sects else larger

-- `partition_format`, where `got` tells whether `sys_malloc` gives the buffer, which is cleared.
unfoldable pub partition_format : Bool → Memory → ℕ → ℕ → Disk → Disk
unfolding super_block clear_low
partition_format got pad start_lba sec_cnt disk =
    let sb = super_block start_lba sec_cnt in
    let size = buf_size sb in
    let disk1 = ide_write (start_lba + 1) (sb_bytes sb pad) 1 disk in
    let buf1 = block_map (block_bitmap_bit_len sec_cnt) (λ i. 0) in
    let disk2 = ide_write sb.block_bitmap_lba buf1 sb.block_bitmap_sects disk1 in
    let buf2 = update (fill 0 size 0 buf1) 0 1 in
    let disk3 = ide_write sb.inode_bitmap_lba buf2 sb.inode_bitmap_sects disk2 in
    let buf3 = root_inode sb.data_start_lba (fill 0 size 0 buf2) in
    let disk4 = ide_write sb.inode_table_lba buf3 inode_table_sects disk3 in
    let buf4 = root_entries (fill 0 size 0 buf3) in
    let disk5 = ide_write sb.data_start_lba buf4 1 disk4 in
    let buf5 = update (fill 0 (size * 512) 0 buf4) 0 3 in
    if got then ide_write sb.block_bitmap_lba buf5 1 disk5 else disk1
