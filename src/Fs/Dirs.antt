-- ===== src/Fs/Dirs.antt =====
-- fs/dir.c: the entries of a directory in the blocks of its inode. An entry has `sizeof(dir_entry)`, 24
-- bytes, which the super block repeats; a sector holds 21.
use tie_zhu_os.Base.{
  ℕ, zero, suc, ◌+◌, ◌-◌, ◌*◌, ◌/◌, ◌%◌, ◌^◌, Bool, true, false, not, ◌&&◌, ◌||◌, Option, none,
  some, List, [], ◌∷◌, length, get_or, ltb, leb, ◌==◌, if◌then◌else◌, ◌>>=◌, ◌>>◌, assert, Memory,
  update,
}
use tie_zhu_os.Bitmap.{bitmap_set}
use tie_zhu_os.Files.Defs.{Inode}
use tie_zhu_os.Fs.Disk.{Disk, ide_read, ide_write}
use tie_zhu_os.Fs.Inodes.{byte_of, load_word, inode_sync, copy_inode_isectors}
use tie_zhu_os.Fs.Blocks.{
  Volume, Growing, block_bitmap_alloc, bitmap_sync, with_block, set_sector, set_block, write_table,
  sync_block,
}
use tie_zhu_os.Fs.Path.{max_file_name_len}
pub mod Entries
pub mod Added

-- `dir_entry`; the name is the string in its 16 bytes, and 0 is `FT_UNKNOW`.
pub record DirEntry : Type 0 where
  pub filename : List ℕ
  pub i_no : ℕ
  pub f_type : ℕ

abbrev pub dir_entry_size : ℕ
dir_entry_size = 24

abbrev pub entries_per_sec : ℕ
entries_per_sec = 21

-- The bytes of an entry; those behind the name are 0.
abbrev pub entry_bytes : DirEntry → Memory
entry_bytes e j =
    if ltb j 16
    then get_or e.filename j 0
    else (if ltb j 20 then byte_of e.i_no (j - 16) else byte_of e.f_type (j - 20))

-- Whether `strcmp` of the string at an address and a name is 0.
unfoldable pub name_at : Memory → ℕ → List ℕ → Bool
name_at m a [] = m a == 0
name_at m a (c ∷ cs) = m a == c && not (c == 0) && name_at m (a + 1) cs

abbrev pub i_no_at : Memory → ℕ → ℕ
i_no_at buf k = load_word buf (k * dir_entry_size + 16)

abbrev pub f_type_at : Memory → ℕ → ℕ
f_type_at buf k = load_word buf (k * dir_entry_size + 20)

-- `memcpy` of an entry to the place `k` of a buffer.
abbrev pub put_entry : DirEntry → ℕ → Memory → Memory
put_entry e k buf i =
    if leb (k * dir_entry_size) i && ltb i (k * dir_entry_size + dir_entry_size)
    then entry_bytes e (i - k * dir_entry_size)
    else buf i

-- `create_dir_entry`, over a cleared structure.
unfoldable pub create_dir_entry : List ℕ → ℕ → ℕ → Option DirEntry
create_dir_entry filename inode_no file_type =
    assert (ltb (length filename) max_file_name_len)
    >> some (record { filename = filename; i_no = inode_no; f_type = file_type })

-- The loop of `search_dir_entry` over the entries of a sector.
unfoldable pub search_sector : ℕ → ℕ → List ℕ → Memory → Option DirEntry
search_sector zero k name buf = none
search_sector (suc n) k name buf =
    let further = search_sector n (k + 1) name buf in
    if name_at buf (k * dir_entry_size) name
    then some (record { filename = name; i_no = i_no_at buf k; f_type = f_type_at buf k })
    else further

-- The loop over the blocks; one without an address is skipped.
unfoldable pub search_blocks : ℕ → ℕ → List ℕ → Memory → Disk → Option DirEntry
search_blocks zero block_idx name all_blocks disk = none
search_blocks (suc n) block_idx name all_blocks disk =
    let further = search_blocks n (block_idx + 1) name all_blocks disk in
    if all_blocks block_idx == 0
    then further
    else elim (search_sector entries_per_sec 0 name (ide_read (all_blocks block_idx) disk)) [
      | none ↦ further
      | some e ↦ some e
    ]

-- The 12 direct blocks, in front of memory that `sys_malloc` cleared.
abbrev pub direct_blocks : Inode → Memory
direct_blocks i k = if ltb k 12 then i.i_sectors k else 0

-- The indirect table is read only where entry 12 of the new table, which is 0, is not.
unfoldable pub search_dir_entry : Inode → List ℕ → Disk → Option DirEntry
search_dir_entry i name disk =
    let all_blocks = direct_blocks i in
    let table = λ (k : ℕ).
      if leb 12 k && ltb k 140
      then load_word (ide_read (i.i_sectors 12) disk) (4 * (k - 12))
      else all_blocks k in
    search_blocks 140 0 name (if all_blocks 12 == 0 then all_blocks else table) disk

-- The first place of a sector whose entry has no type.
unfoldable pub free_place : ℕ → ℕ → Memory → Option ℕ
free_place zero k buf = none
free_place (suc n) k buf =
    let further = free_place n (k + 1) buf in if f_type_at buf k == 0 then some k else further

abbrev pub set_disk : Disk → Growing → Growing
set_disk disk g = record g { volume = record (g.volume) { disk = disk } }

-- The entry is written to a sector, and the directory grows.
abbrev pub store_entry : ℕ → Memory → Growing → Growing
store_entry lba buf g = record (set_disk (ide_write lba buf 1 g.volume.disk) g) {
  inode = record (g.inode) { i_bsize = (g.inode.i_bsize + dir_entry_size) % 2 ^ 32 };
}

-- The entry at the start of the cleared new block.
abbrev pub first_entry : DirEntry → ℕ → Growing → Option (Bool × Growing)
first_entry e block_idx g =
    some (true, store_entry (g.all_block block_idx) (put_entry e 0 (λ i. 0)) g)

-- Where the second block for an indirect table cannot be had, the first is given back.
abbrev pub give_up_table : Volume → Growing → Growing
give_up_table v g = record g {
  volume = record v {
    block_bitmap = bitmap_set v.block_bitmap (g.inode.i_sectors 12 - v.data_start_lba) 0;
  };
  inode = record (g.inode) { i_sectors = update g.inode.i_sectors 12 0 };
}

-- An indirect table, and a first block behind it.
abbrev pub with_table : Bool → DirEntry → Growing → Option (Bool × Growing)
with_table got e g =
    let (block, v) = block_bitmap_alloc got g.volume in
    elim block [
      | none ↦ some (false, give_up_table v g)
      | some lba ↦
          first_entry e 12 (write_table (set_block 12 lba (record g { volume = sync_block lba v })))
    ]

-- A block that the directory does not have yet, with the entry.
unfoldable pub new_block : Bool → ℕ → DirEntry → Growing → Option (Bool × Growing)
new_block got block_idx e g =
    with_block got
      (λ lba g1.
        if ltb block_idx 12
        then first_entry e block_idx (set_block block_idx lba (set_sector block_idx lba g1))
        else (if block_idx == 12
            then with_table got e (set_sector 12 lba g1)
            else first_entry e block_idx (write_table (set_block block_idx lba g1))))
      g

-- The loop of `sync_dir_entry` over the blocks.
pub sync_loop : Bool → ℕ → ℕ → DirEntry → Growing → Option (Bool × Growing)
sync_loop got zero block_idx e g = some (false, g)
sync_loop got (suc n) block_idx e g =
    let further = sync_loop got n (block_idx + 1) e g in
    let io_buf = ide_read (g.all_block block_idx) g.volume.disk in
    if g.all_block block_idx == 0
    then new_block got block_idx e g
    else elim (free_place entries_per_sec 0 io_buf) [
      | none ↦ further
      | some k ↦ some (true, store_entry (g.all_block block_idx) (put_entry e k io_buf) g)
    ]

-- The local table has the direct blocks only.
unfoldable pub sync_dir_entry : Bool → DirEntry → Inode → Volume → Option (Bool × Growing)
sync_dir_entry got e i v =
    assert (i.i_bsize % dir_entry_size == 0)
    >> sync_loop got 140 0 e (record { volume = v; inode = i; all_block = direct_blocks i })
