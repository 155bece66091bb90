-- ===== src/Tests/Dirs.antt =====
-- A directory of two blocks.
use tie_zhu_os.Base.{
  ℕ, ◌+◌, ◌*◌, ◌%◌, ◌^◌, ◌≤◌, ◌≡◌, ◌≢◌, refl, true, none, some, [], ◌∷◌, length, get_or, ltb, ◌==◌,
  if◌then◌else◌, arith, suc,
}
use tie_zhu_os.Files.Defs.{Inode}
use tie_zhu_os.Fs.Inodes.{copy_inode_isectors}
use tie_zhu_os.Fs.Disk.{Disk, ide_read}
use tie_zhu_os.Fs.Blocks.{Volume, Growing}
use tie_zhu_os.Fs.Dirs.{
  DirEntry, name_at, entries_per_sec, direct_blocks, free_place, search_sector, search_blocks,
  search_dir_entry, sync_dir_entry,
}
use tie_zhu_os.Fs.Dirs.Entries.{IsEntry}
use tie_zhu_os.Fs.Dirs.Added.{AreBlocksApart, search_dir_entry-sync_dir_entry}
use tie_zhu_os.Fs.Removal.{dir_read}
use tie_zhu_os.Fs.Removal.Listing.{entries, entries_from, dir_read_lem}

-- The blocks 100 and 101; the first has one entry, "a".
abbrev inode : Inode
inode = record {
  i_no = 4;
  i_bsize = 24;
  i_open_cnts = 1;
  write_deny = true;
  i_sectors = (λ k. if ltb k 2 then 100 + k else 0);
}

abbrev disk : Disk
disk = λ l i.
    if l == 100
    then (if i == 0 then 97 else (if i == 16 then 7 else (if i == 20 then 1 else 0)))
    else 0

abbrev volume : Volume
volume = record {
  disk = disk;
  block_bitmap = record { bitmap_byte_len = 2; bits = (λ i. 0) };
  start_lba = 8;
  block_bitmap_lba = 9;
  inode_table_lba = 10;
  data_start_lba = 100;
}

abbrev entry : DirEntry
entry = record { filename = 98 ∷ []; i_no = 300; f_type = 2 }

entry-IsEntry : IsEntry entry
entry-IsEntry = record {
  named = omega arith;
  short = omega arith;
  nonzero = (ground arith, tt);
  number = omega arith;
  typed = omega arith;
  type_word = omega arith;
}

inode-AreBlocksApart : AreBlocksApart (direct_blocks inode)
inode-AreBlocksApart a b ne real e = ground (arith, ne, real, e)

blocks_there : (a : ℕ) → a ≤ 0 → inode.i_sectors a ≢ 0
blocks_there a h = ground (arith, h)

second_is_free : free_place entries_per_sec 0 (ide_read (inode.i_sectors 0) disk) ≡ some 1
unfolding free_place
second_is_free = refl

no_b : search_dir_entry inode (98 ∷ []) disk ≡ none
unfolding search_dir_entry search_blocks search_sector name_at
no_b = refl

search_dir_entry-sync_dir_entry_example :
    (g : Growing) × (sync_dir_entry true entry inode volume ≡ some (true, g))
    × (g.inode ≡ record inode { i_bsize = (24 + 24) % 2 ^ 32 })
    × (g.volume ≡ record volume { disk = g.volume.disk })
    × (search_dir_entry g.inode (98 ∷ []) g.volume.disk ≡ some entry)
search_dir_entry-sync_dir_entry_example =
    search_dir_entry-sync_dir_entry true entry inode volume 0 1 entry-IsEntry refl
      inode-AreBlocksApart (omega arith) blocks_there second_is_free no_b

one_entry : entries inode disk ≡ (100, 0) ∷ []
unfolding entries_from copy_inode_isectors
one_entry = refl

dir_read_lem_example :
    dir_read (24 * 0) inode disk
    ≡ some (
        if ltb 0 (length (entries inode disk))
        then (some (get_or (entries inode disk) 0 (0, 0)), 24 * suc 0)
        else (none, 24 * 0))
dir_read_lem_example = dir_read_lem 0 inode disk (rw one_entry (omega arith)) (omega arith)
