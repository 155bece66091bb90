-- ===== src/Tests/Storage.antt =====
-- A disk of zeros, an inode and a path.
use tie_zhu_os.Base.{ℕ, ◌+◌, ◌/◌, ◌<◌, ◌≡◌, refl, true, some, List, [], ◌∷◌, arith, Memory}
use tie_zhu_os.Files.Defs.{Inode, File}
use tie_zhu_os.Fs.Format.{super_block}
use tie_zhu_os.Fs.Format.Layout.{IsLaidOut, super_block-IsLaidOut}
use tie_zhu_os.Fs.Disk.{Disk}
use tie_zhu_os.Fs.Inodes.{inode_sync, inode_read}
use tie_zhu_os.Fs.Stored.{IsWords, inode_sync-inode_read, inode_sync_overlap}
use tie_zhu_os.Fs.Blocks.{Volume}
use tie_zhu_os.Fs.Transfer.{read_chunks, write_chunks}
use tie_zhu_os.Fs.Chunks.{AreApart}
use tie_zhu_os.Fs.Contents.{read_chunks-write_chunks}

abbrev zeros : Disk
zeros = λ l i. 0

abbrev inode : Inode
inode = record {
  i_no = 4;
  i_bsize = 510;
  i_open_cnts = 1;
  write_deny = true;
  i_sectors = (λ k. 100 + k);
}

inode-IsWords : IsWords inode
inode-IsWords = record { number = omega arith; size = omega arith; blocks = λ k h. omega arith }

inode_sync-inode_read_example :
    (disk1 : Disk) × (r : Inode) × (inode_sync 8 9 inode zeros ≡ some disk1)
    × (inode_read 9 4 disk1 ≡ some r)
    × (r.i_no ≡ 4)
    × (r.i_bsize ≡ 510)
    × ((k : ℕ) → k < 13 → r.i_sectors k ≡ 100 + k)
inode_sync-inode_read_example = inode_sync-inode_read 8 9 inode zeros inode-IsWords (omega arith)

inode_sync_overlap_example :
    (disk1 : Disk) × (r : Inode) × (inode_sync 8 9 inode zeros ≡ some disk1)
    × (inode_read 9 0 disk1 ≡ some r)
    × (r.i_sectors 8 ≡ 4)
    × (r.i_sectors 9 ≡ 510)
inode_sync_overlap_example = inode_sync_overlap 8 9 inode zeros inode-IsWords refl (omega arith)

-- The blocks 100 and on; the bytes cross from the first to the second.
abbrev blocks : Memory
blocks = λ k. 100 + k

blocks-AreApart : AreApart blocks 0 ((510 + 4) / 512)
blocks-AreApart a b la ha lb hb e = omega arith

abbrev four : List ℕ
four = 1 ∷ 2 ∷ 3 ∷ 4 ∷ []

read_chunks-write_chunks_example :
    (read_chunks 4 blocks 510 4 (write_chunks 4 true blocks 510 four zeros) ≡ four)
    × (read_chunks 510 blocks 0 510 (write_chunks 4 true blocks 510 four zeros)
        ≡ read_chunks 510 blocks 0 510 zeros)
read_chunks-write_chunks_example = read_chunks-write_chunks blocks 510 four zeros blocks-AreApart

abbrev volume : Volume
volume = record {
  disk = zeros;
  block_bitmap = record { bitmap_byte_len = 2; bits = (λ i. 0) };
  start_lba = 8;
  block_bitmap_lba = 9;
  inode_table_lba = 10;
  data_start_lba = 100;
}

abbrev entry : File
entry = record { fd_pos = 0; fd_flag = 1; fd_inode = 64 }

abbrev nearly_full : Inode
nearly_full = record inode { i_bsize = 71676 }

super_block-IsLaidOut_example : IsLaidOut 2048 100000 (super_block 2048 100000)
super_block-IsLaidOut_example = super_block-IsLaidOut 2048 100000 (omega arith) (omega arith)
