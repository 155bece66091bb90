-- ===== src/Fs/System.antt =====
-- The state of the calls in fs/fs.c, and what opens and closes directories in fs/dir.c and allocates inodes in
-- fs/file.c.
use tie_zhu_os.Base.{ℕ, ◌+◌, ◌*◌, ◌/◌, Bool, true, false, Option, none, some, if◌then◌else◌, ◌>>=◌}
use tie_zhu_os.LinkedList.{Addr}
use tie_zhu_os.Bitmap.{BitMap, bit_map_scan, bitmap_set}
use tie_zhu_os.Paging.Defs.{idx_or_fail}
use tie_zhu_os.Files.Defs.{Inode, Files, set_inode, inode_close}
use tie_zhu_os.Fs.Disk.{ide_write}
use tie_zhu_os.Fs.Inodes.{inode_open, inode_init, inode_sync}
use tie_zhu_os.Fs.Blocks.{Volume, Growing}

-- `dir`; its buffer is read from the disk by each call. Only the root directory is not freed.
pub record Dir : Type 0 where
  pub is_root : Bool
  pub inode : Addr
  pub dir_pos : ℕ

-- The current partition, the open files and the root directory.
pub record FileSystem : Type 0 where
  pub volume : Volume
  pub files : Files
  pub inode_bitmap : BitMap
  pub inode_bitmap_lba : ℕ
  pub root_dir : Dir

-- What `sys_malloc` gives for an inode.
abbrev pub Allocator : Type 0
Allocator = FileSystem → Addr

abbrev pub set_files : Files → FileSystem → FileSystem
set_files f s = record s { files = f }

abbrev pub set_volume : Volume → FileSystem → FileSystem
set_volume v s = record s { volume = v }

abbrev pub inode_of : Dir → FileSystem → Inode
inode_of d s = s.files.inodes d.inode

unfoldable pub dir_open : Allocator → ℕ → FileSystem → Option (Dir × FileSystem)
dir_open new inode_no s = do
  (a, f) ← inode_open s.volume.inode_table_lba (new s) inode_no s.volume.disk s.files
  some (record { is_root = false; inode = a; dir_pos = 0 }, set_files f s)

unfoldable pub open_root_dir : Allocator → FileSystem → Option FileSystem
open_root_dir new s = do
  (a, f) ← inode_open s.volume.inode_table_lba (new s) 0 s.volume.disk s.files
  some (record s { files = f; root_dir = record { is_root = true; inode = a; dir_pos = 0 } })

unfoldable pub dir_close : Dir → FileSystem → FileSystem
dir_close d s = if d.is_root then s else set_files (inode_close d.inode s.files) s

unfoldable pub inode_bitmap_alloc : FileSystem → Option ℕ × FileSystem
inode_bitmap_alloc s = elim (idx_or_fail (bit_map_scan s.inode_bitmap 1)) [
  | none ↦ (none, s)
  | some i ↦ (some i, record s { inode_bitmap = bitmap_set s.inode_bitmap i 1 })
]

-- The number of the inode and the inode over the memory `old`; `none` is `false`.
unfoldable pub inode_create : Inode → FileSystem → Option (ℕ × Inode) × FileSystem
inode_create old s =
    let (inode_no, s1) = inode_bitmap_alloc s in
    elim inode_no [ none ↦ (none, s1) | some i ↦ (some (i, inode_init i old), s1) ]

abbrev pub free_inode_no : ℕ → FileSystem → FileSystem
free_inode_no inode_no s = record s { inode_bitmap = bitmap_set s.inode_bitmap inode_no 0 }

-- `bitmap_sync` for `INODE_BITMAP`.
unfoldable pub inode_bitmap_sync : ℕ → FileSystem → FileSystem
inode_bitmap_sync bit_idx s =
    let off_sec = bit_idx / 4096 in
    set_volume
      (record (s.volume) {
        disk =
            ide_write (s.inode_bitmap_lba + off_sec) (λ i. s.inode_bitmap.bits (off_sec * 512 + i))
              1 s.volume.disk;
      })
      s

-- `inode_sync` on the current partition.
unfoldable pub sync_inode : Inode → FileSystem → Option FileSystem
sync_inode i s = do
  disk ← inode_sync s.volume.start_lba s.volume.inode_table_lba i s.volume.disk
  some (set_volume (record (s.volume) { disk = disk }) s)

-- What `sync_dir_entry` and `delete_dir_entry` leave of the partition and the directory's inode.
abbrev pub put_back : Dir → Growing → FileSystem → FileSystem
put_back d g s = set_volume g.volume (set_files (set_inode d.inode g.inode s.files) s)
