-- ===== src/Fs/Inodes.antt =====
-- fs/inode.c: the place of an inode on the disk, and the way there and back. `sizeof(inode)` is 76:
-- 19 words, of which the last two are the list tag.
use tie_zhu_os.Base.{
  ℕ, zero, suc, ◌+◌, ◌-◌, ◌*◌, ◌/◌, ◌%◌, ◌^◌, Bool, true, false, ◌&&◌, Option, none, some, List, [],
  ◌∷◌, ltb, leb, ◌==◌, if◌then◌else◌, ◌>>=◌, ◌>>◌, assert, Memory,
}
use tie_zhu_os.LinkedList.{Addr}
use tie_zhu_os.Files.Defs.{Inode, Files, set_inode}
use tie_zhu_os.Fs.Disk.{Disk, ide_read, ide_write}

abbrev pub inode_size : ℕ
inode_size = 76

-- `inode_position`; `off_size` is a `uint8_t`.
pub record InodePosition : Type 0 where
  pub two_sec : Bool
  pub sec_lba : ℕ
  pub off_size : ℕ

unfoldable pub inode_locate : ℕ → ℕ → Option InodePosition
inode_locate inode_table_lba inode_no =
    assert (ltb inode_no 4096)
    >> (let off_size = inode_no * inode_size in
        let off_size_in_sec = off_size % 512 in
        some (record {
          two_sec = ltb (512 - off_size_in_sec) inode_size;
          sec_lba = inode_table_lba + off_size / 512;
          off_size = off_size_in_sec % 256;
        }))

-- The words of the structure that `inode_sync` stores: the count, the flag and the tag are 0.
abbrev pub word_of : Inode → ℕ → ℕ
word_of i k =
    if k == 0
    then i.i_no
    else (if k == 1 then i.i_bsize else (if leb 4 k && ltb k 17 then i.i_sectors (k - 4) else 0))

-- The byte `j` of a word, the lowest first.
abbrev pub byte_of : ℕ → ℕ → ℕ
byte_of w zero = w % 256
byte_of w (suc zero) = w / 256 % 256
byte_of w (suc (suc zero)) = w / 65536 % 256
byte_of w (suc (suc (suc j))) = w / 16777216 % 256

unfoldable pub inode_bytes : Inode → Memory
inode_bytes i j = byte_of (word_of i (j / 4)) (j % 4)

abbrev pub load_word : Memory → ℕ → ℕ
load_word m a = m a + 256 * m (a + 1) + 65536 * m (a + 2) + 16777216 * m (a + 3)

-- `memcpy` of the inode into the buffer.
abbrev pub put_inode : Inode → ℕ → Memory → Memory
put_inode i off m j = if leb off j && ltb j (off + inode_size) then inode_bytes i (j - off) else m j

-- The number is cut to 8 bits.
unfoldable pub inode_sync : ℕ → ℕ → Inode → Disk → Option Disk
inode_sync start_lba inode_table_lba i disk = do
  p ← inode_locate inode_table_lba (i.i_no % 256)
  assert (ltb start_lba p.sec_lba)
  some (
      ide_write p.sec_lba (put_inode i p.off_size (ide_read p.sec_lba disk))
        (if p.two_sec then 2 else 1) disk)

-- The inode that `inode_open` reads where it is not in the list of open inodes.
abbrev pub loaded : Memory → Inode
loaded m = record {
  i_no = load_word m 0;
  i_bsize = load_word m 4;
  i_open_cnts = 1;
  write_deny = if load_word m 12 == 0 then false else true;
  i_sectors = λ k. load_word m (16 + 4 * k);
}

unfoldable pub inode_read : ℕ → ℕ → Disk → Option Inode
inode_read inode_table_lba inode_no disk = do
  p ← inode_locate inode_table_lba inode_no
  some (loaded (λ j. ide_read p.sec_lba disk (p.off_size + j)))

-- The walk of `inode_open` through the list of open inodes.
abbrev pub find_open : List Addr → ℕ → Files → Option Addr
find_open [] inode_no s = none
find_open (a ∷ rest) inode_no s =
    let further = find_open rest inode_no s in
    if (s.inodes a).i_no == inode_no then some a else further

-- An inode that is open counts one more; another is read into `new`, which `sys_malloc` gives, and
-- goes to the front of the list.
abbrev pub open_at : Option Addr → ℕ → Addr → ℕ → Disk → Files → Option (Addr × Files)
open_at (some a) inode_table_lba new inode_no disk s =
    let i = s.inodes a in
    some (a, set_inode a (record i { i_open_cnts = (i.i_open_cnts + 1) % 2 ^ 32 }) s)
open_at none inode_table_lba new inode_no disk s = do
  i ← inode_read inode_table_lba inode_no disk
  some (new, record (set_inode new i s) { open_inodes = new ∷ s.open_inodes })

unfoldable pub inode_open : ℕ → Addr → ℕ → Disk → Files → Option (Addr × Files)
inode_open inode_table_lba new inode_no disk s =
    open_at (find_open s.open_inodes inode_no s) inode_table_lba new inode_no disk s

unfoldable pub inode_init : ℕ → Inode → Inode
inode_init inode_no old = record {
  i_no = inode_no;
  i_bsize = 0;
  i_open_cnts = 0;
  write_deny = false;
  i_sectors = λ k. if ltb k 13 then 0 else old.i_sectors k;
}

-- The 12 direct blocks and, where the file has an indirect table, the 128 entries of that.
unfoldable pub copy_inode_isectors : Inode → Disk → Memory → Memory
copy_inode_isectors i disk buffer k =
    if ltb k 12
    then i.i_sectors k
    else (if ltb k 140 && ltb 0 (i.i_sectors 12)
        then load_word (ide_read (i.i_sectors 12) disk) (4 * (k - 12))
        else buffer k)
