-- ===== src/Tests/Tree.antt =====
-- A root directory with a directory "d" and a file "f".
use tie_zhu_os.Base.{
  ℕ, ◌+◌, ◌-◌, ◌%◌, ◌^◌, ◌<◌, ◌≤◌, ◌≡◌, ◌≢◌, refl, true, false, some, List, [], ◌∷◌, ◌==◌,
  if◌then◌else◌, arith, minus_one, inl, pos, ◌++◌,
}
use tie_zhu_os.LinkedList.{Addr, null}
use tie_zhu_os.LinkedList.Chain.{has}
use tie_zhu_os.IoQueue.{IoQueue}
use tie_zhu_os.IoQueue.Contents.{IsQueue, contents}
use tie_zhu_os.Files.Pipe.{pipe_flag}
use tie_zhu_os.Files.Defs.{Inode, fd_idx2global_ftable_idx}
use tie_zhu_os.Fs.Disk.{Disk}
use tie_zhu_os.Fs.Inodes.{inode_read, inode_locate, copy_inode_isectors}
use tie_zhu_os.Fs.Blocks.{Volume}
use tie_zhu_os.Fs.Names.{AreNames, join, text_of}
use tie_zhu_os.Fs.Dirs.{name_at, search_sector, search_blocks, search_dir_entry}
use tie_zhu_os.Fs.System.{FileSystem, Allocator, dir_close, set_files}
use tie_zhu_os.Fs.Io.{Io}
use tie_zhu_os.Fs.Io.Piped.{IsEnd, Sent, Received, sys_read-sys_write}
use tie_zhu_os.Fs.Views.{AreCounted, IsFresh, Same}
use tie_zhu_os.Fs.Search.{Searched, search_file}
use tie_zhu_os.Fs.Follow.{Target, known, follow, path_of}
use tie_zhu_os.Fs.Opening.{sys_open}
use tie_zhu_os.Fs.Found.{IsSound, search_file-follow, sys_open-refuses}
use tie_zhu_os.Fs.Unlink.{release_blocks}
use tie_zhu_os.Fs.Released.{Cleared, inode_has_bit, release_blocks-Cleared}
use tie_zhu_os.Fs.Cwd.{sys_getcwd}
use tie_zhu_os.Fs.Climb.Named.{IsNamed}
use tie_zhu_os.Fs.Climb.{IsChain, sys_getcwd-text_of}

-- Inode 0, in the memory at 64, with its block 100.
abbrev root : Inode
root = record {
  i_no = 0;
  i_bsize = 96;
  i_open_cnts = 1;
  write_deny = false;
  i_sectors = (λ k. if k == 0 then 100 else 0);
}

-- "d" is inode 2, whose block is 101 with "." and "..", and "f" inode 3.
abbrev disk : Disk
disk = λ l i.
    if l == 100
    then (if i == 0
        then 100
        else (if i == 16
            then 2
            else (if i == 20
                then 2
                else (if i == 24
                    then 102
                    else (if i == 40 then 3 else (if i == 44 then 1 else 0))))))
    else (if l == 101
        then (if i == 0 then 46 else (if i == 24 then 46 else (if i == 25 then 46 else 0)))
        else (if l == 10 then (if i == 152 then 2 else (if i == 168 then 101 else 0)) else 0))

abbrev tree : FileSystem
tree = record {
  volume = record {
    disk = disk;
    block_bitmap = record { bitmap_byte_len = 2; bits = (λ i. 7) };
    start_lba = 8;
    block_bitmap_lba = 9;
    inode_table_lba = 10;
    data_start_lba = 99;
  };
  files = record {
    fd_table = (λ fd. minus_one);
    file_table = (λ g. record { fd_pos = 0; fd_flag = 0; fd_inode = null });
    inodes = (λ a. root);
    open_inodes = 64 ∷ [];
    queues = (λ a. record {
      holder = null;
      producer = null;
      consumer = null;
      buffer = (λ i. 0);
      head = 0;
      tail = 0;
    });
    freed = [];
  };
  inode_bitmap = record { bitmap_byte_len = 512; bits = (λ i. 13) };
  inode_bitmap_lba = 9;
  root_dir = record { is_root = true; inode = 64; dir_pos = 0 };
}

-- Memory above all open inodes.
abbrev above_all : List Addr → Addr
above_all [] = 1
above_all (a ∷ rest) = a + above_all rest + 1

not_above : (rest : List Addr) (a : Addr) → above_all rest ≤ a → has a rest ≡ false
not_above [] a le = refl
not_above (x ∷ rest) a le = ground (arith, not_above rest a (omega (arith, le)))

abbrev fresh : Allocator
fresh s = above_all s.files.open_inodes

fresh-IsFresh : IsFresh fresh
fresh-IsFresh s = not_above s.files.open_inodes (above_all s.files.open_inodes) (omega arith)

tree-AreCounted : AreCounted tree
tree-AreCounted a h = (omega arith, omega arith)

tree-IsSound : IsSound tree root
tree-IsSound = record {
  is_root = refl;
  opened = refl;
  shown = refl;
  number = refl;
  counted = tree-AreCounted;
}

abbrev target : Target
target = record { inode_no = some 2; file_type = 2; seen = (100 ∷ []) ∷ [] }

d-AreNames : AreNames ((0, 100 ∷ []) ∷ [])
d-AreNames = (((ground arith, tt), omega arith), tt)

leads_to_d : follow (known tree) disk 7 root ((100 ∷ []) ∷ []) ≡ some target
unfolding follow search_dir_entry search_blocks search_sector name_at inode_read inode_locate
leads_to_d = refl

search_file-follow_example :
    (r : Searched) × (s1 : FileSystem) × (search_file fresh 7 (join ((0, 100 ∷ []) ∷ [])) [] tree
      ≡ some (some 2, r, s1))
    × (r.file_type ≡ 2)
    × (r.searched_path ≡ path_of ((100 ∷ []) ∷ []))
    × Same tree (dir_close r.parent_dir s1)
search_file-follow_example =
    search_file-follow fresh 7 0 (100 ∷ []) [] root tree target fresh-IsFresh tree-IsSound
      d-AreNames (omega arith) leads_to_d

sys_open-refuses_example :
    (s1 : FileSystem) × (sys_open fresh true 7 (join ((0, 100 ∷ []) ∷ [])) 2 tree
      ≡ some (minus_one, s1))
    × Same tree s1
sys_open-refuses_example =
    sys_open-refuses fresh 7 0 (100 ∷ []) [] root tree target fresh-IsFresh tree-IsSound d-AreNames
      (omega arith) leads_to_d true 2 (inl refl)

child : (i : Inode) × (inode_read 10 2 disk ≡ some i)
unfolding inode_read inode_locate
child = (_, refl)

d_is_in_root : IsNamed root 2 disk (100 ∷ [])
unfolding name_at
d_is_in_root = record {
  place = 0;
  block = ground arith;
  within = omega arith;
  number = refl;
  first = λ j lt. absurd (omega (arith, lt));
  text = refl;
  short = omega arith;
}

d-IsChain : IsChain tree 2 ((100 ∷ []) ∷ [])
unfolding child name_at
d-IsChain = (child.0, root, child.1, ground arith, refl, refl, d_is_in_root, (ground arith, tt), tt)

sys_getcwd-text_of_example :
    (s1 : FileSystem) × (sys_getcwd fresh 1 true 512 2 tree
      ≡ some (some (text_of ((100 ∷ []) ∷ [])), s1))
    × Same tree s1
sys_getcwd-text_of_example =
    sys_getcwd-text_of fresh 1 512 2 ((100 ∷ []) ∷ []) tree fresh-IsFresh tree-AreCounted
      (omega arith) (omega arith) (omega arith) (omega arith) d-IsChain

root_blocks :
    (k : ℕ)
    → k < 140
    → copy_inode_isectors root disk (λ j. 0) k ≢ 0
    → (copy_inode_isectors root disk (λ j. 0) k + 2 ^ 32 - 99) % 2 ^ 32 ≢ 0
unfolding copy_inode_isectors
root_blocks k h real e = ground (arith, h, real, e)

release_blocks-Cleared_example :
    (v1 : Volume) × (release_blocks root tree.volume ≡ some v1)
    × Cleared (inode_has_bit root tree.volume) tree.volume v1
release_blocks-Cleared_example =
    release_blocks-Cleared root tree.volume (λ i. omega arith)
      (λ k h. root_blocks k (omega (arith, h))) (λ h. absurd (h refl))

-- The byte 9 in a queue.
abbrev one_byte : IoQueue
one_byte = record {
  holder = null;
  producer = null;
  consumer = null;
  buffer = (λ i. 9);
  head = 6;
  tail = 5;
}

-- The descriptors 3 and 4 are the ends of a pipe.
abbrev piped : FileSystem
piped =
    set_files
      (record (tree.files) {
        fd_table = (λ fd. if fd == 3 then pos 7 else (if fd == 4 then pos 7 else minus_one));
        file_table = (λ g. record { fd_pos = 2; fd_flag = pipe_flag; fd_inode = 4096 });
        queues = (λ a. one_byte);
      })
      tree

three-IsEnd : IsEnd 3 7 piped.files
unfolding fd_idx2global_ftable_idx
three-IsEnd = (refl, refl)

four-IsEnd : IsEnd 4 7 piped.files
unfolding fd_idx2global_ftable_idx
four-IsEnd = (refl, refl)

one_byte-IsQueue : IsQueue one_byte
one_byte-IsQueue = record { head_in = omega arith; tail_in = omega arith }

sys_read-sys_write_example :
    (w : Io) × Sent true 8 4 7 (1 ∷ 2 ∷ []) piped w
    × ((r : Io) × Received true 9 3 (contents one_byte ++ (1 ∷ 2 ∷ [])) one_byte w.system r)
sys_read-sys_write_example =
    sys_read-sys_write true 8 9 4 3 7 (1 ∷ 2 ∷ []) one_byte piped four-IsEnd three-IsEnd
      one_byte-IsQueue (omega arith) (omega arith)
