-- ===== src/Fs/Transfer.antt =====
-- `file_write` and `file_read` of fs/fs.c.
use tie_zhu_os.Base.{
  ℕ, zero, suc, ◌+◌, ◌-◌, ◌*◌, ◌/◌, ◌%◌, ◌^◌, Bool, true, false, not, ◌&&◌, ◌||◌, Option, some,
  List, [], ◌∷◌, ◌++◌, length, get_or, take, drop, ltb, leb, ◌==◌, if◌then◌else◌, ◌>>=◌, ◌>>◌,
  assert, Memory, ℤ, pos, minus_one,
}
use tie_zhu_os.Files.Defs.{Inode, File}
use tie_zhu_os.Fs.Disk.{Disk, ide_read, ide_write}
use tie_zhu_os.Fs.Inodes.{inode_sync}
use tie_zhu_os.Fs.Blocks.{Volume, Growing, first_block, grow, read_table, set_block}

abbrev pub max_size : ℕ
max_size = 512 * 140

abbrev pub chunk_size : ℕ → ℕ → ℕ
chunk_size pos_in_file left =
    let sec_left_bytes = 512 - pos_in_file % 512 in
    if ltb left sec_left_bytes then left else sec_left_bytes

-- `memcpy` into the sector buffer.
abbrev pub put_bytes : ℕ → List ℕ → Memory → Memory
put_bytes off bytes m i =
    if leb off i && ltb i (off + length bytes) then get_or bytes (i - off) 0 else m i

-- The last loop of `file_write`: the first chunk goes into its sector as it is, the others into
-- cleared ones. Each round writes at least one byte.
unfoldable pub write_chunks : ℕ → Bool → Memory → ℕ → List ℕ → Disk → Disk
write_chunks zero first_write_block all_block i_bsize src disk = disk
write_chunks (suc fuel) first_write_block all_block i_bsize src disk =
    if length src == 0
    then disk
    else (let sec_lba = all_block (i_bsize / 512) in
        let chunk = chunk_size i_bsize (length src) in
        let io_buf = if first_write_block then ide_read sec_lba disk else (λ i. 0) in
        write_chunks fuel false all_block (i_bsize + chunk) (drop chunk src)
          (ide_write sec_lba (put_bytes (i_bsize % 512) (take chunk src) io_buf) 1 disk))

-- What a call comes to: its result, the entry of the file table, the inode and the partition.
pub record Written : Type 0 where
  pub result : ℤ
  pub file : File
  pub inode : Inode
  pub volume : Volume

abbrev pub failed : File → Inode → Volume → Written
failed f i v = record { result = minus_one; file = f; inode = i; volume = v }

-- `got` tells whether `sys_malloc` gives the buffers.
unfoldable pub file_write : Bool → List ℕ → File → Inode → Volume → Option Written
file_write got src f i v =
    let count = length src in
    if ltb max_size ((i.i_bsize + count) % 2 ^ 32) || not got then some (failed f i v) else (do
      (ok, g) ← first_block got (record { volume = v; inode = i; all_block = (λ k. 0) })
      (if not ok then some (failed f g.inode g.volume) else (do
        let used = g.inode.i_bsize / 512 + 1
        let will = (g.inode.i_bsize + count) / 512 + 1
        assert (leb will 140)
        (enough, h) ← grow got used will g
        (if not enough then some (failed f h.inode h.volume) else (do
          let disk = write_chunks count true h.all_block h.inode.i_bsize src h.volume.disk
          let j = record (h.inode) { i_bsize = h.inode.i_bsize + count }
          synced ← inode_sync h.volume.start_lba h.volume.inode_table_lba j disk
          some (record {
            result = pos count;
            file = record f { fd_pos = (h.inode.i_bsize + 2 ^ 32 - 1 + count) % 2 ^ 32 };
            inode = j;
            volume = record (h.volume) { disk = synced };
          }))))))

-- `n` bytes of a buffer from `i` on.
abbrev pub bytes_from : ℕ → ℕ → Memory → List ℕ
bytes_from zero i m = []
bytes_from (suc n) i m = m i ∷ bytes_from n (i + 1) m

-- The last loop of `file_read`: the bytes from `fd_pos` on.
unfoldable pub read_chunks : ℕ → Memory → ℕ → ℕ → Disk → List ℕ
read_chunks zero all_block fd_pos size_left disk = []
read_chunks (suc fuel) all_block fd_pos size_left disk =
    if size_left == 0
    then []
    else (let chunk = chunk_size fd_pos size_left in
        bytes_from chunk (fd_pos % 512) (ide_read (all_block (fd_pos / 512)) disk)
        ++ read_chunks fuel all_block (fd_pos + chunk) (size_left - chunk) disk)

-- The direct blocks `k` and on go into the table.
abbrev pub copy_loop : ℕ → ℕ → Growing → Growing
copy_loop zero k g = g
copy_loop (suc n) k g = copy_loop n (k + 1) (set_block k (g.inode.i_sectors k) g)

-- The table for the blocks `start` to `end` of the file.
unfoldable pub table_for : ℕ → ℕ → Growing → Option Growing
table_for start last g =
    if start == last
    then some (if ltb last 12 then set_block last (g.inode.i_sectors last) g else read_table g)
    else (if ltb last 12
        then some (copy_loop (last + 1 - start) start g)
        else (assert (not (g.inode.i_sectors 12 == 0))
            >> some (read_table (if ltb start 12 then copy_loop (12 - start) start g else g))))

-- `got` tells whether `get_kernel_pages` gives the buffers; the result is that of the call, the bytes
-- and the entry of the file table.
unfoldable pub file_read : Bool → ℕ → File → Inode → Volume → Option (ℤ × List ℕ × File)
file_read got count f i v =
    let past = ltb i.i_bsize ((f.fd_pos + count) % 2 ^ 32) in
    let size = if past then (i.i_bsize + 2 ^ 32 - f.fd_pos) % 2 ^ 32 else count in
    if (past && size == 0) || not got then some (minus_one, [], f) else (do
      let start = f.fd_pos / 512
      let last = (f.fd_pos + size) / 512
      assert (ltb start 139 && ltb last 139)
      g ← table_for start last (record { volume = v; inode = i; all_block = (λ k. 0) })
      some (
        pos size,
        read_chunks size g.all_block f.fd_pos size v.disk,
        record f { fd_pos = f.fd_pos + size },
      ))
