-- ===== src/Ide.antt =====
-- device/ide.c: `ide_read` and `ide_write`, which move at most 256 sectors with one command. The controller is a
-- parameter; the lock and the semaphore of the channel are those of thread/sync.c.
use tie_zhu_os.Base.{
  ℕ, zero, suc, ◌+◌, ◌-◌, ◌*◌, ◌/◌, ◌%◌, ◌^◌, ◌<◌, ◌≡◌, Bool, true, false, ◌&&◌, Option, none, some,
  ltb, leb, ◌==◌, if◌then◌else◌, Memory,
}
use Prim.Native.Nat.{bit_or}
use tie_zhu_os.Fs.Disk.{Disk}
pub mod Command
pub mod Filled
pub mod Chunked

-- The registers of the command block.
pub record Registers : Type 0 where
  pub sect_cnt : ℕ
  pub lba_l : ℕ
  pub lba_m : ℕ
  pub lba_h : ℕ
  pub device : ℕ

-- `select_sector`; the number of sectors is a `uint8_t`.
unfoldable pub select_sector : ℕ → ℕ → ℕ → Registers
select_sector dev_no lba sec_cnt = record {
  sect_cnt = sec_cnt;
  lba_l = lba % 256;
  lba_m = lba / 2 ^ 8 % 256;
  lba_h = lba / 2 ^ 16 % 256;
  device =
      bit_or (bit_or (bit_or 0xa0 0x40) (if dev_no == 0 then 0 else 0x10)) (lba / 2 ^ 24) % 256;
}

-- The bytes that `read_from_sector` and `write2sector` move.
abbrev pub size_byte : ℕ → ℕ
size_byte sec_cnt = if sec_cnt == 0 then 256 * 512 else sec_cnt * 512

-- The sectors of one command.
abbrev pub secs_op : ℕ → ℕ → ℕ
secs_op sec_cnt secs_done = if leb 256 (sec_cnt - secs_done) then 256 else sec_cnt - secs_done

abbrev pub max_lba : ℕ
max_lba = 163839

-- What the controller gives at the data port after a command to read, and what becomes of the disk when the data
-- of a command to write are given to it.
pub record Controller : Type 0 where
  pub fetch : Registers → Disk → Memory
  pub store : Registers → Memory → Disk → Disk

-- The buffer behind the first bytes is written.
abbrev pub put_sectors : ℕ → ℕ → Memory → Memory → Memory
put_sectors start size words buf i =
    if leb start i && ltb i (start + size) then words (i - start) else buf i

-- A transfer of `sec_cnt` sectors from `lba` on by the disk `dev_no`; `busy_wait` gives `ready` in the round behind
-- as many sectors.
module _ (c : Controller) (ready : ℕ → Bool) (dev_no lba sec_cnt : ℕ) where
  abbrev pub registers : ℕ → Registers
  registers secs_done = select_sector dev_no (lba + secs_done) (secs_op sec_cnt secs_done % 256)

  -- `read_from_sector` in a round.
  abbrev pub read_round : Disk → ℕ → Memory → Memory
  read_round disk secs_done buf =
      put_sectors (secs_done * 512) (size_byte (secs_op sec_cnt secs_done % 256))
        (c.fetch (registers secs_done) disk) buf

  -- The loop of `ide_read`, with its result; `none` is more rounds than `fuel`.
  unfoldable pub read_loop : ℕ → ℕ → Disk → Memory → Option (Bool × Memory)
  read_loop zero secs_done disk buf = if ltb secs_done sec_cnt then none else some (true, buf)
  read_loop (suc fuel) secs_done disk buf =
      let further =
        read_loop fuel (secs_done + secs_op sec_cnt secs_done) disk
          (read_round disk secs_done buf) in
      if ltb secs_done sec_cnt
      then (if ready secs_done then further else some (false, buf))
      else some (true, buf)

  unfoldable pub ide_read : Disk → Memory → Option (Bool × Memory)
  unfolding read_loop
  ide_read disk buf = if ltb max_lba lba then some (false, buf) else read_loop sec_cnt 0 disk buf

  -- `write2sector` in a round, from the place behind the sectors that are done.
  abbrev pub write_round : Memory → ℕ → Disk → Disk
  write_round buf secs_done disk =
      c.store (registers secs_done) (λ i. buf (secs_done * 512 + i)) disk

  unfoldable pub write_loop : ℕ → ℕ → Memory → Disk → Option Disk
  write_loop zero secs_done buf disk = if ltb secs_done sec_cnt then none else some disk
  write_loop (suc fuel) secs_done buf disk =
      let further =
        write_loop fuel (secs_done + secs_op sec_cnt secs_done) buf
          (write_round buf secs_done disk) in
      if ltb secs_done sec_cnt then (if ready secs_done then further else some disk) else some disk

  unfoldable pub ide_write : Memory → Disk → Option Disk
  unfolding write_loop
  ide_write buf disk = if ltb max_lba lba then some disk else write_loop sec_cnt 0 buf disk
