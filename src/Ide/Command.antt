-- ===== src/Ide/Command.antt =====
-- The registers of a command, and what a controller does with them.
use tie_zhu_os.Base.{
  ℕ, ◌+◌, ◌-◌, ◌*◌, ◌/◌, ◌%◌, ◌^◌, ◌<◌, ◌≤◌, ◌≡◌, refl, true, ◌&&◌, ltb, leb, ◌==◌, if◌then◌else◌,
  Memory, arith, Bool-cases, inl, inr,
}
use Prim.Native.Nat.{bit_or}
use tie_zhu_os.Base.Bits.{passes, pass_at}
use tie_zhu_os.Fs.Disk.{Disk}
use tie_zhu_os.Ide.{Registers, select_sector, size_byte, secs_op, Controller}

-- The address in the registers, and the number of sectors, where 0 stands for 256.
abbrev pub address : Registers → ℕ
address r = r.lba_l + 2 ^ 8 * r.lba_m + 2 ^ 16 * r.lba_h + 2 ^ 24 * (r.device % 16)

abbrev pub count : Registers → ℕ
count r = if r.sect_cnt == 0 then 256 else r.sect_cnt

-- The controller transfers the sectors that the registers name.
pub record IsAta (c : Controller) : Type 0 where
  pub fetched :
      (r : Registers) (disk : Disk) (i : ℕ)
      → i < count r * 512
      → c.fetch r disk i ≡ disk (address r + i / 512) (i % 512)
  pub stored :
      (r : Registers) (words : Memory) (disk : Disk) (l i : ℕ)
      → c.store r words disk l i ≡ (
          if leb (address r) l && ltb l (address r + count r)
          then words ((l - address r) * 512 + i)
          else disk l i)

-- The four high bits of the address.
device_table :
    passes 16 (λ h. (bit_or 0xe0 h % 256 % 16 == h) && (bit_or 0xf0 h % 256 % 16 == h)) ≡ true
unfolding passes
device_table = refl

device_bits :
    (dev_no h : ℕ)
    → h < 16
    → bit_or (bit_or (bit_or 0xa0 0x40) (if dev_no == 0 then 0 else 0x10)) h % 256 % 16 ≡ h
device_bits dev_no h lt =
    let row = pass_at 16 _ h device_table lt in
    elim (Bool-cases (dev_no == 0)) [
      | inl master ↦ rw master (ground (arith, row))
      | inr slave ↦ rw slave (ground (arith, row))
    ]

pub address-select_sector :
    (dev_no lba cnt : ℕ) → lba < 2 ^ 28 → address (select_sector dev_no lba cnt) ≡ lba
unfolding select_sector
address-select_sector dev_no lba cnt lt =
    rw (device_bits dev_no (lba / 2 ^ 24) (omega (arith, lt))) (omega arith)

pub count-select_sector :
    (dev_no lba n : ℕ) → 0 < n → n ≤ 256 → count (select_sector dev_no lba (n % 256)) ≡ n
unfolding select_sector
count-select_sector dev_no lba n low high = ground (arith, low, high)

pub size_byte_lem : (n : ℕ) → 0 < n → n ≤ 256 → size_byte (n % 256) ≡ n * 512
size_byte_lem n low high = ground (arith, low, high)

pub secs_op_bounds :
    (sec_cnt secs_done : ℕ)
    → secs_done < sec_cnt
    → (0 < secs_op sec_cnt secs_done)
      × (secs_op sec_cnt secs_done ≤ 256)
      × (secs_done + secs_op sec_cnt secs_done ≤ sec_cnt)
secs_op_bounds sec_cnt secs_done lt = (ground (arith, lt), ground (arith, lt), ground (arith, lt))
