-- ===== src/Fs/Disk.antt =====
-- The disk as sectors of 512 bytes: `ide_read` and `ide_write` of device/ide.c as the file system uses
-- them, without the ports.
use tie_zhu_os.Base.{ℕ, ◌+◌, ◌-◌, ◌*◌, ◌/◌, ◌%◌, ◌&&◌, ltb, leb, if◌then◌else◌, Memory}

abbrev pub sector_size : ℕ
sector_size = 512

-- The bytes of a sector, by its address.
abbrev pub Disk : Type 0
Disk = ℕ → Memory

-- The buffer after `ide_read` of sectors from `lba` on.
abbrev pub ide_read : ℕ → Disk → Memory
ide_read lba disk i = disk (lba + i / sector_size) (i % sector_size)

-- `sec_cnt` sectors from `lba` on are written.
abbrev pub ide_write : ℕ → Memory → ℕ → Disk → Disk
ide_write lba buf sec_cnt disk l i =
    if leb lba l && ltb l (lba + sec_cnt) then buf ((l - lba) * sector_size + i) else disk l i
