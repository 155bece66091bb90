-- ===== src/Tests/Drive.antt =====
-- A transfer of 300 sectors.
use tie_zhu_os.Base.{
  ℕ, ◌+◌, ◌-◌, ◌*◌, ◌/◌, ◌%◌, ◌≡◌, refl, true, ◌&&◌, some, ltb, leb, if◌then◌else◌, Memory, arith,
}
use tie_zhu_os.Fs.Disk
use tie_zhu_os.Fs.Disk.{Disk}
use tie_zhu_os.Ide.{Controller, ide_read, ide_write}
use tie_zhu_os.Ide.Command.{address, count, IsAta}
use tie_zhu_os.Ide.Chunked.{ide_read-ide_write}

abbrev drive : Controller
drive = record {
  fetch = (λ r disk i. disk (address r + i / 512) (i % 512));
  store = (λ r words disk l i.
      if leb (address r) l && ltb l (address r + count r)
      then words ((l - address r) * 512 + i)
      else disk l i);
}

drive-IsAta : IsAta drive
drive-IsAta = record { fetched = λ r disk i lt. refl; stored = λ r words disk l i. refl }

abbrev numbered : Disk
numbered l i = l

abbrev ones : Memory
ones i = 1

ide_read-ide_write_example :
    (buf1 : Memory) × (disk1 : Disk) × (ide_read drive (λ k. true) 1 1000 300 numbered ones
      ≡ some (true, buf1))
    × (ide_write drive (λ k. true) 1 1000 300 ones numbered ≡ some disk1)
    × ((i : ℕ) → buf1 i ≡ (if ltb i (300 * 512) then Disk.ide_read 1000 numbered i else ones i))
    × ((l i : ℕ) → disk1 l i ≡ Disk.ide_write 1000 ones 300 numbered l i)
ide_read-ide_write_example =
    ide_read-ide_write drive drive-IsAta (λ k. true) (λ k. refl) 1 1000 300 (omega arith) numbered
      ones (omega arith)
