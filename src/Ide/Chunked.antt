-- ===== src/Ide/Chunked.antt =====
-- The commands of `ide_read` and `ide_write` add up to the transfer of all sectors.
use tie_zhu_os.Base.{
  ℕ, zero, suc, ◌+◌, ◌-◌, ◌*◌, ◌/◌, ◌%◌, ◌^◌, ◌<◌, ◌≤◌, ◌≡◌, refl, ap, ◌∙◌, Bool, true, false, ◌&&◌,
  some, ltb, leb, if◌then◌else◌, Memory, arith, Bool-cases, inl, inr,
}
use mathlib.Core.Path.{ap₂}
use tie_zhu_os.Fs.Disk
use tie_zhu_os.Fs.Disk.{Disk}
use tie_zhu_os.Ide.{
  secs_op, max_lba, Controller, put_sectors, registers, read_round, read_loop, ide_read,
  write_round, write_loop, ide_write,
}
use tie_zhu_os.Ide.Command.{
  address, count, IsAta, address-select_sector, count-select_sector, size_byte_lem, secs_op_bounds,
}
use tie_zhu_os.Ide.Filled.{
  byte_at, filled, filled_on, put_sectors-filled, written, written_on, stored-written,
}

module _ (c : Controller) (ata : IsAta c) (ready : ℕ → Bool) (is_ready : (k : ℕ) → ready k ≡ true)
    (dev_no lba sec_cnt : ℕ) (fits : lba + sec_cnt ≤ 2 ^ 28) where
  module _ (secs_done : ℕ) (more : secs_done < sec_cnt) where
    abbrev op : ℕ
    op = secs_op sec_cnt secs_done

    round_address : address (registers c ready dev_no lba sec_cnt secs_done) ≡ lba + secs_done
    round_address =
        address-select_sector dev_no (lba + secs_done) (op % 256) (omega (arith, fits, more))

    round_count : count (registers c ready dev_no lba sec_cnt secs_done) ≡ op
    round_count =
        let (low, high, _) = secs_op_bounds sec_cnt secs_done more in
        count-select_sector dev_no (lba + secs_done) op low high

    -- One command fills the bytes of its sectors.
    read_round-filled :
        (disk : Disk) (buf : Memory) (i : ℕ)
        → read_round c ready dev_no lba sec_cnt disk secs_done buf i
          ≡ filled (secs_done * 512) ((secs_done + op) * 512) lba disk buf i
    read_round-filled disk buf i =
        let (low, high, _) = secs_op_bounds sec_cnt secs_done more in
        ap
          (λ z.
            put_sectors (secs_done * 512) z
              (c.fetch (registers c ready dev_no lba sec_cnt secs_done) disk) buf i)
          (size_byte_lem op low high)
        ∙ put_sectors-filled secs_done op lba i _ buf disk (λ j lt.
          ata.fetched (registers c ready dev_no lba sec_cnt secs_done) disk j (rw round_count lt)
          ∙ ap (λ a. disk (a + j / 512) (j % 512)) round_address)

  -- The loop fills the bytes of all sectors that are left.
  read_loop-filled :
      (fuel secs_done : ℕ) (disk : Disk) (buf : Memory)
      → secs_done ≤ sec_cnt
      → sec_cnt ≤ secs_done + fuel
      → (buf1 : Memory) × (read_loop c ready dev_no lba sec_cnt fuel secs_done disk buf
          ≡ some (true, buf1))
        × ((i : ℕ) → buf1 i ≡ filled (secs_done * 512) (sec_cnt * 512) lba disk buf i)
  unfolding read_loop
  read_loop-filled zero secs_done disk buf le enough =
      let done : ltb secs_done sec_cnt ≡ false = ground (arith, enough) in
      (buf, rw done refl, λ i. ground (arith, enough))
  read_loop-filled (suc fuel) secs_done disk buf le enough =
      elim (Bool-cases (ltb secs_done sec_cnt)) [
        | inr done ↦ (buf, rw done refl, λ i. ground (arith, done))
        | inl go ↦
            let more : secs_done < sec_cnt = ground (arith, go) in
            let (low, high, room) = secs_op_bounds sec_cnt secs_done more in
            let (buf1, e, f) =
              read_loop-filled fuel (secs_done + op secs_done more) disk
                (read_round c ready dev_no lba sec_cnt disk secs_done buf) room
                (omega (arith, low, enough)) in
            (
              buf1,
              rw (go, is_ready secs_done) e,
              λ i.
                  f i
                  ∙ ap
                      (λ (x : ℕ).
                        if leb ((secs_done + op secs_done more) * 512) i && ltb i (sec_cnt * 512)
                        then byte_at lba disk i
                        else x)
                      (read_round-filled secs_done more disk buf i)
                  ∙ filled_on (secs_done * 512) ((secs_done + op secs_done more) * 512)
                      (sec_cnt * 512) lba i disk buf (omega arith) (omega (arith, room)),
            )
      ]

  -- One command writes its sectors.
  write_round-written :
      (secs_done : ℕ) (more : secs_done < sec_cnt) (buf : Memory) (disk : Disk) (l i : ℕ)
      → write_round c ready dev_no lba sec_cnt buf secs_done disk l i
        ≡ written (lba + secs_done) (lba + (secs_done + op secs_done more)) lba buf disk l i
  write_round-written secs_done more buf disk l i =
      ata.stored (registers c ready dev_no lba sec_cnt secs_done) _ disk l i
      ∙ ap₂
          (λ a n.
            if leb a l && ltb l (a + n)
            then buf (secs_done * 512 + ((l - a) * 512 + i))
            else disk l i)
          (round_address secs_done more) (round_count secs_done more)
      ∙ stored-written lba secs_done (op secs_done more) l i buf disk

  write_loop-written :
      (fuel secs_done : ℕ) (buf : Memory) (disk : Disk)
      → secs_done ≤ sec_cnt
      → sec_cnt ≤ secs_done + fuel
      → (disk1 : Disk) × (write_loop c ready dev_no lba sec_cnt fuel secs_done buf disk
          ≡ some disk1)
        × ((l i : ℕ) → disk1 l i ≡ written (lba + secs_done) (lba + sec_cnt) lba buf disk l i)
  unfolding write_loop
  write_loop-written zero secs_done buf disk le enough =
      let done : ltb secs_done sec_cnt ≡ false = ground (arith, enough) in
      (disk, rw done refl, λ l i. ground (arith, enough))
  write_loop-written (suc fuel) secs_done buf disk le enough =
      elim (Bool-cases (ltb secs_done sec_cnt)) [
        | inr done ↦ (disk, rw done refl, λ l i. ground (arith, done))
        | inl go ↦
            let more : secs_done < sec_cnt = ground (arith, go) in
            let (low, high, room) = secs_op_bounds sec_cnt secs_done more in
            let (disk1, e, f) =
              write_loop-written fuel (secs_done + op secs_done more) buf
                (write_round c ready dev_no lba sec_cnt buf secs_done disk) room
                (omega (arith, low, enough)) in
            (
              disk1,
              rw (go, is_ready secs_done) e,
              λ l i.
                  f l i
                  ∙ ap
                      (λ (x : ℕ).
                        if leb (lba + (secs_done + op secs_done more)) l && ltb l (lba + sec_cnt)
                        then buf ((l - lba) * 512 + i)
                        else x)
                      (write_round-written secs_done more buf disk l i)
                  ∙ written_on (lba + secs_done) (lba + (secs_done + op secs_done more))
                      (lba + sec_cnt) lba l i buf disk (omega arith) (omega (arith, room)),
            )
      ]

  -- Where the controller transfers the sectors that its registers name, and is ready each time, `ide_read` of sectors
  -- whose addresses fit in 28 bits, the first at most `max_lba`, fills the buffer with them, and `ide_write`
  -- writes them from it, whatever their number: as the reads and writes of sectors that the file system uses.
  pub ide_read-ide_write :
      (disk : Disk) (buf : Memory)
      → lba ≤ max_lba
      → (buf1 : Memory) × (disk1 : Disk) × (ide_read c ready dev_no lba sec_cnt disk buf
          ≡ some (true, buf1))
        × (ide_write c ready dev_no lba sec_cnt buf disk ≡ some disk1)
        × ((i : ℕ) → buf1 i ≡ (if ltb i (sec_cnt * 512) then Disk.ide_read lba disk i else buf i))
        × ((l i : ℕ) → disk1 l i ≡ Disk.ide_write lba buf sec_cnt disk l i)
  unfolding ide_read ide_write
  ide_read-ide_write disk buf small =
      let (buf1, e, f) = read_loop-filled sec_cnt 0 disk buf (omega arith) (omega arith) in
      let (disk1, e1, g) = write_loop-written sec_cnt 0 buf disk (omega arith) (omega arith) in
      let within : ltb max_lba lba ≡ false = ground (arith, small) in
      (buf1, disk1, rw within e, rw within e1, λ i. f i ∙ ground arith, λ l i. g l i ∙ ground arith)
