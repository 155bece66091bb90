-- ===== src/Ide/Filled.antt =====
-- Parts of a buffer and of the disk that one transfer after the other fills.
use tie_zhu_os.Base.{
  ℕ, ◌+◌, ◌-◌, ◌*◌, ◌/◌, ◌%◌, ◌<◌, ◌≤◌, ◌≡◌, refl, ap, ◌∙◌, true, false, ◌&&◌, ltb, leb,
  if◌then◌else◌, Memory, arith, Bool-cases, inl, inr,
}
use mathlib.Core.Path.{ap₂}
use tie_zhu_os.Fs.Disk.{Disk}
use tie_zhu_os.Ide.{put_sectors}

-- The byte of the disk at a place behind `lba`.
abbrev pub byte_at : ℕ → Disk → Memory
byte_at lba disk i = disk (lba + i / 512) (i % 512)

-- The bytes from `start` to `stop` are those of the disk.
abbrev pub filled : ℕ → ℕ → ℕ → Disk → Memory → Memory
filled start stop lba disk buf i = if leb start i && ltb i stop then byte_at lba disk i else buf i

pub put_sectors-filled :
    (secs_done n lba i : ℕ) (words buf : Memory) (disk : Disk)
    → ((j : ℕ) → j < n * 512 → words j ≡ disk (lba + secs_done + j / 512) (j % 512))
    → put_sectors (secs_done * 512) (n * 512) words buf i
      ≡ filled (secs_done * 512) ((secs_done + n) * 512) lba disk buf i
put_sectors-filled secs_done n lba i words buf disk same =
    elim (Bool-cases (leb (secs_done * 512) i && ltb i (secs_done * 512 + n * 512))) [
      | inl inside ↦
          let test : (leb (secs_done * 512) i && ltb i ((secs_done + n) * 512)) ≡ true =
            ground (arith, inside) in
          let place : lba + secs_done + (i - secs_done * 512) / 512 ≡ lba + i / 512 =
            ground (arith, inside) in
          let byte : (i - secs_done * 512) % 512 ≡ i % 512 = ground (arith, inside) in
          rw (inside, test)
            (same (i - secs_done * 512) (ground (arith, inside)) ∙ ap₂ disk place byte)
      | inr outside ↦
          let test : (leb (secs_done * 512) i && ltb i ((secs_done + n) * 512)) ≡ false =
            ground (arith, outside) in
          rw (outside, test) refl
    ]

-- What was filled and what is filled behind it.
pub filled_on :
    (a b d lba i : ℕ) (disk : Disk) (buf : Memory)
    → a ≤ b
    → b ≤ d
    → filled b d lba disk (filled a b lba disk buf) i ≡ filled a d lba disk buf i
filled_on a b d lba i disk buf h k = ground (arith, h, k)

-- The sectors from `start` to `stop` are those of the buffer, which begins with the sector `lba`.
abbrev pub written : ℕ → ℕ → ℕ → Memory → Disk → Disk
written start stop lba buf disk l i =
    if leb start l && ltb l stop then buf ((l - lba) * 512 + i) else disk l i

pub written_on :
    (a b d lba l i : ℕ) (buf : Memory) (disk : Disk)
    → a ≤ b
    → b ≤ d
    → written b d lba buf (written a b lba buf disk) l i ≡ written a d lba buf disk l i
written_on a b d lba l i buf disk h k = ground (arith, h, k)

pub stored-written :
    (lba secs_done n l i : ℕ) (buf : Memory) (disk : Disk)
    → (if leb (lba + secs_done) l && ltb l (lba + secs_done + n)
        then buf (secs_done * 512 + ((l - (lba + secs_done)) * 512 + i))
        else disk l i)
      ≡ written (lba + secs_done) (lba + (secs_done + n)) lba buf disk l i
stored-written lba secs_done n l i buf disk =
    elim (Bool-cases (leb (lba + secs_done) l && ltb l (lba + secs_done + n))) [
      | inl inside ↦
          let test : (leb (lba + secs_done) l && ltb l (lba + (secs_done + n))) ≡ true =
            ground (arith, inside) in
          let place : secs_done * 512 + ((l - (lba + secs_done)) * 512 + i) ≡ (l - lba) * 512 + i =
            ground (arith, inside) in
          rw (inside, test) (ap buf place)
      | inr outside ↦
          let test : (leb (lba + secs_done) l && ltb l (lba + (secs_done + n))) ≡ false =
            ground (arith, outside) in
          rw (outside, test) refl
    ]
