-- ===== src/Fs/Dirs/Added.antt =====
-- An entry that `sync_dir_entry` stored is found by `search_dir_entry`.
use tie_zhu_os.Base.{
  ℕ, zero, suc, ◌+◌, ◌-◌, ◌*◌, ◌/◌, ◌%◌, ◌^◌, ◌<◌, ◌≤◌, ◌≡◌, ◌≢◌, refl, ap, sym, ◌∙◌, subst, Bool,
  true, false, none, some, List, ◌==◌, Memory, arith, >>-assert, Bool-cases, Option-cases, inl, inr,
}
use tie_zhu_os.Files.Defs.{Inode}
use tie_zhu_os.Fs.Disk.{Disk, ide_read, ide_write}
use tie_zhu_os.Fs.Blocks.{Volume, Growing}
use tie_zhu_os.Fs.Dirs.{
  DirEntry, entries_per_sec, put_entry, search_sector, search_blocks, direct_blocks,
  search_dir_entry, free_place, store_entry, sync_loop, sync_dir_entry,
}
use tie_zhu_os.Fs.Dirs.Entries.{IsEntry, search_sector_agree, search_sector-put}

-- A sector that is written, and another.
read_written :
    (l a : ℕ) (buf : Memory) (disk : Disk) → a < 512 → ide_read l (ide_write l buf 1 disk) a ≡ buf a
read_written l a buf disk lt =
    ground (arith, ap buf {x = (l + a / 512 - l) * 512 + a % 512} {y = a})

read_other :
    (l o a : ℕ) (buf : Memory) (disk : Disk)
    → o ≢ l
    → a < 512
    → ide_read o (ide_write l buf 1 disk) a ≡ ide_read o disk a
read_other l o a buf disk ne lt = ground (arith, ne)

-- Different blocks of a directory have different addresses.
abbrev pub AreBlocksApart : Memory → Type 0
AreBlocksApart all_blocks = (a b : ℕ) → a ≢ b → all_blocks a ≢ 0 → all_blocks a ≢ all_blocks b

module _ (n i : ℕ) (name : List ℕ) (all_blocks : Memory) (disk : Disk) where
  -- The block `i` has no entry of that name.
  abbrev Misses : Type 0
  Misses =
      all_blocks i ≢ 0 → search_sector entries_per_sec 0 name (ide_read (all_blocks i) disk) ≡ none

  missed :
      search_blocks (suc n) i name all_blocks disk ≡ none
      → Misses × (search_blocks n (i + 1) name all_blocks disk ≡ none)
  unfolding search_blocks
  missed unseen = elim (Bool-cases (all_blocks i == 0)) [
    | inl skip ↦ (λ real. absurd (ground (arith, skip, real)), ground (arith, skip))
    | inr real ↦
        elim (Option-cases (search_sector entries_per_sec 0 name (ide_read (all_blocks i) disk))) [
          | inl misses ↦ (λ _. misses, ground (arith, real, misses))
          | inr (d, hit) ↦ absurd (ground (arith, real, hit))
        ]
  ]

  go_on :
      Misses
      → search_blocks (suc n) i name all_blocks disk ≡ search_blocks n (i + 1) name all_blocks disk
  unfolding search_blocks
  go_on misses = elim (Bool-cases (all_blocks i == 0)) [
    | inl skip ↦ rw skip refl
    | inr real ↦ let none_here = misses (ground (arith, real)) in rw (real, none_here) refl
  ]

  hit_first :
      (d : DirEntry)
      → all_blocks i ≢ 0
      → search_sector entries_per_sec 0 name (ide_read (all_blocks i) disk) ≡ some d
      → search_blocks (suc n) i name all_blocks disk ≡ some d
  unfolding search_blocks
  hit_first d real hit =
      let test : (all_blocks i == 0) ≡ false = ground (arith, real) in rw (test, hit) refl

-- The sector with the new entry.
sector_found :
    (lba k : ℕ) (e : DirEntry) (disk : Disk)
    → IsEntry e
    → free_place entries_per_sec 0 (ide_read lba disk) ≡ some k
    → search_sector entries_per_sec 0 e.filename (ide_read lba disk) ≡ none
    → search_sector entries_per_sec 0 e.filename
        (ide_read lba (ide_write lba (put_entry e k (ide_read lba disk)) 1 disk))
      ≡ some e
sector_found lba k e disk v room misses =
    search_sector_agree 21 0 e.filename _ (put_entry e k (ide_read lba disk)) v.short
      (λ a lt. read_written lba a (put_entry e k (ide_read lba disk)) disk (omega arith))
    ∙ search_sector-put 21 0 k e (ide_read lba disk) v misses room

search_blocks-put :
    (n i l k : ℕ) (e : DirEntry) (all_blocks : Memory) (disk : Disk)
    → IsEntry e
    → AreBlocksApart all_blocks
    → i ≤ l
    → l < i + n
    → all_blocks l ≢ 0
    → free_place entries_per_sec 0 (ide_read (all_blocks l) disk) ≡ some k
    → search_blocks n i e.filename all_blocks disk ≡ none
    → search_blocks n i e.filename all_blocks
        (ide_write (all_blocks l) (put_entry e k (ide_read (all_blocks l) disk)) 1 disk)
      ≡ some e
search_blocks-put zero i l k e all_blocks disk v apart le lt real room unseen = absurd (omega arith)
search_blocks-put (suc n) i l k e all_blocks disk v apart le lt real room unseen =
    let disk1 = ide_write (all_blocks l) (put_entry e k (ide_read (all_blocks l) disk)) 1 disk in
    let (misses, further) = missed n i e.filename all_blocks disk unseen in
    elim (Bool-cases (i == l)) [
      | inl here ↦
          let same : i ≡ l = ground (arith, here) in
          let misses' =
            subst
              (λ b.
                all_blocks b ≢ 0
                → search_sector entries_per_sec 0 e.filename (ide_read (all_blocks b) disk) ≡ none)
              same misses in
          subst (λ b. search_blocks (suc n) b e.filename all_blocks disk1 ≡ some e) (sym same)
            (hit_first n l e.filename all_blocks disk1 e real
              (sector_found (all_blocks l) k e disk v room (misses' real)))
      | inr later ↦
          go_on n i e.filename all_blocks disk1 (λ real_i.
            search_sector_agree 21 0 e.filename _ (ide_read (all_blocks i) disk) v.short (λ a lt_a.
              read_other (all_blocks l) (all_blocks i) a
                (put_entry e k (ide_read (all_blocks l) disk)) disk
                (apart i l (ground (arith, later)) real_i) (omega arith))
            ∙ misses real_i)
          ∙ search_blocks-put n (i + 1) l k e all_blocks disk v apart (ground (arith, later))
              (omega arith) real room further
    ]

sync_loop_lem :
    (got : Bool) (n i j k : ℕ) (e : DirEntry) (g : Growing)
    → i ≤ j
    → j < i + n
    → ((a : ℕ) → a ≤ j → g.all_block a ≢ 0)
    → free_place entries_per_sec 0 (ide_read (g.all_block j) g.volume.disk) ≡ some k
    → (l : ℕ) × (p : ℕ) × (i ≤ l)
      × (l ≤ j)
      × (free_place entries_per_sec 0 (ide_read (g.all_block l) g.volume.disk) ≡ some p)
      × (sync_loop got n i e g
          ≡ some (
            true,
            store_entry (g.all_block l) (put_entry e p (ide_read (g.all_block l) g.volume.disk)) g,
          ))
unfolding sync_loop
sync_loop_lem got zero i j k e g le lt real room = absurd (omega arith)
sync_loop_lem got (suc n) i j k e g le lt real room =
    let allocated : (g.all_block i == 0) ≡ false = ground (arith, real i le) in
    elim (Option-cases (free_place entries_per_sec 0 (ide_read (g.all_block i) g.volume.disk))) [
      | inl full ↦
          let at_j : (i == j) ≡ false = elim (Bool-cases (i == j)) [
            | inl same ↦ absurd (
                ground (
                  arith,
                  full,
                  ap (λ b. free_place entries_per_sec 0 (ide_read (g.all_block b) g.volume.disk))
                      {x = i} {y = j} (ground (arith, same)),
                ))
            | inr other ↦ other
          ] in
          let (l, p, le_l, l_le, free, e1) =
            sync_loop_lem got n (i + 1) j k e g (ground (arith, at_j)) (omega arith) real room in
          (l, p, omega arith, l_le, free, rw (allocated, full) e1)
      | inr (p, free) ↦ (i, p, omega arith, omega arith, free, rw (allocated, free) refl)
    ]

search_starts :
    (i : Inode) (name : List ℕ) (disk : Disk)
    → search_dir_entry i name disk ≡ search_blocks 140 0 name (direct_blocks i) disk
unfolding search_dir_entry
search_starts i name disk = refl

sync_starts :
    (got : Bool) (e : DirEntry) (i : Inode) (v : Volume)
    → i.i_bsize % 24 ≡ 0
    → sync_dir_entry got e i v
      ≡ sync_loop got 140 0 e (record { volume = v; inode = i; all_block = direct_blocks i })
unfolding sync_dir_entry
sync_starts got e i v whole = >>-assert {b = i.i_bsize % 24 == 0} (ground arith) refl

-- In a directory whose blocks have different addresses, with a free place in the direct block `j` and
-- no missing block before that, `sync_dir_entry` stores an entry of a new name without a new block; the
-- directory grows by the entry's size, and `search_dir_entry` finds the entry by its name.
pub search_dir_entry-sync_dir_entry :
    (got : Bool) (e : DirEntry) (i : Inode) (v : Volume) (j k : ℕ)
    → IsEntry e
    → i.i_bsize % 24 ≡ 0
    → AreBlocksApart (direct_blocks i)
    → j < 12
    → ((a : ℕ) → a ≤ j → i.i_sectors a ≢ 0)
    → free_place entries_per_sec 0 (ide_read (i.i_sectors j) v.disk) ≡ some k
    → search_dir_entry i e.filename v.disk ≡ none
    → (g : Growing) × (sync_dir_entry got e i v ≡ some (true, g))
      × (g.inode ≡ record i { i_bsize = (i.i_bsize + 24) % 2 ^ 32 })
      × (g.volume ≡ record v { disk = g.volume.disk })
      × (search_dir_entry g.inode e.filename g.volume.disk ≡ some e)
search_dir_entry-sync_dir_entry got e i v j k entry whole apart direct real room unseen =
    let g : Growing = record { volume = v; inode = i; all_block = direct_blocks i } in
    let (l, p, _, le, free, stored) =
      sync_loop_lem got 140 0 j k e g (omega arith) (omega arith)
        (λ a le. ground (arith, real a le)) (ground (arith, room)) in
    (
      store_entry (direct_blocks i l) (put_entry e p (ide_read (direct_blocks i l) v.disk)) g,
      sync_starts got e i v whole ∙ stored,
      refl,
      refl,
      search_starts (record i { i_bsize = (i.i_bsize + 24) % 2 ^ 32 }) e.filename _
          ∙ search_blocks-put 140 0 l p e (direct_blocks i) v.disk entry apart (omega arith)
              (omega arith) (ground (arith, real l le)) free
              (sym (search_starts i e.filename v.disk) ∙ unseen),
    )
