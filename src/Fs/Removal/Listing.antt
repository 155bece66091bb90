-- ===== src/Fs/Removal/Listing.antt =====
-- `dir_read` lists the entries of a directory in the order of its blocks.
use tie_zhu_os.Base.{
  ℕ, zero, suc, ◌+◌, ◌-◌, ◌*◌, ◌^◌, ◌<◌, ◌≤◌, ◌≡◌, refl, ap, sym, ◌∙◌, true, false, Option, none,
  some, List, [], ◌∷◌, ◌++◌, map, length, length-append, get_or, ltb, ◌==◌, if◌then◌else◌, >>=-some,
  Memory, arith, Bool-cases, inl, inr,
}
use tie_zhu_os.Files.Defs.{Inode}
use tie_zhu_os.Fs.Disk.{Disk, ide_read}
use tie_zhu_os.Fs.Inodes.{copy_inode_isectors}
use tie_zhu_os.Fs.Dirs.{entries_per_sec, f_type_at}
use tie_zhu_os.Fs.Removal.{read_sector, dir_read_loop, dir_read}

-- The places of a sector that are in use.
abbrev pub used_places : ℕ → ℕ → Memory → List ℕ
used_places zero k buf = []
used_places (suc n) k buf =
    let further = used_places n (k + 1) buf in if f_type_at buf k == 0 then further else k ∷ further

module _ (buf : Memory) (dir_pos : ℕ) where
  -- Passed over, the entries of a sector count for their size each.
  read_sector-past :
      (n k cur d : ℕ)
      → cur + 24 * d ≡ dir_pos
      → length (used_places n k buf) ≤ d
      → read_sector n k dir_pos cur buf ≡ (none, cur + 24 * length (used_places n k buf))
  unfolding read_sector
  read_sector-past zero k cur d e le = ground arith
  read_sector-past (suc n) k cur d e le = elim (Bool-cases (f_type_at buf k == 0)) [
    | inl unused ↦ rw unused (read_sector-past n (k + 1) cur d e (ground (arith, unused)))
    | inr used ↦
        let le1 : suc (length (used_places n (k + 1) buf)) ≤ d = ground (arith, used) in
        let before : ltb cur dir_pos ≡ true = ground arith in
        rw (used, before)
          (read_sector-past n (k + 1) (cur + 24) (d - 1) (omega arith) (omega arith) ∙ ground arith)
  ]

  -- The entry `d` from here on.
  read_sector-at :
      (n k cur d : ℕ)
      → cur + 24 * d ≡ dir_pos
      → d < length (used_places n k buf)
      → read_sector n k dir_pos cur buf ≡ (some (get_or (used_places n k buf) d 0), dir_pos)
  unfolding read_sector
  read_sector-at zero k cur d e lt = absurd (omega arith)
  read_sector-at (suc n) k cur zero e lt = elim (Bool-cases (f_type_at buf k == 0)) [
    | inl unused ↦ rw unused (read_sector-at n (k + 1) cur 0 e (ground (arith, unused)))
    | inr used ↦ let here : ltb cur dir_pos ≡ false = ground arith in rw (used, here) (ground arith)
  ]
  read_sector-at (suc n) k cur (suc d) e lt = elim (Bool-cases (f_type_at buf k == 0)) [
    | inl unused ↦ rw unused (read_sector-at n (k + 1) cur (suc d) e (ground (arith, unused)))
    | inr used ↦
        let before : ltb cur dir_pos ≡ true = ground arith in
        rw (used, before)
          (read_sector-at n (k + 1) (cur + 24) d (omega arith) (ground (arith, used)))
  ]

-- The entries of a directory in order, each as its sector and its place there.
abbrev sector_entries : ℕ → Disk → List (ℕ × ℕ)
sector_entries lba disk = map (λ k. (lba, k)) (used_places entries_per_sec 0 (ide_read lba disk))

unfoldable pub entries_from : ℕ → ℕ → Memory → Disk → List (ℕ × ℕ)
entries_from zero block_idx all_blocks disk = []
entries_from (suc n) block_idx all_blocks disk =
    let further = entries_from n (block_idx + 1) all_blocks disk in
    if all_blocks block_idx == 0
    then further
    else sector_entries (all_blocks block_idx) disk ++ further

length-map : {A B : Type 0} (f : A → B) (xs : List A) → length (map f xs) ≡ length xs
length-map f [] = refl
length-map f (x ∷ xs) = ap suc (length-map f xs)

get_or-map :
    {A B : Type 0} (f : A → B) (xs : List A) (d : ℕ) (a : A) (b : B)
    → d < length xs
    → get_or (map f xs) d b ≡ f (get_or xs d a)
get_or-map f [] d a b lt = absurd (omega arith)
get_or-map f (x ∷ xs) zero a b lt = refl
get_or-map f (x ∷ xs) (suc d) a b lt = get_or-map f xs d a b (omega arith)

get_or-append_left :
    {A : Type 0} (xs ys : List A) (d : ℕ) (a : A)
    → d < length xs
    → get_or (xs ++ ys) d a ≡ get_or xs d a
get_or-append_left [] ys d a lt = absurd (omega arith)
get_or-append_left (x ∷ xs) ys zero a lt = refl
get_or-append_left (x ∷ xs) ys (suc d) a lt = get_or-append_left xs ys d a (omega arith)

get_or-append_right :
    {A : Type 0} (xs ys : List A) (d : ℕ) (a : A)
    → get_or (xs ++ ys) (length xs + d) a ≡ get_or ys d a
get_or-append_right [] ys d a = ap (λ n. get_or ys n a) (omega arith)
get_or-append_right (x ∷ xs) ys d a =
    ap (λ n. get_or (x ∷ xs ++ ys) n a) {x = suc (length xs) + d} {y = suc (length xs + d)}
      (omega arith)
    ∙ get_or-append_right xs ys d a

-- The entries of the directory.
abbrev pub entries : Inode → Disk → List (ℕ × ℕ)
entries i disk = entries_from 140 0 (copy_inode_isectors i disk (λ k. 0)) disk

module _ (n block_idx cur dir_pos : ℕ) (all_blocks : Memory) (disk : Disk) where
  abbrev found_in_block : Option ℕ × ℕ
  found_in_block = read_sector entries_per_sec 0 dir_pos cur (ide_read (all_blocks block_idx) disk)

  loop_stops :
      (k : ℕ)
      → (all_blocks block_idx == 0) ≡ false
      → found_in_block ≡ (some k, dir_pos)
      → dir_read_loop (suc n) block_idx dir_pos cur all_blocks disk ≡ some (all_blocks block_idx, k)
  unfolding dir_read_loop
  loop_stops k real found =
      let same : (dir_pos == dir_pos) ≡ true = ground arith in rw (real, found, same) refl

  loop_goes_on :
      (passed : ℕ)
      → (all_blocks block_idx == 0) ≡ false
      → found_in_block ≡ (none, passed)
      → dir_read_loop (suc n) block_idx dir_pos cur all_blocks disk
        ≡ dir_read_loop n (block_idx + 1) dir_pos passed all_blocks disk
  unfolding dir_read_loop
  loop_goes_on passed real found = rw (real, found) refl

  loop_skips :
      (all_blocks block_idx == 0) ≡ true
      → dir_read_loop (suc n) block_idx dir_pos cur all_blocks disk
        ≡ dir_read_loop n (block_idx + 1) dir_pos cur all_blocks disk
  unfolding dir_read_loop
  loop_skips skip = rw skip refl

module _ (n block_idx : ℕ) (all_blocks : Memory) (disk : Disk) where
  none_here :
      (all_blocks block_idx == 0) ≡ true
      → entries_from (suc n) block_idx all_blocks disk
        ≡ entries_from n (block_idx + 1) all_blocks disk
  unfolding entries_from
  none_here skip = rw skip refl

  entries_here :
      (all_blocks block_idx == 0) ≡ false
      → entries_from (suc n) block_idx all_blocks disk
        ≡ sector_entries (all_blocks block_idx) disk
          ++ entries_from n (block_idx + 1) all_blocks disk
  unfolding entries_from
  entries_here real = rw real refl

dir_read_loop_lem :
    (n block_idx cur d dir_pos : ℕ) (all_blocks : Memory) (disk : Disk)
    → cur + 24 * d ≡ dir_pos
    → d < length (entries_from n block_idx all_blocks disk)
    → dir_read_loop n block_idx dir_pos cur all_blocks disk
      ≡ some (get_or (entries_from n block_idx all_blocks disk) d (0, 0))
unfolding entries_from
dir_read_loop_lem zero block_idx cur d dir_pos all_blocks disk e lt = absurd (omega arith)
dir_read_loop_lem (suc n) block_idx cur d dir_pos all_blocks disk e lt =
    elim (Bool-cases (all_blocks block_idx == 0)) [
      | inl skip ↦
          loop_skips n block_idx cur dir_pos all_blocks disk skip
          ∙ dir_read_loop_lem n (block_idx + 1) cur d dir_pos all_blocks disk e
              (ground (arith, skip))
          ∙ ap (λ l. some (get_or l d (0, 0))) (sym (none_here n block_idx all_blocks disk skip))
      | inr real ↦
          let buf = ide_read (all_blocks block_idx) disk in
          let places = used_places entries_per_sec 0 buf in
          let here = sector_entries (all_blocks block_idx) disk in
          let here_at = λ (k : ℕ). let p : ℕ × ℕ = (all_blocks block_idx, k) in p in
          let further = entries_from n (block_idx + 1) all_blocks disk in
          let size = length-map here_at places in
          let split = entries_here n block_idx all_blocks disk real in
          let total : d < length (here ++ further) = omega (arith, ap length split) in
          let at_d = ap (λ l. get_or l d (0, 0)) split in
          elim (Bool-cases (ltb d (length places))) [
            | inl inside ↦
                loop_stops n block_idx cur dir_pos all_blocks disk (get_or places d 0) real
                  (read_sector-at buf dir_pos 21 0 cur d e (ground (arith, inside)))
                ∙ ap some (
                    sym (
                      at_d
                      ∙ get_or-append_left here further d (0, 0) (ground (arith, inside, size))
                      ∙ get_or-map here_at places d 0 (0, 0) (ground (arith, inside))))
            | inr beyond ↦
                let rest = d - length places in
                loop_goes_on n block_idx cur dir_pos all_blocks disk (cur + 24 * length places) real
                  (read_sector-past buf dir_pos 21 0 cur d e (ground (arith, beyond)))
                ∙ dir_read_loop_lem n (block_idx + 1) (cur + 24 * length places) rest dir_pos
                    all_blocks disk (ground (arith, beyond))
                    (ground (arith, beyond, size, total, length-append here further))
                ∙ ap some (
                    sym (
                      at_d
                      ∙ ap (λ m. get_or (here ++ further) m (0, 0)) {x = d} {y = length here + rest}
                          (ground (arith, beyond, size))
                      ∙ get_or-append_right here further rest (0, 0)))
          ]
    ]

-- In a directory whose size is that of its entries, `dir_read` at the place behind `d` entries gives the
-- entry `d` of the list of all entries, with the place behind it, and `NULL` behind the last.
pub dir_read_lem :
    (d : ℕ) (i : Inode) (disk : Disk)
    → i.i_bsize ≡ 24 * length (entries i disk)
    → i.i_bsize < 2 ^ 32
    → dir_read (24 * d) i disk
      ≡ some (
          if ltb d (length (entries i disk))
          then (some (get_or (entries i disk) d (0, 0)), 24 * suc d)
          else (none, 24 * d))
unfolding dir_read
dir_read_lem d i disk size small = elim (Bool-cases (ltb d (length (entries i disk)))) [
  | inl more ↦
      let test : ltb (24 * d) i.i_bsize ≡ true = ground (arith, more) in
      rw (more, test)
        (>>=-some _
          (dir_read_loop_lem 140 0 0 d (24 * d) (copy_inode_isectors i disk (λ k. 0)) disk
            (omega arith) (ground (arith, more)))
          (ground (arith, size, small, more)))
  | inr over ↦
      let test : ltb (24 * d) i.i_bsize ≡ false = ground (arith, over) in rw (over, test) refl
]
