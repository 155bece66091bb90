-- ===== src/Fs/Chunks.antt =====
-- The bytes of a file across its blocks, under the loops of `file_write` and `file_read`.
use tie_zhu_os.Base.{
  ℕ, zero, suc, ◌+◌, ◌-◌, ◌*◌, ◌/◌, ◌%◌, ◌≤◌, ◌<◌, ◌≡◌, ◌≢◌, refl, ap, sym, ◌∙◌, subst, Bool, true,
  false, List, [], ◌∷◌, length, get_or, take, drop, length-take, leb, ◌==◌, if◌then◌else◌, arith,
  Memory, Bool-cases, inl, inr,
}
use tie_zhu_os.Fs.Disk.{Disk, ide_read, ide_write}
use tie_zhu_os.Fs.Transfer.{chunk_size, put_bytes, write_chunks}

-- The byte `p` of a file with the blocks `all_block`.
abbrev pub byte_at : Memory → Disk → ℕ → ℕ
byte_at all_block disk p = disk (all_block (p / 512)) (p % 512)

-- The blocks from `i` to `j` have different addresses.
abbrev pub AreApart : Memory → ℕ → ℕ → Type 0
AreApart all_block i j =
    (a b : ℕ) → i ≤ a → a ≤ j → i ≤ b → b ≤ j → all_block a ≡ all_block b → a ≡ b

pub get_or-take : (xs : List ℕ) (n i : ℕ) → i < n → get_or (take n xs) i 0 ≡ get_or xs i 0
get_or-take [] zero i h = refl
get_or-take [] (suc n) i h = refl
get_or-take (x ∷ xs) zero i h = absurd (omega arith)
get_or-take (x ∷ xs) (suc n) zero h = refl
get_or-take (x ∷ xs) (suc n) (suc i) h = get_or-take xs n i (omega arith)

pub get_or-drop : (xs : List ℕ) (n i : ℕ) → get_or (drop n xs) i 0 ≡ get_or xs (n + i) 0
get_or-drop xs zero i = ap (λ k. get_or xs k 0) (omega arith)
get_or-drop [] (suc n) i = refl
get_or-drop (x ∷ xs) (suc n) i =
    get_or-drop xs n i
    ∙ ap (λ k. get_or (x ∷ xs) k 0) {x = suc (n + i)} {y = suc n + i} (omega arith)

length-drop : (xs : List ℕ) (n : ℕ) → length (drop n xs) ≡ length xs - n
length-drop xs zero = omega arith
length-drop [] (suc n) = omega arith
length-drop (x ∷ xs) (suc n) = omega (arith, length-drop xs n)

write_hit : (a b o : ℕ) (buf : Memory) (disk : Disk) → b ≡ a → ide_write a buf 1 disk b o ≡ buf o
write_hit a b o buf disk e = ground (arith, ap buf {x = (b - a) * 512 + o} {y = o})

write_miss :
    (a b o : ℕ) (buf : Memory) (disk : Disk) → b ≢ a → ide_write a buf 1 disk b o ≡ disk b o
write_miss a b o buf disk e = ground arith

pub chunk_bounds :
    (i n : ℕ)
    → 0 < n
    → (0 < chunk_size i n) × (chunk_size i n ≤ n) × (chunk_size i n + i % 512 ≤ 512)
chunk_bounds i n h = ground arith

put_new :
    (i p : ℕ) (src : List ℕ) (c : ℕ) (io_buf : Memory)
    → c ≤ length src
    → p / 512 ≡ i / 512
    → p < i + c
    → i ≤ p
    → put_bytes (i % 512) (take c src) io_buf (p % 512) ≡ get_or src (p - i) 0
put_new i p src c io_buf le same lt new = ground (
  arith,
  length-take c src,
  get_or-take src c (p - i),
  ap (λ k. get_or (take c src) k 0) {x = p % 512 - i % 512} {y = p - i},
)

put_old :
    (i p : ℕ) (bytes : List ℕ) (io_buf : Memory)
    → p / 512 ≡ i / 512
    → p < i
    → put_bytes (i % 512) bytes io_buf (p % 512) ≡ io_buf (p % 512)
put_old i p bytes io_buf same old = ground arith

before_block : (i p n : ℕ) → 0 < n → p / 512 ≢ i / 512 → p < i + chunk_size i n → leb i p ≡ false
before_block i p n h other lt = ground (arith, chunk_bounds i n h)

-- One round of the loop of `file_write`, on the bytes of the file: those of the chunk are new, those
-- before it and those of the other blocks stay.
one_chunk :
    (all_block : Memory) (i p : ℕ) (src : List ℕ) (io_buf : Memory) (disk : Disk)
    → 0 < length src
    → (all_block (p / 512) ≡ all_block (i / 512) → p / 512 ≡ i / 512)
    → (p < i → p / 512 ≡ i / 512 → io_buf (p % 512) ≡ byte_at all_block disk p)
    → p < i + chunk_size i (length src)
    → byte_at all_block
        (ide_write
          (all_block (i / 512))
          (put_bytes (i % 512) (take (chunk_size i (length src)) src) io_buf)
          1
          disk)
        p
      ≡ (if leb i p then get_or src (p - i) 0 else byte_at all_block disk p)
one_chunk all_block i p src io_buf disk some_byte apart kept lt =
    elim (Bool-cases (p / 512 == i / 512)) [
      | inl same ↦ elim (Bool-cases (leb i p)) [
        | inl new ↦ rw new (
            write_hit (all_block (i / 512)) (all_block (p / 512)) (p % 512) buf disk
              (ap all_block (ground arith))
            ∙ put_new i p src _ io_buf (ground (arith, chunk_bounds i (length src))) (ground arith)
                lt (ground arith))
        | inr old ↦ rw old (
            write_hit (all_block (i / 512)) (all_block (p / 512)) (p % 512) buf disk
              (ap all_block (ground arith))
            ∙ put_old i p (take (chunk_size i (length src)) src) io_buf (ground arith)
                (ground arith)
            ∙ kept (ground arith) (ground arith))
      ]
      | inr other ↦
          write_miss (all_block (i / 512)) (all_block (p / 512)) (p % 512) buf disk
            (λ e. absurd (ground (arith, apart e)))
          ∙ sym (rw (before_block i p (length src) some_byte (ground arith) lt) refl)
    ]
  where
    buf : Memory
    buf = put_bytes (i % 512) (take (chunk_size i (length src)) src) io_buf

-- A sector buffer that starts with the old bytes of its block.
abbrev pub buffer_for : Bool → ℕ → Memory → Disk → Memory
buffer_for first i all_block disk = if first then ide_read (all_block (i / 512)) disk else (λ k. 0)

old_bytes :
    (first : Bool) (i p : ℕ) (all_block : Memory) (disk : Disk)
    → ((first ≡ false) → i % 512 ≡ 0)
    → p < i
    → p / 512 ≡ i / 512
    → buffer_for first i all_block disk (p % 512) ≡ byte_at all_block disk p
old_bytes true i p all_block disk start lt same = ground (
  arith,
  ap (λ k. disk k (p % 512)) {x = all_block (i / 512) + p % 512 / 512} {y = all_block (p / 512)},
  ap all_block same,
  ap (disk (all_block (p / 512))) {x = p % 512 % 512} {y = p % 512},
)
old_bytes false i p all_block disk start lt same = absurd (omega (arith, start refl))

pub if-true : {b : Bool} (x y : ℕ) → b ≡ true → (if b then x else y) ≡ x
if-true x y e = rw e refl

pub if-false : {b : Bool} (x y : ℕ) → b ≡ false → (if b then x else y) ≡ y
if-false x y e = rw e refl

-- The disk after one round of the loop.
abbrev round_disk : Bool → Memory → ℕ → List ℕ → Disk → Disk
round_disk first all_block i src disk =
    ide_write (all_block (i / 512))
      (put_bytes (i % 512) (take (chunk_size i (length src)) src)
        (buffer_for first i all_block disk))
      1 disk

-- One round, where the rest of the loop does what it should.
next_chunk :
    (first : Bool) (all_block : Memory) (i : ℕ) (src : List ℕ) (disk last : Disk) (p : ℕ)
    → 0 < length src
    → ((first ≡ false) → i % 512 ≡ 0)
    → AreApart all_block 0 ((i + length src) / 512)
    → p < i + length src
    → byte_at all_block last p ≡ (
        if leb (i + chunk_size i (length src)) p
        then get_or (drop (chunk_size i (length src)) src) (p - (i + chunk_size i (length src))) 0
        else byte_at all_block (round_disk first all_block i src disk) p)
    → byte_at all_block last p
      ≡ (if leb i p then get_or src (p - i) 0 else byte_at all_block disk p)
next_chunk first all_block i src disk last p some_byte start apart lt rest =
    elim (Bool-cases (leb (i + chunk_size i (length src)) p)) [
      | inl later ↦
          rest
          ∙ if-true _ _ later
          ∙ (get_or-drop src (chunk_size i (length src)) (p - (i + chunk_size i (length src))))
          ∙ ground (
            arith,
            ap (λ k. get_or src k 0)
                {x = chunk_size i (length src) + (p - (i + chunk_size i (length src)))} {y = p - i},
          )
      | inr here ↦
          rest
          ∙ if-false _ _ here
          ∙ (one_chunk all_block i p src (buffer_for first i all_block disk) disk some_byte
              (apart (p / 512) (i / 512) (omega arith) (omega arith) (omega arith) (omega arith))
              (old_bytes first i p all_block disk start) (ground arith))
    ]

more_chunks :
    (i : ℕ) (src : List ℕ)
    → 0 < length src
    → (length (drop (chunk_size i (length src)) src) < length src)
      × (i + chunk_size i (length src) + length (drop (chunk_size i (length src)) src)
          ≡ i + length src)
      × (length (drop (chunk_size i (length src)) src) ≢ 0
          → (i + chunk_size i (length src)) % 512 ≡ 0)
more_chunks i src h = (
  omega (arith, length-drop src (chunk_size i (length src)), chunk_bounds i (length src) h),
  omega (arith, length-drop src (chunk_size i (length src)), chunk_bounds i (length src) h),
  λ left. ground (arith, length-drop src (chunk_size i (length src))),
)

-- The loop of `file_write` puts the bytes behind the file and leaves those before.
pub write_chunks_lem :
    (fuel : ℕ) (first : Bool) (all_block : Memory) (i : ℕ) (src : List ℕ) (disk : Disk) (p : ℕ)
    → length src ≤ fuel
    → ((first ≡ false) → length src ≢ 0 → i % 512 ≡ 0)
    → AreApart all_block 0 ((i + length src) / 512)
    → p < i + length src
    → byte_at all_block (write_chunks fuel first all_block i src disk) p
      ≡ (if leb i p then get_or src (p - i) 0 else byte_at all_block disk p)
unfolding write_chunks
write_chunks_lem zero first all_block i src disk p le start apart lt = ground arith
write_chunks_lem (suc fuel) first all_block i src disk p le start apart lt =
    elim (Bool-cases (length src == 0)) [
      | inl empty ↦ rw empty (ground (arith, lt))
      | inr more ↦
          let (shorter, same, starts) = more_chunks i src (ground arith) in
          rw more (
            next_chunk first all_block i src disk
              (write_chunks fuel false all_block (i + chunk_size i (length src))
                (drop (chunk_size i (length src)) src) (round_disk first all_block i src disk))
              p (ground arith) (λ e. start e (ground arith)) apart lt
              (write_chunks_lem fuel false all_block _ _ (round_disk first all_block i src disk) p
                (omega arith) (λ e. starts)
                (subst (AreApart all_block 0) (ap (λ k. k / 512) (sym same)) apart) (omega arith)))
    ]
