-- ===== src/Fs/Contents.antt =====
-- What `file_read` gives of a file, and that it is what `file_write` put there.
use tie_zhu_os.Base.{
  ℕ, zero, suc, ◌+◌, ◌-◌, ◌*◌, ◌/◌, ◌%◌, ◌≤◌, ◌<◌, ◌≡◌, refl, ap, sym, ◌∙◌, true, List, [], ◌∷◌,
  ◌++◌, length, get_or, leb, ◌==◌, if◌then◌else◌, arith, Memory, Bool-cases, inl, inr,
}
use tie_zhu_os.Fs.Disk.{Disk, ide_read}
use tie_zhu_os.Fs.Transfer.{chunk_size, write_chunks, bytes_from, read_chunks}
use tie_zhu_os.Fs.Chunks.{byte_at, AreApart, chunk_bounds, if-true, if-false, write_chunks_lem}

-- The bytes of a file from `p` on.
abbrev pub bytes_of : ℕ → ℕ → Memory → Disk → List ℕ
bytes_of zero p all_block disk = []
bytes_of (suc n) p all_block disk = byte_at all_block disk p ∷ bytes_of n (p + 1) all_block disk

bytes_of-add :
    (n m p : ℕ) (all_block : Memory) (disk : Disk)
    → bytes_of n p all_block disk ++ bytes_of m (p + n) all_block disk
      ≡ bytes_of (n + m) p all_block disk
bytes_of-add zero m p all_block disk =
    ap (λ k. bytes_of m k all_block disk) {x = p + 0} {y = p} (omega arith)
    ∙ ap (λ k. bytes_of k p all_block disk) {x = m} {y = 0 + m} (omega arith)
bytes_of-add (suc n) m p all_block disk =
    ap (λ l. byte_at all_block disk p ∷ l)
      (ap (λ k. bytes_of n (p + 1) all_block disk ++ bytes_of m k all_block disk) {x = p + suc n}
          {y = p + 1 + n} (omega arith)
        ∙ bytes_of-add n m (p + 1) all_block disk)
    ∙ ap (λ k. bytes_of k p all_block disk) {x = suc (n + m)} {y = suc n + m} (omega arith)

-- The bytes of one sector buffer.
bytes_from-bytes_of :
    (n q o : ℕ) (all_block : Memory) (disk : Disk)
    → o + n ≤ 512
    → bytes_from n o (ide_read (all_block q) disk) ≡ bytes_of n (q * 512 + o) all_block disk
bytes_from-bytes_of zero q o all_block disk fit = refl
bytes_from-bytes_of (suc n) q o all_block disk fit =
    ap (λ b. b ∷ bytes_from n (o + 1) (ide_read (all_block q) disk))
      (first_byte q o all_block disk (omega arith))
    ∙ ap (λ l. byte_at all_block disk (q * 512 + o) ∷ l)
        (bytes_from-bytes_of n q (o + 1) all_block disk (omega arith)
          ∙ ap (λ k. bytes_of n k all_block disk) (omega arith))
  where
    first_byte :
        (q o : ℕ) (all_block : Memory) (disk : Disk)
        → o < 512
        → ide_read (all_block q) disk o ≡ byte_at all_block disk (q * 512 + o)
    first_byte q o all_block disk lt =
        ap (λ a. disk a (o % 512)) {x = all_block q + o / 512} {y = all_block q} (omega arith)
        ∙ ap (λ k. disk (all_block k) (o % 512)) {x = q} {y = (q * 512 + o) / 512} (omega arith)
        ∙ ap (disk (all_block ((q * 512 + o) / 512))) {x = o % 512} {y = (q * 512 + o) % 512}
            (omega arith)

one_sector :
    (fuel n p : ℕ) (all_block : Memory) (disk : Disk)
    → 0 < n
    → read_chunks fuel all_block (p + chunk_size p n) (n - chunk_size p n) disk
      ≡ bytes_of (n - chunk_size p n) (p + chunk_size p n) all_block disk
    → bytes_from (chunk_size p n) (p % 512) (ide_read (all_block (p / 512)) disk)
        ++ read_chunks fuel all_block (p + chunk_size p n) (n - chunk_size p n) disk
      ≡ bytes_of n p all_block disk
one_sector fuel n p all_block disk some_byte rest =
    ap (λ l. bytes_from (chunk_size p n) (p % 512) (ide_read (all_block (p / 512)) disk) ++ l) rest
    ∙ ap (λ l. l ++ bytes_of (n - chunk_size p n) (p + chunk_size p n) all_block disk)
        (bytes_from-bytes_of (chunk_size p n) (p / 512) (p % 512) all_block disk
            (omega (arith, chunk_bounds p n))
          ∙ ap (λ k. bytes_of (chunk_size p n) k all_block disk) (omega arith))
    ∙ bytes_of-add (chunk_size p n) (n - chunk_size p n) p all_block disk
    ∙ ap (λ k. bytes_of k p all_block disk) (omega (arith, chunk_bounds p n))

-- The loop of `file_read` gives the bytes of the file from its position on.
pub read_chunks_lem :
    (fuel n p : ℕ) (all_block : Memory) (disk : Disk)
    → n ≤ fuel
    → read_chunks fuel all_block p n disk ≡ bytes_of n p all_block disk
unfolding read_chunks
read_chunks_lem zero zero p all_block disk le = refl
read_chunks_lem zero (suc n) p all_block disk le = absurd (omega arith)
read_chunks_lem (suc fuel) n p all_block disk le = elim (Bool-cases (n == 0)) [
  | inl none_left ↦
      rw none_left (ap (λ k. bytes_of k p all_block disk) {x = 0} {y = n} (ground arith))
  | inr more ↦ rw more (
      one_sector fuel n p all_block disk (ground arith) (
        read_chunks_lem fuel (n - chunk_size p n) (p + chunk_size p n) all_block disk
          (ground (arith, chunk_bounds p n))))
]

bytes_of-get_or :
    (src : List ℕ) (p : ℕ) (all_block : Memory) (disk : Disk)
    → ((k : ℕ) → k < length src → byte_at all_block disk (p + k) ≡ get_or src k 0)
    → bytes_of (length src) p all_block disk ≡ src
bytes_of-get_or [] p all_block disk same = refl
bytes_of-get_or (x ∷ xs) p all_block disk same =
    ap (λ b. b ∷ bytes_of (length xs) (p + 1) all_block disk)
      (ap (byte_at all_block disk) {x = p} {y = p + 0} (omega arith) ∙ same 0 (omega arith))
    ∙ ap (λ l. x ∷ l)
        (bytes_of-get_or xs (p + 1) all_block disk (λ k lt.
          ap (byte_at all_block disk) {x = p + 1 + k} {y = p + suc k} (omega arith)
          ∙ same (suc k) (omega arith)))

bytes_of-agree :
    (n p : ℕ) (all_block : Memory) (d e : Disk)
    → ((k : ℕ) → k < n → byte_at all_block d (p + k) ≡ byte_at all_block e (p + k))
    → bytes_of n p all_block d ≡ bytes_of n p all_block e
bytes_of-agree zero p all_block d e same = refl
bytes_of-agree (suc n) p all_block d e same =
    ap (λ b. b ∷ bytes_of n (p + 1) all_block d)
      (ap (byte_at all_block d) {x = p} {y = p + 0} (omega arith)
        ∙ same 0 (omega arith)
        ∙ ap (byte_at all_block e) {x = p + 0} {y = p} (omega arith))
    ∙ ap (λ l. byte_at all_block e p ∷ l)
        (bytes_of-agree n (p + 1) all_block d e (λ k lt.
          ap (byte_at all_block d) {x = p + 1 + k} {y = p + suc k} (omega arith)
          ∙ same (suc k) (omega arith)
          ∙ ap (byte_at all_block e) {x = p + suc k} {y = p + 1 + k} (omega arith)))

-- Where the blocks of a file have different addresses, the loop of `file_read` gives back the bytes that
-- the loop of `file_write` put behind the file, and those before as they were.
pub read_chunks-write_chunks :
    (all_block : Memory) (i_bsize : ℕ) (src : List ℕ) (disk : Disk)
    → AreApart all_block 0 ((i_bsize + length src) / 512)
    → (read_chunks
          (length src)
          all_block
          i_bsize
          (length src)
          (write_chunks (length src) true all_block i_bsize src disk)
        ≡ src)
      × (read_chunks i_bsize all_block 0 i_bsize
            (write_chunks (length src) true all_block i_bsize src disk)
          ≡ read_chunks i_bsize all_block 0 i_bsize disk)
read_chunks-write_chunks all_block i_bsize src disk apart = (
  read_chunks_lem _ _ i_bsize all_block after (omega arith)
      ∙ bytes_of-get_or src i_bsize all_block after (λ k lt.
        at_byte (i_bsize + k) (omega arith)
        ∙ if-true {b = leb i_bsize (i_bsize + k)} _ _ (ground arith)
        ∙ ap (λ n. get_or src n 0) (omega arith)),
  read_chunks_lem _ _ 0 all_block after (omega arith)
      ∙ bytes_of-agree i_bsize 0 all_block after disk (λ k lt.
        at_byte (0 + k) (omega arith) ∙ if-false {b = leb i_bsize (0 + k)} _ _ (ground arith))
      ∙ sym (read_chunks_lem _ _ 0 all_block disk (omega arith)),
)
  where
    after : Disk
    after = write_chunks (length src) true all_block i_bsize src disk

    at_byte :
        (p : ℕ)
        → p < i_bsize + length src
        → byte_at all_block after p
          ≡ (if leb i_bsize p then get_or src (p - i_bsize) 0 else byte_at all_block disk p)
    at_byte p =
        write_chunks_lem (length src) true all_block i_bsize src disk p (omega arith)
          (λ e. absurd (ground (arith, e))) apart
