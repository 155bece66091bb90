-- ===== src/Thread/Pids.antt =====
-- Process numbers: `allocate_pid` and `release_pid` over the bitmap of process numbers.
use tie_zhu_os.Base.{
  ℕ, ◌+◌, ◌-◌, ◌*◌, ◌%◌, ◌^◌, ◌≤◌, ◌<◌, ◌≡◌, refl, ap, inl, inr, Bool, true, false, some, arith,
  pos, ◌==◌, if◌then◌else◌, Bool-cases,
}
use tie_zhu_os.Bitmap.{bit_map_scan, bit_map_scan_test, bitmap_set}
use tie_zhu_os.Bitmap.Laws.{IsBytes, scan_test-bitmap_set}
use tie_zhu_os.Bitmap.Scan.{Run, Found, at, nowhere, bit_map_scan-Found}
use tie_zhu_os.Thread.Defs.{Kernel, allocate_pid, release_pid}

-- Whether a process number is marked as used.
abbrev pub used : Kernel → ℕ → Bool
used k i = bit_map_scan_test k.pid_bitmap i

allocate_pid_lem :
    (k : Kernel) (r : ℕ)
    → bit_map_scan k.pid_bitmap 1 ≡ pos r
    → allocate_pid k ≡ some (r + k.pid_start, record k { pid_bitmap = bitmap_set k.pid_bitmap r 1 })
unfolding allocate_pid
allocate_pid_lem k r e = rw (e, allocate_pid)

free-Run :
    (k : Kernel) (i : ℕ)
    → used k i ≡ false
    → i + 1 < 8 * k.pid_bitmap.bitmap_byte_len
    → Run k.pid_bitmap 1 i
free-Run k i h lt = (λ j lo hi. ground (arith, ap (used k) {x = j} {y = i}), lt)

-- What `allocate_pid` makes of a state: the number of bit `i`, which was free and is the only bit
-- that changes.
pub record Allocates (k : Kernel) (i : ℕ) (k2 : Kernel) : Type 0 where
  pub result : allocate_pid k ≡ some (i + k.pid_start, k2)
  pub was_free : used k i ≡ false
  pub marked : (j : ℕ) → used k2 j ≡ (if i == j then true else used k j)

-- If one of the first 256 numbers is free, and is not the last of the bitmap, `allocate_pid` gives
-- the least free number, which was not in use, and marks that number only.
pub allocate_pid-Allocates :
    (k : Kernel) (t : ℕ)
    → IsBytes k.pid_bitmap
    → used k t ≡ false
    → t < 256
    → t + 1 < 8 * k.pid_bitmap.bitmap_byte_len
    → (i : ℕ) × (k2 : Kernel) × Allocates k i k2 × ((j : ℕ) → j < i → used k j ≡ true)
allocate_pid-Allocates k t b h lt len =
    let (r, e, found) = bit_map_scan-Found k.pid_bitmap 1 b (omega arith) (omega arith) in
    from_found r e found
  where
    from_found :
        (r : ℕ)
        → bit_map_scan k.pid_bitmap 1 ≡ pos r
        → Found k.pid_bitmap 1 r
        → (i : ℕ) × (k2 : Kernel) × Allocates k i k2 × ((j : ℕ) → j < i → used k j ≡ true)
    from_found r e (nowhere _ full) = absurd (full t (free-Run k t h len))
    from_found r e (at s cut run least) =
        let small : s ≤ t = least t (free-Run k t h len) in
        let same : r ≡ s = omega arith in
        (
          s,
          record k { pid_bitmap = bitmap_set k.pid_bitmap s 1 },
          record {
            result = allocate_pid_lem k s (rw same at e);
            was_free = run.0 s (omega arith) (omega arith);
            marked = λ j. ground (arith, scan_test-bitmap_set k.pid_bitmap s 1 j (inr refl) b);
          },
          λ j lt'. elim (Bool-cases (used k j)) [
            | inl u ↦ u
            | inr f ↦ absurd (omega (arith, least j (free-Run k j f (omega (arith, run.1)))))
          ],
        )

-- Once the first 256 numbers are in use, `allocate_pid` gives a number that is in use, although
-- the bitmap may have room: the index that `bitMap_scan` returns is cut to 8 bits.
pub allocate_pid_in_use :
    (k : Kernel)
    → IsBytes k.pid_bitmap
    → ((j : ℕ) → j < 256 → used k j ≡ true)
    → (i : ℕ) × (k2 : Kernel) × (allocate_pid k ≡ some (i + k.pid_start, k2)) × (used k i ≡ true)
allocate_pid_in_use k b full =
    let (r, e, found) = bit_map_scan-Found k.pid_bitmap 1 b (omega arith) (omega arith) in
    (
      r,
      record k { pid_bitmap = bitmap_set k.pid_bitmap r 1 },
      allocate_pid_lem k r e,
      full r (below r found),
    )
  where
    below : (r : ℕ) → Found k.pid_bitmap 1 r → r < 256
    below r (nowhere e none_free) = omega arith
    below r (at s cut run least) = omega arith

-- Releasing the number of bit `i` frees that bit and no other.
pub used-release_pid :
    (k : Kernel) (i j : ℕ)
    → IsBytes k.pid_bitmap
    → i < 2 ^ 32
    → used (release_pid (i + k.pid_start) k) j ≡ (if i == j then false else used k j)
unfolding release_pid
used-release_pid k i j b lt =
    let e : (i + k.pid_start + 2 ^ 32 - k.pid_start) % 2 ^ 32 ≡ i = omega arith in
    rw e (ground (arith, scan_test-bitmap_set k.pid_bitmap i 0 j (inl refl) b))
