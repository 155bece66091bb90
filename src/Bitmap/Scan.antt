-- ===== src/Bitmap/Scan.antt =====
-- What `bitMap_scan` finds: the first run of free bits, its index cut to 8 bits.
use tie_zhu_os.Base.{
  ℕ, zero, suc, ◌+◌, ◌-◌, ◌*◌, ◌/◌, ◌%◌, ◌≤◌, ◌<◌, ◌≡◌, refl, ◌≢◌, inl, inr, ap, true, false, ◌&&◌,
  arith, pos, ltb, ◌==◌, Bool-cases,
}
use tie_zhu_os.Bitmap.{
  BitMap, byte_flag, bit_map_scan_test, bit_map_scan, skip_full, scan_run, next_byte, next_bit,
}
use tie_zhu_os.Bitmap.Laws.{IsBytes, byte_flag-eq-byte_test, byte_test_full}

-- The `n` bits from `s` on are free.
abbrev pub Free : BitMap → ℕ → ℕ → Type 0
Free m s n = (i : ℕ) → s ≤ i → i < s + n → bit_map_scan_test m i ≡ false

-- Bit `s` starts a run of `cnt` free bits, with one more bit of the map behind it.
abbrev pub Run : BitMap → ℕ → ℕ → Type 0
Run m cnt s = Free m s cnt × (s + cnt < 8 * m.bitmap_byte_len)

-- `r` is the cut index of the first such run, or 255 if there is none.
pub data Found (m : BitMap) (cnt : ℕ) (r : ℕ) : Type 0 where
  at : (s : ℕ) → r ≡ s % 256 → Run m cnt s → ((t : ℕ) → Run m cnt t → s ≤ t) → Found m cnt r
  nowhere : r ≡ 255 → ((t : ℕ) → ¬ (Run m cnt t)) → Found m cnt r

next-position :
    (byte_idx bit_offset : ℕ)
    → 8 * next_byte byte_idx bit_offset + next_bit bit_offset ≡ 8 * byte_idx + bit_offset + 1
next-position byte_idx bit_offset = ground arith

module _ (m : BitMap) (cnt : ℕ) (bytes : IsBytes m) (small : cnt < 256) where
  flag-test :
      (byte_idx bit_offset : ℕ)
      → bit_offset < 8
      → byte_flag (m.bits byte_idx) bit_offset ≡ bit_map_scan_test m (8 * byte_idx + bit_offset)
  unfolding bit_map_scan_test
  flag-test byte_idx bit_offset h =
      let e : (8 * byte_idx + bit_offset) / 8 ≡ byte_idx = omega arith in
      let e' : (8 * byte_idx + bit_offset) % 8 ≡ bit_offset = omega arith in
      rw (e, e') (byte_flag-eq-byte_test (m.bits byte_idx) bit_offset (bytes byte_idx) h)

  -- At bit `p`: the last `run` bits are free, and no run starts before them.
  record Scanned (p run : ℕ) : Type 0 where
    fits : run ≤ p
    short : run ≤ cnt
    free : (i : ℕ) → p ≤ i + run → i < p → bit_map_scan_test m i ≡ false
    first : (t : ℕ) → Run m cnt t → p ≤ t + run

  Scanned-free :
      (p run : ℕ)
      → bit_map_scan_test m p ≡ false
      → run ≢ cnt
      → Scanned p run
      → Scanned (p + 1) (run + 1)
  Scanned-free p run e ne h = record {
    fits = omega arith;
    short = omega arith;
    free = λ i lo hi. elim (Bool-cases (i == p)) [
      | inl same ↦ ground (arith, ap (bit_map_scan_test m) {x = i} {y = p})
      | inr other ↦ h.free i (omega arith) (ground arith)
    ];
    first = λ t r. omega (arith, h.first t r);
  }

  Scanned-used :
      (p run : ℕ) → bit_map_scan_test m p ≡ true → run ≢ cnt → Scanned p run → Scanned (p + 1) 0
  Scanned-used p run e ne h = record {
    fits = omega arith;
    short = omega arith;
    free = λ i lo hi. absurd (omega arith);
    first = λ t r. elim (Bool-cases (ltb p t)) [
      | inl after ↦ ground arith
      | inr before ↦ ground (arith, h.first t r, r.0 p)
    ];
  }

  leisure_no_wrap : (run : ℕ) → run < cnt → (run + 1) % 256 ≡ run + 1
  leisure_no_wrap run h = omega arith

  scan_run-Found :
      (fuel byte_idx bit_offset run : ℕ)
      → bit_offset < 8
      → 8 * m.bitmap_byte_len ≤ 8 * byte_idx + bit_offset + fuel
      → Scanned (8 * byte_idx + bit_offset) run
      → Found m cnt (scan_run fuel m cnt byte_idx bit_offset run)
  unfolding scan_run
  scan_run-Found zero byte_idx bit_offset run ho hf h =
      nowhere refl (λ t r. omega (arith, h.first t r, h.short, r.1))
  scan_run-Found (suc fuel) byte_idx bit_offset run ho hf h =
      elim (Bool-cases (ltb byte_idx m.bitmap_byte_len)) [
        | inr past ↦ nowhere (rw past) (λ t r. ground (arith, h.first t r, h.short, r.1))
        | inl inside ↦ elim (Bool-cases (run == cnt)) [
          | inl enough ↦
              at (8 * byte_idx + bit_offset - cnt) (rw (inside, enough) (ground arith))
                ((λ i lo hi. h.free i (ground arith) (ground arith)), ground arith)
                (λ t r. ground (arith, h.first t r))
          | inr more ↦ elim (Bool-cases (byte_flag (m.bits byte_idx) bit_offset)) [
            | inl used ↦
                rw (inside, more, used)
                  (scan_run-Found fuel (next_byte byte_idx bit_offset) (next_bit bit_offset) 0
                    (ground arith) (ground arith)
                    (rw (next-position byte_idx bit_offset) (
                      Scanned-used (8 * byte_idx + bit_offset) run
                        (rw (flag-test byte_idx bit_offset ho) at used) (ground arith) h)))
            | inr free ↦
                rw (inside, more, free)
                  (scan_run-Found fuel (next_byte byte_idx bit_offset) (next_bit bit_offset)
                    ((run + 1) % 256) (ground arith) (ground arith)
                    (rw (next-position byte_idx bit_offset, leisure_no_wrap run (ground arith))
                      (Scanned-free (8 * byte_idx + bit_offset) run
                        (rw (flag-test byte_idx bit_offset ho) at free) (ground arith) h)))
          ]
        ]
      ]

  -- The bits below a byte that the first loop has passed are set.
  Passed : ℕ → Type 0
  Passed byte_idx = (i : ℕ) → i < 8 * byte_idx → bit_map_scan_test m i ≡ true

  full-byte :
      (byte_idx i : ℕ) → m.bits byte_idx ≡ 0xff → i / 8 ≡ byte_idx → bit_map_scan_test m i ≡ true
  unfolding bit_map_scan_test
  full-byte byte_idx i e here = rw (here, e) (byte_test_full (i % 8) (omega arith))

  skip_full-Passed : (fuel byte_idx : ℕ) → Passed byte_idx → Passed (skip_full fuel m byte_idx)
  unfolding skip_full Passed
  skip_full-Passed zero byte_idx h = h
  skip_full-Passed (suc fuel) byte_idx h =
      elim (Bool-cases (m.bits byte_idx == 0xff && ltb byte_idx m.bitmap_byte_len)) [
        | inr stop ↦ rw stop h
        | inl full ↦ rw full (
            skip_full-Passed fuel (byte_idx + 1) (λ i lt. elim (Bool-cases (ltb i (8 * byte_idx))) [
              | inl below ↦ h i (ground arith)
              | inr inside ↦ full-byte byte_idx i (ground arith) (ground arith)
            ]))
      ]

  -- `bitMap_scan`, asked for 1 to 255 bits of a map of bytes, returns the index of the first run of
  -- that many free bits with at least one more bit behind it, cut to 8 bits, and 255 if the map
  -- has no such run.
  pub bit_map_scan-Found : 1 ≤ cnt → (r : ℕ) × (bit_map_scan m cnt ≡ pos r) × Found m cnt r
  unfolding bit_map_scan Passed
  bit_map_scan-Found one =
      let start = skip_full m.bitmap_byte_len m 0 in
      let passed = skip_full-Passed m.bitmap_byte_len 0 (λ i lt. absurd (omega arith)) in
      (
        scan_run (8 * m.bitmap_byte_len) m cnt start 0 0,
        refl,
        scan_run-Found (8 * m.bitmap_byte_len) start 0 0 (omega arith) (omega arith) (record {
          fits = omega arith;
          short = omega arith;
          free = λ i lo hi. absurd (omega arith);
          first = λ t r. elim (Bool-cases (ltb t (8 * start))) [
            | inl below ↦ ground (arith, passed t, r.0 t)
            | inr other ↦ ground arith
          ];
        }),
      )
