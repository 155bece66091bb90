-- ===== src/Bitmap/Laws.antt =====
-- What `bitmap_set` and its relatives do to each bit, as `bitMap_scan_test` reads it.
use tie_zhu_os.Base.{
  ℕ, zero, suc, ◌+◌, ◌*◌, ◌/◌, ◌%◌, ◌^◌, ◌<◌, ◌≡◌, refl, ap, Bool, true, false, not, ◌⊎◌, inl, inr,
  Bool-cases, ltb→lt, lt→ltb, ◌&&◌, arith, ltb, leb, ◌==◌, if◌then◌else◌,
}
use tie_zhu_os.Base.Bits.{passes, pass_at}
use tie_zhu_os.Bitmap.{
  BitMap, bitmap_init, byte_flag, byte_test, bit_map_scan_test, byte_set, bitmap_set, bitmap_set_ex,
}

-- The bytes of the memory are bytes.
abbrev pub IsBytes : BitMap → Type 0
IsBytes m = (i : ℕ) → m.bits i < 256

abbrev same : Bool → Bool → Bool
same true b = b
same false b = not b

same-eq : (a b : Bool) → same a b ≡ true → a ≡ b
same-eq true b h = ground arith
same-eq false b h = ground arith

-- Every byte, bit and value, by evaluation.
abbrev set_row : ℕ → ℕ → ℕ → ℕ → Bool
set_row v b k j =
    same (byte_test (byte_set b k v) j) (if k == j then v == 1 else byte_test b j)
    && ltb (byte_set b k v) 256

set_zero_table : passes 256 (λ b. passes 8 (λ k. passes 8 (set_row 0 b k))) ≡ true
unfolding passes
set_zero_table = refl

set_one_table : passes 256 (λ b. passes 8 (λ k. passes 8 (set_row 1 b k))) ≡ true
unfolding passes
set_one_table = refl

flag_table : passes 256 (λ b. passes 8 (λ k. same (byte_flag b k) (byte_test b k))) ≡ true
unfolding passes
flag_table = refl

full_table : passes 8 (λ k. byte_test 0xff k) ≡ true
unfolding passes
full_table = refl

zero_table : passes 8 (λ k. not (byte_test 0 k)) ≡ true
unfolding passes
zero_table = refl

-- The tables read at variables.
byte_set_row : (v b k j : ℕ) → (v ≡ 0) ⊎ (v ≡ 1) → b < 256 → k < 8 → j < 8 → set_row v b k j ≡ true
byte_set_row v b k j (inl e) hb hk hj =
    rw e (pass_at 8 _ j (pass_at 8 _ k (pass_at 256 _ b set_zero_table hb) hk) hj)
byte_set_row v b k j (inr e) hb hk hj =
    rw e (pass_at 8 _ j (pass_at 8 _ k (pass_at 256 _ b set_one_table hb) hk) hj)

and_left : (a b : Bool) → (a && b) ≡ true → a ≡ true
and_left a b h = ground arith

and_right : (a b : Bool) → (a && b) ≡ true → b ≡ true
and_right a b h = ground arith

byte_test-byte_set :
    (v b k j : ℕ)
    → (v ≡ 0) ⊎ (v ≡ 1)
    → b < 256
    → k < 8
    → j < 8
    → byte_test (byte_set b k v) j ≡ (if k == j then v == 1 else byte_test b j)
byte_test-byte_set v b k j hv hb hk hj =
    same-eq _ _ (and_left _ _ (byte_set_row v b k j hv hb hk hj))

byte_set-lt : (v b k : ℕ) → (v ≡ 0) ⊎ (v ≡ 1) → b < 256 → k < 8 → byte_set b k v < 256
byte_set-lt v b k hv hb hk =
    ltb→lt _ _ (and_right _ _ (byte_set_row v b k 0 hv hb hk (omega arith)))

pub byte_flag-eq-byte_test : (b k : ℕ) → b < 256 → k < 8 → byte_flag b k ≡ byte_test b k
byte_flag-eq-byte_test b k hb hk = same-eq _ _ (pass_at 8 _ k (pass_at 256 _ b flag_table hb) hk)

pub byte_test_full : (k : ℕ) → k < 8 → byte_test 0xff k ≡ true
byte_test_full k h = pass_at 8 _ k full_table h

not-true : (b : Bool) → not b ≡ true → b ≡ false
not-true b h = ground arith

pub byte_test_zero : (k : ℕ) → k < 8 → byte_test 0 k ≡ false
byte_test_zero k h = not-true _ (pass_at 8 _ k zero_table h)

-- A write of 0 or 1 keeps the memory a memory of bytes.
pub bitmap_set-IsBytes :
    (m : BitMap) (i v : ℕ) → (v ≡ 0) ⊎ (v ≡ 1) → IsBytes m → IsBytes (bitmap_set m i v)
unfolding bitmap_set
bitmap_set-IsBytes m i v hv h j = elim (Bool-cases (i / 8 == j)) [
  | inl e ↦ rw e (byte_set-lt v (m.bits (i / 8)) (i % 8) hv (h (i / 8)) (omega arith))
  | inr e ↦ rw e (h j)
]

-- Writing 0 or 1 at one bit changes that bit to the value, and no other.
pub scan_test-bitmap_set :
    (m : BitMap) (i v j : ℕ)
    → (v ≡ 0) ⊎ (v ≡ 1)
    → IsBytes m
    → bit_map_scan_test (bitmap_set m i v) j ≡ (if i == j then v == 1 else bit_map_scan_test m j)
unfolding bitmap_set bit_map_scan_test
scan_test-bitmap_set m i v j hv h = ground (
  arith,
  byte_test-byte_set v (m.bits (i / 8)) (i % 8) (j % 8) hv (h (i / 8)),
  ap (λ k. byte_test (m.bits k) (j % 8)) {x = i / 8} {y = j / 8},
)

-- After `bitmap_init` no bit of the map is set.
pub scan_test-bitmap_init :
    (m : BitMap) (i : ℕ) → i < 8 * m.bitmap_byte_len → bit_map_scan_test (bitmap_init m) i ≡ false
unfolding bitmap_init bit_map_scan_test
scan_test-bitmap_init m i h =
    rw (lt→ltb (i / 8) m.bitmap_byte_len (omega arith)) (byte_test_zero (i % 8) (omega arith))

-- The bits of a run, `cnt` from `i` on.
abbrev pub in_run : ℕ → ℕ → ℕ → Bool
in_run i cnt j = leb i j && ltb j (i + cnt)

pub bitmap_set_ex-IsBytes :
    (m : BitMap) (i v cnt : ℕ) → (v ≡ 0) ⊎ (v ≡ 1) → IsBytes m → IsBytes (bitmap_set_ex m i v cnt)
unfolding bitmap_set_ex
bitmap_set_ex-IsBytes m i v zero hv h = h
bitmap_set_ex-IsBytes m i v (suc cnt) hv h =
    bitmap_set_ex-IsBytes (bitmap_set m i v) ((i + 1) % 2 ^ 32) v cnt hv
      (bitmap_set-IsBytes m i v hv h)

-- Writing 0 or 1 over a run that stays below 2 ^ 32 changes the bits of the run to the value, and
-- no other.
pub scan_test-bitmap_set_ex :
    (m : BitMap) (i v cnt j : ℕ)
    → (v ≡ 0) ⊎ (v ≡ 1)
    → IsBytes m
    → i + cnt < 2 ^ 32
    → bit_map_scan_test (bitmap_set_ex m i v cnt) j
      ≡ (if in_run i cnt j then v == 1 else bit_map_scan_test m j)
unfolding bitmap_set_ex
scan_test-bitmap_set_ex m i v zero j hv h lt = ground arith
scan_test-bitmap_set_ex m i v (suc cnt) j hv h lt = ground (
  arith,
  scan_test-bitmap_set_ex (bitmap_set m i v) ((i + 1) % 2 ^ 32) v cnt j hv
      (bitmap_set-IsBytes m i v hv h),
  scan_test-bitmap_set m i v j hv h,
)
