-- ===== src/Bitmap.antt =====
-- kernel/bitmap.c: bitmaps of `bitmap_byte_len` bytes. `bits` is the memory from the pointer on, so
-- a read or a write past the last byte is one of the memory behind it, as in the source.
pub mod Laws
pub mod Scan
use Prim.Native.Nat.{bit_and, bit_or}
use tie_zhu_os.Base.{
  ℕ, zero, suc, ◌+◌, ◌-◌, ◌*◌, ◌/◌, ◌%◌, ◌^◌, ◌<◌, Bool, true, false, not, ◌&&◌, ℤ, pos, Memory,
  update, ltb, ◌==◌, if◌then◌else◌,
}

-- `BitMap`
pub record BitMap : Type 0 where
  pub bitmap_byte_len : ℕ
  pub bits : Memory

-- `memset` over the bytes of the map
abbrev pub clear_bytes : ℕ → Memory → Memory
clear_bytes n m i = if ltb i n then 0 else m i

unfoldable pub bitmap_init : BitMap → BitMap
bitmap_init m = record m { bits = clear_bytes m.bitmap_byte_len m.bits }

-- `bits[i] & (BITMAP_MASK << k)` as a truth value, and shifted back
abbrev pub byte_flag : ℕ → ℕ → Bool
byte_flag b k = not (bit_and b (2 ^ k) == 0)

abbrev pub byte_test : ℕ → ℕ → Bool
byte_test b k = not (bit_and b (2 ^ k) / 2 ^ k == 0)

unfoldable pub bit_map_scan_test : BitMap → ℕ → Bool
bit_map_scan_test m bit_offset = byte_test (m.bits (bit_offset / 8)) (bit_offset % 8)

-- One byte after `bitmap_set`: `&= ~(1 << k)` on 32 bits, or `|= value << k` cut to 8 bits.
abbrev pub byte_set : ℕ → ℕ → ℕ → ℕ
byte_set b k value =
    if value == 0 then bit_and b (2 ^ 32 - 1 - 2 ^ k) else bit_or b (value * 2 ^ k) % 256

unfoldable pub bitmap_set : BitMap → ℕ → ℕ → BitMap
bitmap_set m bit_offset value =
    let byte_offset = bit_offset / 8 in
    record m {
      bits = update m.bits byte_offset (byte_set (m.bits byte_offset) (bit_offset % 8) value);
    }

-- `while (bit_cnt--)`; `bit_offset` is a `uint32_t`.
pub bitmap_set_ex : BitMap → ℕ → ℕ → ℕ → BitMap
bitmap_set_ex m bit_offset value zero = m
bitmap_set_ex m bit_offset value (suc bit_cnt) =
    bitmap_set_ex (bitmap_set m bit_offset value) ((bit_offset + 1) % 2 ^ 32) value bit_cnt

-- The first loop of `bitMap_scan`: past the bytes that are full.
pub skip_full : ℕ → BitMap → ℕ → ℕ
skip_full zero m byte_idx = byte_idx
skip_full (suc fuel) m byte_idx =
    let rest = skip_full fuel m (byte_idx + 1) in
    if m.bits byte_idx == 0xff && ltb byte_idx m.bitmap_byte_len then rest else byte_idx

-- `bit_offset++`, and on to the next byte behind the eighth bit.
abbrev pub next_byte : ℕ → ℕ → ℕ
next_byte byte_idx bit_offset = if bit_offset + 1 == 8 then byte_idx + 1 else byte_idx

abbrev pub next_bit : ℕ → ℕ
next_bit bit_offset = if bit_offset + 1 == 8 then 0 else bit_offset + 1

-- The second loop. `bit_idx`, `leisure_cnt` and `bit_offset` are `uint8_t`: the index found is cut
-- to 8 bits, and the initial -1, which stays where nothing is found, is 255.
pub scan_run : ℕ → BitMap → ℕ → ℕ → ℕ → ℕ → ℕ
scan_run zero m cnt byte_idx bit_offset leisure_cnt = 255
scan_run (suc fuel) m cnt byte_idx bit_offset leisure_cnt =
    let flag = byte_flag (m.bits byte_idx) bit_offset in
    let rest =
      scan_run fuel m cnt (next_byte byte_idx bit_offset) (next_bit bit_offset)
        (if flag then 0 else (leisure_cnt + 1) % 256) in
    if ltb byte_idx m.bitmap_byte_len
    then (if leisure_cnt == cnt then (byte_idx * 8 + bit_offset + 2 ^ 32 - cnt) % 256 else rest)
    else 255

-- Each round of the second loop goes on by one bit.
unfoldable pub bit_map_scan : BitMap → ℕ → ℤ
unfolding skip_full scan_run
bit_map_scan m cnt =
    pos (scan_run (8 * m.bitmap_byte_len) m cnt (skip_full m.bitmap_byte_len m 0) 0 0)

-- The loop of `bitmap_isempty` over the rounds left; `true` is 1, and so is the index of a byte.
isempty_loop : ℕ → BitMap → ℕ → ℕ
isempty_loop zero m len = 1
isempty_loop (suc rounds) m len =
    let rest = isempty_loop rounds m (len + 1) in if m.bits len == 0 then rest else len

-- `bitmap_byte_len` is read as an `int32_t`: from 2 ^ 31 on it is negative, and no round is made.
abbrev bitmap_isempty : BitMap → ℤ
unfolding isempty_loop
bitmap_isempty m =
    pos (if ltb m.bitmap_byte_len (2 ^ 31) then isempty_loop m.bitmap_byte_len m 0 else 1)
