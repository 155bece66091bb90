-- ===== src/Tests/Bits.antt =====
-- A map of two bytes.
use tie_zhu_os.Base.{ℕ, ◌≡◌, ◌==◌, if◌then◌else◌, arith, pos}
use tie_zhu_os.Bitmap.{BitMap, bit_map_scan}
use tie_zhu_os.Bitmap.Laws.{IsBytes}
use tie_zhu_os.Bitmap.Scan.{Found, bit_map_scan-Found}

abbrev two_bytes : BitMap
two_bytes = record { bitmap_byte_len = 2; bits = (λ i. if i == 0 then 5 else 0) }

two_bytes-IsBytes : IsBytes two_bytes
two_bytes-IsBytes i = ground arith

bit_map_scan-Found_example : (r : ℕ) × (bit_map_scan two_bytes 2 ≡ pos r) × Found two_bytes 2 r
bit_map_scan-Found_example =
    bit_map_scan-Found two_bytes 2 two_bytes-IsBytes (omega arith) (omega arith)
