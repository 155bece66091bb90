-- ===== src/Base/Ints.antt =====
-- Signed integers over the native numbers: what an `int32_t` stands for.
use Prim.Native.Nat.{ℕ}
use mathlib.Core.Bool.{Bool, false}
use tie_zhu_os.Base.Tests.{◌==◌}

-- `negsuc n` is -(n + 1).
pub data ℤ : Type 0 where
  pos : ℕ → ℤ
  negsuc : ℕ → ℤ

-- The return value -1.
abbrev pub minus_one : ℤ
minus_one = negsuc 0

abbrev pub is_minus_one : ℤ → Bool
is_minus_one (pos n) = false
is_minus_one (negsuc n) = n == 0
