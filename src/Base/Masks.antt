-- ===== src/Base/Masks.antt =====
-- `&` and `|` with masks, as arithmetic.
use Prim.Native.Nat.{
  ℕ, zero, suc, ◌+◌, ◌-◌, ◌*◌, ◌/◌, ◌%◌, ◌^◌, ◌≤◌, ◌<◌, min, max, digits, bitwise, bit_and, bit_or,
  bit_and-bitwise, bit_or-bitwise,
}
use mathlib.Core.Path.{◌≡◌, refl, ap}
use native.Mathlib.Nat.{pow-suc, one-le-pow}
use native.Mathlib.Omega.{arith}

module _ (on_zero : ℕ → ℕ) (digit : ℕ → ℕ → ℕ) where
  -- The count of digits to go has no effect once it covers the number.
  enough_digits :
      (count more x y : ℕ)
      → x ≤ count
      → x ≤ more
      → digits on_zero digit count x y ≡ digits on_zero digit more x y
  enough_digits zero zero x y p q = refl
  enough_digits zero (suc more) zero y p q = refl
  enough_digits zero (suc more) (suc x) y p q = absurd (omega arith)
  enough_digits (suc count) zero zero y p q = refl
  enough_digits (suc count) zero (suc x) y p q = absurd (omega arith)
  enough_digits (suc count) (suc more) zero y p q = refl
  enough_digits (suc count) (suc more) (suc x) y p q =
      omega (arith, enough_digits count more (suc x / 2) (y / 2) (omega arith) (omega arith))

  low_digit :
      (x y : ℕ)
      → bitwise on_zero digit (suc x) y
        ≡ digit (suc x % 2) (y % 2) + 2 * bitwise on_zero digit (suc x / 2) (y / 2)
  low_digit x y =
      let half = suc x / 2 in
      omega (arith, enough_digits x half half (y / 2) (omega arith) (omega arith))

low_digit_and : (x y : ℕ) → bit_and x y ≡ min (x % 2) (y % 2) + 2 * bit_and (x / 2) (y / 2)
low_digit_and zero y = simp bit_and-bitwise (omega arith)
low_digit_and (suc x) y = simp bit_and-bitwise (low_digit (λ z. 0) min x y)

low_digit_or : (x y : ℕ) → bit_or x y ≡ max (x % 2) (y % 2) + 2 * bit_or (x / 2) (y / 2)
low_digit_or zero y = simp bit_or-bitwise (omega arith)
low_digit_or (suc x) y = simp bit_or-bitwise (low_digit (λ z. z) max x y)

shifted : (q k : ℕ) → q * 2 ^ suc k ≡ 2 * (q * 2 ^ k)
shifted q k = omega (arith, ap (λ (t : ℕ). q * t) (pow-suc 2 k))

-- A mask over the digits above `k`.
pub mask_high :
    (k q r m : ℕ) → r < 2 ^ k → bit_and (q * 2 ^ k + r) (m * 2 ^ k) ≡ bit_and q m * 2 ^ k
mask_high zero q r m fits = ground (arith, ap (λ x. bit_and x m) {x = q * 1 + r} {y = q})
mask_high (suc k) q r m fits = ground (
  arith,
  low_digit_and (q * 2 ^ suc k + r) (m * 2 ^ suc k),
  shifted q k,
  shifted m k,
  shifted (bit_and q m) k,
  mask_high k q (r / 2) m (omega arith),
)

and-zero : (n a : ℕ) → a ≤ n → bit_and a 0 ≡ 0
and-zero zero a h = ground (arith, bit_and-bitwise 0 0)
and-zero (suc n) zero h = refl
and-zero (suc n) (suc a) h =
    omega (arith, low_digit_and (suc a) 0, and-zero n (suc a / 2) (omega arith))

pub bit_and_zero : (a : ℕ) → bit_and a 0 ≡ 0
bit_and_zero a = and-zero a a (omega arith)

-- A mask of the `k` lowest digits.
pub mask_low : (k q r : ℕ) → r < 2 ^ k → bit_and (q * 2 ^ k + r) (2 ^ k - 1) ≡ r
mask_low zero q r fits = ground (arith, bit_and_zero (q * 1 + r))
mask_low (suc k) q r fits = ground (
  arith,
  low_digit_and (q * 2 ^ suc k + r) (2 ^ suc k - 1),
  shifted q k,
  pow-suc 2 k,
  one-le-pow k 2,
  mask_low k q (r / 2) (omega arith),
)

-- The three flags of a page's entry.
pub or_seven : (a : ℕ) → bit_or (a * 8) 7 ≡ a * 8 + 7
or_seven a = ground (
  arith,
  low_digit_or (a * 8) 7,
  low_digit_or (a * 4) 3,
  low_digit_or (a * 2) 1,
  or-zero a a (omega arith),
)
  where
    or-zero : (n a : ℕ) → a ≤ n → bit_or a 0 ≡ a
    or-zero zero a h = ground (arith, bit_or-bitwise 0 0)
    or-zero (suc n) zero h = refl
    or-zero (suc n) (suc a) h =
        omega (arith, low_digit_or (suc a) 0, or-zero n (suc a / 2) (omega arith))
