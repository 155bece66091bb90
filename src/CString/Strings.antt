-- ===== src/CString/Strings.antt =====
-- Strings in memory, and their lengths.
use tie_zhu_os.Base.{
  ℕ, zero, suc, ◌+◌, ◌≤◌, ◌<◌, ◌≡◌, ◌≢◌, not, some, List, [], ◌∷◌, length, ◌==◌, >>-assert, arith,
  Memory,
}
use tie_zhu_os.LinkedList.{Addr, null}
use tie_zhu_os.CString.{strlen_loop, strlen}

-- The bytes of `xs`, then the 0 that ends the string.
abbrev pub IsString : Memory → Addr → List ℕ → Type 0
IsString m a [] = m a ≡ 0
IsString m a (x ∷ xs) = (m a ≡ x) × (x ≢ 0) × IsString m (a + 1) xs

strlen_loop_lem :
    (fuel a len : ℕ) (xs : List ℕ) (m : Memory)
    → IsString m a xs
    → length xs < fuel
    → strlen_loop fuel a len m ≡ some (len + length xs)
strlen_loop_lem zero a len xs m h lt = absurd (omega arith)
strlen_loop_lem (suc fuel) a len [] m h lt = ground arith
strlen_loop_lem (suc fuel) a len (x ∷ xs) m (e, nonzero, h) lt =
    ground (arith, strlen_loop_lem fuel (a + 1) (len + 1) xs m h)

-- With fuel for the bytes and the 0 behind them, `strlen` returns their number.
pub strlen_lem :
    (fuel a : ℕ) (xs : List ℕ) (m : Memory)
    → a ≢ null
    → IsString m a xs
    → length xs < fuel
    → strlen fuel a m ≡ some (length xs)
unfolding strlen
strlen_lem fuel a xs m real h lt =
    >>-assert {b = not (a == null)} (ground arith)
      (ground (arith, strlen_loop_lem fuel a 0 xs m h lt))

-- A string depends on its own bytes only.
pub IsString-agree :
    (xs : List ℕ) (a b : Addr) (m k : Memory)
    → IsString m a xs
    → ((i : ℕ) → i ≤ length xs → k (b + i) ≡ m (a + i))
    → IsString k b xs
IsString-agree [] a b m k h same = ground (arith, same 0)
IsString-agree (x ∷ xs) a b m k (e, nonzero, h) same = (
  ground (arith, same 0),
  nonzero,
  IsString-agree xs (a + 1) (b + 1) m k h (λ i le. ground (arith, same (i + 1))),
)
