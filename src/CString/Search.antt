-- ===== src/CString/Search.antt =====
-- `strchar`, `strrchar` and `strchrs` as searches of a list of bytes.
use tie_zhu_os.Base.{
  ℕ, zero, suc, ◌+◌, ◌-◌, ◌<◌, ◌≡◌, ◌≢◌, ◌⊎◌, refl, ap, not, some, List, [], ◌∷◌, length, ◌==◌,
  if◌then◌else◌, >>=-some, >>-assert, arith, Memory, Bool-cases, inl, inr,
}
use tie_zhu_os.LinkedList.{Addr, null}
use tie_zhu_os.CString.{strrchar_loop, strrchar, strchar_loop, strchar, strchrs_loop, strchrs}
use tie_zhu_os.CString.Strings.{IsString, strlen_lem}

-- The address of the first `ch` in the `n` bytes from `a` on, or `NULL` where there is none.
abbrev pub First : Addr → ℕ → ℕ → Memory → Addr → Type 0
First a n ch m r =
    ((r ≡ null) × ((i : ℕ) → i < n → m (a + i) ≢ ch))
    ⊎ ((k : ℕ) × (k < n) × (r ≡ a + k) × (m (a + k) ≡ ch) × ((i : ℕ) → i < k → m (a + i) ≢ ch))

later-First :
    (a n ch : ℕ) (m : Memory) (r : Addr)
    → m a ≢ ch
    → First (a + 1) n ch m r
    → First a (suc n) ch m r
later-First a n ch m r ne (inl (e, f)) = inl (
  e,
  λ i lt.
      ground (arith, f (i - 1), ap m {x = a + 1 + (i - 1)} {y = a + i}, ap m {x = a} {y = a + i}),
)
later-First a n ch m r ne (inr (k, lt, e, here, f)) = inr (
  k + 1,
  omega arith,
  omega arith,
  ground (arith, here, ap m {x = a + 1 + k} {y = a + (k + 1)}),
  λ i l.
      ground (arith, f (i - 1), ap m {x = a + 1 + (i - 1)} {y = a + i}, ap m {x = a} {y = a + i}),
)

strchar_loop_lem : (n a ch : ℕ) (m : Memory) → First a n ch m (strchar_loop n a ch m)
strchar_loop_lem zero a ch m = inl (refl, λ i lt. absurd (omega arith))
strchar_loop_lem (suc n) a ch m = elim (Bool-cases (m a == ch)) [
  | inl here ↦ rw here (
      inr (
        0,
        omega arith,
        omega arith,
        ground (arith, ap m {x = a + 0} {y = a}),
        λ i lt. absurd (omega arith),
      ))
  | inr not_here ↦
      rw not_here (later-First a n ch m _ (ground arith) (strchar_loop_lem n (a + 1) ch m))
]

-- `strchar` of a string gives the address of the first `ch` in it, or `NULL` where there is none.
pub strchar_lem :
    (fuel a ch : ℕ) (xs : List ℕ) (m : Memory)
    → a ≢ null
    → IsString m a xs
    → length xs < fuel
    → (r : Addr) × (strchar fuel a ch m ≡ some r) × First a (length xs) ch m r
unfolding strchar
strchar_lem fuel a ch xs m real h lt = (
  strchar_loop (length xs) a ch m,
  >>=-some _ (strlen_lem fuel a xs m real h lt) refl,
  strchar_loop_lem (length xs) a ch m,
)

-- The same for the last `ch`.
abbrev pub Last : Addr → ℕ → ℕ → Memory → Addr → Type 0
Last a n ch m r =
    ((r ≡ null) × ((i : ℕ) → i < n → m (a + i) ≢ ch))
    ⊎ ((k : ℕ) × (k < n)
        × (r ≡ a + k)
        × (m (a + k) ≡ ch)
        × ((i : ℕ) → k < i → i < n → m (a + i) ≢ ch))

earlier-Last :
    (a n ch : ℕ) (m : Memory) (r : Addr) → m (a + n) ≢ ch → Last a n ch m r → Last a (suc n) ch m r
earlier-Last a n ch m r ne (inl (e, f)) =
    inl (e, λ i lt. ground (arith, f i, ap m {x = a + n} {y = a + i}))
earlier-Last a n ch m r ne (inr (k, lt, e, here, f)) =
    inr (k, omega arith, e, here, λ i l l2. ground (arith, f i, ap m {x = a + n} {y = a + i}))

strrchar_loop_lem : (n a ch : ℕ) (m : Memory) → Last a n ch m (strrchar_loop n a ch m)
strrchar_loop_lem zero a ch m = inl (refl, λ i lt. absurd (omega arith))
strrchar_loop_lem (suc n) a ch m = elim (Bool-cases (m (a + n) == ch)) [
  | inl here ↦ rw here (inr (n, omega arith, refl, ground arith, λ i l l2. absurd (omega arith)))
  | inr not_here ↦ rw not_here (earlier-Last a n ch m _ (ground arith) (strrchar_loop_lem n a ch m))
]

-- `strrchar` of a string gives the address of the last `ch` in it, or `NULL` where there is none.
pub strrchar_lem :
    (fuel a ch : ℕ) (xs : List ℕ) (m : Memory)
    → a ≢ null
    → IsString m a xs
    → length xs < fuel
    → (r : Addr) × (strrchar fuel a ch m ≡ some r) × Last a (length xs) ch m r
unfolding strrchar
strrchar_lem fuel a ch xs m real h lt = (
  strrchar_loop (length xs) a ch m,
  >>=-some _ (strlen_lem fuel a xs m real h lt) refl,
  strrchar_loop_lem (length xs) a ch m,
)

abbrev pub count : ℕ → List ℕ → ℕ
count ch [] = 0
count ch (x ∷ xs) = if x == ch then suc (count ch xs) else count ch xs

strchrs_loop_lem :
    (fuel a ch n : ℕ) (xs : List ℕ) (m : Memory)
    → IsString m a xs
    → length xs < fuel
    → strchrs_loop fuel a ch n m ≡ some (n + count ch xs)
strchrs_loop_lem zero a ch n xs m h lt = absurd (omega arith)
strchrs_loop_lem (suc fuel) a ch n [] m h lt = ground arith
strchrs_loop_lem (suc fuel) a ch n (x ∷ xs) m (e, nonzero, h) lt = ground (
  arith,
  strchrs_loop_lem fuel (a + 1) ch (n + 1) xs m h,
  strchrs_loop_lem fuel (a + 1) ch n xs m h,
)

-- `strchrs` of a string gives the number of times that `ch` stands in it.
pub strchrs_lem :
    (fuel a ch : ℕ) (xs : List ℕ) (m : Memory)
    → a ≢ null
    → IsString m a xs
    → length xs < fuel
    → strchrs fuel a ch m ≡ some (count ch xs)
unfolding strchrs
strchrs_lem fuel a ch xs m real h lt =
    >>-assert {b = not (a == null)} (ground arith)
      (ground (arith, strchrs_loop_lem fuel a ch 0 xs m h lt))
