-- ===== src/CString/Copy.antt =====
-- `strcpy` and `strcat` as operations on strings.
use tie_zhu_os.Base.{
  ℕ, zero, suc, ◌+◌, ◌<◌, ◌≡◌, ◌≢◌, ◌⊎◌, subst, false, not, ◌&&◌, some, List, [], ◌∷◌, ◌++◌, length,
  ◌==◌, >>=-some, >>-assert, arith, Memory, update,
}
use tie_zhu_os.LinkedList.{Addr, null}
use tie_zhu_os.CString.{strcpy_loop, strcpy, strcat}
use tie_zhu_os.CString.Blocks.{within, memcpy_lem}
use tie_zhu_os.CString.Strings.{IsString, IsString-agree, strlen_lem}

-- The copy, and the memory it leaves.
strcpy_loop_lem :
    (fuel a b : ℕ) (xs : List ℕ) (m : Memory)
    → IsString m b xs
    → length xs < fuel
    → ((a + length xs < b) ⊎ (b + length xs < a))
    → (m1 : Memory) × (strcpy_loop fuel a b m ≡ some m1)
      × IsString m1 a xs
      × ((x : Addr) → within a (suc (length xs)) x ≡ false → m1 x ≡ m x)
strcpy_loop_lem zero a b xs m h lt apart = absurd (omega arith)
strcpy_loop_lem (suc fuel) a b [] m h lt apart =
    (update m a 0, ground arith, ground arith, λ x out. ground arith)
strcpy_loop_lem (suc fuel) a b (x ∷ xs) m (e, nonzero, h) lt apart =
    let (m1, r, s, f) =
      strcpy_loop_lem fuel (a + 1) (b + 1) xs (update m a (m b))
        (IsString-agree xs (b + 1) (b + 1) m (update m a (m b)) h (λ i le. ground arith))
        (omega arith) (ground arith) in
    (m1, ground (arith, e, r), (ground (arith, e, f a), nonzero, s), λ y out. ground (arith, f y))

-- `strcpy` of a string to a place apart from it makes a string of the same bytes there and changes
-- no byte outside.
pub strcpy_lem :
    (fuel a b : ℕ) (xs : List ℕ) (m : Memory)
    → a ≢ null
    → b ≢ null
    → IsString m b xs
    → length xs < fuel
    → ((a + length xs < b) ⊎ (b + length xs < a))
    → (m1 : Memory) × (strcpy fuel a b m ≡ some m1)
      × IsString m1 a xs
      × ((x : Addr) → within a (suc (length xs)) x ≡ false → m1 x ≡ m x)
unfolding strcpy
strcpy_lem fuel a b xs m ra rb h lt apart =
    let (m1, e, s, f) = strcpy_loop_lem fuel a b xs m h lt apart in
    (m1, >>-assert {b = not (a == null) && not (b == null)} (ground arith) e, s, f)

joined :
    (xs ys : List ℕ) (a : Addr) (m k : Memory)
    → IsString m a xs
    → ((i : ℕ) → i < length xs → k (a + i) ≡ m (a + i))
    → IsString k (a + length xs) ys
    → IsString k a (xs ++ ys)
joined [] ys a m k h same t = subst (λ c. IsString k c ys) (omega arith) t
joined (x ∷ xs) ys a m k (e, nonzero, h) same t = (
  ground (arith, same 0),
  nonzero,
  joined xs ys (a + 1) m k h (λ i lt. ground (arith, same (i + 1)))
      (subst (λ c. IsString k c ys) (omega arith) t),
)

-- `strcat` to a string, where the other is apart from the result, makes the concatenation and changes
-- no byte outside.
strcat_lem :
    (fuel a b : ℕ) (xs ys : List ℕ) (m : Memory)
    → a ≢ null
    → b ≢ null
    → IsString m a xs
    → IsString m b ys
    → length xs < fuel
    → length ys < fuel
    → ((a + length xs + length ys < b) ⊎ (b + length ys < a))
    → (m1 : Memory) × (strcat fuel a b m ≡ some m1)
      × IsString m1 a (xs ++ ys)
      × ((x : Addr) → within (a + length xs) (suc (length ys)) x ≡ false → m1 x ≡ m x)
unfolding strcat
strcat_lem fuel a b xs ys m ra rb h k lx ly apart =
    let (m1, e, f) =
      memcpy_lem (a + length xs) b (length ys + 1) m (ground arith) rb (ground arith) in
    (
      m1,
      >>-assert {b = not (a == null) && not (b == null)} (ground arith) (
          >>=-some _ (strlen_lem fuel a xs m ra h lx)
            (>>=-some _ (strlen_lem fuel b ys m rb k ly) e)),
      joined xs ys a m m1 h (λ i lt. ground (arith, f (a + i)))
          (IsString-agree ys b (a + length xs) m m1 k
            (λ i le. ground (arith, f (a + length xs + i)))),
      λ x out. ground (arith, f x),
    )
