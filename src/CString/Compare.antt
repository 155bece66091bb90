-- ===== src/CString/Compare.antt =====
-- `strcmp` against the order of lists of signed characters.
use tie_zhu_os.Base.{
  ℕ, ◌<◌, ◌&&◌, ltb, List, [], ◌∷◌, length, ◌++◌, true, false, Bool, ◌==◌, if◌then◌else◌, ℤ, pos,
  minus_one,
}
use tie_zhu_os.CString.{char_key}

-- What the loop and the test behind it come to: where the first list ends first, the lengths decide.
abbrev pub compared : List ℕ → List ℕ → ℤ
compared [] [] = pos 0
compared [] (y ∷ ys) = minus_one
compared (x ∷ xs) [] = if ltb (char_key 0) (char_key x) then pos 1 else minus_one
compared (x ∷ xs) (y ∷ ys) =
    if ltb (char_key y) (char_key x)
    then pos 1
    else (if ltb (char_key x) (char_key y) then minus_one else compared xs ys)

abbrev pub IsByte : ℕ → Type 0
IsByte x = x < 256

-- The lexicographic order of lists of signed characters.
abbrev pub signed_order : List ℕ → List ℕ → ℤ
signed_order [] [] = pos 0
signed_order [] (y ∷ ys) = minus_one
signed_order (x ∷ xs) [] = pos 1
signed_order (x ∷ xs) (y ∷ ys) =
    if ltb (char_key y) (char_key x)
    then pos 1
    else (if ltb (char_key x) (char_key y) then minus_one else signed_order xs ys)

abbrev pub is_prefix : List ℕ → List ℕ → Bool
is_prefix [] ys = true
is_prefix (x ∷ xs) [] = false
is_prefix (x ∷ xs) (y ∷ ys) = x == y && is_prefix xs ys

-- The order of the strings with their 0, but for a string and a longer one that begins with it.
abbrev pub string_order : List ℕ → List ℕ → ℤ
string_order xs ys =
    if is_prefix xs ys
    then (if length xs == length ys then pos 0 else minus_one)
    else signed_order (xs ++ 0 ∷ []) (ys ++ 0 ∷ [])
