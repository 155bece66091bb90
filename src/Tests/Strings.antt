-- ===== src/Tests/Strings.antt =====
-- The strings "ab" at 16 and "b" at 32.
use tie_zhu_os.Base.{ℕ, ◌≡◌, refl, some, List, [], ◌∷◌, ◌>>=◌, ◌==◌, if◌then◌else◌, arith, Memory}
use tie_zhu_os.CString.{strlen}
use tie_zhu_os.Stdio.Format.{IsFormat, Expands, convert, vsprintf_loop, vsprintf, vsprintf_lem}
use tie_zhu_os.Stdio.{put_decimal, Output, itoa}
use tie_zhu_os.Stdio.Numerals.{put_chars}

abbrev memory : Memory
memory = λ a. if a == 16 then 97 else (if a == 17 then 98 else (if a == 32 then 98 else 0))

abbrev ab : List ℕ
ab = 97 ∷ 98 ∷ []

abbrev b : List ℕ
b = 98 ∷ []

-- 2026 to base 16
abbrev page : Output
page = record { memory = memory; buf_ptr = 64 }

shown_2026 : itoa 2026 16 page ≡ put_chars (55 ∷ 69 ∷ 65 ∷ []) page
unfolding itoa
shown_2026 = refl

-- "n=%d;%%"
abbrev format : List ℕ
format = 110 ∷ 61 ∷ 37 ∷ 100 ∷ 59 ∷ 37 ∷ 37 ∷ []

format-IsFormat : IsFormat format (4294967291 ∷ [])
unfolding IsFormat
format-IsFormat = (omega arith, tt)

vsprintf_lem_example :
    (text : List ℕ) × Expands format (4294967291 ∷ []) text
    × (vsprintf 9 format (4294967291 ∷ []) page ≡ (
        strlen 9 page.buf_ptr (put_chars text page).memory >>= λ len.
        some (len, put_chars text page)))
vsprintf_lem_example = vsprintf_lem 9 format (4294967291 ∷ []) page format-IsFormat

-- "n=-5;%"
formatted :
    vsprintf 9 format (4294967291 ∷ []) page
    ≡ some (6, put_chars (110 ∷ 61 ∷ 45 ∷ 53 ∷ 59 ∷ 37 ∷ []) page)
unfolding vsprintf vsprintf_loop strlen convert put_decimal itoa
formatted = refl
