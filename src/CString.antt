-- ===== src/CString.antt =====
-- kernel/string.c: blocks of bytes and strings in memory. `none` is a failed assertion, a result that
-- the source does not give, or a string whose end is not among the first `fuel` bytes. Addresses do
-- not wrap.
pub mod Blocks
pub mod Strings
pub mod Copy
pub mod Search
pub mod Compare
use tie_zhu_os.Base.{
  ℕ, zero, suc, ◌+◌, ◌-◌, ◌%◌, Bool, true, false, not, ◌&&◌, Option, none, some, update, ltb, ◌==◌,
  if◌then◌else◌, ◌>>=◌, ◌>>◌, assert, ℤ, pos, negsuc, minus_one, Memory,
}
use tie_zhu_os.LinkedList.{Addr, null}

abbrev pub memset_loop : ℕ → Addr → ℕ → Memory → Memory
memset_loop zero dst value m = m
memset_loop (suc size) dst value m = memset_loop size (dst + 1) value (update m dst value)

unfoldable pub memset : Addr → ℕ → ℕ → Memory → Option Memory
memset dst value size m =
    if size == 0
    then some m
    else (assert (not (dst == null)) >> some (memset_loop size dst value m))

abbrev pub memcpy_loop : ℕ → Addr → Addr → Memory → Memory
memcpy_loop zero dst src m = m
memcpy_loop (suc size) dst src m = memcpy_loop size (dst + 1) (src + 1) (update m dst (m src))

unfoldable pub memcpy : Addr → Addr → ℕ → Memory → Option Memory
memcpy dst src size m =
    if size == 0
    then some m
    else (assert (not (dst == null))
        >> (assert (not (src == null)) >> some (memcpy_loop size dst src m)))

-- The offset is added to the bytes, not to the pointers.
abbrev pub memcmp_loop : ℕ → ℕ → ℕ → ℕ → ℤ
memcmp_loop zero offst x y = pos 0
memcmp_loop (suc size) offst x y =
    let rest = memcmp_loop size (offst + 1) x y in
    if ltb (y + offst) (x + offst)
    then pos 1
    else (if ltb (x + offst) (y + offst) then minus_one else rest)

unfoldable pub memcmp : Addr → Addr → ℕ → Memory → Option ℤ
memcmp buf1 buf2 size m =
    if size == 0
    then none
    else (assert (not (buf1 == null))
        >> (assert (not (buf2 == null)) >> some (memcmp_loop size 0 (m buf1) (m buf2))))

abbrev pub strlen_loop : ℕ → Addr → ℕ → Memory → Option ℕ
strlen_loop zero str len m = none
strlen_loop (suc fuel) str len m =
    let rest = strlen_loop fuel (str + 1) (len + 1) m in if m str == 0 then some len else rest

unfoldable pub strlen : ℕ → Addr → Memory → Option ℕ
strlen fuel str m = assert (not (str == null)) >> strlen_loop fuel str 0 m

-- Ends with the 0 at the end of the copy.
abbrev pub strcpy_loop : ℕ → Addr → Addr → Memory → Option Memory
strcpy_loop zero dst src m = none
strcpy_loop (suc fuel) dst src m =
    let rest = strcpy_loop fuel (dst + 1) (src + 1) (update m dst (m src)) in
    if m src == 0 then some (update m dst 0) else rest

unfoldable pub strcpy : ℕ → Addr → Addr → Memory → Option Memory
strcpy fuel dst src m =
    assert (not (dst == null) && not (src == null)) >> strcpy_loop fuel dst src m

-- The order of a signed `char` on bytes.
abbrev pub char_key : ℕ → ℕ
char_key b = (b + 128) % 256

abbrev pub compare_lengths : ℕ → ℕ → ℤ
compare_lengths s1len s2len =
    if ltb s2len s1len then pos 1 else (if ltb s1len s2len then minus_one else pos 0)

abbrev pub strcmp_loop : ℕ → Addr → Addr → ℕ → ℕ → Memory → Option ℤ
strcmp_loop zero str1 str2 s1len s2len m = none
strcmp_loop (suc fuel) str1 str2 s1len s2len m =
    let rest = strcmp_loop fuel (str1 + 1) (str2 + 1) (s1len - 1) (s2len - 1) m in
    if m str1 == 0
    then some (compare_lengths s1len s2len)
    else (if ltb (char_key (m str2)) (char_key (m str1))
        then some (pos 1)
        else (if ltb (char_key (m str1)) (char_key (m str2)) then some minus_one else rest))

unfoldable pub strcmp : ℕ → Addr → Addr → Memory → Option ℤ
strcmp fuel str1 str2 m = do
  assert (not (str1 == null) && not (str2 == null))
  s1len ← strlen fuel str1 m
  s2len ← strlen fuel str2 m
  strcmp_loop fuel str1 str2 s1len s2len m

-- The bytes `str` to `str + slen - 1`, from the last on.
abbrev pub strrchar_loop : ℕ → Addr → ℕ → Memory → Addr
strrchar_loop zero str ch m = null
strrchar_loop (suc slen) str ch m =
    let rest = strrchar_loop slen str ch m in if m (str + slen) == ch then str + slen else rest

unfoldable pub strrchar : ℕ → Addr → ℕ → Memory → Option Addr
strrchar fuel str ch m = do slen ← strlen fuel str m; some (strrchar_loop slen str ch m)

abbrev pub strchar_loop : ℕ → Addr → ℕ → Memory → Addr
strchar_loop zero str ch m = null
strchar_loop (suc slen) str ch m =
    let rest = strchar_loop slen (str + 1) ch m in if m str == ch then str else rest

unfoldable pub strchar : ℕ → Addr → ℕ → Memory → Option Addr
strchar fuel str ch m = do slen ← strlen fuel str m; some (strchar_loop slen str ch m)

unfoldable pub strcat : ℕ → Addr → Addr → Memory → Option Memory
strcat fuel dst src m = do
  assert (not (dst == null) && not (src == null))
  dlen ← strlen fuel dst m
  slen ← strlen fuel src m
  memcpy (dst + dlen) src (slen + 1) m

abbrev pub strchrs_loop : ℕ → Addr → ℕ → ℕ → Memory → Option ℕ
strchrs_loop zero str ch count m = none
strchrs_loop (suc fuel) str ch count m =
    let rest = strchrs_loop fuel (str + 1) ch (if m str == ch then count + 1 else count) m in
    if m str == 0 then some count else rest

-- `ch` is at most 127: a byte is compared as a signed `char`.
unfoldable pub strchrs : ℕ → Addr → ℕ → Memory → Option ℕ
strchrs fuel str ch m = assert (not (str == null)) >> strchrs_loop fuel str ch 0 m
