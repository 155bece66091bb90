-- ===== src/Stdio.antt =====
-- lib/stdio.c: numbers and formatted text, written to memory at a pointer that moves on.
use tie_zhu_os.Base.{
  ℕ, zero, suc, ◌+◌, ◌-◌, ◌%◌, ◌/◌, ◌^◌, Option, none, some, List, [], ◌∷◌, Memory, update,
  if◌then◌else◌, ltb, ◌==◌,
}
use tie_zhu_os.LinkedList.{Addr}
use tie_zhu_os.CString.{strcat, strlen}
pub mod Numerals
pub mod Format

-- The memory, and `buf_ptr`.
pub record Output : Type 0 where
  pub memory : Memory
  pub buf_ptr : Addr

-- `*buf_ptr++ = c`
abbrev pub put_char : ℕ → Output → Output
put_char c o = record { memory = update o.memory o.buf_ptr c; buf_ptr = o.buf_ptr + 1 }

-- The digits are '0' to '9' and 'A' to 'F'; for others a message goes to the console.
abbrev pub put_digit : ℕ → Output → Output
put_digit m o =
    if ltb m 10 then put_char (48 + m) o else (if ltb m 16 then put_char (65 + m - 10) o else o)

-- The recursion of `itoa` over the digits left.
pub itoa_loop : ℕ → ℕ → ℕ → Output → Output
itoa_loop zero value base o = o
itoa_loop (suc fuel) value base o =
    let higher = itoa_loop fuel (value / base) base o in
    put_digit (value % base) (if value / base == 0 then o else higher)

-- A `uint32_t` has at most 32 digits.
unfoldable pub itoa : ℕ → ℕ → Output → Output
unfolding itoa_loop
itoa value base o = itoa_loop 32 value base o

-- `%d`: the sign, and the digits of the magnitude.
unfoldable pub put_decimal : ℕ → Output → Output
unfolding itoa
put_decimal arg_value o =
    if ltb arg_value (2 ^ 31)
    then itoa arg_value 10 o
    else itoa (2 ^ 32 - arg_value) 10 (put_char 45 o)
