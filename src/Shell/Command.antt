-- ===== src/Shell/Command.antt =====
-- `cmd_parse` of shell/shell.c: the words of a command line. The words stay in the line, which gets a 0
-- behind each of them; `argv` has their addresses.
use tie_zhu_os.Base.{
  ℕ, zero, suc, ◌+◌, Option, none, some, ltb, ◌==◌, ◌||◌, if◌then◌else◌, ◌>>=◌, ◌>>◌, assert, not,
  Memory, update, ℤ, pos, minus_one,
}
use tie_zhu_os.LinkedList.{Addr, null}
pub mod Words
pub mod Cut
pub mod Parsed

abbrev pub max_arg_nr : ℕ
max_arg_nr = 16

-- The line, the array of words and the result.
pub record Command : Type 0 where
  pub line : Memory
  pub argv : ℕ → Addr
  pub argc : ℤ

-- `while (*next == token)`
pub skip_token : ℕ → ℕ → Addr → Memory → Option Addr
skip_token zero token next m = none
skip_token (suc fuel) token next m =
    let further = skip_token fuel token (next + 1) m in
    if m next == token then further else some next

-- `while (*next && *next != token)`
pub skip_word : ℕ → ℕ → Addr → Memory → Option Addr
skip_word zero token next m = none
skip_word (suc fuel) token next m =
    let further = skip_word fuel token (next + 1) m in
    if m next == 0 || m next == token then some next else further

-- The word is cut off with a 0, unless the line ends there.
abbrev pub cut_word : Addr → Memory → Memory
cut_word last m = if m last == 0 then m else update m last 0

abbrev pub behind_word : Addr → Memory → Addr
behind_word last m = if m last == 0 then last else last + 1

-- The outer loop. The word is stored before its number is tested; `n` is the fuel of the inner loops.
pub parse_loop : ℕ → ℕ → ℕ → Addr → ℕ → (ℕ → Addr) → Memory → Option Command
parse_loop zero n token next argc argv m = none
parse_loop (suc fuel) n token next argc argv m =
    let done : Option Command = some (record { line = m; argv = argv; argc = pos argc }) in
    let word = (do
      start ← skip_token n token next m
      (if m start == 0 then done else (do
        last ← skip_word n token start m
        (if ltb max_arg_nr argc
            then some
                (record { line = cut_word last m; argv = update argv argc start; argc = minus_one })
            else parse_loop fuel n token (behind_word last m) (argc + 1) (update argv argc start)
                (cut_word last m))))) in
    if m next == 0 then done else word

unfoldable pub cmd_parse : ℕ → Addr → ℕ → Memory → Option Command
cmd_parse fuel cmd_str token m =
    assert (not (cmd_str == null)) >> parse_loop fuel fuel token cmd_str 0 (λ i. null) m
