-- ===== src/Shell/Path.antt =====
-- `wash_path` and `make_clear_abs_path` of shell/buildin_cmd.c, on the bytes of paths up to their 0.
-- The buffers of paths have 512 bytes, with the 0: a longer result is `none`.
use tie_zhu_os.Base.{
  ℕ, zero, suc, Option, none, some, List, [], ◌∷◌, ◌++◌, length, ltb, ◌==◌, if◌then◌else◌, ◌>>=◌,
  ◌>>◌, assert,
}
use tie_zhu_os.Fs.Path.{slash, next_name, same_text, starts_with_slash}
use tie_zhu_os.Fs.Names.{root}
use tie_zhu_os.Fs.Removal.{dot, dot_dot}
use tie_zhu_os.Fs.Search.{max_path_len}

-- A string cut at the address that `strrchar` gives for the slash; `none` where there is no slash.
unfoldable pub before_last_slash : List ℕ → Option (List ℕ)
before_last_slash [] = none
before_last_slash (c ∷ cs) = elim (before_last_slash cs) [
  | some b ↦ some (c ∷ b)
  | none ↦ if c == slash then some [] else none
]

-- At the first byte, the slash itself stays.
abbrev pub cut_at : Option (List ℕ) → Option (List ℕ)
cut_at none = none
cut_at (some []) = some root
cut_at (some (c ∷ cs)) = some (c ∷ cs)

-- A path in its buffer.
abbrev pub fits_path : List ℕ → Option (List ℕ)
fits_path path = assert (ltb (length path) max_path_len) >> some path

-- One name of the old path.
unfoldable pub wash_name : List ℕ → List ℕ → Option (List ℕ)
unfolding same_text before_last_slash
wash_name name new_abs_path =
    if same_text dot_dot name
    then cut_at (before_last_slash new_abs_path)
    else (if same_text dot name
        then some new_abs_path
        else fits_path (
            (if same_text new_abs_path root then new_abs_path else new_abs_path ++ slash ∷ [])
            ++ name))

-- A name has at least one byte, so the length of the path bounds the rounds.
unfoldable pub wash_loop : ℕ → Option (List ℕ × List ℕ) → List ℕ → Option (List ℕ)
wash_loop fuel none text = some text
wash_loop fuel (some ([], rest)) text = some text
wash_loop zero (some (c ∷ name, rest)) text = none
wash_loop (suc fuel) (some (c ∷ name, rest)) text =
    wash_name (c ∷ name) text >>= λ more. next_name rest >>= λ parsed. wash_loop fuel parsed more

-- `none` is a failed assertion, a write through `NULL` or behind a buffer.
unfoldable pub wash_path : List ℕ → Option (List ℕ)
unfolding wash_loop wash_name next_name
wash_path old_abs_path =
    assert (starts_with_slash old_abs_path)
    >> (next_name old_abs_path >>= λ parsed. wash_loop (length old_abs_path) parsed root)

-- `cwd` is what `getcwd` stores, if it does not fail.
unfoldable pub make_clear_abs_path : Option (List ℕ) → List ℕ → Option (List ℕ)
unfolding wash_path same_text
make_clear_abs_path cwd path =
    if starts_with_slash path then fits_path path >>= wash_path else elim cwd [
      | none ↦ fits_path path >>= wash_path
      | some dir ↦
          fits_path ((if same_text dir root then dir else dir ++ slash ∷ []) ++ path) >>= wash_path
    ]
