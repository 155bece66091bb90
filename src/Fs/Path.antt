-- ===== src/Fs/Path.antt =====
-- The parsing of paths in fs/fs.c, on the bytes of a path up to its 0.
use tie_zhu_os.Base.{
  ℕ, zero, suc, Bool, true, false, ◌&&◌, Option, none, some, List, [], ◌∷◌, length, ltb, ◌>>=◌,
  ◌>>◌, assert, ◌==◌, if◌then◌else◌,
}

abbrev pub max_file_name_len : ℕ
max_file_name_len = 16

-- '/'
abbrev pub slash : ℕ
slash = 47

-- `while (*(++patname) == '/');` from behind the first slash
abbrev pub skip_slashes : List ℕ → List ℕ
skip_slashes [] = []
skip_slashes (c ∷ cs) = if c == slash then skip_slashes cs else c ∷ cs

-- The name up to the next slash, and the path from there on.
abbrev pub split_name : List ℕ → List ℕ × List ℕ
split_name [] = ([], [])
split_name (c ∷ cs) =
    let (name, rest) = split_name cs in if c == slash then ([], c ∷ cs) else (c ∷ name, rest)

-- `none` is `NULL`; else the name stored, and the rest.
unfoldable pub path_parse : List ℕ → Option (List ℕ × List ℕ)
path_parse [] = none
path_parse (c ∷ cs) = some (split_name (if c == slash then skip_slashes cs else c ∷ cs))

-- The name that was stored has its 0 in a cleared buffer of 16 bytes, which all callers have; `none` is a name that
-- runs over the buffer or has no 0 in it.
abbrev pub fits : Option (List ℕ × List ℕ) → Option (Option (List ℕ × List ℕ))
fits none = some none
fits (some (name, rest)) = assert (ltb (length name) max_file_name_len) >> some (some (name, rest))

-- The call of `path_parse` with such a buffer.
unfoldable pub next_name : List ℕ → Option (Option (List ℕ × List ℕ))
unfolding path_parse
next_name path = fits (path_parse path)

-- One round of `path_depth_cnt` for each name. A name has at least one byte, so the length of the path
-- bounds the rounds.
unfoldable pub depth_loop : ℕ → Option (List ℕ × List ℕ) → Option ℕ
unfolding next_name
depth_loop fuel none = some 0
depth_loop fuel (some ([], rest)) = some 0
depth_loop zero (some (c ∷ name, rest)) = none
depth_loop (suc fuel) (some (c ∷ name, rest)) =
    next_name rest >>= λ parsed. depth_loop fuel parsed >>= λ depth. some (suc depth)

unfoldable pub path_depth_cnt : List ℕ → Option ℕ
unfolding depth_loop next_name
path_depth_cnt path = next_name path >>= λ parsed. depth_loop (length path) parsed

-- Whether `strcmp` of two strings is 0.
unfoldable pub same_text : List ℕ → List ℕ → Bool
same_text [] [] = true
same_text [] (y ∷ ys) = false
same_text (x ∷ xs) [] = false
same_text (x ∷ xs) (y ∷ ys) = x == y && same_text xs ys

abbrev pub starts_with_slash : List ℕ → Bool
starts_with_slash [] = false
starts_with_slash (c ∷ cs) = c == slash
