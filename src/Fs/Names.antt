-- ===== src/Fs/Names.antt =====
-- Paths as lists of names.
use tie_zhu_os.Base.{
  ℕ, zero, suc, ◌+◌, ◌≤◌, ◌≡◌, ◌≢◌, refl, ap, sym, ◌∙◌, Option, none, some, some_injective,
  >>=-some, >>-assert, ltb, List, [], ◌∷◌, ◌++◌, length, length-append, All, arith,
}
use tie_zhu_os.Fs.Path.{
  slash, skip_slashes, split_name, path_parse, fits, next_name, depth_loop, path_depth_cnt,
}

abbrev pub IsPlain : ℕ → Type 0
IsPlain c = c ≢ slash

-- A name of 1 to 15 bytes and no slash.
abbrev pub IsName : List ℕ → Type 0
IsName [] = ⊥
IsName (c ∷ cs) = All IsPlain (c ∷ cs) × (length (c ∷ cs) ≤ 15)

abbrev pub slashes : ℕ → List ℕ
slashes zero = []
slashes (suc n) = slash ∷ slashes n

-- Each name behind one or more slashes (one more than its number).
abbrev pub join : List (ℕ × List ℕ) → List ℕ
join [] = []
join ((n, name) ∷ names) = slashes (suc n) ++ (name ++ join names)

abbrev pub AreNames : List (ℕ × List ℕ) → Type 0
AreNames [] = Unit
AreNames ((n, name) ∷ names) = IsName name × AreNames names

abbrev pub names_of : List (ℕ × List ℕ) → List (List ℕ)
names_of [] = []
names_of ((n, name) ∷ names) = name ∷ names_of names

abbrev pub root : List ℕ
root = slash ∷ []

-- The text of a directory: its name, the names above it, and so on to the root.
abbrev pub above : List (List ℕ) → List ℕ
above [] = []
above (d ∷ ds) = above ds ++ slash ∷ d

abbrev pub text_of : List (List ℕ) → List ℕ
text_of [] = root
text_of (d ∷ ds) = above (d ∷ ds)

split_plain :
    (name : List ℕ) (names : List (ℕ × List ℕ))
    → All IsPlain name
    → split_name (name ++ join names) ≡ (name, join names)
split_plain [] [] h = refl
split_plain [] ((n, name) ∷ names) h = refl
split_plain (c ∷ cs) names (plain, h) = ground (arith, split_plain cs names h)

skip_to_name :
    (n : ℕ) (name rest : List ℕ)
    → IsName name
    → skip_slashes (slashes n ++ (name ++ rest)) ≡ name ++ rest
skip_to_name zero [] rest h = absurd h
skip_to_name zero (c ∷ cs) rest ((plain, _), _) = ground arith
skip_to_name (suc n) name rest h = skip_to_name n name rest h

-- `path_parse` of names behind slashes takes the first name and leaves the others.
pub path_parse-join :
    (n : ℕ) (name : List ℕ) (names : List (ℕ × List ℕ))
    → IsName name
    → path_parse (join ((n, name) ∷ names)) ≡ some (name, join names)
unfolding path_parse
path_parse-join n [] names h = absurd h
path_parse-join n (c ∷ cs) names h =
    ap (λ p. some (split_name p)) (skip_to_name n (c ∷ cs) (join names) h)
    ∙ ap some (split_plain (c ∷ cs) names h.0)

-- The name fits its buffer.
pub next_name-join :
    (n : ℕ) (name : List ℕ) (names : List (ℕ × List ℕ))
    → IsName name
    → next_name (join ((n, name) ∷ names)) ≡ some (some (name, join names))
unfolding next_name
next_name-join n [] names h = absurd h
next_name-join n (c ∷ cs) names h =
    ap fits (path_parse-join n (c ∷ cs) names h)
    ∙ >>-assert {b = ltb (length (c ∷ cs)) 16} (ground (arith, h.1)) refl

pub next_name-nil : next_name [] ≡ some none
unfolding next_name path_parse
next_name-nil = refl

pub next_name-names :
    (names : List (ℕ × List ℕ))
    → AreNames names
    → (o : Option (List ℕ × List ℕ)) × (next_name (join names) ≡ some o)
next_name-names [] h = (none, next_name-nil)
next_name-names ((n, name) ∷ names) (h, hs) = (_, next_name-join n name names h)

-- What was parsed is what the names have.
pub parsed_nil : (o : Option (List ℕ × List ℕ)) → next_name [] ≡ some o → o ≡ none
parsed_nil o e = some_injective (sym e ∙ next_name-nil)

pub parsed_names :
    (n : ℕ) (name : List ℕ) (names : List (ℕ × List ℕ)) (o : Option (List ℕ × List ℕ))
    → IsName name
    → next_name (join ((n, name) ∷ names)) ≡ some o
    → o ≡ some (name, join names)
parsed_names n name names o h e = some_injective (sym e ∙ next_name-join n name names h)

pub length-join :
    (n : ℕ) (name : List ℕ) (names : List (ℕ × List ℕ))
    → suc (length name) + length (join names) ≤ length (join ((n, name) ∷ names))
length-join n name names =
    omega (arith, length-append (slashes n) (name ++ join names), length-append name (join names))

depth_loop-join :
    (fuel : ℕ) (names : List (ℕ × List ℕ)) (o : Option (List ℕ × List ℕ))
    → AreNames names
    → length (join names) ≤ fuel
    → next_name (join names) ≡ some o
    → depth_loop fuel o ≡ some (length names)
unfolding depth_loop
depth_loop-join fuel [] o h le e = rw (parsed_nil o e) refl
depth_loop-join fuel ((n, []) ∷ names) o (h, hs) le e = absurd h
depth_loop-join zero ((n, c ∷ cs) ∷ names) o (h, hs) le e = absurd (omega arith)
depth_loop-join (suc fuel) ((n, c ∷ cs) ∷ names) o (h, hs) le e =
    let (o1, e1) = next_name-names names hs in
    ap (depth_loop (suc fuel)) (parsed_names n (c ∷ cs) names o h e)
    ∙ >>=-some _ e1 (
        >>=-some _
          (depth_loop-join fuel names o1 hs (omega (arith, le, length-join n (c ∷ cs) names)) e1)
          refl)

-- `path_depth_cnt` of names behind slashes, one or more each, is their number.
pub path_depth_cnt-join :
    (names : List (ℕ × List ℕ)) → AreNames names → path_depth_cnt (join names) ≡ some (length names)
unfolding path_depth_cnt
path_depth_cnt-join names h =
    let (o, e) = next_name-names names h in
    >>=-some _ e (depth_loop-join _ names o h (omega arith) e)
