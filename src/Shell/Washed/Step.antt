-- ===== src/Shell/Washed/Step.antt =====
-- What `wash_path` of shell/buildin_cmd.c does with one name.
use tie_zhu_os.Base.{
  ℕ, suc, ◌<◌, ◌≤◌, ◌≡◌, refl, ap, ◌∙◌, true, false, none, some, List, [], ◌∷◌, ◌++◌, append_assoc,
  length, length-append, ltb, ◌+◌, if◌then◌else◌, All, >>-assert, arith, Bool-cases, inl, inr,
}
use tie_zhu_os.Fs.Path.{slash, same_text}
use tie_zhu_os.Fs.Names.{root, above, text_of, IsName, IsPlain}
use tie_zhu_os.Fs.Removal.{dot, dot_dot}
use tie_zhu_os.Shell.Path.{before_last_slash, cut_at, fits_path, wash_name}

-- The root is its own parent.
abbrev pub parent_of : List (List ℕ) → List (List ℕ)
parent_of [] = []
parent_of (d ∷ ds) = ds

-- The directory that a walk is in: its name, the names above it, and so on to the root.
abbrev pub climb : List ℕ → List (List ℕ) → List (List ℕ)
climb name dirs =
    if same_text dot_dot name
    then parent_of dirs
    else (if same_text dot name then dirs else name ∷ dirs)

abbrev pub walk : List (List ℕ) → List (List ℕ) → List (List ℕ)
walk [] dirs = dirs
walk (name ∷ names) dirs = walk names (climb name dirs)

pub same_text_refl : (xs : List ℕ) → same_text xs xs ≡ true
unfolding same_text
same_text_refl [] = refl
same_text_refl (x ∷ xs) = ground (arith, same_text_refl xs)

plain_last : (name : List ℕ) → All IsPlain name → before_last_slash name ≡ none
unfolding before_last_slash
plain_last [] h = refl
plain_last (c ∷ cs) (plain, h) = rw (plain_last cs h) (ground (arith, plain))

-- Behind the last name the last slash is the one in front of it.
last_slash :
    (front name : List ℕ)
    → All IsPlain name
    → before_last_slash (front ++ slash ∷ name) ≡ some front
unfolding before_last_slash
last_slash [] name h = rw (plain_last name h) refl
last_slash (c ∷ cs) name h = rw (last_slash cs name h) refl

length-above : (d : List ℕ) (ds : List (List ℕ)) → IsName d → 2 ≤ length (above (d ∷ ds))
length-above [] ds h = absurd h
length-above (c ∷ cs) ds h = omega (arith, length-append (above ds) (slash ∷ c ∷ cs))

length_of_root : (xs : List ℕ) → same_text xs root ≡ true → length xs ≡ 1
unfolding same_text
length_of_root [] h = absurd (cc)
length_of_root (x ∷ []) h = refl
length_of_root (x ∷ y ∷ ys) h = absurd (ground (arith, h))

pub not_root :
    (d : List ℕ) (ds : List (List ℕ)) → IsName d → same_text (above (d ∷ ds)) root ≡ false
not_root d ds h = elim (Bool-cases (same_text (above (d ∷ ds)) root)) [
  | inl same ↦ absurd (omega (arith, length_of_root (above (d ∷ ds)) same, length-above d ds h))
  | inr other ↦ other
]

cut_at-cons : (xs : List ℕ) → 0 < length xs → cut_at (some xs) ≡ some xs
cut_at-cons [] h = absurd (omega arith)
cut_at-cons (c ∷ cs) h = refl

IsName-IsPlain : (name : List ℕ) → IsName name → All IsPlain name
IsName-IsPlain [] h = absurd h
IsName-IsPlain (c ∷ cs) h = h.0

-- ".." leaves a directory for the one above it.
leave :
    (dirs : List (List ℕ))
    → All IsName dirs
    → cut_at (before_last_slash (text_of dirs)) ≡ some (text_of (parent_of dirs))
leave [] h = rw (last_slash [] [] tt) refl
leave (d ∷ []) (h, _) = rw (last_slash [] d (IsName-IsPlain d h)) refl
leave (d ∷ e ∷ ds) (h, (k, _)) =
    rw (last_slash (above (e ∷ ds)) d (IsName-IsPlain d h))
      (cut_at-cons (above (e ∷ ds)) (omega (arith, length-above e ds k)))

-- Another name is entered.
enter :
    (name : List ℕ) (dirs : List (List ℕ))
    → All IsName dirs
    → (if same_text (text_of dirs) root then text_of dirs else text_of dirs ++ slash ∷ []) ++ name
      ≡ text_of (name ∷ dirs)
enter name [] h = rw (same_text_refl root) refl
enter name (d ∷ ds) (h, _) = rw (not_root d ds h) (append_assoc (above (d ∷ ds)) (slash ∷ []) name)

-- A path with another name has its names and its slashes.
length-text_of :
    (d : List ℕ) (ds : List (List ℕ))
    → length (text_of (d ∷ ds)) ≡ length (above ds) + suc (length d)
length-text_of d ds = length-append (above ds) (slash ∷ d)

pub length-climb :
    (name : List ℕ) (dirs : List (List ℕ))
    → length (above (climb name dirs)) ≤ length (above dirs) + suc (length name)
length-climb name dirs = elim (Bool-cases (same_text dot_dot name)) [
  | inl up ↦ rw up (lower dirs)
  | inr down ↦ elim (Bool-cases (same_text dot name)) [
    | inl stay ↦ rw (down, stay) (omega arith)
    | inr into ↦ rw (down, into) (omega (arith, length-append (above dirs) (slash ∷ name)))
  ]
]
  where
    lower :
        (ds : List (List ℕ)) → length (above (parent_of ds)) ≤ length (above ds) + suc (length name)
    lower [] = omega arith
    lower (d ∷ ds) = omega (arith, length-append (above ds) (slash ∷ d))

pub wash_name-climb :
    (name : List ℕ) (dirs : List (List ℕ))
    → All IsName dirs
    → length (above dirs) + suc (length name) < 512
    → wash_name name (text_of dirs) ≡ some (text_of (climb name dirs))
unfolding wash_name
wash_name-climb name dirs h room = elim (Bool-cases (same_text dot_dot name)) [
  | inl up ↦ rw up (leave dirs h)
  | inr down ↦ elim (Bool-cases (same_text dot name)) [
    | inl stay ↦ rw (down, stay) refl
    | inr into ↦
        rw (down, into)
          (ap fits_path (enter name dirs h)
            ∙ >>-assert {b = ltb (length (text_of (name ∷ dirs))) 512}
                (ground (arith, room, length-text_of name dirs)) refl)
  ]
]

parent_of-All : (dirs : List (List ℕ)) → All IsName dirs → All IsName (parent_of dirs)
parent_of-All [] h = tt
parent_of-All (d ∷ ds) (h, k) = k

pub climb-IsName :
    (name : List ℕ) (dirs : List (List ℕ))
    → IsName name
    → All IsName dirs
    → All IsName (climb name dirs)
climb-IsName name dirs h k = elim (Bool-cases (same_text dot_dot name)) [
  | inl up ↦ rw up (parent_of-All dirs k)
  | inr down ↦ elim (Bool-cases (same_text dot name)) [
    | inl stay ↦ rw (down, stay) k
    | inr into ↦ rw (down, into) (h, k)
  ]
]
