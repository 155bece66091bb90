-- ===== src/Shell/Washed.antt =====
-- What `wash_path` makes is what a walk over the names gives.
use tie_zhu_os.Base.{
  ℕ, zero, suc, ◌<◌, ◌≤◌, ◌≡◌, refl, ap, sym, ◌∙◌, true, false, none, some, List, [], ◌∷◌, ◌++◌,
  append_assoc, length, length-append, ltb, ◌+◌, Option, ◌>>=◌, ◌==◌, if◌then◌else◌, All, >>=-some,
  >>-assert, arith, Bool-cases, inl, inr,
}
use tie_zhu_os.Fs.Path.{slash, next_name, same_text, starts_with_slash}
use tie_zhu_os.Fs.Names.{
  root, above, text_of, names_of, IsName, IsPlain, AreNames, join, next_name-names, parsed_nil,
  parsed_names, length-join,
}
use tie_zhu_os.Fs.Removal.{dot, dot_dot}
use tie_zhu_os.Shell.Path.{
  before_last_slash, cut_at, fits_path, wash_name, wash_loop, wash_path, make_clear_abs_path,
}
use tie_zhu_os.Shell.Washed.Step.{
  parent_of, climb, walk, same_text_refl, not_root, length-climb, wash_name-climb, climb-IsName,
}
pub mod Step

loop_ends : (fuel : ℕ) (text : List ℕ) → wash_loop fuel none text ≡ some text
unfolding wash_loop
loop_ends fuel text = refl

wash_loop-walk :
    (fuel : ℕ) (names : List (ℕ × List ℕ)) (o : Option (List ℕ × List ℕ)) (dirs : List (List ℕ))
    → AreNames names
    → All IsName dirs
    → length (join names) ≤ fuel
    → next_name (join names) ≡ some o
    → length (above dirs) + length (join names) < 512
    → wash_loop fuel o (text_of dirs) ≡ some (text_of (walk (names_of names) dirs))
unfolding wash_loop
wash_loop-walk fuel [] o dirs h k le e room = rw (parsed_nil o e) (loop_ends fuel (text_of dirs))
wash_loop-walk fuel ((n, []) ∷ names) o dirs (h, hs) k le e room = absurd h
wash_loop-walk zero ((n, c ∷ cs) ∷ names) o dirs (h, hs) k le e room = absurd (omega arith)
wash_loop-walk (suc fuel) ((n, c ∷ cs) ∷ names) o dirs (h, hs) k le e room =
    let name = c ∷ cs in
    let (o1, e1) = next_name-names names hs in
    let parts = length-join n name names in
    ap (λ x. wash_loop (suc fuel) x (text_of dirs)) (parsed_names n name names o h e)
    ∙ >>=-some _ (wash_name-climb name dirs k (omega (arith, room, parts))) (
        >>=-some _ e1 (
          wash_loop-walk fuel names o1 (climb name dirs) hs (climb-IsName name dirs h k)
            (omega (arith, le, parts)) e1 (omega (arith, room, parts, length-climb name dirs))))

join_starts :
    (n : ℕ) (name : List ℕ) (names : List (ℕ × List ℕ))
    → starts_with_slash (join ((n, name) ∷ names)) ≡ true
join_starts n name names = ground arith

wash_names :
    (names : List (ℕ × List ℕ))
    → starts_with_slash (join names) ≡ true
    → AreNames names
    → length (join names) < 512
    → wash_path (join names) ≡ some (text_of (walk (names_of names) []))
unfolding wash_path
wash_names names starts h room =
    let (o, e) = next_name-names names h in
    >>-assert starts (
      >>=-some _ e (
        wash_loop-walk (length (join names)) names o [] h tt (omega arith) e (omega (arith, room))))

-- `wash_path` of one or more names of at most 15 bytes behind slashes, 511 bytes in all, makes the path of the
-- directory that a walk from the root over the names reaches, where ".." goes up, from the root to itself, and "."
-- stays.
pub wash_path-walk :
    (n : ℕ) (name : List ℕ) (names : List (ℕ × List ℕ))
    → AreNames ((n, name) ∷ names)
    → length (join ((n, name) ∷ names)) < 512
    → wash_path (join ((n, name) ∷ names)) ≡ some (text_of (walk (names_of ((n, name) ∷ names)) []))
wash_path-walk n name names h room =
    wash_names ((n, name) ∷ names) (join_starts n name names) h room

-- A directory that is named neither "." nor "..".
abbrev pub IsDirectory : List ℕ → Type 0
IsDirectory name = IsName name × (same_text dot_dot name ≡ false) × (same_text dot name ≡ false)

-- The names down to a directory, and further ones.
abbrev pub add_dirs : List (List ℕ) → List (ℕ × List ℕ) → List (ℕ × List ℕ)
add_dirs [] names = names
add_dirs (d ∷ ds) names = add_dirs ds ((0, d) ∷ names)

join-add_dirs :
    (ds : List (List ℕ)) (names : List (ℕ × List ℕ))
    → join (add_dirs ds names) ≡ above ds ++ join names
join-add_dirs [] names = refl
join-add_dirs (d ∷ ds) names =
    join-add_dirs ds ((0, d) ∷ names) ∙ sym (append_assoc (above ds) (slash ∷ d) (join names))

walk-add_dirs :
    (ds : List (List ℕ)) (names : List (ℕ × List ℕ))
    → All IsDirectory ds
    → walk (names_of (add_dirs ds names)) [] ≡ walk (names_of names) ds
walk-add_dirs [] names h = refl
walk-add_dirs (d ∷ ds) names ((_, not_up, not_dot), hs) =
    walk-add_dirs ds ((0, d) ∷ names) hs ∙ ap (walk (names_of names)) (rw (not_up, not_dot) refl)

AreNames-add_dirs :
    (ds : List (List ℕ)) (names : List (ℕ × List ℕ))
    → All IsDirectory ds
    → AreNames names
    → AreNames (add_dirs ds names)
AreNames-add_dirs [] names h k = k
AreNames-add_dirs (d ∷ ds) names (h, hs) k = AreNames-add_dirs ds ((0, d) ∷ names) hs (h.0, k)

All-names : (ds : List (List ℕ)) → All IsDirectory ds → All IsName ds
All-names [] h = tt
All-names (d ∷ ds) (h, hs) = (h.0, All-names ds hs)

-- The current directory, a slash unless it is the root, and the path.
absolute :
    (ds : List (List ℕ)) (name : List ℕ) (names : List (ℕ × List ℕ))
    → All IsName ds
    → (if same_text (text_of ds) root then text_of ds else text_of ds ++ slash ∷ [])
        ++ (name ++ join names)
      ≡ join (add_dirs ds ((0, name) ∷ names))
absolute [] name names h = rw (same_text_refl root) refl
absolute (d ∷ ds) name names (h, _) = rw (not_root d ds h) (
    append_assoc (above (d ∷ ds)) (slash ∷ []) (name ++ join names)
    ∙ sym (join-add_dirs (d ∷ ds) ((0, name) ∷ names)))

add_dirs_starts :
    (ds : List (List ℕ)) (n : ℕ) (name : List ℕ) (names : List (ℕ × List ℕ))
    → starts_with_slash (join (add_dirs ds ((n, name) ∷ names))) ≡ true
add_dirs_starts [] n name names = join_starts n name names
add_dirs_starts (d ∷ ds) n name names = add_dirs_starts ds 0 d ((n, name) ∷ names)

-- A path that does not begin with a slash is resolved from the current directory: the result of
-- `make_clear_abs_path` is where a walk over the names of the path leads from there. The names have at most 15 bytes,
-- and the two paths with a slash between them 511 in all.
pub make_clear_abs_path-walk :
    (ds : List (List ℕ)) (name : List ℕ) (names : List (ℕ × List ℕ))
    → All IsDirectory ds
    → AreNames ((0, name) ∷ names)
    → length (above ds) + length (join ((0, name) ∷ names)) < 512
    → make_clear_abs_path (some (text_of ds)) (name ++ join names)
      ≡ some (text_of (walk (name ∷ names_of names) ds))
unfolding make_clear_abs_path
make_clear_abs_path-walk ds [] names h k room = absurd k.0
make_clear_abs_path-walk ds (c ∷ cs) names h k room =
    let relative : (c == slash) ≡ false = ground (arith, k.0.0.0) in
    let path = (0, c ∷ cs) ∷ names in
    let whole = join-add_dirs ds path in
    let short : length (join (add_dirs ds path)) < 512 =
      omega (arith, room, ap length whole, length-append (above ds) (join path)) in
    rw relative (
      ap (λ x. fits_path x >>= wash_path) (absolute ds (c ∷ cs) names (All-names ds h))
      ∙ >>=-some wash_path
          (>>-assert {b = ltb (length (join (add_dirs ds path))) 512} (ground (arith, short)) refl)
          (wash_names (add_dirs ds path) (add_dirs_starts ds 0 (c ∷ cs) names)
              (AreNames-add_dirs ds path h k) short
            ∙ ap (λ dirs. some (text_of dirs)) (walk-add_dirs ds path h)))
