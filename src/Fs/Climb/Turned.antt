-- ===== src/Fs/Climb/Turned.antt =====
-- The last loop of `sys_getcwd` in fs/fs.c puts the names in the order of the path.
use tie_zhu_os.Base.{
  ℕ, zero, suc, ◌+◌, ◌<◌, ltb, ◌≤◌, ◌≡◌, refl, ap, sym, ◌∙◌, true, none, some, List, [], ◌∷◌, ◌++◌,
  length, length-append, append_assoc, append-nil, >>=-some, >>-assert, All, arith,
}
use tie_zhu_os.Fs.Path.{slash}
use tie_zhu_os.Fs.Names.{IsPlain, above}
use tie_zhu_os.Fs.System.{FileSystem}
use tie_zhu_os.Fs.Follow.{path_of}
use tie_zhu_os.Fs.Cwd.{cut_last, reverse_loop, reversed}

-- The names in the other order.
abbrev turned : List (List ℕ) → List (List ℕ) → List (List ℕ)
turned [] acc = acc
turned (x ∷ xs) acc = turned xs (x ∷ acc)

above-turned : (xs acc : List (List ℕ)) → above (turned xs acc) ≡ above acc ++ path_of xs
above-turned [] acc = sym (append-nil (above acc))
above-turned (x ∷ xs) acc =
    above-turned xs (x ∷ acc) ∙ append_assoc (above acc) (slash ∷ x) (path_of xs)

path_of-turned : (xs acc : List (List ℕ)) → path_of (turned xs acc) ≡ above xs ++ path_of acc
path_of-turned [] acc = refl
path_of-turned (x ∷ xs) acc =
    path_of-turned xs (x ∷ acc) ∙ sym (append_assoc (above xs) (slash ∷ x) (path_of acc))

length-turned : (xs acc : List (List ℕ)) → length (turned xs acc) ≡ length xs + length acc
length-turned [] acc = omega arith
length-turned (x ∷ xs) acc = length-turned xs (x ∷ acc) ∙ omega arith

turned-All :
    (xs acc : List (List ℕ))
    → All (All IsPlain) xs
    → All (All IsPlain) acc
    → All (All IsPlain) (turned xs acc)
turned-All [] acc h k = k
turned-All (x ∷ xs) acc (h, hs) k = turned-All xs (x ∷ acc) hs (h, k)

cut_plain : (name : List ℕ) → All IsPlain name → cut_last name ≡ none
unfolding cut_last
cut_plain [] h = refl
cut_plain (c ∷ cs) (h, hs) = rw (cut_plain cs hs) (ground (arith, h))

cut_name :
    (front name : List ℕ)
    → All IsPlain name
    → cut_last (front ++ slash ∷ name) ≡ some (front, slash ∷ name)
unfolding cut_last
cut_name [] name h = rw (cut_plain name h) refl
cut_name (c ∷ cs) name h = rw (cut_name cs name h) refl

reverse_loop-above :
    (size fuel : ℕ) (ms : List (List ℕ)) (buf : List ℕ)
    → length ms ≤ fuel
    → length buf + length (path_of ms) < size
    → All (All IsPlain) ms
    → reverse_loop size fuel (above ms) buf ≡ some (buf ++ path_of ms)
unfolding reverse_loop cut_last
reverse_loop-above size zero [] buf le room h = ap some (sym (append-nil buf))
reverse_loop-above size (suc fuel) [] buf le room h = ap some (sym (append-nil buf))
reverse_loop-above size zero (m ∷ ms) buf le room h = absurd (omega arith)
reverse_loop-above size (suc fuel) (m ∷ ms) buf le room (h, hs) =
    let size_0 = length-append buf (slash ∷ m) in
    let size_1 = length-append m (path_of ms) in
    let fits : ltb (length (buf ++ slash ∷ m)) size ≡ true = ground (arith, room, size_0, size_1) in
    rw (reverse_loop, cut_name (above ms) m h)
      (>>-assert fits (
          reverse_loop-above size fuel ms (buf ++ slash ∷ m) (omega (arith, le))
            (omega (arith, room, size_0, size_1)) hs)
        ∙ ap some (append_assoc buf (slash ∷ m) (path_of ms)))

length-path_of : (names : List (List ℕ)) → length names ≤ length (path_of names)
length-path_of [] = omega arith
length-path_of (name ∷ names) =
    omega (arith, length-path_of names, length-append name (path_of names))

-- The names in the order of the path.
-- Both orders have the same bytes.
pub length-above : (names : List (List ℕ)) → length (above names) ≡ length (path_of names)
length-above [] = refl
length-above (name ∷ names) = omega (
  arith,
  length-above names,
  length-append (above names) (slash ∷ name),
  length-append name (path_of names),
)

pub reversed-text :
    (size : ℕ) (names : List (List ℕ)) (s : FileSystem)
    → length (above names) < size
    → All (All IsPlain) names
    → reversed size (some (path_of names), s) ≡ some (some (above names), s)
reversed-text size names s room plain =
    let ms = turned names [] in
    let le : length ms ≤ length (path_of names) =
      omega (arith, length-turned names [], length-path_of names) in
    let same = ap length (path_of-turned names [] ∙ append-nil (above names)) in
    let short : 0 + length (path_of ms) < size = omega (arith, room, same) in
    >>=-some _
      (ap (λ x. reverse_loop size (length (path_of names)) x []) (sym (above-turned names []))
        ∙ reverse_loop-above size (length (path_of names)) ms [] le short
            (turned-All names [] plain tt)
        ∙ ap some (path_of-turned names [] ∙ append-nil (above names)))
      refl
