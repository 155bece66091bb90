-- ===== src/Shell/Command/Parsed.antt =====
-- `cmd_parse` finds the words of a line.
use tie_zhu_os.Base.{
  ℕ, zero, suc, ◌+◌, ◌<◌, ◌≤◌, ◌≡◌, ◌≢◌, refl, ap, sym, ◌∙◌, subst, true, false, some, List, [],
  ◌∷◌, length, ltb, not, ◌==◌, >>=-some, >>-assert, pos, arith, Memory, update, update_self,
  update_ne, List-cases, inl, inr,
}
use tie_zhu_os.LinkedList.{Addr, null}
use tie_zhu_os.CString.Strings.{IsString, IsString-agree}
use tie_zhu_os.Shell.Command.{
  Command, skip_token, skip_word, cut_word, behind_word, parse_loop, cmd_parse,
}
use tie_zhu_os.Shell.Command.Words.{split_words, skip_token_lem}
use tie_zhu_os.Shell.Command.Cut.{After, first_word}

-- The words as strings in a line, at the addresses in `argv` from `k` on.
abbrev pub WordsAt : Memory → (ℕ → Addr) → ℕ → List (List ℕ) → Type 0
WordsAt m argv k [] = Unit
WordsAt m argv k (w ∷ ws) = IsString m (argv k) w × WordsAt m argv (k + 1) ws

-- What the loop makes of a string at `a`: nothing before the string changes, and no earlier word.
record Parsed (token a argc : ℕ) (argv : ℕ → Addr) (xs : List ℕ) (m : Memory) (c : Command)
    : Type 0 where
  count : c.argc ≡ pos (argc + length (split_words token [] xs))
  words : WordsAt c.line c.argv argc (split_words token [] xs)
  kept_argv : (k : ℕ) → k < argc → c.argv k ≡ argv k
  kept_line : (x : Addr) → x ≤ a → c.line x ≡ m x

-- With no word left, the loop leaves all as it is.
unchanged :
    (token a argc : ℕ) (argv : ℕ → Addr) (xs : List ℕ) (m : Memory)
    → split_words token [] xs ≡ []
    → Parsed token a argc argv xs m (record { line = m; argv = argv; argc = pos argc })
unchanged token a argc argv xs m empty = record {
  count = rw empty (ground arith);
  words = rw empty tt;
  kept_argv = λ k lt. refl;
  kept_line = λ x le. refl;
}

-- The ways that a round of the loop can go.
module _ (fuel n token a argc : ℕ) (argv : ℕ → Addr) (m : Memory) where
  loop_ends :
      m a ≡ 0
      → parse_loop (suc fuel) n token a argc argv m
        ≡ some (record { line = m; argv = argv; argc = pos argc })
  unfolding parse_loop
  loop_ends end = let test : (m a == 0) ≡ true = ground (arith, end) in rw test refl

  module _ (r : Addr) (here : m a ≢ 0) (skipped : skip_token n token a m ≡ some r) where
    loop_blank :
        m r ≡ 0
        → parse_loop (suc fuel) n token a argc argv m
          ≡ some (record { line = m; argv = argv; argc = pos argc })
    unfolding parse_loop
    loop_blank end =
        let test : (m a == 0) ≡ false = ground (arith, here) in
        let test_r : (m r == 0) ≡ true = ground (arith, end) in
        rw test (>>=-some _ skipped (rw test_r refl))

    loop_word :
        (last : Addr)
        → m r ≢ 0
        → skip_word n token r m ≡ some last
        → argc ≤ 16
        → parse_loop (suc fuel) n token a argc argv m
          ≡ parse_loop fuel n token
              (behind_word last m)
              (argc + 1)
              (update argv argc r)
              (cut_word last m)
    unfolding parse_loop
    loop_word last word found room =
        let test : (m a == 0) ≡ false = ground (arith, here) in
        let test_r : (m r == 0) ≡ false = ground (arith, word) in
        let fits : ltb 16 argc ≡ false = ground arith in
        rw test (>>=-some _ skipped (rw test_r (>>=-some _ found (rw fits refl))))

-- A word in front of what the further rounds make.
extend :
    (token a r argc : ℕ) (argv : ℕ → Addr) (xs ys w zs : List ℕ) (m : Memory) (c : Command)
    → a ≤ r
    → split_words token [] xs ≡ w ∷ split_words token [] zs
    → After token r ys w m zs
    → Parsed token
        (behind_word (r + length w) m)
        (argc + 1)
        (update argv argc r)
        zs
        (cut_word (r + length w) m)
        c
    → Parsed token a argc argv xs m c
extend token a r argc argv xs ys w zs m c le all after p = record {
  count = rw all (p.count ∙ ap pos (omega arith));
  words = rw all (
    subst (λ b. IsString c.line b w)
        (sym (p.kept_argv argc (omega arith) ∙ update_self argv argc r))
        (IsString-agree w r r (cut_word (r + length w) m) c.line after.word
          (λ i i_le. p.kept_line (r + i) (omega (arith, after.later)))),
    p.words,
  );
  kept_argv = λ k lt. p.kept_argv k (omega arith) ∙ update_ne argv argc k r (omega arith);
  kept_line = λ x x_le.
      p.kept_line x (omega (arith, after.later)) ∙ after.kept x (omega (arith, after.some_word));
}

no_words : (token : ℕ) → split_words token [] [] ≡ []
unfolding split_words
no_words token = refl

parse_loop_lem :
    (fuel n token a argc : ℕ) (argv : ℕ → Addr) (xs : List ℕ) (m : Memory)
    → token ≢ 0
    → IsString m a xs
    → length xs < fuel
    → length xs < n
    → argc + length (split_words token [] xs) ≤ 17
    → (c : Command) × (parse_loop fuel n token a argc argv m ≡ some c)
      × Parsed token a argc argv xs m c
parse_loop_lem zero n token a argc argv xs m real h lt lt_n room = absurd (omega arith)
parse_loop_lem (suc fuel) n token a argc argv [] m real h lt lt_n room =
    (_, loop_ends fuel n token a argc argv m h, unchanged token a argc argv [] m (no_words token))
parse_loop_lem (suc fuel) n token a argc argv (x ∷ xs) m real h lt lt_n room =
    let (r, ys, skipped, s) = skip_token_lem n token a (x ∷ xs) m real h lt_n in
    let here : m a ≢ 0 = ground (arith, h.0, h.1) in
    elim (List-cases ys) [
      | inl none_left ↦
          let end : IsString m r [] = subst (IsString m r) none_left s.string in
          (
            _,
            loop_blank fuel n token a argc argv m r here skipped end,
            unchanged token a argc argv (x ∷ xs) m
                (sym s.same ∙ ap (split_words token []) none_left ∙ no_words token),
          )
      | inr (y, yt, e) ↦
          let text : IsString m r (y ∷ yt) = subst (IsString m r) e s.string in
          let (w, zs, found, after) =
            first_word n token r y yt m real text s.no_token
              (omega (arith, s.shorter, ap length e)) in
          let all : split_words token [] (x ∷ xs) ≡ w ∷ split_words token [] zs =
            sym s.same ∙ ap (split_words token []) e ∙ after.words in
          let (c, loop, p) =
            parse_loop_lem fuel n token (behind_word (r + length w) m) (argc + 1)
              (update argv argc r) zs (cut_word (r + length w) m) real after.string
              (omega (arith, s.shorter, ap length e, after.shorter))
              (omega (arith, s.shorter, ap length e, after.shorter))
              (omega (arith, room, ap length all)) in
          (
            c,
            loop_word fuel n token a argc argv m r here skipped (r + length w)
                  (ground (arith, text.0, text.1)) found (omega (arith, room, ap length all))
                ∙ loop,
            extend token a r argc argv (x ∷ xs) (y ∷ yt) w zs m c s.behind all after p,
          )
    ]

-- `cmd_parse` of a line of at most 17 words (with more fuel than the line has bytes) returns their
-- number, and `argv` has the address of each as a string in the line; the bytes before the line stay.
-- The 17th goes behind the end of `argv`.
pub cmd_parse_lem :
    (fuel token a : ℕ) (xs : List ℕ) (m : Memory)
    → a ≢ null
    → token ≢ 0
    → IsString m a xs
    → length xs < fuel
    → length (split_words token [] xs) ≤ 17
    → (c : Command) × (cmd_parse fuel a token m ≡ some c)
      × (c.argc ≡ pos (length (split_words token [] xs)))
      × WordsAt c.line c.argv 0 (split_words token [] xs)
      × ((x : Addr) → x < a → c.line x ≡ m x)
unfolding cmd_parse
cmd_parse_lem fuel token a xs m not_null real h lt room =
    let (c, e, p) =
      parse_loop_lem fuel fuel token a 0 (λ i. null) xs m real h lt lt (omega arith) in
    (
      c,
      >>-assert {b = not (a == null)} (ground arith) e,
      p.count ∙ ap pos (omega arith),
      p.words,
      λ x before. p.kept_line x (omega arith),
    )
