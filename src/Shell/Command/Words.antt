-- ===== src/Shell/Command/Words.antt =====
-- The words that `cmd_parse` finds are those between the separators.
use tie_zhu_os.Base.{
  ℕ, zero, suc, ◌+◌, ◌<◌, ◌≤◌, ◌≡◌, ◌≢◌, refl, ap, ◌∙◌, subst, true, false, some, List, [], ◌∷◌,
  ◌++◌, append_assoc, append-nil, length, ◌==◌, if◌then◌else◌, arith, Memory, Bool-cases, inl, inr,
}
use tie_zhu_os.LinkedList.{Addr}
use tie_zhu_os.CString.Strings.{IsString}
use tie_zhu_os.Shell.Command.{skip_token, skip_word}

abbrev close : List ℕ → List (List ℕ) → List (List ℕ)
close [] words = words
close (c ∷ cs) words = (c ∷ cs) ∷ words

-- The words of a text, behind the bytes `cur` of a word.
unfoldable pub split_words : ℕ → List ℕ → List ℕ → List (List ℕ)
split_words token cur [] = close cur []
split_words token cur (c ∷ cs) =
    let ended = close cur (split_words token [] cs) in
    let longer = split_words token (cur ++ c ∷ []) cs in if c == token then ended else longer

-- What `skip_token` leaves of a string: the same words, with no separator in front.
pub record Skipped (token : ℕ) (a : Addr) (xs : List ℕ) (m : Memory) (r : Addr) (ys : List ℕ)
    : Type 0 where
  pub string : IsString m r ys
  pub same : split_words token [] ys ≡ split_words token [] xs
  pub shorter : length ys ≤ length xs
  pub behind : a ≤ r
  pub no_token : m r ≢ token

pub skip_token_lem :
    (fuel token a : ℕ) (xs : List ℕ) (m : Memory)
    → token ≢ 0
    → IsString m a xs
    → length xs < fuel
    → (r : Addr) × (ys : List ℕ) × (skip_token fuel token a m ≡ some r) × Skipped token a xs m r ys
unfolding skip_token split_words
skip_token_lem zero token a xs m real h lt = absurd (omega arith)
skip_token_lem (suc fuel) token a [] m real h lt = (
  a,
  [],
  ground (arith, h),
  record {
    string = h;
    same = refl;
    shorter = omega arith;
    behind = omega arith;
    no_token = ground arith;
  },
)
skip_token_lem (suc fuel) token a (x ∷ xs) m real (e, nonzero, h) lt =
    elim (Bool-cases (m a == token)) [
      | inl skip ↦
          let (r, ys, f, s) = skip_token_lem fuel token (a + 1) xs m real h (omega arith) in
          let test : (x == token) ≡ true = ground (arith, e, skip) in
          (
            r,
            ys,
            rw skip f,
            record {
              string = s.string;
              same = s.same ∙ rw test refl;
              shorter = omega (arith, s.shorter);
              behind = omega (arith, s.behind);
              no_token = s.no_token;
            },
          )
      | inr here ↦ (
        a,
        x ∷ xs,
        rw here refl,
        record {
          string = (e, nonzero, h);
          same = refl;
          shorter = omega arith;
          behind = omega arith;
          no_token = ground (arith, here);
        },
      )
    ]

-- The rest of a string behind a word: its end, or a separator and more.
pub data Rest (token : ℕ) : List ℕ → Type 0 where
  ended : Rest token []
  more : (zs : List ℕ) → Rest token (token ∷ zs)

-- Where `skip_word` stops: the word, and the rest.
pub record Word (token : ℕ) (xs w rest : List ℕ) : Type 0 where
  pub parts : xs ≡ w ++ rest
  pub kind : Rest token rest
  pub same : (cur : List ℕ) → split_words token cur xs ≡ split_words token (cur ++ w) rest

pub skip_word_lem :
    (fuel token a : ℕ) (xs : List ℕ) (m : Memory)
    → token ≢ 0
    → IsString m a xs
    → length xs < fuel
    → (w : List ℕ) × (rest : List ℕ) × (skip_word fuel token a m ≡ some (a + length w))
      × Word token xs w rest
unfolding skip_word split_words
skip_word_lem zero token a xs m real h lt = absurd (omega arith)
skip_word_lem (suc fuel) token a [] m real h lt = (
  [],
  [],
  ground (arith, h),
  record { parts = refl; kind = ended; same = λ cur. rw append-nil refl },
)
skip_word_lem (suc fuel) token a (x ∷ xs) m real (e, nonzero, h) lt =
    elim (Bool-cases (m a == token)) [
      | inl stop ↦
          let here : token ≡ x = ground (arith, e, stop) in
          (
            [],
            x ∷ xs,
            rw stop (ground (arith, stop)),
            record {
              parts = refl;
              kind = subst (λ t. Rest token (t ∷ xs)) here (more xs);
              same = λ cur. rw append-nil refl;
            },
          )
      | inr go ↦
          let (w, rest, f, s) = skip_word_lem fuel token (a + 1) xs m real h (omega arith) in
          let test : (x == token) ≡ false = ground (arith, e, go) in
          (
            x ∷ w,
            rest,
            ground (arith, go, e, f),
            record {
              parts = ap (λ l. x ∷ l) s.parts;
              kind = s.kind;
              same = λ cur. rw test (
                  s.same (cur ++ x ∷ [])
                  ∙ ap (λ l. split_words token l rest) (append_assoc cur (x ∷ []) w));
            },
          )
    ]
