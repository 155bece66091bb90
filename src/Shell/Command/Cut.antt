-- ===== src/Shell/Command/Cut.antt =====
-- The 0 behind a word makes it a string, and leaves the text behind it.
use tie_zhu_os.Base.{
  ℕ, ◌+◌, ◌<◌, ◌≤◌, ◌≡◌, ◌≢◌, refl, ap, sym, ◌∙◌, subst, true, false, some, List, [], ◌∷◌, ◌++◌,
  append-nil, length, length-append, ◌==◌, arith, Memory, update,
}
use tie_zhu_os.LinkedList.{Addr}
use tie_zhu_os.CString.Strings.{IsString, IsString-agree}
use tie_zhu_os.Shell.Command.{skip_word, cut_word, behind_word}
use tie_zhu_os.Shell.Command.Words.{split_words, Rest, ended, more, skip_word_lem}

IsString-rest :
    (w rest : List ℕ) (a : Addr) (m : Memory)
    → IsString m a (w ++ rest)
    → IsString m (a + length w) rest
IsString-rest [] rest a m h = subst (λ b. IsString m b rest) (omega arith) h
IsString-rest (x ∷ w) rest a m (_, _, h) =
    subst (λ b. IsString m b rest) (omega arith) (IsString-rest w rest (a + 1) m h)

-- The word becomes a string of its own by the 0 behind it.
IsString-cut :
    (w rest : List ℕ) (a : Addr) (m : Memory)
    → IsString m a (w ++ rest)
    → IsString (update m (a + length w) 0) a w
IsString-cut [] rest a m h = ground arith
IsString-cut (x ∷ w) rest a m (e, nonzero, h) = (
  ground (arith, e),
  nonzero,
  subst (λ b. IsString (update m b 0) (a + 1) w) (omega arith) (IsString-cut w rest (a + 1) m h),
)

IsString-behind :
    (t : ℕ) (zs : List ℕ) (b : Addr) (m : Memory)
    → IsString m b (t ∷ zs)
    → IsString (update m b 0) (b + 1) zs
IsString-behind t zs b m (_, _, h) =
    IsString-agree zs (b + 1) (b + 1) m (update m b 0) h (λ i le. ground arith)

-- The line behind a word: the string that is left, and the word as a string.
pub record After (token : ℕ) (r : Addr) (ys w : List ℕ) (m : Memory) (zs : List ℕ) : Type 0 where
  pub words : split_words token [] ys ≡ w ∷ split_words token [] zs
  pub string : IsString (cut_word (r + length w) m) (behind_word (r + length w) m) zs
  pub word : IsString (cut_word (r + length w) m) r w
  pub later : r + length w ≤ behind_word (r + length w) m
  pub shorter : length zs < length ys
  pub some_word : 0 < length w
  pub kept : (x : Addr) → x < r + length w → cut_word (r + length w) m x ≡ m x

After-word :
    (token r : ℕ) (ys w rest : List ℕ) (m : Memory)
    → token ≢ 0
    → IsString m r ys
    → 0 < length w
    → ys ≡ w ++ rest
    → Rest token rest
    → split_words token [] ys ≡ split_words token w rest
    → (zs : List ℕ) × After token r ys w m zs
unfolding split_words
After-word token r ys [] rest m real h some_word parts kind same = absurd (omega arith)
After-word token r ys (c ∷ w) rest m real h some_word parts ended same =
    let text : IsString m r ((c ∷ w) ++ []) = subst (IsString m r) parts h in
    let end : m (r + length (c ∷ w)) ≡ 0 = IsString-rest (c ∷ w) [] r m text in
    let test : (m (r + length (c ∷ w)) == 0) ≡ true = ground (arith, end) in
    let whole : cut_word (r + length (c ∷ w)) m ≡ m = rw test refl in
    (
      [],
      record {
        words = same;
        string = rw test end;
        word =
            subst (λ q. IsString q r (c ∷ w)) (sym whole)
              (subst (IsString m r) (append-nil (c ∷ w)) text);
        later = rw test (omega arith);
        some_word = some_word;
        shorter = omega (arith, ap length parts, length-append w []);
        kept = λ x lt. rw test refl;
      },
    )
After-word token r ys (c ∷ w) rest m real h some_word parts (more zs) same =
    let text : IsString m r ((c ∷ w) ++ token ∷ zs) = subst (IsString m r) parts h in
    let tail : IsString m (r + length (c ∷ w)) (token ∷ zs) =
      IsString-rest (c ∷ w) (token ∷ zs) r m text in
    let test : (m (r + length (c ∷ w)) == 0) ≡ false = ground (arith, tail.0) in
    let cut : cut_word (r + length (c ∷ w)) m ≡ update m (r + length (c ∷ w)) 0 = rw test refl in
    let sep : (token == token) ≡ true = ground arith in
    (
      zs,
      record {
        words = same ∙ rw sep refl;
        string = rw test (IsString-behind token zs (r + length (c ∷ w)) m tail);
        word =
            subst (λ q. IsString q r (c ∷ w)) (sym cut)
              (IsString-cut (c ∷ w) (token ∷ zs) r m text);
        later = rw test (omega arith);
        some_word = some_word;
        shorter = omega (arith, ap length parts, length-append w (token ∷ zs));
        kept = λ x lt. rw test (ground arith);
      },
    )

-- The first word, where there is one, and the text behind it.
pub first_word :
    (n token a : ℕ) (y : ℕ) (yt : List ℕ) (m : Memory)
    → token ≢ 0
    → IsString m a (y ∷ yt)
    → m a ≢ token
    → length (y ∷ yt) < n
    → (w : List ℕ) × (zs : List ℕ) × (skip_word n token a m ≡ some (a + length w))
      × After token a (y ∷ yt) w m zs
first_word n token a y yt m real h no_token lt =
    let (w, rest, found, s) = skip_word_lem n token a (y ∷ yt) m real h lt in
    let (zs, after) =
      After-word token a (y ∷ yt) w rest m real h (word_begins w rest s.kind s.parts) s.parts s.kind
        (s.same []) in
    (w, zs, found, after)
  where
    word_begins : (w rest : List ℕ) → Rest token rest → y ∷ yt ≡ w ++ rest → 0 < length w
    word_begins [] rest ended parts = absurd (cc)
    word_begins [] rest (more zs) parts = absurd (no_token (ground (arith, h.0, parts)))
    word_begins (c ∷ w) rest kind parts = omega arith
