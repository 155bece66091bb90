-- ===== src/Stdio/Format.antt =====
-- `vsprintf` of lib/stdio.c: a format, given as its bytes up to the 0, with its arguments as words.
use tie_zhu_os.Base.{
  ℕ, ◌+◌, ◌-◌, ◌%◌, ◌^◌, ◌<◌, ◌≤◌, ◌≡◌, ◌≢◌, refl, ap, sym, ◌∙◌, true, false, Option, none, some,
  List, [], ◌∷◌, ◌++◌, if◌then◌else◌, ltb, ◌==◌, ◌>>=◌, >>=-some, subst, arith, Bool-cases, inl,
  inr,
}
use tie_zhu_os.CString.{strcat, strlen}
use tie_zhu_os.Stdio.{Output, put_char, itoa, put_decimal}
use tie_zhu_os.Stdio.Numerals.{put_chars, Shows, itoa_lem, put_decimal_lem}

-- What follows '%'.
pub data Directive : Type 0 where
  hex char decimal string other : Directive

abbrev pub directive : ℕ → Directive
directive c =
    if c == 120
    then hex
    else (if c == 99
        then char
        else (if c == 100 then decimal else (if c == 115 then string else other)))

-- `%s`; `fuel` bounds the lengths of the strings.
unfoldable pub put_string : ℕ → ℕ → Output → Option Output
put_string fuel a o = do
  m ← strcat fuel o.buf_ptr a o.memory
  len ← strlen fuel a m
  some (record { memory = m; buf_ptr = o.buf_ptr + len })

-- A directive with the arguments left: the output and the arguments behind it. `none` is a read behind the last
-- argument.
unfoldable pub convert : ℕ → Directive → ℕ → List ℕ → Output → Option (Output × List ℕ)
unfolding put_string
convert fuel hex c [] o = none
convert fuel hex c (a ∷ more) o = some (itoa a 16 o, more)
convert fuel char c [] o = none
convert fuel char c (a ∷ more) o = some (put_char (a % 256) o, more)
convert fuel decimal c [] o = none
convert fuel decimal c (a ∷ more) o = some (put_decimal a o, more)
convert fuel string c [] o = none
convert fuel string c (a ∷ more) o = put_string fuel a o >>= λ o1. some (o1, more)
convert fuel other c more o = some (put_char c o, more)

-- The loop over the format. Behind a '%' at its end the source reads on behind the 0: `none`.
unfoldable pub vsprintf_loop : ℕ → List ℕ → List ℕ → Output → Option Output
vsprintf_loop fuel [] more o = some o
vsprintf_loop fuel (c ∷ []) more o = if c == 37 then none else some (put_char c o)
vsprintf_loop fuel (c ∷ d ∷ ds) more o =
    let plain = vsprintf_loop fuel (d ∷ ds) more (put_char c o) in
    let converted = convert fuel (directive d) d more o >>= λ r. vsprintf_loop fuel ds r.1 r.0 in
    if c == 37 then converted else plain

-- `vsprintf` into the buffer at `buf_ptr`: it returns the length of the string that begins there.
unfoldable pub vsprintf : ℕ → List ℕ → List ℕ → Output → Option (ℕ × Output)
unfolding vsprintf_loop
vsprintf fuel format more o = do
  written ← vsprintf_loop fuel format more o
  len ← strlen fuel o.buf_ptr written.memory
  some (len, written)

-- The text that a format stands for with its arguments, without strings.
pub data Expands : List ℕ → List ℕ → List ℕ → Type 0 where
  done : (more : List ℕ) → Expands [] more []
  plain :
      (c : ℕ) (cs more text : List ℕ)
      → c ≢ 37
      → Expands cs more text
      → Expands (c ∷ cs) more (c ∷ text)
  in_hex :
      (a : ℕ) (cs more digits text : List ℕ)
      → Shows 16 a digits
      → Expands cs more text
      → Expands (37 ∷ 120 ∷ cs) (a ∷ more) (digits ++ text)
  one_char :
      (a : ℕ) (cs more text : List ℕ)
      → Expands cs more text
      → Expands (37 ∷ 99 ∷ cs) (a ∷ more) (a % 256 ∷ text)
  positive :
      (a : ℕ) (cs more digits text : List ℕ)
      → a < 2 ^ 31
      → Shows 10 a digits
      → Expands cs more text
      → Expands (37 ∷ 100 ∷ cs) (a ∷ more) (digits ++ text)
  negative :
      (a : ℕ) (cs more digits text : List ℕ)
      → 2 ^ 31 ≤ a
      → Shows 10 (2 ^ 32 - a) digits
      → Expands cs more text
      → Expands (37 ∷ 100 ∷ cs) (a ∷ more) (45 ∷ (digits ++ text))
  literally :
      (c : ℕ) (cs more text : List ℕ)
      → c ≢ 120
      → c ≢ 99
      → c ≢ 100
      → c ≢ 115
      → Expands cs more text
      → Expands (37 ∷ c ∷ cs) more (c ∷ text)

-- A directive takes its argument, which is a word, from those left.
abbrev pub Takes : Directive → List ℕ → (List ℕ → Type 0) → Type 0
Takes other more next = next more
Takes string more next = ⊥
Takes hex [] next = ⊥
Takes char [] next = ⊥
Takes decimal [] next = ⊥
Takes hex (a ∷ more) next = (a < 2 ^ 32) × next more
Takes char (a ∷ more) next = (a < 2 ^ 32) × next more
Takes decimal (a ∷ more) next = (a < 2 ^ 32) × next more

put_chars-append :
    (xs ys : List ℕ) (o : Output) → put_chars (xs ++ ys) o ≡ put_chars ys (put_chars xs o)
put_chars-append [] ys o = refl
put_chars-append (x ∷ xs) ys o = put_chars-append xs ys (put_char x o)

-- A format without strings whose directives have arguments.
unfoldable pub IsFormat : List ℕ → List ℕ → Type 0
IsFormat [] more = Unit
IsFormat (c ∷ []) more = c ≢ 37
IsFormat (c ∷ d ∷ ds) more = elim (c == 37) [
  | true ↦ Takes (directive d) more (IsFormat ds)
  | false ↦ IsFormat (d ∷ ds) more
]

abbrev Result : ℕ → List ℕ → List ℕ → Output → Type 0
Result fuel format more o =
    (text : List ℕ) × Expands format more text
    × (vsprintf_loop fuel format more o ≡ some (put_chars text o))

-- What is known of the formats behind a directive.
abbrev Later : ℕ → List ℕ → Type 0
Later fuel ds = (more : List ℕ) (o : Output) → IsFormat ds more → Result fuel ds more o

module _ (fuel : ℕ) (ds : List ℕ) (later : Later fuel ds) where
  after_hex :
      (more : List ℕ) (o : Output)
      → IsFormat (37 ∷ 120 ∷ ds) more
      → Result fuel (37 ∷ 120 ∷ ds) more o
  unfolding vsprintf_loop convert IsFormat
  after_hex [] o h = absurd h
  after_hex (a ∷ more) o (word, h) =
      let (digits, e, shows) = itoa_lem 16 a o (omega arith) (omega arith) word in
      let (text, x, f) = later more (itoa a 16 o) h in
      (
        digits ++ text,
        in_hex a ds more digits text shows x,
        f ∙ ap (λ q. some (put_chars text q)) e ∙ ap some (sym (put_chars-append digits text o)),
      )

  after_char :
      (more : List ℕ) (o : Output)
      → IsFormat (37 ∷ 99 ∷ ds) more
      → Result fuel (37 ∷ 99 ∷ ds) more o
  unfolding vsprintf_loop convert IsFormat
  after_char [] o h = absurd h
  after_char (a ∷ more) o (word, h) =
      let (text, x, f) = later more (put_char (a % 256) o) h in
      (a % 256 ∷ text, one_char a ds more text x, f)

  after_decimal :
      (more : List ℕ) (o : Output)
      → IsFormat (37 ∷ 100 ∷ ds) more
      → Result fuel (37 ∷ 100 ∷ ds) more o
  unfolding vsprintf_loop convert IsFormat
  after_decimal [] o h = absurd h
  after_decimal (a ∷ more) o (word, h) =
      let (digits, e, shows) = put_decimal_lem a o word in
      let (text, x, f) = later more (put_decimal a o) h in
      elim (Bool-cases (ltb a (2 ^ 31))) [
        | inl plus ↦ (
          digits ++ text,
          positive a ds more digits text (ground (arith, plus))
              (subst (λ b. Shows 10 (if b then a else 2 ^ 32 - a) digits) plus shows) x,
          f
              ∙ ap (λ q. some (put_chars text q))
                  (e ∙ ap (λ b. put_chars (if b then digits else 45 ∷ digits) o) plus)
              ∙ ap some (sym (put_chars-append digits text o)),
        )
        | inr minus ↦ (
          45 ∷ (digits ++ text),
          negative a ds more digits text (ground (arith, minus))
              (subst (λ b. Shows 10 (if b then a else 2 ^ 32 - a) digits) minus shows) x,
          f
              ∙ ap (λ q. some (put_chars text q))
                  (e ∙ ap (λ b. put_chars (if b then digits else 45 ∷ digits) o) minus)
              ∙ ap some (sym (put_chars-append (45 ∷ digits) text o)),
        )
      ]

  after_other :
      (d : ℕ) (more : List ℕ) (o : Output)
      → d ≢ 120
      → d ≢ 99
      → d ≢ 100
      → d ≢ 115
      → IsFormat (37 ∷ d ∷ ds) more
      → Result fuel (37 ∷ d ∷ ds) more o
  unfolding vsprintf_loop convert IsFormat
  after_other d more o x c n s h =
      let as_other : directive d ≡ other = ground (arith, x, c, n, s) in
      let (text, e, f) =
        later more (put_char d o) (subst (λ r. Takes r more (IsFormat ds)) as_other h) in
      (
        d ∷ text,
        literally d ds more text x c n s e,
        ap (λ r. convert fuel r d more o >>= λ q. vsprintf_loop fuel ds q.1 q.0) as_other ∙ f,
      )

  no_strings : (more : List ℕ) → IsFormat (37 ∷ 115 ∷ ds) more → ⊥
  unfolding IsFormat
  no_strings [] h = h
  no_strings (a ∷ more) h = h

  -- A directive, by the letter behind the '%'.
  after_percent :
      (d : ℕ) (more : List ℕ) (o : Output)
      → IsFormat (37 ∷ d ∷ ds) more
      → Result fuel (37 ∷ d ∷ ds) more o
  after_percent d more o h = elim (Bool-cases (d == 120)) [
    | inl x ↦
        let e : 120 ≡ d = ground (arith, x) in
        subst (λ c. IsFormat (37 ∷ c ∷ ds) more → Result fuel (37 ∷ c ∷ ds) more o) e
          (after_hex more o) h
    | inr not_x ↦ elim (Bool-cases (d == 99)) [
      | inl x ↦
          let e : 99 ≡ d = ground (arith, x) in
          subst (λ c. IsFormat (37 ∷ c ∷ ds) more → Result fuel (37 ∷ c ∷ ds) more o) e
            (after_char more o) h
      | inr not_c ↦ elim (Bool-cases (d == 100)) [
        | inl x ↦
            let e : 100 ≡ d = ground (arith, x) in
            subst (λ c. IsFormat (37 ∷ c ∷ ds) more → Result fuel (37 ∷ c ∷ ds) more o) e
              (after_decimal more o) h
        | inr not_d ↦ elim (Bool-cases (d == 115)) [
          | inl x ↦
              let e : d ≡ 115 = ground (arith, x) in
              absurd (no_strings more (subst (λ c. IsFormat (37 ∷ c ∷ ds) more) e h))
          | inr not_s ↦
              after_other d more o (ground (arith, not_x)) (ground (arith, not_c))
                (ground (arith, not_d)) (ground (arith, not_s)) h
        ]
      ]
    ]
  ]

plain_rest :
    (c d : ℕ) (ds more : List ℕ)
    → (c == 37) ≡ false
    → IsFormat (c ∷ d ∷ ds) more
    → IsFormat (d ∷ ds) more
unfolding IsFormat
plain_rest c d ds more byte h =
    subst
      (λ b. elim b [
        | true ↦ Takes (directive d) more (IsFormat ds)
        | false ↦ IsFormat (d ∷ ds) more
      ])
      byte h

-- The loop over a format writes its text.
vsprintf_loop_lem :
    (fuel : ℕ) (format more : List ℕ) (o : Output)
    → IsFormat format more
    → (text : List ℕ) × Expands format more text
      × (vsprintf_loop fuel format more o ≡ some (put_chars text o))
unfolding vsprintf_loop IsFormat
vsprintf_loop_lem fuel [] more o h = ([], done more, refl)
vsprintf_loop_lem fuel (c ∷ []) more o h =
    let test : (c == 37) ≡ false = ground (arith, h) in
    (c ∷ [], plain c [] more [] h (done more), rw test refl)
vsprintf_loop_lem fuel (c ∷ d ∷ ds) more o h = elim (Bool-cases (c == 37)) [
  | inl percent ↦
      let e : 37 ≡ c = ground (arith, percent) in
      subst (λ b. IsFormat (b ∷ d ∷ ds) more → Result fuel (b ∷ d ∷ ds) more o) e
        (after_percent fuel ds (vsprintf_loop_lem fuel ds) d more o) h
  | inr byte ↦
      let (text, x, f) =
        vsprintf_loop_lem fuel (d ∷ ds) more (put_char c o) (plain_rest c d ds more byte h) in
      (c ∷ text, plain c (d ∷ ds) more text (ground (arith, byte)) x, rw byte f)
]

-- `vsprintf` of a format without "%s" whose directives have their arguments, words of 32 bits, writes the text that
-- the format stands for from the pointer on, and leaves the pointer behind it: "%x" and "%d" the digits of
-- the number, with a minus sign for a negative one, "%c" the lowest byte, and any other byte behind a '%' itself. It
-- returns the length of the string that the buffer then holds.
pub vsprintf_lem :
    (fuel : ℕ) (format more : List ℕ) (o : Output)
    → IsFormat format more
    → (text : List ℕ) × Expands format more text
      × (vsprintf fuel format more o ≡ (
          strlen fuel o.buf_ptr (put_chars text o).memory >>= λ len. some (len, put_chars text o)))
unfolding vsprintf
vsprintf_lem fuel format more o h =
    let (text, x, f) = vsprintf_loop_lem fuel format more o h in (text, x, >>=-some _ f refl)
