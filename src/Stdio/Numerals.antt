-- ===== src/Stdio/Numerals.antt =====
-- The text that `itoa` writes denotes the number.
use tie_zhu_os.Base.{
  ℕ, zero, suc, ◌+◌, ◌-◌, ◌*◌, ◌%◌, ◌/◌, ◌^◌, ◌<◌, ◌≤◌, ◌≡◌, refl, ap, sym, ◌∙◌, inl, inr, List, [],
  ◌∷◌, ◌++◌, ◌&&◌, ◌||◌, if◌then◌else◌, ltb, ◌==◌, arith, Bool, true, false, ◌≢◌, subst, Bool-cases,
}
use native.Mathlib.Nat.{
  pow-suc, mod-lt, div-mul-le_self, div-add-mod, mul_comm, mul-le-mul_left, zero-mul,
}
use tie_zhu_os.Stdio.{Output, put_char, put_digit, itoa_loop, itoa, put_decimal}

-- The bytes one behind the other.
abbrev pub put_chars : List ℕ → Output → Output
put_chars [] o = o
put_chars (c ∷ cs) o = put_chars cs (put_char c o)

put_chars-snoc :
    (cs : List ℕ) (c : ℕ) (o : Output) → put_chars (cs ++ c ∷ []) o ≡ put_char c (put_chars cs o)
put_chars-snoc [] c o = refl
put_chars-snoc (x ∷ cs) c o = put_chars-snoc cs c (put_char x o)

-- The value of a digit, of '0' to '9' and 'A' to 'F'.
abbrev pub digit_value : ℕ → ℕ
digit_value c = if ltb c 65 then c - 48 else c - 55

-- The number that digits denote, behind digits that denote `high`.
abbrev pub numeral : ℕ → ℕ → List ℕ → ℕ
numeral base high [] = high
numeral base high (c ∷ cs) = numeral base (high * base + digit_value c) cs

numeral-snoc :
    (base high : ℕ) (cs : List ℕ) (c : ℕ)
    → numeral base high (cs ++ c ∷ []) ≡ numeral base high cs * base + digit_value c
numeral-snoc base high [] c = refl
numeral-snoc base high (x ∷ cs) c = numeral-snoc base (high * base + digit_value x) cs c

-- A digit of the base.
abbrev pub is_digit : ℕ → ℕ → Bool
is_digit base c = ltb 47 c && ltb (digit_value c) base && (ltb c 58 || ltb 64 c)

abbrev pub are_digits : ℕ → List ℕ → Bool
are_digits base [] = true
are_digits base (c ∷ cs) = is_digit base c && are_digits base cs

abbrev pub starts_with : ℕ → List ℕ → Bool
starts_with c [] = false
starts_with c (x ∷ xs) = x == c

-- Digits of the base that denote the value, with no '0' in front but for 0 itself.
pub record Shows (base value : ℕ) (cs : List ℕ) : Type 0 where
  pub denotes : numeral base 0 cs ≡ value
  pub digits : are_digits base cs ≡ true
  pub leading : starts_with 48 cs ≡ (value == 0)

digit_char : ℕ → ℕ
digit_char m = if ltb m 10 then 48 + m else 65 + m - 10

digit_value-char : (m : ℕ) → m < 16 → digit_value (digit_char m) ≡ m
unfolding digit_char
digit_value-char m h = ground arith

is_digit-char : (base m : ℕ) → m < base → base ≤ 16 → is_digit base (digit_char m) ≡ true
unfolding digit_char
is_digit-char base m h le = ground arith

are_digits-snoc :
    (base : ℕ) (cs : List ℕ) (c : ℕ)
    → are_digits base cs ≡ true
    → is_digit base c ≡ true
    → are_digits base (cs ++ c ∷ []) ≡ true
are_digits-snoc base [] c all last = ground (arith, last)
are_digits-snoc base (x ∷ cs) c all last = ground (arith, are_digits-snoc base cs c)

starts_with-snoc :
    (c : ℕ) (cs : List ℕ) (d : ℕ) → cs ≢ [] → starts_with c (cs ++ d ∷ []) ≡ starts_with c cs
starts_with-snoc c [] d ne = absurd (ne refl)
starts_with-snoc c (x ∷ cs) d ne = refl

one_digit : (base value : ℕ) → value < base → base ≤ 16 → Shows base value (digit_char value ∷ [])
unfolding digit_char
one_digit base value h le = record {
  denotes = omega (arith, zero-mul base, digit_value-char value (omega arith));
  digits = ground (arith, is_digit-char base value h le);
  leading = ground arith;
}

more_digits :
    (base high m : ℕ) (cs : List ℕ)
    → m < base
    → base ≤ 16
    → 0 < high
    → Shows base high cs
    → Shows base (high * base + m) (cs ++ digit_char m ∷ [])
more_digits base high m cs h le some_high shows = record {
  denotes =
      numeral-snoc base 0 cs (digit_char m)
      ∙ omega (arith, ap (λ n. n * base) shows.denotes, digit_value-char m (omega arith));
  digits = are_digits-snoc base cs _ shows.digits (is_digit-char base m h le);
  leading =
      starts_with-snoc 48 cs (digit_char m) (λ e. nonempty (shows.denotes) e)
      ∙ shows.leading
      ∙ ground (arith, some_high, positive);
}
  where
    nonempty : numeral base 0 cs ≡ high → cs ≢ []
    nonempty d e = omega (arith, sym d ∙ ap (numeral base 0) e)

    positive : high ≤ high * base
    positive = omega (arith, mul-le-mul_left {m = 1} {n = base} high (omega arith))

put_digit-char : (m : ℕ) (o : Output) → m < 16 → put_digit m o ≡ put_char (digit_char m) o
unfolding digit_char
put_digit-char m o h = ground arith

some_left : (fuel n : ℕ) → 0 < n → n < 2 ^ fuel → 0 < fuel
some_left zero n p q = absurd (omega arith)
some_left (suc fuel) n p q = omega arith

module _ (base value : ℕ) (two : 2 ≤ base) (le : base ≤ 16) where
  last_digit : value % base < base
  last_digit = mod-lt value (omega arith)

  split : value / base * base + value % base ≡ value
  split = omega (arith, div-add-mod value base, mul_comm base (value / base))

  single : (value / base == 0) ≡ true → value % base ≡ value
  single e =
      omega
        (arith, split, zero-mul base, ap (λ n. n * base) {x = value / base} {y = 0} (ground arith))

  halved : (fuel : ℕ) → value < 2 ^ suc fuel → value / base < 2 ^ fuel
  halved fuel bound = omega (
    arith,
    pow-suc 2 fuel,
    div-mul-le_self value base,
    mul-le-mul_left {m = 2} {n = base} (value / base) two,
  )

-- A number below 2 ^ `fuel` has at most `fuel` digits.
itoa_loop_lem :
    (fuel base value : ℕ) (o : Output)
    → 2 ≤ base
    → base ≤ 16
    → value < 2 ^ fuel
    → 0 < fuel
    → (cs : List ℕ) × (itoa_loop fuel value base o ≡ put_chars cs o) × Shows base value cs
unfolding itoa_loop
itoa_loop_lem zero base value o two le bound some_fuel = absurd (omega arith)
itoa_loop_lem (suc fuel) base value o two le bound some_fuel =
    let digit = last_digit base value two le in
    elim (Bool-cases (value / base == 0)) [
      | inl one ↦
          let same = single base value two le one in
          (
            digit_char value ∷ [],
            rw (one, same) (put_digit-char value o (omega arith)),
            one_digit base value (omega arith) le,
          )
      | inr more ↦
          let less = halved base value two le fuel bound in
          let (cs, steps, shows) =
            itoa_loop_lem fuel base (value / base) o two le less
              (some_left fuel (value / base) (ground arith) less) in
          (
            cs ++ digit_char (value % base) ∷ [],
            rw more (
                put_digit-char (value % base) _ (omega arith)
                ∙ ap (put_char (digit_char (value % base))) steps
                ∙ sym (put_chars-snoc cs _ o)),
            subst (λ n. Shows base n (cs ++ digit_char (value % base) ∷ []))
                (split base value two le)
                (more_digits base (value / base) (value % base) cs digit le (ground arith) shows),
          )
    ]

-- `itoa` of a 32-bit number, to a base of 2 to 16, writes digits of that base that denote the number,
-- with no '0' in front but for 0 itself, one behind the other from the pointer on, and leaves the
-- pointer behind them.
pub itoa_lem :
    (base value : ℕ) (o : Output)
    → 2 ≤ base
    → base ≤ 16
    → value < 2 ^ 32
    → (cs : List ℕ) × (itoa value base o ≡ put_chars cs o) × Shows base value cs
unfolding itoa
itoa_lem base value o two le bound = itoa_loop_lem 32 base value o two le bound (omega arith)

-- `%d` of a word writes a minus sign just where the word is negative as an `int32_t`, and then the
-- decimal digits of its magnitude.
pub put_decimal_lem :
    (value : ℕ) (o : Output)
    → value < 2 ^ 32
    → (cs : List ℕ) × (put_decimal value o
        ≡ put_chars (if ltb value (2 ^ 31) then cs else 45 ∷ cs) o)
      × Shows 10 (if ltb value (2 ^ 31) then value else 2 ^ 32 - value) cs
unfolding put_decimal
put_decimal_lem value o bound = elim (Bool-cases (ltb value (2 ^ 31))) [
  | inl plus ↦ rw plus (itoa_lem 10 value o (omega arith) (omega arith) bound)
  | inr minus ↦
      rw minus
        (itoa_lem 10 (2 ^ 32 - value) (put_char 45 o) (omega arith) (omega arith) (ground arith))
]
