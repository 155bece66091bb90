-- ===== src/Keyboard/Handler.antt =====
-- What the keyboard's interrupts do to its buffer.
use Prim.Native.Nat.{bit_and}
use tie_zhu_os.Base.{
  ℕ, ◌-◌, ◌^◌, ◌≡◌, ◌≢◌, ◌⊎◌, inl, inr, refl, sym, subst, Bool, true, false, not, ◌&&◌, ◌||◌, List,
  [], ◌∷◌, ◌++◌, length, ltb, ◌==◌, if◌then◌else◌, arith, Bool-cases,
}
use tie_zhu_os.LinkedList.{Addr, null}
use tie_zhu_os.IoQueue.{
  IoQueue, Round, locked_out, waits, done, ioqueue_init, ioq_full, ioq_putchar,
}
use tie_zhu_os.IoQueue.Contents.{IsQueue, contents, Puts, ioq_putchar-Puts, ioq_length_lem}
use tie_zhu_os.Base.Bits.{passes, pass_at}
use tie_zhu_os.Keyboard.{
  Keyboard, keymap, shift_l_make, shift_r_make, alt_l_make, alt_r_make, ctrl_l_make, ctrl_r_make,
  caps_lock_make, ignores_caps, break_key, temp_shift, shortcut, put_char, make_key,
  intr_keyboard_handler, keyboard_init,
}

-- The keyboard behind a list of interrupts.
abbrev pub interrupts : List ℕ → Keyboard → Keyboard
interrupts [] k = k
interrupts (c ∷ cs) k = interrupts cs (intr_keyboard_handler c k).0

pub record IsKeyboard (k : Keyboard) : Type 0 where
  pub caps : (k.caps_lock_status ≡ 0) ⊎ (k.caps_lock_status ≡ 2 ^ 32 - 1)
  pub buffer : IsQueue k.keyboard_iobuffer

-- What becomes of a character: it is appended to the buffer, or dropped where that is full.
abbrev pub typed : ℕ → List ℕ → List ℕ
typed c held = if c == 0 || length held == 63 then held else held ++ c ∷ []

put_round :
    (c : ℕ) (k : Keyboard) (round : Round)
    → IsKeyboard k
    → length (contents k.keyboard_iobuffer) ≢ 63
    → Puts null c k.keyboard_iobuffer round
    → (q : IoQueue) × (w : Addr) × (elim round as (λ x. Keyboard × Addr) [
      | locked_out ↦ (k, null)
      | waits q ↦ (record k { keyboard_iobuffer = q }, null)
      | done x woken q ↦ (record k { keyboard_iobuffer = q }, woken)
    ]
        ≡ (record k { keyboard_iobuffer = q }, w))
      × (contents q ≡ contents k.keyboard_iobuffer ++ c ∷ [])
      × IsQueue q
put_round c k locked_out v room (e, _) = absurd (room e)
put_round c k (waits q) v room (e, _, _, _, _) = absurd (room e)
put_round c k (done x woken q) v room (_, e, _, _, i) = (q, woken, refl, e, i)

-- `put_char` changes only the buffer.
put_char_lem :
    (c : ℕ) (k : Keyboard)
    → IsKeyboard k
    → (q : IoQueue) × (w : Addr) × (put_char c k ≡ (record k { keyboard_iobuffer = q }, w))
      × (contents q ≡ typed c (contents k.keyboard_iobuffer))
      × IsQueue q
unfolding put_char
put_char_lem c k v = elim (Bool-cases (c == 0 || ioq_full k.keyboard_iobuffer)) [
  | inl dropped ↦ (
    k.keyboard_iobuffer,
    null,
    rw dropped refl,
    ground (arith, ioq_length_lem k.keyboard_iobuffer v.buffer),
    v.buffer,
  )
  | inr put ↦
      let (q, w, e, f, i) =
        put_round c k (ioq_putchar null c k.keyboard_iobuffer) v
          (ground (arith, ioq_length_lem k.keyboard_iobuffer v.buffer))
          (ioq_putchar-Puts null c k.keyboard_iobuffer v.buffer) in
      (q, w, rw put e, ground (arith, ioq_length_lem k.keyboard_iobuffer v.buffer), i)
]

put_char-IsKeyboard : (c : ℕ) (k : Keyboard) → IsKeyboard k → IsKeyboard (put_char c k).0
put_char-IsKeyboard c k v =
    let (q, w, e, _, i) = put_char_lem c k v in
    subst (λ p. IsKeyboard p.0) (sym e) (record { caps = v.caps; buffer = i })

make_key-IsKeyboard : (code : ℕ) (k : Keyboard) → IsKeyboard k → IsKeyboard (make_key code k).0
unfolding make_key
make_key-IsKeyboard code k v = elim (Bool-cases (code == shift_l_make || code == shift_r_make)) [
  | inl shift ↦ rw shift (record { caps = v.caps; buffer = v.buffer })
  | inr no_shift ↦ elim (Bool-cases (code == alt_l_make || code == alt_r_make)) [
    | inl alt ↦ rw (no_shift, alt) (record { caps = v.caps; buffer = v.buffer })
    | inr no_alt ↦ elim (Bool-cases (code == ctrl_l_make || code == ctrl_r_make)) [
      | inl ctrl ↦ rw (no_shift, no_alt, ctrl) (record { caps = v.caps; buffer = v.buffer })
      | inr no_ctrl ↦ elim (Bool-cases (code == caps_lock_make)) [
        | inl caps ↦
            rw (no_shift, no_alt, no_ctrl, caps)
              (record { caps = ground (arith, v.caps); buffer = v.buffer })
        | inr no_caps ↦ elim (Bool-cases (ltb 0 code && ltb code 59)) [
          | inl key ↦ rw (no_shift, no_alt, no_ctrl, no_caps, key) (put_char-IsKeyboard _ k v)
          | inr unknown ↦ rw (no_shift, no_alt, no_ctrl, no_caps, unknown) v
        ]
      ]
    ]
  ]
]

break_key-IsKeyboard : (code : ℕ) (k : Keyboard) → IsKeyboard k → IsKeyboard (break_key code k)
unfolding break_key
break_key-IsKeyboard code k v = elim (Bool-cases (code == shift_l_make)) [
  | inl shift ↦ rw shift (record { caps = v.caps; buffer = v.buffer })
  | inr no_shift ↦ elim (Bool-cases (code == alt_l_make)) [
    | inl alt ↦ rw (no_shift, alt) (record { caps = v.caps; buffer = v.buffer })
    | inr no_alt ↦ elim (Bool-cases (code == ctrl_l_make)) [
      | inl ctrl ↦ rw (no_shift, no_alt, ctrl) (record { caps = v.caps; buffer = v.buffer })
      | inr no_ctrl ↦ rw (no_shift, no_alt, no_ctrl) v
    ]
  ]
]

-- Every interrupt keeps the buffer in its bounds and the state of Caps Lock one of two values.
pub handler-IsKeyboard :
    (scancode : ℕ) (k : Keyboard) → IsKeyboard k → IsKeyboard (intr_keyboard_handler scancode k).0
unfolding intr_keyboard_handler
handler-IsKeyboard scancode k v = elim (Bool-cases (scancode == 224)) [
  | inl extended ↦ rw extended (record { caps = v.caps; buffer = v.buffer })
  | inr single ↦ elim (Bool-cases (bit_and scancode 128 == 0)) [
    | inl make ↦
        rw (single, make) (make_key-IsKeyboard _ _ (record { caps = v.caps; buffer = v.buffer }))
    | inr release ↦
        rw (single, release)
          (break_key-IsKeyboard _ _ (record { caps = v.caps; buffer = v.buffer }))
  ]
]

interrupts-IsKeyboard : (cs : List ℕ) (k : Keyboard) → IsKeyboard k → IsKeyboard (interrupts cs k)
interrupts-IsKeyboard [] k v = v
interrupts-IsKeyboard (c ∷ cs) k v = interrupts-IsKeyboard cs _ (handler-IsKeyboard c k v)

init-IsKeyboard : IsKeyboard keyboard_init
unfolding keyboard_init ioqueue_init
init-IsKeyboard = record {
  caps = inl refl;
  buffer = record { head_in = omega arith; tail_in = omega arith };
}

-- A code with a character.
abbrev pub is_key : ℕ → Bool
is_key code =
    ltb 0 code
    && ltb code 59
    && not (
        code == shift_l_make
        || code == shift_r_make
        || code == alt_l_make
        || code == ctrl_l_make
        || code == caps_lock_make)

is_make : (code : ℕ) → ltb code 59 ≡ true → (bit_and code 128 == 0) ≡ true
unfolding passes
is_make code lt = pass_at 59 (λ c. bit_and c 128 == 0) code refl (ground arith)

shift_alone :
    (code : ℕ) (k : Keyboard)
    → IsKeyboard k
    → (if ignores_caps code then k.shift_status else temp_shift k) ≡ k.shift_status
shift_alone code k v = elim (Bool-cases (ignores_caps code)) [
  | inl same ↦ rw same refl
  | inr caps ↦ rw caps (ground (arith, v.caps))
]

key_handled :
    (code : ℕ) (k : Keyboard)
    → IsKeyboard k
    → k.ext_scancode ≡ false
    → is_key code ≡ true
    → intr_keyboard_handler code k
      ≡ put_char
          (shortcut k.ctrl_status (keymap code k.shift_status))
          (record k { ext_scancode = false })
unfolding intr_keyboard_handler make_key
key_handled code k v plain key =
    rw
      (
        plain,
        single,
        is_make code small,
        no_shift,
        no_alt,
        no_ctrl,
        no_caps,
        known,
        shift_alone code k v,
      )
      refl
  where
    single : (code == 224) ≡ false
    single = ground (arith, key)

    small : ltb code 59 ≡ true
    small = ground (arith, key)

    no_shift : (code == shift_l_make || code == shift_r_make) ≡ false
    no_shift = ground (arith, key)

    no_alt : (code == alt_l_make || code == alt_r_make) ≡ false
    no_alt = ground (arith, key)

    no_ctrl : (code == ctrl_l_make || code == ctrl_r_make) ≡ false
    no_ctrl = ground (arith, key)

    no_caps : (code == caps_lock_make) ≡ false
    no_caps = ground (arith, key)

    known : (ltb 0 code && ltb code 59) ≡ true
    known = ground (arith, key)

-- Caps Lock has no effect: after any interrupts since `keyboard_init`, a key puts the character of its
-- column for shift alone into the buffer (`l` and `u` with control as shortcuts), or nothing where the
-- buffer is full.
pub caps_lock_never :
    (cs : List ℕ) (code : ℕ) (k : Keyboard)
    → interrupts cs keyboard_init ≡ k
    → k.ext_scancode ≡ false
    → is_key code ≡ true
    → contents (intr_keyboard_handler code k).0.keyboard_iobuffer
      ≡ typed (shortcut k.ctrl_status (keymap code k.shift_status)) (contents k.keyboard_iobuffer)
caps_lock_never cs code k e plain key =
    let (q, w, f, h, _) =
      put_char_lem (shortcut k.ctrl_status (keymap code k.shift_status))
        (record k { ext_scancode = false }) (record { caps = v.caps; buffer = v.buffer }) in
    rw (key_handled code k v plain key, f) h
  where
    v : IsKeyboard k
    v = subst IsKeyboard e (interrupts-IsKeyboard cs keyboard_init init-IsKeyboard)

-- The right shift key sticks: once pressed and released, shift stays set. The left one does not.
pub right_shift_sticks :
    (k : Keyboard)
    → k.ext_scancode ≡ false
    → ((interrupts (54 ∷ 182 ∷ []) k).shift_status ≡ true)
      × ((interrupts (42 ∷ 170 ∷ []) k).shift_status ≡ false)
unfolding intr_keyboard_handler make_key break_key
right_shift_sticks k plain = rw plain (refl, refl)
