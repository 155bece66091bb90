-- ===== src/Keyboard.antt =====
-- device/keyboard.c: the interrupt handler of the keyboard.
pub mod Handler
use Prim.Native.Nat.{bit_and, bit_or}
use tie_zhu_os.Base.{
  ℕ, ◌+◌, ◌-◌, ◌^◌, Bool, true, false, not, ◌&&◌, ◌||◌, List, [], ◌∷◌, get_or, leb, ltb, ◌==◌,
  if◌then◌else◌,
}
use tie_zhu_os.LinkedList.{Addr, null}
use tie_zhu_os.IoQueue.{
  IoQueue, Round, locked_out, waits, done, ioqueue_init, ioq_full, ioq_putchar,
}

-- The characters of the make codes 0 to 0x3a, and those with shift.
abbrev pub keymap_plain : List ℕ
keymap_plain =
    0 ∷ 27 ∷ 49 ∷ 50 ∷ 51 ∷ 52 ∷ 53 ∷ 54 ∷ 55 ∷ 56 ∷ 57 ∷ 48 ∷ 45 ∷ 61 ∷ 8 ∷ 9 ∷ 113 ∷ 119 ∷ 101
    ∷ 114 ∷ 116 ∷ 121 ∷ 117 ∷ 105 ∷ 111 ∷ 112 ∷ 91 ∷ 93 ∷ 13 ∷ 0 ∷ 97 ∷ 115 ∷ 100 ∷ 102 ∷ 103 ∷ 104
    ∷ 106 ∷ 107 ∷ 108 ∷ 59 ∷ 39 ∷ 96 ∷ 0 ∷ 92 ∷ 122 ∷ 120 ∷ 99 ∷ 118 ∷ 98 ∷ 110 ∷ 109 ∷ 44 ∷ 46 ∷ 47
    ∷ 0 ∷ 42 ∷ 0 ∷ 32 ∷ 0 ∷ []

abbrev pub keymap_shift : List ℕ
keymap_shift =
    0 ∷ 27 ∷ 33 ∷ 64 ∷ 35 ∷ 36 ∷ 37 ∷ 94 ∷ 38 ∷ 42 ∷ 40 ∷ 41 ∷ 95 ∷ 43 ∷ 8 ∷ 9 ∷ 81 ∷ 87 ∷ 69 ∷ 82
    ∷ 84 ∷ 89 ∷ 85 ∷ 73 ∷ 79 ∷ 80 ∷ 123 ∷ 125 ∷ 13 ∷ 0 ∷ 65 ∷ 83 ∷ 68 ∷ 70 ∷ 71 ∷ 72 ∷ 74 ∷ 75 ∷ 76
    ∷ 58 ∷ 34 ∷ 126 ∷ 0 ∷ 124 ∷ 90 ∷ 88 ∷ 67 ∷ 86 ∷ 66 ∷ 78 ∷ 77 ∷ 60 ∷ 62 ∷ 63 ∷ 0 ∷ 42 ∷ 0 ∷ 32
    ∷ 0 ∷ []

unfoldable pub keymap : ℕ → Bool → ℕ
keymap code shift = if shift then get_or keymap_shift code 0 else get_or keymap_plain code 0

-- The static variables; `caps_lock_status` is the 32-bit number behind its `bool`.
pub record Keyboard : Type 0 where
  pub ctrl_status : Bool
  pub shift_status : Bool
  pub alt_status : Bool
  pub caps_lock_status : ℕ
  pub ext_scancode : Bool
  pub keyboard_iobuffer : IoQueue

abbrev pub shift_l_make : ℕ
shift_l_make = 42

abbrev pub shift_r_make : ℕ
shift_r_make = 54

abbrev pub alt_l_make : ℕ
alt_l_make = 56

abbrev pub alt_r_make : ℕ
alt_r_make = 57400

abbrev pub ctrl_l_make : ℕ
ctrl_l_make = 29

abbrev pub ctrl_r_make : ℕ
ctrl_r_make = 57373

abbrev pub caps_lock_make : ℕ
caps_lock_make = 58

-- The codes that ignore Caps Lock.
unfoldable pub ignores_caps : ℕ → Bool
ignores_caps code =
    (leb 1 code && leb code 13)
    || code == 26
    || code == 27
    || code == 39
    || code == 40
    || code == 41
    || code == 43
    || leb 51 code

-- `~` on 32 bits.
abbrev pub complement : ℕ → ℕ
complement n = 2 ^ 32 - 1 - n

unfoldable pub break_key : ℕ → Keyboard → Keyboard
break_key make_code k =
    if make_code == shift_l_make
    then record k { shift_status = false }
    else (if make_code == alt_l_make
        then record k { alt_status = false }
        else (if make_code == ctrl_l_make then record k { ctrl_status = false } else k))

abbrev pub temp_shift : Keyboard → Bool
temp_shift k =
    if k.shift_status && (k.caps_lock_status == 1)
    then false
    else (if k.caps_lock_status == 1 then true else k.shift_status)

-- `cur_char -= 'a'` for control and `l` or `u`.
unfoldable pub shortcut : Bool → ℕ → ℕ
shortcut ctrl c = if (ctrl && c == 108) || (ctrl && c == 117) then c - 97 else c

-- The keyboard behind the interrupt, and the thread that it unlocks (`null` for none).
unfoldable pub put_char : ℕ → Keyboard → Keyboard × Addr
put_char c k =
    if c == 0 || ioq_full k.keyboard_iobuffer
    then (k, null)
    else elim (ioq_putchar null c k.keyboard_iobuffer) [
      | locked_out ↦ (k, null)
      | waits q ↦ (record k { keyboard_iobuffer = q }, null)
      | done x woken q ↦ (record k { keyboard_iobuffer = q }, woken)
    ]

unfoldable pub make_key : ℕ → Keyboard → Keyboard × Addr
make_key code k =
    if code == shift_l_make || code == shift_r_make
    then (record k { shift_status = true }, null)
    else (if code == alt_l_make || code == alt_r_make
        then (record k { alt_status = true }, null)
        else (if code == ctrl_l_make || code == ctrl_r_make
            then (record k { ctrl_status = true }, null)
            else (if code == caps_lock_make
                then (record k { caps_lock_status = complement k.caps_lock_status }, null)
                else (if ltb 0 code && ltb code 59
                    then put_char
                        (shortcut k.ctrl_status (
                          keymap code (if ignores_caps code then k.shift_status else temp_shift k)))
                        k
                    else (k, null)))))

-- `scancode` is the byte at port 0x60.
unfoldable pub intr_keyboard_handler : ℕ → Keyboard → Keyboard × Addr
intr_keyboard_handler scancode k =
    if scancode == 224
    then (record k { ext_scancode = true }, null)
    else (let scanned_code = if k.ext_scancode then bit_or 57344 scancode else scancode in
        let k1 = record k { ext_scancode = false } in
        if bit_and scancode 128 == 0
        then make_key scanned_code k1
        else (break_key (bit_and scanned_code 127) k1, null))

unfoldable pub keyboard_init : Keyboard
unfolding ioqueue_init
keyboard_init = record {
  ctrl_status = false;
  shift_status = false;
  alt_status = false;
  caps_lock_status = 0;
  ext_scancode = false;
  keyboard_iobuffer = ioqueue_init (λ i. 0);
}
