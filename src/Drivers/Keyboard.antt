-- ===== src/Drivers/Keyboard.antt =====
-- The keyboard's interrupt, `keyboard_irq1_handler` of src/kernel/interrupts/pic.c.
use toy_kernel.Common.{
  ℕ, ◌-◌, Bool, true, false, ◌&&◌, ◌||◌, List, [], ◌∷◌, ltb, leb, ◌==◌, if◌then◌else◌, get_or,
}
use toy_kernel.Drivers.Ports.{Ports}
use toy_kernel.Drivers.Pic.{send_pic_eoi}

-- `key_info_t` of src/kernel/keyboard/keyboard.h
pub record KeyInfo : Type 0 where
  pub key : ℕ
  pub shift : Bool
  pub ctrl : Bool

-- The string literal `scancode_to_ascii`, with the 0 at its end.
abbrev pub scancode_to_ascii : List ℕ
scancode_to_ascii =
    0x00 ∷ 0x1b ∷ 0x31 ∷ 0x32 ∷ 0x33 ∷ 0x34 ∷ 0x35 ∷ 0x36 ∷ 0x37 ∷ 0x38 ∷ 0x39 ∷ 0x30 ∷ 0x2d ∷ 0x3d
    ∷ 0x08 ∷ 0x00 ∷ 0x71 ∷ 0x77 ∷ 0x65 ∷ 0x72 ∷ 0x74 ∷ 0x79 ∷ 0x75 ∷ 0x69 ∷ 0x6f ∷ 0x70 ∷ 0x5b
    ∷ 0x5d ∷ 0x0d ∷ 0x1d ∷ 0x61 ∷ 0x73 ∷ 0x64 ∷ 0x66 ∷ 0x67 ∷ 0x68 ∷ 0x6a ∷ 0x6b ∷ 0x6c ∷ 0x3b
    ∷ 0x27 ∷ 0x60 ∷ 0x00 ∷ 0x5c ∷ 0x7a ∷ 0x78 ∷ 0x63 ∷ 0x76 ∷ 0x62 ∷ 0x6e ∷ 0x6d ∷ 0x2c ∷ 0x2e
    ∷ 0x2f ∷ 0x00 ∷ 0x00 ∷ 0x00 ∷ 0x20 ∷ 0x00 ∷ []

-- `)!@#$%^&*(`
abbrev pub num_row_shifts : List ℕ
num_row_shifts = 0x29 ∷ 0x21 ∷ 0x40 ∷ 0x23 ∷ 0x24 ∷ 0x25 ∷ 0x5e ∷ 0x26 ∷ 0x2a ∷ 0x28 ∷ []

-- The other shifted keys; a key that is not listed stays as it is.
unfoldable pub shift_other : ℕ → ℕ
shift_other key =
    if key == 0x3d
    then 0x2b
    else if key == 0x5c
    then 0x7c
    else if key == 0x60
    then 0x7e
    else if key == 0x5b
    then 0x7b
    else if key == 0x5d
    then 0x7d
    else if key == 0x27
    then 0x22
    else if key == 0x3b
    then 0x3a
    else if key == 0x2c
    then 0x3c
    else if key == 0x2e
    then 0x3e
    else if key == 0x2f
    then 0x3f
    else key

unfoldable pub shifted : ℕ → ℕ
unfolding shift_other
shifted key =
    if leb 0x61 key && leb key 0x7a
    then key - 0x20
    else if leb 0x30 key && leb key 0x39
    then get_or num_row_shifts (key - 0x30) 0
    else shift_other key

-- `beyond` is what the code reads behind the end of the literal.
unfoldable pub translate : (beyond : ℕ → ℕ) → (shift : Bool) → (key : ℕ) → ℕ
unfolding shifted
translate beyond shift key =
    let ascii = get_or scancode_to_ascii key (beyond key) in if shift then shifted ascii else ascii

unfoldable pub scan : (beyond : ℕ → ℕ) → KeyInfo → ℕ → KeyInfo
unfolding translate
scan beyond info key =
    if key == 0
    then info
    else if key == 0x2a || key == 0x36
    then record info { shift = true }
    else if key == 0xaa || key == 0xb6
    then record info { shift = false }
    else if key == 0x1d
    then record info { ctrl = true }
    else if key == 0x9d
    then record info { ctrl = false }
    else if ltb key 0x80
    then record info { key = translate beyond info.shift key }
    else info

-- The handler on the byte that the keyboard's port gives.
unfoldable pub keyboard_irq1_handler :
    (beyond : ℕ → ℕ) → Ports × KeyInfo → (scancode : ℕ) → Ports × KeyInfo
unfolding scan send_pic_eoi
keyboard_irq1_handler beyond (ports, info) scancode =
    (send_pic_eoi ports 1, scan beyond info scancode)
