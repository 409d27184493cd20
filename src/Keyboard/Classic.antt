-- ===== src/Keyboard/Classic.antt =====
-- keyboard/classic.c: the scancodes of the keyboard.
use os_kernel_application_si.Base.{
  ℕ, ◌+◌, ◌&&◌, ltb, leb, ◌==◌, if◌then◌else◌, List, [], ◌∷◌, Option, none, some, get_elem?,
  bit_and, Run, done, fault, and_then,
}
use os_kernel_application_si.Keyboard.{KeyboardBuffer, keyboard_push}

abbrev pub keyboard_scan_set_one : List ℕ
keyboard_scan_set_one =
    0x00 ∷ 0x1B ∷ 49 ∷ 50 ∷ 51 ∷ 52 ∷ 53 ∷ 54 ∷ 55 ∷ 56 ∷ 57 ∷ 48 ∷ 45 ∷ 61 ∷ 0x08 ∷ 9 ∷ 81 ∷ 87
    ∷ 69 ∷ 82 ∷ 84 ∷ 89 ∷ 85 ∷ 73 ∷ 79 ∷ 80 ∷ 91 ∷ 93 ∷ 0x0d ∷ 0x00 ∷ 65 ∷ 83 ∷ 68 ∷ 70 ∷ 71 ∷ 72
    ∷ 74 ∷ 75 ∷ 76 ∷ 59 ∷ 39 ∷ 96 ∷ 0x00 ∷ 92 ∷ 90 ∷ 88 ∷ 67 ∷ 86 ∷ 66 ∷ 78 ∷ 77 ∷ 44 ∷ 46 ∷ 47
    ∷ 0x00 ∷ 42 ∷ 0x00 ∷ 0x20 ∷ 0x00 ∷ 0x00 ∷ 0x00 ∷ 0x00 ∷ 0x00 ∷ 0x00 ∷ 0x00 ∷ 0x00 ∷ 0x00 ∷ 0x00
    ∷ 0x00 ∷ 55 ∷ 56 ∷ 57 ∷ 45 ∷ 52 ∷ 53 ∷ 54 ∷ 43 ∷ 49 ∷ 50 ∷ 51 ∷ 48 ∷ 46 ∷ []

-- The table has 82 entries; a read behind its end is a fault.
unfoldable pub classic_keyboard_scancode_to_char : ℕ → Run ℕ
classic_keyboard_scancode_to_char scancode =
    if ltb 82 scancode
    then done 0
    else elim (get_elem? keyboard_scan_set_one scancode) [ none ↦ fault | some c ↦ done c ]

abbrev pub lower : ℕ → ℕ
lower c = if leb 65 c && leb c 90 then c + 32 else c

-- `keyboard` is the buffer of the current process, which a push changes.
unfoldable pub clasic_keyboard_handle_interrupt :
    ℕ → Option KeyboardBuffer → Run (Option KeyboardBuffer)
clasic_keyboard_handle_interrupt scancode keyboard =
    let pressed =
      and_then (classic_keyboard_scancode_to_char scancode)
        λ c. if c == 0 then done keyboard else done (keyboard_push keyboard (lower c)) in
    if bit_and scancode 0x80 == 0 then pressed else done keyboard
