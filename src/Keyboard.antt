-- ===== src/Keyboard.antt =====
-- keyboard/keyboard.c: the buffer of a process. `tail` and `head` are the 32-bit patterns of their
-- `int`s; a process that is not there is `none`.
pub mod Queue
pub mod Classic
pub mod Scancodes
use os_kernel_application_si.Base.{
  ℕ, ◌+◌, ◌-◌, ◌%◌, ◌^◌, Option, none, some, List, ◌==◌, if◌then◌else◌, get_or, set,
}

-- PEACHOS_KEYBOARD_BUFFER_SIZE
abbrev pub keyboard_buffer_size : ℕ
keyboard_buffer_size = 1024

-- `struct keyboard_buffer`
pub record KeyboardBuffer : Type 0 where
  pub buffer : List ℕ
  pub tail : ℕ
  pub head : ℕ

unfoldable pub keyboard_get_tail_index : KeyboardBuffer → ℕ
keyboard_get_tail_index keyboard = keyboard.tail % keyboard_buffer_size

unfoldable pub keyboard_backspace : KeyboardBuffer → KeyboardBuffer
keyboard_backspace keyboard =
    let back = record keyboard { tail = (keyboard.tail + 2 ^ 32 - 1) % 2 ^ 32 } in
    record back { buffer = set keyboard.buffer (keyboard_get_tail_index back) 0x00 }

unfoldable pub keyboard_push : Option KeyboardBuffer → ℕ → Option KeyboardBuffer
keyboard_push none c = none
keyboard_push (some keyboard) c = some (record keyboard {
  buffer = set keyboard.buffer (keyboard_get_tail_index keyboard) c;
  tail = (keyboard.tail + 1) % 2 ^ 32;
})

-- The character, 0 if there is none.
unfoldable pub keyboard_pop : Option KeyboardBuffer → ℕ × Option KeyboardBuffer
keyboard_pop none = (0, none)
keyboard_pop (some keyboard) =
    let real_index = keyboard.head % keyboard_buffer_size in
    let c = get_or keyboard.buffer real_index 0x00 in
    if c == 0x00 then (0, some keyboard) else (
      c,
      some (record keyboard {
        buffer = set keyboard.buffer real_index 0;
        head = (keyboard.head + 1) % 2 ^ 32;
      }),
    )
