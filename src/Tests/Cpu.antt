-- ===== src/Tests/Cpu.antt =====
-- The processor's tables, the terminal, the keyboard's interrupt, and a line that is read.
use os_kernel_application_si.Base.{
  ℕ, ◌<◌, ◌≡◌, ◌↔◌, refl, inr, arith, List, [], ◌∷◌, replicate, length-replicate, Option, none,
  some, pos, done, fault,
}
use os_kernel_application_si.Gdt.{GdtStructured, encode_gdt_entry}
use os_kernel_application_si.Gdt.Decoding.{decode, encode_gdt_entry-decode}
use os_kernel_application_si.Idt.{Routines, Interrupts, SystemCommand}
use os_kernel_application_si.Keyboard.{KeyboardBuffer}
use os_kernel_application_si.Keyboard.Classic.{clasic_keyboard_handle_interrupt}
use os_kernel_application_si.Keyboard.Scancodes.{clasic_keyboard_handle_interrupt-fault}
use os_kernel_application_si.Memory.Heap.{Heap}
use os_kernel_application_si.Memory.Paging.Blocks.{IsPool, free_count}
use os_kernel_application_si.Terminal.{Terminal, terminal_writechar}
use os_kernel_application_si.Terminal.Screen.{IsScreen, Written, terminal_writechar-Written}
use os_kernel_application_si.Isr80h.{readline}
use os_kernel_application_si.Isr80h.Editing.{edit}
use os_kernel_application_si.Isr80h.ReadLine.{typed_line, readline-fault}

abbrev code_segment : GdtStructured
code_segment = record { base = 0; limit = 0xffffffff; type = 0x9a }

encode_gdt_entry-decode_example :
    (d : List ℕ) × (encode_gdt_entry code_segment ≡ done d)
    × (decode d ≡ record { base = 0; access = 0x9a; limit = 0xffffffff })
encode_gdt_entry-decode_example =
    encode_gdt_entry-decode code_segment
      (record { base = omega arith; limit = omega arith; pages = inr refl })

abbrev no_commands : List (Option SystemCommand)
no_commands = replicate 1024 none

abbrev routines : Routines
routines = record {
  no_interrupt = 0x100100;
  idt_zero = 0x100200;
  int20h = 0x100300;
  int21h = 0x100400;
  isr80h_wrapper = 0x100500;
  idt_descriptors = 0x200000;
}

abbrev at_boot : Interrupts
at_boot = record { descriptors = []; idtr = none; ports = [] }

abbrev no_keys : KeyboardBuffer
no_keys = record { buffer = replicate 1024 0; tail = 0; head = 0 }

clasic_keyboard_handle_interrupt-fault_example :
    (clasic_keyboard_handle_interrupt 0x52 (some no_keys) ≡ fault) ↔ ◌≡◌ {A = ℕ} 0x52 82
clasic_keyboard_handle_interrupt-fault_example =
    clasic_keyboard_handle_interrupt-fault 0x52 (some no_keys)

-- The last cell of the screen
abbrev full_screen : Terminal
full_screen = record { video_mem = replicate 1600 0x20; row = 19; col = 79; ports = [] }

full_screen-IsScreen : IsScreen full_screen
full_screen-IsScreen = record {
  size = length-replicate {A = ℕ} 1600 0x20;
  row = omega arith;
  col = omega arith;
}

terminal_writechar-Written_example :
    Written 65 15 full_screen (terminal_writechar 65 15 full_screen)
terminal_writechar-Written_example =
    terminal_writechar-Written 65 15 full_screen full_screen-IsScreen (λ e. omega (arith, e))
      (λ e. omega (arith, e))

-- An end of line from before, `a`, `b`, a backspace, `c`, and the end of the line
abbrev typed_keys : List ℕ
typed_keys = 10 ∷ 97 ∷ 98 ∷ 0x08 ∷ 0 ∷ 99 ∷ 13 ∷ []

typed_run : typed_line 15 typed_keys ≡ some (97 ∷ 99 ∷ 13 ∷ [])
unfolding typed_line edit
typed_run = refl

-- Four free blocks
abbrev four_blocks : Heap
four_blocks = record {
  table = record { entries = replicate 4 0x00; total = 4 };
  saddr = 0x01000000;
}

four_blocks-IsPool : IsPool four_blocks
four_blocks-IsPool = record { total = refl; aligned = refl; low = omega arith; high = omega arith }

four_free : 0 < free_count four_blocks.table.entries
unfolding free_count
four_free = omega arith

readline-fault_example : readline (pos 1) four_blocks (97 ∷ []) full_screen ≡ fault
readline-fault_example =
    readline-fault four_blocks 97 [] full_screen four_blocks-IsPool four_free refl
      (λ e. omega (arith, e)) full_screen-IsScreen
