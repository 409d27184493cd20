-- ===== src/Idt/Vectors.antt =====
-- idt.c, `idt_set` and `idt_init`: where the processor goes on an interrupt.
use os_kernel_application_si.Base.{
  ℕ, ◌+◌, ◌*◌, ◌<◌, ◌≡◌, ◌==◌, if◌then◌else◌, List, some, length, get_elem?,
}
use os_kernel_application_si.Idt.{total_interrupts, IdtDesc, Routines, descriptor_of}

-- The address that a descriptor holds
abbrev pub target : IdtDesc → ℕ
target d = d.offset_1 + d.offset_2 * 65536

-- The routine of a vector
unfoldable pub routine : Routines → ℕ → ℕ
routine r i =
    if i == 0x80
    then r.isr80h_wrapper
    else if i == 0x21
    then r.int21h
    else if i == 0x20
    then r.int20h
    else if i == 0
    then r.idt_zero
    else r.no_interrupt

-- Every vector of the table goes to the address that `f` gives for it.
record Targets (f : ℕ → ℕ) (ds : List IdtDesc) : Type 0 where
  total : length ds ≡ total_interrupts
  at_vector : (i : ℕ) → i < total_interrupts → get_elem? ds i ≡ some (descriptor_of (f i))
