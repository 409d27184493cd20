-- ===== src/Idt.antt =====
-- idt/idt.c and idt.h: the interrupt descriptors, and the table of the kernel's commands.
pub mod Vectors
pub mod Commands
pub mod Timer
use os_kernel_application_si.Base.{
  ℕ, zero, suc, ◌+◌, ◌-◌, ◌*◌, ◌/◌, ◌%◌, ◌^◌, Bool, true, false, ltb, ◌==◌, if◌then◌else◌, List, [],
  ◌∷◌, ◌++◌, Option, none, some, length, get_elem?, set, replicate, bit_and, Run, done, fault,
  and_then, map_run, ℤ, pos, negsuc,
}

-- PEACHOS_TOTAL_INTERRUPTS
abbrev pub total_interrupts : ℕ
total_interrupts = 512

-- PEACHOS_MAX_ISR80H_COMMANDS
abbrev pub max_isr80h_commands : ℕ
max_isr80h_commands = 1024

-- `struct idt_desc`
pub record IdtDesc : Type 0 where
  pub offset_1 : ℕ
  pub selector : ℕ
  pub zeroed : ℕ
  pub type_attr : ℕ
  pub offset_2 : ℕ

-- The descriptor register, with the size of the table less 1 and its address
pub record IdtrDesc : Type 0 where
  pub limit : ℕ
  pub base : ℕ

-- The addresses of the routines of idt.asm and idt.c, and that of the table.
pub record Routines : Type 0 where
  pub no_interrupt : ℕ
  pub idt_zero : ℕ
  pub int20h : ℕ
  pub int21h : ℕ
  pub isr80h_wrapper : ℕ
  pub idt_descriptors : ℕ

-- The table, its register once loaded, and the writes to ports in their order.
pub record Interrupts : Type 0 where
  pub descriptors : List IdtDesc
  pub idtr : Option IdtrDesc
  pub ports : List (ℕ × ℕ)

unfoldable pub outb : ℕ → ℕ → Interrupts → Interrupts
outb port val s = record s { ports = s.ports ++ ((port, val) ∷ []) }

unfoldable pub no_interrupt_handler : Interrupts → Interrupts
no_interrupt_handler s = outb 0x20 0x20 s

-- KERNEL_CODE_SELECTOR is 0x08.
unfoldable pub descriptor_of : ℕ → IdtDesc
descriptor_of address = record {
  offset_1 = bit_and address 0x0000ffff;
  selector = 0x08;
  zeroed = 0x00;
  type_attr = 0xEE;
  offset_2 = address / 65536;
}

unfoldable pub idt_set : ℕ → ℕ → List IdtDesc → Run (List IdtDesc)
idt_set interrupt_no address ds =
    if ltb interrupt_no (length ds)
    then done (set ds interrupt_no (descriptor_of address))
    else fault

-- `n` rounds are left, from vector `i` on.
unfoldable pub idt_set_loop : ℕ → ℕ → ℕ → List IdtDesc → Run (List IdtDesc)
idt_set_loop zero i address ds = done ds
idt_set_loop (suc n) i address ds =
    and_then (idt_set i address ds) λ ds'. idt_set_loop n (i + 1) address ds'

-- What `memset` leaves of a descriptor
abbrev pub no_descriptor : IdtDesc
no_descriptor = record { offset_1 = 0; selector = 0; zeroed = 0; type_attr = 0; offset_2 = 0 }

-- The table that `idt_init` writes
unfoldable pub idt_table : Routines → Run (List IdtDesc)
idt_table r =
    and_then
      (idt_set_loop total_interrupts 0 r.no_interrupt (replicate total_interrupts no_descriptor))
      λ d0. and_then (idt_set 0 r.idt_zero d0) λ d1.
        and_then (idt_set 0x20 r.int20h d1)
          λ d2. and_then (idt_set 0x21 r.int21h d2) λ d3. idt_set 0x80 r.isr80h_wrapper d3

-- With the table written: the register, where a descriptor has 8 bytes, and the writes to the ports
-- of the two interrupt controllers.
abbrev pub with_table : Routines → Interrupts → List IdtDesc → Interrupts
with_table r s ds = record {
  descriptors = ds;
  idtr = some (record { limit = total_interrupts * 8 - 1; base = r.idt_descriptors });
  ports =
      s.ports
      ++ ((0x20, 0x11)
          ∷ (0xA0, 0x11)
          ∷ (0x21, 0x20)
          ∷ (0xA1, 0x28)
          ∷ (0x21, 0x04)
          ∷ (0xA1, 0x02)
          ∷ (0x21, 0x01)
          ∷ (0xA1, 0x01)
          ∷ (0x21, 0x00)
          ∷ (0xA1, 0x00)
          ∷ []);
}

unfoldable pub idt_init : Routines → Interrupts → Run Interrupts
idt_init r s = map_run (with_table r s) (idt_table r)

module _ {ℓ} {C : Type ℓ} where
  -- A panic does not return.
  unfoldable pub isr80h_register_command : ℤ → C → List (Option C) → Run (List (Option C))
  isr80h_register_command (negsuc n) command commands = fault
  isr80h_register_command (pos id) command commands =
      if ltb id max_isr80h_commands
      then elim (get_elem? commands id) [
        | none ↦ fault
        | some entry ↦ elim entry [
          | some old ↦ fault
          | none ↦ done (set commands id (some command))
        ]
      ]
      else fault

  -- The function that `isr80h_handle_command` calls, if it calls one; the result is 0 without.
  unfoldable pub isr80h_handle_command : ℤ → List (Option C) → Run (Option C)
  isr80h_handle_command (negsuc n) commands = done none
  isr80h_handle_command (pos id) commands =
      if ltb id max_isr80h_commands
      then elim (get_elem? commands id) [ none ↦ fault | some entry ↦ done entry ]
      else done none

-- The functions of isr80h/, by their names without `isr80h_`
pub data SystemCommand : Type 0 where
  command0_sum command1_print command2_open command3_read command4_fork command5_exit
        command6_readline command7_write command8_delete command9_close command10_readdir
        command11_wait :
      SystemCommand

-- isr80h.h, `enum SystemCommands`
pub data SystemCommands : Type 0 where
  system_command0_sum system_command1_print system_command2_open system_command3_read
        system_command4_fork system_command5_exit system_command6_readline system_command7_write
        system_command8_delete system_command9_close system_command10_readdir
        system_command11_wait :
      SystemCommands

unfoldable pub value : SystemCommands → ℕ
value system_command0_sum = 0
value system_command1_print = 1
value system_command2_open = 2
value system_command3_read = 3
value system_command4_fork = 4
value system_command5_exit = 5
value system_command6_readline = 6
value system_command7_write = 7
value system_command8_delete = 8
value system_command9_close = 9
value system_command10_readdir = 10
value system_command11_wait = 11

-- The arguments of the calls of `isr80h_register_command`, in their order
abbrev pub registrations : List (SystemCommands × SystemCommand)
registrations =
    (system_command0_sum, command0_sum)
    ∷ (system_command1_print, command1_print)
    ∷ (system_command2_open, command2_open)
    ∷ (system_command3_read, command3_read)
    ∷ (system_command4_fork, command4_fork)
    ∷ (system_command5_exit, command5_exit)
    ∷ (system_command6_readline, command6_readline)
    ∷ (system_command7_write, command7_write)
    ∷ (system_command8_delete, command8_delete)
    ∷ (system_command9_close, command9_close)
    ∷ (system_command10_readdir, command10_readdir)
    ∷ (system_command11_wait, command11_wait)
    ∷ []

unfoldable pub register_all :
    List (SystemCommands × SystemCommand)
    → List (Option SystemCommand)
    → Run (List (Option SystemCommand))
register_all [] commands = done commands
register_all (r ∷ rs) commands =
    and_then (isr80h_register_command (pos (value (r.0))) (r.1) commands) (register_all rs)

unfoldable pub isr80h_register_commands :
    List (Option SystemCommand) → Run (List (Option SystemCommand))
isr80h_register_commands commands = register_all registrations commands
