-- ===== src/Idt/Commands.antt =====
-- idt.c, `isr80h_register_command` and `isr80h_handle_command`.
use os_kernel_application_si.Base.{
  ℕ, zero, suc, ◌+◌, ◌≤◌, ◌<◌, ◌≡◌, refl, sym, ap, ◌≢◌, inl, inr, ltb, ltb→lt, arith, Bool-cases,
  ◌==◌, if◌then◌else◌, List, [], ◌∷◌, Option, none, some, length, get_elem?, replicate, Run, done,
  fault, ℤ, pos, negsuc,
}
use os_kernel_application_si.Idt.{
  max_isr80h_commands, isr80h_register_command, isr80h_handle_command, SystemCommand, register_all,
  isr80h_register_commands, value, command0_sum, command1_print, command2_open, command3_read,
  command4_fork, command5_exit, command6_readline, command7_write, command8_delete, command9_close,
  command10_readdir, command11_wait,
}

module _ {ℓ} {C : Type ℓ} where
  -- The outcomes of a registration in a table of 1024 entries.
  pub data Registered (commands : List (Option C)) (command : C)
      : ℤ → Run (List (Option C)) → Type ℓ where
    -- the entry was free: it holds the command, and the others hold what they held
    free_entry :
        {id : ℕ} {commands' : List (Option C)}
        → length commands' ≡ max_isr80h_commands
        → isr80h_handle_command (pos id) commands' ≡ done (some command)
        → ((z : ℤ)
            → z ≢ pos id
            → isr80h_handle_command z commands' ≡ isr80h_handle_command z commands)
        → Registered commands command (pos id) (done commands')
    -- the entry was in use
    in_use :
        {id : ℕ} {old : C}
        → isr80h_handle_command (pos id) commands ≡ done (some old)
        → Registered commands command (pos id) fault
    -- there is no such entry
    too_large : {id : ℕ} → max_isr80h_commands ≤ id → Registered commands command (pos id) fault
    negative : {n : ℕ} → Registered commands command (negsuc n) fault

-- What a program means by a number: shell.asm defines the numbers 1 to 11 by these names, and 0 is
-- the sum.
unfoldable pub called : ℕ → Option SystemCommand
called n =
    if n == 0
    then some command0_sum
    else if n == 1
    then some command1_print
    else if n == 2
    then some command2_open
    else if n == 3
    then some command3_read
    else if n == 4
    then some command4_fork
    else if n == 5
    then some command5_exit
    else if n == 6
    then some command6_readline
    else if n == 7
    then some command7_write
    else if n == 8
    then some command8_delete
    else if n == 9
    then some command9_close
    else if n == 10
    then some command10_readdir
    else if n == 11
    then some command11_wait
    else none

abbrev pub command_of : ℤ → Option SystemCommand
command_of (negsuc n) = none
command_of (pos id) = called id

-- A table that begins with commands
abbrev entries : List SystemCommand → ℕ → List (Option SystemCommand)
entries [] n = replicate n none
entries (c ∷ cs) n = some c ∷ entries cs n

get_elem?-replicate :
    (n i : ℕ) → i < n → get_elem? (replicate {A = Option SystemCommand} n none) i ≡ some none
get_elem?-replicate zero i h = absurd (omega arith)
get_elem?-replicate (suc n) zero h = refl
get_elem?-replicate (suc n) (suc i) h = get_elem?-replicate n i (omega arith)

get_elem?-entries :
    (cs : List SystemCommand) (n i : ℕ)
    → i < length cs + n
    → get_elem? (entries cs n) i ≡ some (get_elem? cs i)
get_elem?-entries [] n i h = get_elem?-replicate n i (omega arith)
get_elem?-entries (c ∷ cs) n zero h = refl
get_elem?-entries (c ∷ cs) n (suc i) h = get_elem?-entries cs n i (omega arith)

-- The commands in the order of their entries
abbrev in_order : List SystemCommand
in_order =
    command0_sum ∷ command1_print ∷ command2_open ∷ command3_read ∷ command4_fork ∷ command5_exit
    ∷ command6_readline ∷ command7_write ∷ command8_delete ∷ command9_close ∷ command10_readdir
    ∷ command11_wait ∷ []

called_beyond : (n : ℕ) → 12 ≤ n → called n ≡ none
unfolding called
called_beyond n le = ground arith

in_order-called : (n : ℕ) → get_elem? in_order n ≡ called n
unfolding called
in_order-called zero = refl
in_order-called (suc zero) = refl
in_order-called (suc (suc zero)) = refl
in_order-called (suc (suc (suc zero))) = refl
in_order-called (suc (suc (suc (suc zero)))) = refl
in_order-called (suc (suc (suc (suc (suc zero))))) = refl
in_order-called (suc (suc (suc (suc (suc (suc zero)))))) = refl
in_order-called (suc (suc (suc (suc (suc (suc (suc zero))))))) = refl
in_order-called (suc (suc (suc (suc (suc (suc (suc (suc zero)))))))) = refl
in_order-called (suc (suc (suc (suc (suc (suc (suc (suc (suc zero))))))))) = refl
in_order-called (suc (suc (suc (suc (suc (suc (suc (suc (suc (suc zero)))))))))) = refl
in_order-called (suc (suc (suc (suc (suc (suc (suc (suc (suc (suc (suc zero))))))))))) = refl
in_order-called (suc (suc (suc (suc (suc (suc (suc (suc (suc (suc (suc (suc n)))))))))))) = sym (
    called_beyond (suc (suc (suc (suc (suc (suc (suc (suc (suc (suc (suc (suc n))))))))))))
      (omega arith))

handle-entries : (z : ℤ) → isr80h_handle_command z (entries in_order 1012) ≡ done (command_of z)
unfolding isr80h_handle_command
handle-entries (negsuc n) = refl
handle-entries (pos id) = elim (Bool-cases (ltb id max_isr80h_commands)) [
  | inl small ↦
      let lt = ltb→lt id max_isr80h_commands small in
      rw (small, get_elem?-entries in_order 1012 id lt) (ap done (in_order-called id))
  | inr large ↦ rw (large, called_beyond id (ground arith))
]

-- From an empty table, `isr80h_register_commands` does not panic, and `isr80h_handle_command` then
-- finds under the numbers by which the shell calls the system the functions that it means by them,
-- the sum under 0, and nothing under any other number.
pub isr80h_register_commands_lem :
    (commands : List (Option SystemCommand)) × (isr80h_register_commands
        (replicate max_isr80h_commands none)
      ≡ done commands)
    × ((z : ℤ) → isr80h_handle_command z commands ≡ done (command_of z))
unfolding isr80h_register_commands register_all isr80h_register_command value
isr80h_register_commands_lem = (entries in_order 1012, refl, handle-entries)
