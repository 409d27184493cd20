-- ===== src/Terminal.antt =====
-- kernel.c: the terminal. `video_mem` is the object of 16-bit cells that it points to, and a write
-- outside it is a fault.
pub mod Scroll
pub mod Screen
use os_kernel_application_si.Base.{
  ℕ, zero, suc, ◌+◌, ◌-◌, ◌*◌, ◌/◌, ◌%◌, ◌^◌, Bool, true, false, ltb, leb, ◌==◌, if◌then◌else◌,
  List, [], ◌∷◌, ◌++◌, none, some, length, get_elem?, set, bit_and, bit_or, Run, done, fault,
  and_then, map_run,
}
use os_kernel_application_si.Strings.{strlen}

abbrev pub vga_width : ℕ
vga_width = 80

abbrev pub vga_height : ℕ
vga_height = 20

-- The cells, `terminal_row`, `terminal_col`, and the writes to ports in their order.
pub record Terminal : Type 0 where
  pub video_mem : List ℕ
  pub row : ℕ
  pub col : ℕ
  pub ports : List (ℕ × ℕ)

-- `c` is a `char`: from 128 on, its sign fills the high byte. `colour` is at most 127.
unfoldable pub terminal_make_char : ℕ → ℕ → ℕ
terminal_make_char c colour = bit_or (colour * 256) (if ltb c 128 then c else c + 0xFF00) % 2 ^ 16

-- `video_mem[i] = v`
unfoldable pub put : ℕ → ℕ → List ℕ → Run (List ℕ)
put i v cells = if ltb i (length cells) then done (set cells i v) else fault

unfoldable pub terminal_putchar : ℕ → ℕ → ℕ → ℕ → List ℕ → Run (List ℕ)
terminal_putchar x y c colour cells = put (y * vga_width + x) (terminal_make_char c colour) cells

-- `n` cells of line `y` are left to move up, from column `x` on.
unfoldable pub move_line : ℕ → ℕ → ℕ → List ℕ → Run (List ℕ)
move_line zero x y cells = done cells
move_line (suc n) x y cells = elim (get_elem? cells (y * vga_width + x)) [
  | none ↦ fault
  | some v ↦ and_then (put ((y - 1) * vga_width + x) v cells) λ cells'. move_line n (x + 1) y cells'
]

-- `n` lines are left, from line `y` on.
unfoldable pub move_lines : ℕ → ℕ → List ℕ → Run (List ℕ)
move_lines zero y cells = done cells
move_lines (suc n) y cells =
    and_then (move_line vga_width 0 y cells) λ cells'. move_lines n (y + 1) cells'

-- `n` cells of line `y` are left to become blank, from column `x` on.
unfoldable pub blank_line : ℕ → ℕ → ℕ → List ℕ → Run (List ℕ)
blank_line zero x y cells = done cells
blank_line (suc n) x y cells =
    and_then (terminal_putchar x y 0x20 0 cells) λ cells'. blank_line n (x + 1) y cells'

unfoldable pub terminal_scroll : List ℕ → Run (List ℕ)
terminal_scroll cells =
    and_then (move_lines (vga_height - 1) 1 cells)
      λ cells'. blank_line vga_width 0 (vga_height - 1) cells'

unfoldable pub terminal_update_cursor : ℕ → ℕ → Terminal → Terminal
terminal_update_cursor row col t =
    let place = (row * vga_width + col) % 2 ^ 16 in
    record t {
      ports =
          t.ports
          ++ ((0x3D4, 14)
              ∷ (0x3D5, place / 256 % 256)
              ∷ (0x3D4, 15)
              ∷ (0x3D5, bit_and place 0xFF % 256)
              ∷ []);
    }

-- `terminal_row += 1`, and the scroll behind the last line; a `uint16_t` wraps.
unfoldable pub next_line : Terminal → Run Terminal
next_line t =
    let row = (t.row + 1) % 2 ^ 16 in
    let scrolled =
      map_run (λ cells. record t { video_mem = cells; row = vga_height - 1 })
        (terminal_scroll t.video_mem) in
    if leb vga_height row then scrolled else done (record t { row = row })

unfoldable pub with_cursor : Terminal → Terminal
with_cursor t = terminal_update_cursor t.row t.col t

unfoldable pub put_at_cursor : ℕ → ℕ → Terminal → Run Terminal
put_at_cursor c colour t =
    map_run (λ cells. record t { video_mem = cells })
      (terminal_putchar t.col t.row c colour t.video_mem)

unfoldable pub terminal_writechar : ℕ → ℕ → Terminal → Run Terminal
terminal_writechar c colour t =
    let back = record t { col = t.col - 1 } in
    let erased = map_run with_cursor (put_at_cursor 0x20 colour back) in
    let broken = map_run with_cursor (next_line (record t { col = 0 })) in
    let written = map_run with_cursor (
      and_then (put_at_cursor c colour t) λ t1.
        let col = (t1.col + 1) % 2 ^ 16 in
        let wrapped = next_line (record t1 { col = 0 }) in
        if leb vga_width col then wrapped else done (record t1 { col = col })) in
    if c == 0x08 then erased else if c == 10 then broken else written

-- `n` lines are left to become blank, from line `y` on.
unfoldable pub blank_lines : ℕ → ℕ → List ℕ → Run (List ℕ)
blank_lines zero y cells = done cells
blank_lines (suc n) y cells =
    and_then (blank_line vga_width 0 y cells) λ cells'. blank_lines n (y + 1) cells'

-- `cells` is the memory at 0xB8000.
unfoldable pub terminal_initialize : List ℕ → List (ℕ × ℕ) → Run Terminal
terminal_initialize cells ports =
    map_run
      (λ cells'. terminal_update_cursor 0 0 (record {
        video_mem = cells';
        row = 0;
        col = 0;
        ports = ports ++ ((0x3D4, 0x0A) ∷ (0x3D5, 13) ∷ (0x3D4, 0x0B) ∷ (0x3D5, 15) ∷ []);
      }))
      (blank_lines vga_height 0 cells)

-- `n` characters are left, from index `i` of the string on.
unfoldable pub print_loop : ℕ → ℕ → List ℕ → Terminal → Run Terminal
print_loop zero i str t = done t
print_loop (suc n) i str t = elim (get_elem? str i) [
  | none ↦ fault
  | some c ↦ and_then (terminal_writechar c 15 t) λ t'. print_loop n (i + 1) str t'
]

unfoldable pub print : List ℕ → Terminal → Run Terminal
print str t = and_then (strlen str) λ len. print_loop len 0 str t
