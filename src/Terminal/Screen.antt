-- ===== src/Terminal/Screen.antt =====
-- kernel.c, `terminal_writechar`, `print` and `terminal_initialize`: the cursor and the screen.
use os_kernel_application_si.Base.{
  ℕ, zero, suc, ◌+◌, ◌-◌, ◌*◌, ◌%◌, ◌^◌, ◌≤◌, ◌<◌, ◌≡◌, refl, sym, ap, ◌∙◌, ◌≢◌, ◌⊎◌, inl, inr,
  false, leb, lt→ltb, ◌==◌, if◌then◌else◌, arith, Bool-cases, List, [], ◌∷◌, ◌++◌, length, get_or,
  set, length-set, length-append, get_or-set_self, get_or-set_ne, get_elem?-eq-get_or, Run, done,
  map_run,
}
use os_kernel_application_si.Terminal.{
  vga_width, vga_height, Terminal, terminal_make_char, put, terminal_putchar,
  terminal_update_cursor, next_line, with_cursor, put_at_cursor, terminal_writechar,
  terminal_initialize, print_loop, print,
}
use os_kernel_application_si.Strings.Text.{IsText, strlen-length}
use os_kernel_application_si.Terminal.Scroll.{
  cell, below, total_cells, terminal_scroll-Scrolled, blank_lines-Wrote,
}

-- Video memory of exactly the terminal's cells, with the cursor on one of them
pub record IsScreen (t : Terminal) : Type 0 where
  pub size : length t.video_mem ≡ total_cells
  pub row : t.row < vga_height
  pub col : t.col < vga_width

-- The place of the cursor
abbrev pub cursor : Terminal → ℕ
cursor t = t.row * vga_width + t.col

-- A new line from a cursor in column 0
record Advanced (t : Terminal) (r : Run Terminal) : Type 0 where
  after : Terminal
  run : r ≡ done after
  screen : IsScreen after
  column : after.col ≡ 0
  place :
      ((suc t.row < vga_height) × (after.row ≡ suc t.row) × (after.video_mem ≡ t.video_mem))
      ⊎ ((suc t.row ≡ vga_height)
          × (after.row ≡ t.row)
          × ((i : ℕ) → i < total_cells - vga_width → cell after.video_mem i ≡ below t.video_mem i))

next_line-Advanced : (t : Terminal) → IsScreen t → t.col ≡ 0 → Advanced t (next_line t)
unfolding next_line
next_line-Advanced t is z = elim (Bool-cases (leb vga_height ((t.row + 1) % 2 ^ 16))) [
  | inl below ↦
      let s = terminal_scroll-Scrolled t.video_mem (omega (arith, is.size)) in
      rw (below, s.run)
        (record {
          after = record t { video_mem = s.after; row = 19 };
          run = refl;
          screen = record { size = s.size ∙ is.size; row = omega arith; col = is.col };
          column = z;
          place = inr (ground (arith, is.row), ground (arith, is.row), s.moved);
        })
  | inr within ↦ rw within (record {
    after = record t { row = (t.row + 1) % 2 ^ 16 };
    run = refl;
    screen = record { size = is.size; row = ground arith; col = is.col };
    column = z;
    place = inl (ground (arith, is.row), omega (arith, is.row), refl);
  })
]

record PutAt (c colour : ℕ) (t : Terminal) (r : Run Terminal) : Type 0 where
  after : List ℕ
  run : r ≡ done (record t { video_mem = after })
  size : length after ≡ length t.video_mem
  here : cell after (cursor t) ≡ terminal_make_char c colour
  others : (i : ℕ) → i ≢ cursor t → cell after i ≡ cell t.video_mem i

put_at_cursor-PutAt :
    (c colour : ℕ) (t : Terminal) → IsScreen t → PutAt c colour t (put_at_cursor c colour t)
unfolding put_at_cursor terminal_putchar put
put_at_cursor-PutAt c colour t is =
    let inside : cursor t < length t.video_mem = omega (arith, is.size, is.row, is.col) in
    rw (lt→ltb (cursor t) (length t.video_mem) inside) (record {
      after = set t.video_mem (cursor t) (terminal_make_char c colour);
      run = refl;
      size = length-set t.video_mem (cursor t) (terminal_make_char c colour);
      here = get_or-set_self t.video_mem (cursor t) (terminal_make_char c colour) 0 inside;
      others = λ i ne.
          get_or-set_ne t.video_mem (cursor t) i (terminal_make_char c colour) 0 (λ e. ne (sym e));
    })

with_cursor-IsScreen : (t : Terminal) → IsScreen t → IsScreen (with_cursor t)
unfolding with_cursor terminal_update_cursor
with_cursor-IsScreen t is = record { size = is.size; row = is.row; col = is.col }

-- A character on the screen: at the cursor, which goes on by one cell, or, written to the last
-- cell, a line above it once the screen has scrolled.
pub record Written (c colour : ℕ) (t : Terminal) (r : Run Terminal) : Type 0 where
  pub after : Terminal
  pub run : r ≡ done after
  pub screen : IsScreen after
  pub shown :
      ((suc (cursor t) < total_cells)
        × (cursor after ≡ suc (cursor t))
        × (cell after.video_mem (cursor t) ≡ terminal_make_char c colour)
        × ((i : ℕ) → i ≢ cursor t → cell after.video_mem i ≡ cell t.video_mem i))
      ⊎ ((suc (cursor t) ≡ total_cells)
          × (cursor after ≡ total_cells - vga_width)
          × (cell after.video_mem (total_cells - vga_width - 1) ≡ terminal_make_char c colour))

-- The part of `terminal_writechar` behind the store
abbrev step_on : Terminal → Run Terminal
step_on t1 =
    let col = (t1.col + 1) % 2 ^ 16 in
    let wrapped = next_line (record t1 { col = 0 }) in
    if leb vga_width col then wrapped else done (record t1 { col = col })

wrap-Written :
    (c colour : ℕ) (t : Terminal) (cells : List ℕ)
    → IsScreen t
    → suc t.col ≡ vga_width
    → length cells ≡ length t.video_mem
    → cell cells (cursor t) ≡ terminal_make_char c colour
    → ((i : ℕ) → i ≢ cursor t → cell cells i ≡ cell t.video_mem i)
    → Written c colour t (map_run with_cursor (next_line (record t { video_mem = cells; col = 0 })))
unfolding with_cursor terminal_update_cursor
wrap-Written c colour t cells is last size here others =
    let start : Terminal = record t { video_mem = cells; col = 0 } in
    let n =
      next_line-Advanced start (record { size = size ∙ is.size; row = is.row; col = omega arith })
        refl in
    rw n.run (record {
      after = with_cursor n.after;
      run = refl;
      screen = with_cursor-IsScreen n.after n.screen;
      shown = elim n.place [
        | inl (room, down, same) ↦ inl (
          omega (arith, room, last),
          omega (arith, down, n.column, last),
          ap (λ v. cell v (cursor t)) same ∙ here,
          λ i ne. ap (λ v. cell v i) same ∙ others i ne,
        )
        | inr (bottom, stay, up) ↦ inr (
          omega (arith, bottom, last),
          omega (arith, stay, bottom, n.column),
          up 1519 (omega arith) ∙ ap (cell cells) (omega (arith, bottom, last)) ∙ here,
        )
      ];
    })

-- `terminal_writechar` of a character other than a backspace and a new line returns, with the
-- character on the screen at the cursor, and the cursor one cell on; a character in the last cell
-- moves up with its line, and the cursor goes to the start of the last line.
pub terminal_writechar-Written :
    (c colour : ℕ) (t : Terminal)
    → IsScreen t
    → c ≢ 0x08
    → c ≢ 10
    → Written c colour t (terminal_writechar c colour t)
unfolding terminal_writechar with_cursor terminal_update_cursor
terminal_writechar-Written c colour t is ne ne' =
    let not_back : (c == 0x08) ≡ false = ground arith in
    let not_line : (c == 10) ≡ false = ground arith in
    let w = put_at_cursor-PutAt c colour t is in
    rw (not_back, not_line, w.run)
      (elim (Bool-cases (leb vga_width ((t.col + 1) % 2 ^ 16))) [
        | inl last ↦
            rw last
              (wrap-Written c colour t w.after is (ground (arith, is.col)) w.size w.here w.others)
        | inr inner ↦
            let room : suc t.col < vga_width = ground (arith, is.col) in
            rw inner (record {
              after = with_cursor (record t { video_mem = w.after; col = (t.col + 1) % 2 ^ 16 });
              run = refl;
              screen =
                  with_cursor-IsScreen _
                    (record { size = w.size ∙ is.size; row = is.row; col = omega (arith, room) });
              shown = inl (omega (arith, room, is.row), omega (arith, room), w.here, w.others);
            })
      ])

-- `terminal_writechar` of any character returns, and keeps the video memory and the cursor within
-- the screen.
pub terminal_writechar-IsScreen :
    (c colour : ℕ) (t : Terminal)
    → IsScreen t
    → (t' : Terminal) × (terminal_writechar c colour t ≡ done t') × IsScreen t'
unfolding terminal_writechar
terminal_writechar-IsScreen c colour t is = elim (Bool-cases (c == 0x08)) [
  | inl back ↦
      let left : Terminal = record t { col = t.col - 1 } in
      let is' : IsScreen left = record {
        size = is.size;
        row = is.row;
        col = omega (arith, is.col);
      } in
      let w = put_at_cursor-PutAt 0x20 colour left is' in
      rw (back, w.run)
        (
          with_cursor (record left { video_mem = w.after }),
          refl,
          with_cursor-IsScreen _ (record { size = w.size ∙ is.size; row = is.row; col = is'.col }),
        )
  | inr char ↦ elim (Bool-cases (c == 10)) [
    | inl line ↦
        let start : Terminal = record t { col = 0 } in
        let n =
          next_line-Advanced start (record { size = is.size; row = is.row; col = omega arith })
            refl in
        rw (char, line, n.run) (with_cursor n.after, refl, with_cursor-IsScreen n.after n.screen)
    | inr other ↦
        let w = terminal_writechar-Written c colour t is (λ e. ground arith) (λ e. ground arith) in
        (w.after, w.run, w.screen)
  ]
]

print_loop-IsScreen :
    (n i : ℕ) (s : List ℕ) (t : Terminal)
    → i + n ≤ length s
    → IsScreen t
    → (t' : Terminal) × (print_loop n i s t ≡ done t') × IsScreen t'
unfolding print_loop
print_loop-IsScreen zero i s t le is = (t, refl, is)
print_loop-IsScreen (suc n) i s t le is =
    let (t1, e, is1) = terminal_writechar-IsScreen (get_or s i 0) 15 t is in
    let (t2, e', is2) = print_loop-IsScreen n (i + 1) s t1 (omega (arith, le)) is1 in
    (t2, rw (get_elem?-eq-get_or s i 0 (omega (arith, le)), print_loop, e) e', is2)

-- `print` of a C string returns, and keeps the screen.
pub print-IsScreen :
    (s text : List ℕ) (t : Terminal)
    → IsText s text
    → IsScreen t
    → (t' : Terminal) × (print s t ≡ done t') × IsScreen t'
unfolding print
print-IsScreen s text t is scr =
    let inside : length text ≤ length s =
      omega (arith, ap length is.bytes, length-append text (0 ∷ is.rest)) in
    let (t', e, is') = print_loop-IsScreen (length text) 0 s t (omega (arith, inside)) scr in
    (t', rw (strlen-length is) e, is')

-- `terminal_initialize`, on video memory of the terminal's cells, blanks each of them and puts the
-- cursor in the first.
pub terminal_initialize-IsScreen :
    (cells : List ℕ) (ports : List (ℕ × ℕ))
    → length cells ≡ total_cells
    → (t : Terminal) × (terminal_initialize cells ports ≡ done t)
      × IsScreen t
      × (cursor t ≡ 0)
      × ((i : ℕ) → i < total_cells → cell t.video_mem i ≡ 0x20)
unfolding terminal_initialize terminal_update_cursor
terminal_initialize-IsScreen cells ports size =
    let w = blank_lines-Wrote vga_height 0 0 cells refl (omega (arith, size)) in
    rw w.run (
      terminal_update_cursor 0 0 (record {
        video_mem = w.after;
        row = 0;
        col = 0;
        ports = ports ++ ((0x3D4, 0x0A) ∷ (0x3D5, 13) ∷ (0x3D4, 0x0B) ∷ (0x3D5, 15) ∷ []);
      }),
      refl,
      record { size = w.size ∙ size; row = omega arith; col = omega arith },
      refl,
      λ i lt. w.within i (omega arith) lt,
    )
