-- ===== src/Terminal/Scroll.antt =====
-- kernel.c, `terminal_scroll` and the loop of `terminal_initialize`: the cells they write.
use os_kernel_application_si.Base.{
  ℕ, zero, suc, ◌+◌, ◌-◌, ◌*◌, ◌≤◌, ◌<◌, ◌≡◌, refl, sym, ap, ◌∙◌, ◌⊎◌, inl, inr, ltb, lt→ltb, arith,
  Bool-cases, List, length, get_or, set, length-set, get_or-set_self, get_or-set_ne,
  get_elem?-eq-get_or, Run, done, and_then,
}
use os_kernel_application_si.Terminal.{
  vga_width, vga_height, terminal_make_char, put, terminal_putchar, move_line, move_lines,
  blank_line, blank_lines, terminal_scroll,
}

abbrev pub cell : List ℕ → ℕ → ℕ
cell cells i = get_or cells i 0

-- A run that returns with the `n` cells from `lo` on as `f` says, and the others as they were.
pub record Wrote (lo n : ℕ) (f : ℕ → ℕ) (cells : List ℕ) (r : Run (List ℕ)) : Type 0 where
  pub after : List ℕ
  pub run : r ≡ done after
  pub size : length after ≡ length cells
  pub within : (i : ℕ) → lo ≤ i → i < lo + n → cell after i ≡ f i
  pub outside : (i : ℕ) → (i < lo) ⊎ (lo + n ≤ i) → cell after i ≡ cell cells i

Wrote-none : (lo : ℕ) (f : ℕ → ℕ) (cells : List ℕ) → Wrote lo 0 f cells (done cells)
Wrote-none lo f cells = record {
  after = cells;
  run = refl;
  size = refl;
  within = λ i a b. absurd (omega arith);
  outside = λ i o. refl;
}

Wrote-one : (i v : ℕ) (cells : List ℕ) → i < length cells → Wrote i 1 (λ j. v) cells (put i v cells)
unfolding put
Wrote-one i v cells lt = rw (lt→ltb i (length cells) lt) (record {
  after = set cells i v;
  run = refl;
  size = length-set cells i v;
  within = λ j a b. let e : j ≡ i = omega arith in rw e (get_or-set_self cells i v 0 lt);
  outside = λ j o. get_or-set_ne cells i j v 0 (λ e. ground arith);
})

-- One run behind the other, on the cells that follow
module _ (lo n m : ℕ) (f g : ℕ → ℕ) (cells : List ℕ) (r : Run (List ℕ)) where
  Wrote-then :
      (lo' total : ℕ) (k : List ℕ → Run (List ℕ)) (w : Wrote lo n f cells r)
      → lo' ≡ lo + n
      → total ≡ n + m
      → Wrote lo' m g w.after (k w.after)
      → ((i : ℕ) → lo' ≤ i → i < lo' + m → g i ≡ f i)
      → Wrote lo total f cells (and_then r k)
  Wrote-then lo' total k w e e' v same = rw w.run (record {
    after = v.after;
    run = v.run;
    size = v.size ∙ w.size;
    within = λ i a b. elim (Bool-cases (ltb i lo')) [
      | inl low ↦ v.outside i (inl (ground arith)) ∙ w.within i a (ground arith)
      | inr high ↦
          v.within i (ground arith) (omega (arith, b, e, e'))
          ∙ same i (ground arith) (omega (arith, b, e, e'))
    ];
    outside = λ i o. v.outside i (ground (arith, o)) ∙ w.outside i (ground (arith, o));
  })

blank_line-Wrote :
    (n x y lo : ℕ) (cells : List ℕ)
    → lo ≡ y * vga_width + x
    → lo + n ≤ length cells
    → Wrote lo n (λ i. 0x20) cells (blank_line n x y cells)
unfolding blank_line terminal_putchar terminal_make_char
blank_line-Wrote zero x y lo cells e le = Wrote-none lo (λ i. 0x20) cells
blank_line-Wrote (suc n) x y lo cells e le =
    let w = Wrote-one lo 0x20 cells (omega (arith, le)) in
    rw (blank_line, terminal_putchar, sym e)
      (Wrote-then lo 1 n (λ i. 0x20) (λ i. 0x20) cells (put lo 0x20 cells) (lo + 1) (suc n)
        (blank_line n (x + 1) y) w refl (omega arith)
        (blank_line-Wrote n (x + 1) y (lo + 1) w.after (omega (arith, e))
          (omega (arith, le, w.size)))
        (λ i a b. refl))

pub blank_lines-Wrote :
    (n y lo : ℕ) (cells : List ℕ)
    → lo ≡ y * vga_width
    → lo + n * vga_width ≤ length cells
    → Wrote lo (n * vga_width) (λ i. 0x20) cells (blank_lines n y cells)
unfolding blank_lines
blank_lines-Wrote zero y lo cells e le = Wrote-none lo (λ i. 0x20) cells
blank_lines-Wrote (suc n) y lo cells e le =
    let w = blank_line-Wrote vga_width 0 y lo cells (omega (arith, e)) (omega (arith, le)) in
    Wrote-then lo vga_width (n * vga_width) (λ i. 0x20) (λ i. 0x20) cells
      (blank_line vga_width 0 y cells) (lo + vga_width) (suc n * vga_width) (blank_lines n (y + 1))
      w refl (omega arith)
      (blank_lines-Wrote n (y + 1) (lo + vga_width) w.after (omega (arith, e))
        (omega (arith, le, w.size)))
      (λ i a b. refl)

-- The cell a line below
abbrev pub below : List ℕ → ℕ → ℕ
below cells i = cell cells (i + vga_width)

move_line-Wrote :
    (n x y lo : ℕ) (cells : List ℕ)
    → lo ≡ y * vga_width + x
    → lo + vga_width + n ≤ length cells
    → n ≤ vga_width
    → Wrote lo n (below cells) cells (move_line n x (suc y) cells)
unfolding move_line
move_line-Wrote zero x y lo cells e le small = Wrote-none lo (below cells) cells
move_line-Wrote (suc n) x y lo cells e le small =
    let from : suc y * vga_width + x ≡ lo + vga_width = omega (arith, e) in
    let to : (suc y - 1) * vga_width + x ≡ lo = omega (arith, e) in
    let v = below cells lo in
    let one = Wrote-one lo v cells (omega (arith, le)) in
    let w : Wrote lo 1 (below cells) cells (put lo v cells) = record {
      after = one.after;
      run = one.run;
      size = one.size;
      within = λ i a b. one.within i a b ∙ ap (below cells) (omega arith);
      outside = one.outside;
    } in
    rw (move_line, from, get_elem?-eq-get_or cells (lo + vga_width) 0 (omega (arith, le)), to)
      (Wrote-then lo 1 n (below cells) (below w.after) cells (put lo v cells) (lo + 1) (suc n)
        (move_line n (x + 1) (suc y)) w refl (omega arith)
        (move_line-Wrote n (x + 1) y (lo + 1) w.after (omega (arith, e)) (omega (arith, le, w.size))
          (omega arith))
        (λ i a b. w.outside (i + vga_width) (inr (omega arith))))

move_lines-Wrote :
    (n y lo : ℕ) (cells : List ℕ)
    → lo ≡ y * vga_width
    → lo + vga_width + n * vga_width ≤ length cells
    → Wrote lo (n * vga_width) (below cells) cells (move_lines n (suc y) cells)
unfolding move_lines
move_lines-Wrote zero y lo cells e le = Wrote-none lo (below cells) cells
move_lines-Wrote (suc n) y lo cells e le =
    let w =
      move_line-Wrote vga_width 0 y lo cells (omega (arith, e)) (omega (arith, le)) (omega arith) in
    let next : suc y + 1 ≡ suc (suc y) = omega arith in
    rw next (
      Wrote-then lo vga_width (n * vga_width) (below cells) (below w.after) cells
        (move_line vga_width 0 (suc y) cells) (lo + vga_width) (suc n * vga_width)
        (move_lines n (suc (suc y))) w refl (omega arith)
        (move_lines-Wrote n (suc y) (lo + vga_width) w.after (omega (arith, e))
          (omega (arith, le, w.size)))
        (λ i a b. w.outside (i + vga_width) (inr (omega arith))))

-- The cells of the terminal: 20 lines of 80
abbrev pub total_cells : ℕ
total_cells = vga_height * vga_width

pub record Scrolled (cells : List ℕ) (r : Run (List ℕ)) : Type 0 where
  pub after : List ℕ
  pub run : r ≡ done after
  pub size : length after ≡ length cells
  pub moved : (i : ℕ) → i < total_cells - vga_width → cell after i ≡ below cells i
  pub blank : (i : ℕ) → total_cells - vga_width ≤ i → i < total_cells → cell after i ≡ 0x20
  pub rest : (i : ℕ) → total_cells ≤ i → cell after i ≡ cell cells i

-- `terminal_scroll`, where the video memory has the cells of the terminal, returns with each line
-- but the last moved up by one, the last one blank, and nothing else written.
pub terminal_scroll-Scrolled :
    (cells : List ℕ) → total_cells ≤ length cells → Scrolled cells (terminal_scroll cells)
unfolding terminal_scroll
terminal_scroll-Scrolled cells le =
    let w = move_lines-Wrote 19 0 0 cells refl (omega (arith, le)) in
    let v = blank_line-Wrote vga_width 0 19 1520 w.after refl (omega (arith, le, w.size)) in
    rw w.run (record {
      after = v.after;
      run = v.run;
      size = v.size ∙ w.size;
      moved = λ i lt. v.outside i (inl lt) ∙ w.within i (omega arith) lt;
      blank = λ i a b. v.within i a b;
      rest = λ i a. v.outside i (inr a) ∙ w.outside i (inr (omega arith));
    })
