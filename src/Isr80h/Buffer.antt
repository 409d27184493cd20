-- ===== src/Isr80h/Buffer.antt =====
-- heap.c, `heap_free` of a block: the buffer of `isr80h_command6_readline` is given back.
use os_kernel_application_si.Base.{
  ℕ, zero, suc, ◌+◌, ◌-◌, ◌*◌, ◌/◌, ◌%◌, ◌^◌, ◌≤◌, ◌<◌, ◌≡◌, refl, sym, ap, ◌∙◌, inl, inr, true,
  ltb, ◌==◌, arith, Bool-cases, ==_iff, List, [], ◌∷◌, ◌++◌, length, set, get_or, take, cons-tail,
  get_elem?-set_self, get_elem?-set_ne, done,
}
use os_kernel_application_si.Memory.Heap.{
  Heap, with_entries, block_size, entry_free, heap_free, heap_mark_blocks_free,
  heap_address_to_block, mark_free_loop,
}
use os_kernel_application_si.Memory.Heap.FirstFit.{free_at}
use os_kernel_application_si.Memory.Paging.Blocks.{IsPool, block_address}

set-set : (es : List ℕ) (b x y : ℕ) → set (set es b x) b y ≡ set es b y
set-set [] b x y = refl
set-set (e ∷ es) zero x y = refl
set-set (e ∷ es) (suc b) x y = ap (λ r. e ∷ r) (set-set es b x y)

mark_free_one :
    (n b : ℕ) (es : List ℕ)
    → b < length es
    → mark_free_loop (suc n) b (set es b 0x41) ≡ done (set es b entry_free)
unfolding mark_free_loop
mark_free_one n b es lt =
    rw (mark_free_loop, get_elem?-set_self es b 0x41 lt) (ap done (set-set es b 0x41 entry_free))

positive : (n : ℕ) → 0 < n → (m : ℕ) × (n ≡ suc m)
positive zero h = absurd (omega arith)
positive (suc m) h = (m, refl)

-- A pool of at most 2 GB
abbrev pub IsSmall : Heap → Type 0
IsSmall h = h.table.total * block_size ≤ 2 ^ 31

pub heap_free-block :
    (h : Heap) (b : ℕ)
    → IsPool h
    → IsSmall h
    → b < length h.table.entries
    → heap_free (with_entries h (set h.table.entries b 0x41)) (block_address h b)
      ≡ done (with_entries h (set h.table.entries b entry_free))
unfolding heap_free heap_mark_blocks_free heap_address_to_block
heap_free-block h b is small lt =
    let es = h.table.entries in
    let d : (block_address h b + 2 ^ 32 - h.saddr) % 2 ^ 32 ≡ b * block_size =
      omega (arith, is.total, is.low, is.high, small, lt) in
    let low : ltb (b * block_size) (2 ^ 31) ≡ true = ground (arith, is.total, small, lt) in
    let back : b * block_size / block_size ≡ b = omega arith in
    let (m, left) = positive (h.table.total - b) (omega (arith, is.total, lt)) in
    rw (d, low, back, left, mark_free_one m b es lt) refl

free_again : (es : List ℕ) (b : ℕ) → b < length es → free_at (set es b entry_free) b ≡ true
unfolding free_at
free_again es b lt = rw (free_at, get_elem?-set_self es b entry_free lt) refl

-- A free block that is freed again
pub free_at-set_free :
    (es : List ℕ) (b c : ℕ)
    → b < length es
    → free_at es b ≡ true
    → free_at (set es b entry_free) c ≡ free_at es c
unfolding free_at
free_at-set_free es b c lt unused = elim (Bool-cases (b == c)) [
  | inl same ↦
      let e = (==_iff b c).0 same in
      ap (free_at (set es b entry_free)) (sym e)
      ∙ free_again es b lt
      ∙ sym unused
      ∙ ap (free_at es) e
  | inr other ↦ rw (free_at, get_elem?-set_ne es b c entry_free (λ e. ground arith))
]

-- What is copied of a line with its 0
pub take-line :
    (ys kbuf : List ℕ)
    → take (length ys) kbuf ≡ ys
    → get_or kbuf (length ys) 1 ≡ 0
    → take (length ys + 1) kbuf ≡ ys ++ (0 ∷ [])
take-line [] [] e z = absurd (omega (arith, z))
take-line [] (x ∷ kbuf) e z = ap (λ c. c ∷ []) z
take-line (y ∷ ys) [] e z = absurd (omega (arith, ap length e))
take-line (y ∷ ys) (x ∷ kbuf) e z =
    let head : x ≡ y = cc in
    let n : suc (length ys) + 1 ≡ suc (length ys + 1) = omega arith in
    rw n (
      ap (λ c. c ∷ take (length ys + 1) kbuf) head
      ∙ ap (λ r. y ∷ r) (take-line ys kbuf (cons-tail e) z))
