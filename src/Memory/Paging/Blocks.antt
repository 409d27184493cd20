-- ===== src/Memory/Paging/Blocks.antt =====
-- kheap.c and heap.c, for allocations of at most a page: each is a block of the heap.
use os_kernel_application_si.Base.{
  ℕ, zero, suc, ◌+◌, ◌*◌, ◌/◌, ◌%◌, ◌^◌, ◌≤◌, ◌<◌, ◌≡◌, refl, ap, ◌≢◌, inl, inr, true, false,
  lt→ltb, ◌==◌, if◌then◌else◌, arith, Bool-cases, List, [], ◌∷◌, length, set, get_elem?-set_self,
  get_elem?-set_ne, Run, done, ℤ,
}
use os_kernel_application_si.Memory.Heap.{
  Heap, with_entries, block_size, heap_get_entry_type, entry_free, heap_malloc, heap_malloc_blocks,
  heap_get_start_block, heap_mark_blocks_taken, mark_taken_loop, heap_block_to_address,
  heap_align_value_to_upper,
}
use os_kernel_application_si.Memory.Heap.FirstFit.{
  free_at, StartBlock, whole, short, full, heap_get_start_block_lem,
}

-- A pool of blocks on pages of their own, with an entry for each
pub record IsPool (h : Heap) : Type 0 where
  pub total : length h.table.entries ≡ h.table.total
  pub aligned : h.saddr % block_size ≡ 0
  pub low : 0 < h.saddr
  pub high : h.saddr + h.table.total * block_size ≤ 2 ^ 32

abbrev pub block_address : Heap → ℕ → ℕ
block_address h b = h.saddr + b * block_size

unfoldable pub free_count : List ℕ → ℕ
free_count [] = 0
free_count (e ∷ es) =
    let rest = free_count es in if heap_get_entry_type e == entry_free then suc rest else rest

free_at-none : (es : List ℕ) → ((b : ℕ) → b < length es → free_at es b ≢ true) → free_count es ≡ 0
unfolding free_at free_count
free_at-none [] h = refl
free_at-none (e ∷ es) h = elim (Bool-cases (heap_get_entry_type e == entry_free)) [
  | inl unused ↦ absurd (h 0 (omega arith) unused)
  | inr used ↦ rw used (free_at-none es (λ b lt. h (suc b) (omega (arith, lt))))
]

pub free_count-set :
    (es : List ℕ) (b : ℕ) → free_at es b ≡ true → free_count es ≡ suc (free_count (set es b 0x41))
unfolding free_at free_count
free_count-set [] b h = cc
free_count-set (e ∷ es) zero h = rw h refl
free_count-set (e ∷ es) (suc b) h = elim (Bool-cases (heap_get_entry_type e == entry_free)) [
  | inl unused ↦ rw unused (ap suc (free_count-set es b h))
  | inr used ↦ rw used (free_count-set es b h)
]

pub free_at-set_self : (es : List ℕ) (b : ℕ) → b < length es → free_at (set es b 0x41) b ≡ false
unfolding free_at
free_at-set_self es b lt = rw (free_at, get_elem?-set_self es b 0x41 lt)

pub free_at-set_ne : (es : List ℕ) (b c : ℕ) → b ≢ c → free_at (set es b 0x41) c ≡ free_at es c
unfolding free_at
free_at-set_ne es b c ne = rw (free_at, get_elem?-set_ne es b c 0x41 ne)

-- The outcomes of an allocation of one block
pub data OneBlock (h : Heap) (r : Run (ℕ × Heap)) : Type 0 where
  -- a free block, which is taken then
  taken :
      (b : ℕ)
      → b < length h.table.entries
      → free_at h.table.entries b ≡ true
      → r ≡ done (block_address h b, with_entries h (set h.table.entries b 0x41))
      → OneBlock h r
  -- no block is free
  no_block : free_count h.table.entries ≡ 0 → r ≡ done (0, h) → OneBlock h r

mark_one :
    (h : Heap) (b : ℕ)
    → b < length h.table.entries
    → heap_mark_blocks_taken h b 1 ≡ done (with_entries h (set h.table.entries b 0x41))
unfolding heap_mark_blocks_taken mark_taken_loop
mark_one h b lt = rw (lt→ltb b (length h.table.entries) lt)

at_block :
    (h : Heap) (b : ℕ)
    → IsPool h
    → b < length h.table.entries
    → heap_block_to_address h b ≡ block_address h b
unfolding heap_block_to_address
at_block h b is lt = omega (arith, is.total, is.low, is.high, lt)

heap_malloc_blocks-OneBlock : (h : Heap) → IsPool h → OneBlock h (heap_malloc_blocks h 1)
unfolding heap_malloc_blocks
heap_malloc_blocks-OneBlock h is = go (heap_get_start_block_lem h 1 (omega arith) is.total)
  where
    go :
        (r : ℤ) × (heap_get_start_block h 1 ≡ done r) × StartBlock h.table.entries 1 r
        → OneBlock h (heap_malloc_blocks h 1)
    go (r, e, whole b rb fits run before) =
        let lt : b < length h.table.entries = omega (arith, fits) in
        taken b lt (run b (omega arith) (omega arith))
          (rw (e, rb, mark_one h b lt, at_block h b is lt))
    go (r, e, short b rb lt gt run edge before) = absurd (omega arith)
    go (r, e, full rb edge before) =
        no_block
          (free_at-none h.table.entries (λ b lt unused.
            before b lt (λ j lo hi. let same : j ≡ b = omega (arith, lo, hi) in rw same unused)))
          (rw (e, rb))

-- `heap_malloc` of at most a page takes a free block if there is one.
pub heap_malloc-OneBlock :
    (h : Heap) (n : ℕ) → IsPool h → 0 < n → n ≤ block_size → OneBlock h (heap_malloc h n)
unfolding heap_malloc heap_align_value_to_upper
heap_malloc-OneBlock h n is lo hi =
    let one : heap_align_value_to_upper n / block_size ≡ 1 = ground arith in
    rw one (heap_malloc_blocks-OneBlock h is)
