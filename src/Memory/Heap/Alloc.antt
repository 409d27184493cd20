-- ===== src/Memory/Heap/Alloc.antt =====
-- heap.c, `heap_malloc` and `heap_free` against a heap that is a sequence of free blocks and chunks.
use os_kernel_application_si.Base.{
  ℕ, zero, suc, ◌+◌, ◌-◌, ◌*◌, ◌^◌, ◌≤◌, ◌<◌, ◌≡◌, refl, ap, sym, ◌∙◌, List, ◌∷◌, ◌++◌, ltb, ◌==◌,
  if◌then◌else◌, arith, length, replicate, length-append, length-replicate, Run, done, fault, ℤ,
  pos, map_run, bit_and,
}
use os_kernel_application_si.Memory.Heap.{
  Heap, with_entries, block_size, mark_taken_loop, mark_free_loop, heap_get_start_block,
  heap_block_to_address, heap_mark_blocks_taken, heap_malloc_blocks, heap_mark_blocks_free,
  has_next,
}
use os_kernel_application_si.Memory.Heap.FirstFit.{
  FreeRun, NoneBefore, StartBlock, whole, short, full, heap_get_start_block_lem,
}
use os_kernel_application_si.Memory.Heap.Segments.{
  Seg, free_block, chunk, rest_cells, first_cell, encode, encode-append, encode-replicate,
  length-rest_cells, mark_taken_loop-rest, mark_taken_loop-fault, mark_free_loop-rest,
}
use os_kernel_application_si.Memory.Heap.Split.{SplitAt, split_run}

-- `h` is the heap whose table encodes `segs`. Its pool stands between address 1 and 2 ^ 32, and is
-- at most 2 GiB, so that an offset into it is an `int`.
pub record IsHeap (h : Heap) (segs : List Seg) : Type 0 where
  pub entries : h.table.entries ≡ encode segs
  pub total : h.table.total ≡ length (encode segs)
  pub low : 0 < h.saddr
  pub high : h.saddr + h.table.total * block_size ≤ 2 ^ 32
  pub small : h.table.total ≤ 2 ^ 19

abbrev frees : ℕ → List Seg
frees n = replicate n free_block

encode-frees :
    (xs ys : List Seg) (n : ℕ)
    → encode (xs ++ (replicate n free_block ++ ys)) ≡ encode xs ++ (replicate n 0x00 ++ encode ys)
encode-frees xs ys n =
    encode-append xs (replicate n free_block ++ ys)
    ∙ ap (λ r. encode xs ++ r)
        (encode-append (replicate n free_block) ys ∙ ap (λ r. r ++ encode ys) (encode-replicate n))

pub encode-chunk :
    (xs ys : List Seg) (m : ℕ)
    → encode (xs ++ (chunk m ∷ ys)) ≡ encode xs ++ (first_cell m ∷ (rest_cells m ++ encode ys))
encode-chunk xs ys m = encode-append xs (chunk m ∷ ys)

-- A chunk has as many entries as the free blocks that it takes the place of.
pub length-encode :
    (xs ys : List Seg) (m : ℕ)
    → length (encode (xs ++ (chunk m ∷ ys)))
      ≡ length (encode (xs ++ (replicate (suc m) free_block ++ ys)))
length-encode xs ys m =
    rw (encode-chunk xs ys m, encode-frees xs ys (suc m))
      (omega (
        arith,
        length-append (encode xs) (first_cell m ∷ (rest_cells m ++ encode ys)),
        length-append (encode xs) (0 ∷ (replicate m 0 ++ encode ys)),
        length-append (rest_cells m) (encode ys),
        length-append (replicate m 0) (encode ys),
        length-rest_cells m,
        length-replicate {A = ℕ} m 0,
      ))

first_cell_lem : (m : ℕ) → (if ltb 1 (suc m) then 0xC1 else 0x41) ≡ first_cell m
first_cell_lem zero = refl
first_cell_lem (suc m) = ground arith

has_next-first_cell : (m : ℕ) → (bit_and (first_cell m) has_next == 0) ≡ (m == 0)
has_next-first_cell zero = refl
has_next-first_cell (suc m) = ground arith

mark-chunk :
    (h : Heap) (xs ys : List Seg) (m b : ℕ)
    → h.table.entries ≡ encode (xs ++ (replicate (suc m) free_block ++ ys))
    → b ≡ length (encode xs)
    → heap_mark_blocks_taken h b (suc m) ≡ done (with_entries h (encode (xs ++ (chunk m ∷ ys))))
unfolding heap_mark_blocks_taken
mark-chunk h xs ys m b e at = ap (map_run (with_entries h)) loop
  where
    loop :
        mark_taken_loop
          (suc m)
          b
          (b + suc m - 1)
          (if ltb 1 (suc m) then 0xC1 else 0x41)
          h.table.entries
        ≡ done (encode (xs ++ (chunk m ∷ ys)))
    loop =
        rw (e, encode-frees xs ys (suc m), encode-chunk xs ys m, first_cell_lem m)
          (mark_taken_loop-rest m (encode xs) 0 (replicate m 0) (encode ys) b (b + suc m - 1)
            (first_cell m) at (omega arith) (length-replicate {A = ℕ} m 0))

pub free-chunk :
    (h : Heap) (xs ys : List Seg) (m b : ℕ)
    → h.table.entries ≡ encode (xs ++ (chunk m ∷ ys))
    → h.table.total ≡ length (encode (xs ++ (chunk m ∷ ys)))
    → b ≡ length (encode xs)
    → heap_mark_blocks_free h (pos b)
      ≡ done (with_entries h (encode (xs ++ (replicate (suc m) free_block ++ ys))))
unfolding heap_mark_blocks_free
free-chunk h xs ys m b e tot at = ap (map_run (with_entries h)) loop
  where
    len : length (encode (xs ++ (chunk m ∷ ys))) ≡ length (encode xs) + suc (m + length (encode ys))
    len = rw (encode-chunk xs ys m) (
        omega (
          arith,
          length-append (encode xs) (first_cell m ∷ (rest_cells m ++ encode ys)),
          length-append (rest_cells m) (encode ys),
          length-rest_cells m,
        ))

    loop :
        mark_free_loop (h.table.total - b) b h.table.entries
        ≡ done (encode (xs ++ (replicate (suc m) free_block ++ ys)))
    loop =
        rw (e, encode-frees xs ys (suc m), encode-chunk xs ys m)
          (mark_free_loop-rest m (h.table.total - b) (encode xs) (encode ys) b (first_cell m) at
            (omega (arith, tot, len)) (has_next-first_cell m))

-- What an allocation of `suc m` blocks does to a heap that encodes `segs`.
pub data Malloc (h : Heap) (segs : List Seg) (m : ℕ) (r : Run (ℕ × Heap)) : Type 0 where
  -- the first `suc m` adjacent free blocks become a chunk, and its address is returned
  given :
      (xs ys : List Seg)
      → segs ≡ xs ++ (replicate (suc m) free_block ++ ys)
      → NoneBefore (encode segs) (suc m) (length (encode xs))
      → r
        ≡ done (
          h.saddr + length (encode xs) * block_size,
          with_entries h (encode (xs ++ (chunk m ∷ ys))),
        )
      → IsHeap (with_entries h (encode (xs ++ (chunk m ∷ ys)))) (xs ++ (chunk m ∷ ys))
      → Malloc h segs m r
  -- there are none, and 0 is returned with the heap as it was
  no_memory :
      r ≡ done (0, h) → NoneBefore (encode segs) (suc m) (length (encode segs)) → Malloc h segs m r
  -- there are none, but the table ends in free blocks: the marks run behind its end
  overrun :
      (b : ℕ)
      → b < length (encode segs)
      → FreeRun (encode segs) b (length (encode segs) - b)
      → NoneBefore (encode segs) (suc m) (length (encode segs))
      → r ≡ fault
      → Malloc h segs m r

module _ (h : Heap) (segs : List Seg) (m : ℕ) (is : IsHeap h segs) where
  address :
      (b : ℕ) → b < length (encode segs) → heap_block_to_address h b ≡ h.saddr + b * block_size
  unfolding heap_block_to_address
  address b lt = omega (arith, is.total, is.high, is.low)

  pub overrun_lem :
      (b : ℕ)
      → b < length (encode segs)
      → length (encode segs) < b + suc m
      → heap_mark_blocks_taken h b (suc m) ≡ fault
  unfolding heap_mark_blocks_taken
  overrun_lem b lt gt = ap (map_run (with_entries h)) (
      mark_taken_loop-fault (suc m) b (b + suc m - 1) (if ltb 1 (suc m) then 0xC1 else 0x41)
        h.table.entries (omega (arith, len)) (omega (arith, len)))
    where
      len : length h.table.entries ≡ length (encode segs)
      len = ap length is.entries

  with_chunk-IsHeap :
      (xs ys : List Seg)
      → segs ≡ xs ++ (replicate (suc m) free_block ++ ys)
      → IsHeap (with_entries h (encode (xs ++ (chunk m ∷ ys)))) (xs ++ (chunk m ∷ ys))
  with_chunk-IsHeap xs ys e = record {
    entries = refl;
    total = is.total ∙ ap (λ s. length (encode s)) e ∙ sym (length-encode xs ys m);
    low = is.low;
    high = is.high;
    small = is.small;
  }

  at_split :
      (b : ℕ)
      → heap_get_start_block h (suc m) ≡ done (pos b)
      → b < length (encode segs)
      → NoneBefore (encode segs) (suc m) b
      → SplitAt segs b (suc m)
      → Malloc h segs m (heap_malloc_blocks h (suc m))
  unfolding heap_malloc_blocks
  at_split b e lt before p =
      given p.before p.after p.parts (rw p.offset before)
        (rw (e, mark-chunk h p.before p.after m b (is.entries ∙ ap encode p.parts) (sym p.offset))
          (rw (address b lt, p.offset)))
        (with_chunk-IsHeap p.before p.after p.parts)

  -- `heap_malloc_blocks` of at least one block, on a heap whose table encodes `segs`, makes the first
  -- long enough run of free blocks a chunk and returns its address, or returns 0 and changes nothing,
  -- or runs off the end of a table that ends in too few free blocks.
  pub heap_malloc_blocks_lem : Malloc h segs m (heap_malloc_blocks h (suc m))
  unfolding heap_malloc_blocks
  heap_malloc_blocks_lem =
      go (heap_get_start_block_lem h (suc m) (omega arith) (ap length is.entries ∙ sym is.total))
    where
      go :
          (r : ℤ) × (heap_get_start_block h (suc m) ≡ done r) × StartBlock h.table.entries (suc m) r
          → Malloc h segs m (heap_malloc_blocks h (suc m))
      go (r, e, whole b rb fits run before) =
          at_split b (e ∙ ap done rb) (omega (arith, ap length is.entries))
            (rw is.entries at before)
            (split_run segs b (suc m) (omega arith) (rw is.entries at run))
      go (r, e, short b rb lt gt run edge before) =
          let len = ap length is.entries in
          overrun b (rw len at lt) (rw is.entries at run) (rw is.entries at before)
            (rw (e, rb, overrun_lem b (rw len at lt) (rw len at gt)))
      go (r, e, full rb edge before) = no_memory (rw (e, rb)) (rw is.entries at before)
