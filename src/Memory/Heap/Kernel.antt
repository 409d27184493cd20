-- ===== src/Memory/Heap/Kernel.antt =====
-- heap.c and kheap.c: the promises of `kheap_init`, `heap_malloc` and `heap_free`.
use os_kernel_application_si.Base.{
  ℕ, suc, ◌+◌, ◌-◌, ◌*◌, ◌^◌, ◌≤◌, ◌<◌, ◌≡◌, refl, ap, sym, ◌∙◌, ◌≢◌, List, ◌∷◌, ◌++◌, arith,
  length, length-append, replicate, done, done-injective, pos,
}
use os_kernel_application_si.Memory.Heap.{
  Heap, with_entries, block_size, heap_malloc, heap_free, heap_address_to_block,
}
use os_kernel_application_si.Memory.Heap.Segments.{
  Seg, free_block, chunk, encode, rest_cells, first_cell,
}
use os_kernel_application_si.Memory.Heap.Align.{blocks_of_size}
use os_kernel_application_si.Memory.Heap.Alloc.{
  IsHeap, Malloc, given, no_memory, overrun, heap_malloc_blocks_lem, free-chunk, length-encode,
  encode-chunk,
}

-- The chunk that `heap_malloc` looks for is the least number of blocks that holds `size` bytes.
pub heap_malloc_lem :
    (h : Heap) (segs : List Seg) (size : ℕ)
    → IsHeap h segs
    → 0 < size
    → size ≤ 2 ^ 32 - block_size
    → (m : ℕ) × (size ≤ suc m * block_size)
      × (m * block_size < size)
      × Malloc h segs m (heap_malloc h size)
unfolding heap_malloc
heap_malloc_lem h segs size is p le =
    let (m, e, lo, hi) = blocks_of_size size p le in
    (m, lo, hi, rw e (heap_malloc_blocks_lem h segs m is))

-- Freeing the address of a chunk gives back exactly its blocks.
pub heap_free_lem :
    (h : Heap) (xs ys : List Seg) (m : ℕ)
    → IsHeap h (xs ++ (chunk m ∷ ys))
    → (heap_free h (h.saddr + length (encode xs) * block_size)
        ≡ done (with_entries h (encode (xs ++ (replicate (suc m) free_block ++ ys)))))
      × IsHeap
          (with_entries h (encode (xs ++ (replicate (suc m) free_block ++ ys))))
          (xs ++ (replicate (suc m) free_block ++ ys))
unfolding heap_free heap_address_to_block
heap_free_lem h xs ys m is = (
  rw block (free-chunk h xs ys m (length (encode xs)) is.entries is.total refl),
  record {
    entries = refl;
    total = is.total ∙ length-encode xs ys m;
    low = is.low;
    high = is.high;
    small = is.small;
  },
)
  where
    within : length (encode xs) < h.table.total
    within = omega (
      arith,
      is.total,
      ap length (encode-chunk xs ys m),
      length-append (encode xs) (first_cell m ∷ (rest_cells m ++ encode ys)),
    )

    block :
        heap_address_to_block h (h.saddr + length (encode xs) * block_size)
        ≡ pos (length (encode xs))
    block = ground (arith, within, is.small, is.high, is.low)

-- What an allocation gave can be freed again, and leaves the heap as it was.
pub heap_malloc-heap_free :
    (h h' : Heap) (segs : List Seg) (size p : ℕ)
    → IsHeap h segs
    → 0 < size
    → size ≤ 2 ^ 32 - block_size
    → heap_malloc h size ≡ done (p, h')
    → p ≢ 0
    → heap_free h' p ≡ done h
heap_malloc-heap_free h h' segs size p is lo hi e ne =
    let (m, _, _, got) = heap_malloc_lem h segs size is lo hi in go m got
  where
    go : (m : ℕ) → Malloc h segs m (heap_malloc h size) → heap_free h' p ≡ done h
    go m (given xs ys parts before r is') =
        let both = done-injective (p, h') _ (sym e ∙ r) in
        rw (ap (λ (q : ℕ × Heap). q.1) both, ap (λ (q : ℕ × Heap). q.0) both)
          ((heap_free_lem (with_entries h (encode (xs ++ (chunk m ∷ ys)))) xs ys m is').0
            ∙ ap (λ es. done (with_entries h es)) (ap encode (sym parts) ∙ sym is.entries))
    go m (no_memory r before) =
        absurd (ne (ap (λ (q : ℕ × Heap). q.0) (done-injective (p, h') _ (sym e ∙ r))))
    go m (overrun b lt run before r) = let t = sym e ∙ r in cc
