-- ===== src/Tests/Heap.antt =====
-- The block allocator on a table of four entries, the first of which is in use.
use os_kernel_application_si.Base.{
  ℕ, zero, suc, ◌/◌, ◌≡◌, refl, arith, List, [], ◌∷◌, length-replicate, replicate, done, fault, pos,
}
use os_kernel_application_si.Memory.Heap.{
  block_size, Heap, heap_align_value_to_upper, heap_malloc, heap_free, heap_malloc_blocks,
  heap_get_start_block, heap_block_to_address, start_block_loop, heap_mark_blocks_taken,
  mark_taken_loop, kheap_init,
}
use os_kernel_application_si.Memory.Heap.FirstFit.{free_at, NoneBefore}
use os_kernel_application_si.Memory.Heap.Segments.{Seg, free_block, chunk, encode}
use os_kernel_application_si.Memory.Heap.Alloc.{IsHeap, Malloc, heap_malloc_blocks_lem}
use os_kernel_application_si.Memory.Heap.Kernel.{heap_malloc-heap_free}
use os_kernel_application_si.Memory.Heap.Create.{kheap_init-IsHeap}
use os_kernel_application_si.Memory.Heap.Overrun.{heap_malloc_blocks-overrun}

abbrev heap_of : List ℕ → Heap
heap_of es = record { table = record { entries = es; total = 4 }; saddr = 0x01000000 }

abbrev one_taken : Heap
one_taken = heap_of (0x41 ∷ 0x00 ∷ 0x00 ∷ 0x00 ∷ [])

abbrev one_taken_segs : List Seg
one_taken_segs = chunk 0 ∷ free_block ∷ free_block ∷ free_block ∷ []

abbrev three_taken : Heap
three_taken = heap_of (0x41 ∷ 0xC1 ∷ 0x01 ∷ 0x00 ∷ [])

one_taken-IsHeap : IsHeap one_taken one_taken_segs
one_taken-IsHeap = record {
  entries = refl;
  total = refl;
  low = omega arith;
  high = omega arith;
  small = omega arith;
}

three_taken-IsHeap : IsHeap three_taken (chunk 0 ∷ chunk 1 ∷ free_block ∷ [])
three_taken-IsHeap = record {
  entries = refl;
  total = refl;
  low = omega arith;
  high = omega arith;
  small = omega arith;
}

malloc_run : heap_malloc one_taken 5000 ≡ done (0x01001000, three_taken)
unfolding heap_malloc heap_malloc_blocks heap_get_start_block heap_align_value_to_upper
    start_block_loop heap_block_to_address heap_mark_blocks_taken mark_taken_loop
malloc_run = refl

heap_malloc-heap_free_example : heap_free three_taken 0x01001000 ≡ done one_taken
heap_malloc-heap_free_example =
    heap_malloc-heap_free one_taken three_taken one_taken_segs 5000 0x01001000 one_taken-IsHeap
      (omega arith) (omega arith) malloc_run (λ e. absurd (omega arith))

heap_malloc_blocks_lem_example : Malloc one_taken one_taken_segs 1 (heap_malloc_blocks one_taken 2)
heap_malloc_blocks_lem_example = heap_malloc_blocks_lem one_taken one_taken_segs 1 one_taken-IsHeap

kheap_init-IsHeap_example :
    (h' : Heap) × (kheap_init one_taken (replicate 25600 7) ≡ done (pos 0, h'))
    × (h'.saddr ≡ 0x01000000)
    × IsHeap h' (replicate (104857600 / block_size) free_block)
kheap_init-IsHeap_example =
    kheap_init-IsHeap one_taken (replicate 25600 7) (length-replicate {A = ℕ} 25600 7)

-- The last block is free, and two are asked for.
abbrev last_free : Heap
last_free = heap_of (0xC1 ∷ 0x81 ∷ 0x01 ∷ 0x00 ∷ [])

last_free-IsHeap : IsHeap last_free (chunk 2 ∷ free_block ∷ [])
last_free-IsHeap = record {
  entries = refl;
  total = refl;
  low = omega arith;
  high = omega arith;
  small = omega arith;
}

none_fits : NoneBefore (encode (chunk 2 ∷ free_block ∷ [])) 2 4
unfolding free_at
none_fits zero lt run = ground (arith, run 0 (omega arith) (omega arith))
none_fits (suc zero) lt run = ground (arith, run 1 (omega arith) (omega arith))
none_fits (suc (suc zero)) lt run = ground (arith, run 2 (omega arith) (omega arith))
none_fits (suc (suc (suc zero))) lt run = ground (arith, run 4 (omega arith) (omega arith))
none_fits (suc (suc (suc (suc c)))) lt run = absurd (omega arith)

heap_malloc_blocks-overrun_example : heap_malloc_blocks last_free 2 ≡ fault
heap_malloc_blocks-overrun_example =
    heap_malloc_blocks-overrun last_free (chunk 2 ∷ free_block ∷ []) 1 last_free-IsHeap none_fits
      (unfold free_at in refl) (omega arith)
