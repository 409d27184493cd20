-- ===== src/Memory/Heap/Overrun.antt =====
-- heap.c: an allocation that only a run at the end of the table could start.
use os_kernel_application_si.Base.{
  ℕ, suc, ◌-◌, ◌<◌, ◌≡◌, ap, sym, ◌∙◌, inl, inr, true, false, List, arith, length, done, fault, ℤ,
}
use os_kernel_application_si.Memory.Heap.{Heap, heap_get_start_block, heap_malloc_blocks}
use os_kernel_application_si.Memory.Heap.FirstFit.{
  free_at, NoneBefore, StartBlock, whole, short, full, heap_get_start_block_lem,
}
use os_kernel_application_si.Memory.Heap.Segments.{Seg, encode}
use os_kernel_application_si.Memory.Heap.Alloc.{IsHeap, overrun_lem}

-- Where no run of free entries is long enough, but the last entry of the table is free, the
-- allocation does not return 0: it writes behind the end of the table.
pub heap_malloc_blocks-overrun :
    (h : Heap) (segs : List Seg) (m : ℕ)
    → IsHeap h segs
    → NoneBefore (encode segs) (suc m) (length (encode segs))
    → free_at (encode segs) (length (encode segs) - 1) ≡ true
    → 0 < length (encode segs)
    → heap_malloc_blocks h (suc m) ≡ fault
unfolding heap_malloc_blocks
heap_malloc_blocks-overrun h segs m is none_fits last p =
    go (heap_get_start_block_lem h (suc m) (omega arith) (len ∙ sym is.total))
  where
    len : length h.table.entries ≡ length (encode segs)
    len = ap length is.entries

    go :
        (r : ℤ) × (heap_get_start_block h (suc m) ≡ done r) × StartBlock h.table.entries (suc m) r
        → heap_malloc_blocks h (suc m) ≡ fault
    go (r, e, whole b rb fits run before) =
        absurd (none_fits b (omega (arith, len)) (rw is.entries at run))
    go (r, e, short b rb lt gt run edge before) =
        rw (e, rb, overrun_lem h segs m is b (rw len at lt) (rw len at gt))
    go (r, e, full rb (inl z) before) = absurd (omega (arith, len))
    go (r, e, full rb (inr f) before) =
        let f' : free_at (encode segs) (length (encode segs) - 1) ≡ false = rw is.entries at f in cc
