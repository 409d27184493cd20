-- ===== src/Memory/Heap/Create.antt =====
-- heap.c and kheap.c: the heap that `heap_create` and `kheap_init` set up.
use os_kernel_application_si.Base.{
  ℕ, ◌+◌, ◌-◌, ◌/◌, ◌%◌, ◌^◌, ◌≤◌, ◌<◌, ◌≡◌, refl, ap, sym, ◌∙◌, ◌≢◌, ◌⊎◌, List, arith, length,
  replicate, length-replicate, done, pos, neg, ◌==◌, true, ==_iff,
}
use os_kernel_application_si.Status.{einvarg}
use os_kernel_application_si.Memory.Bytes.Copy.{memset_all}
use os_kernel_application_si.Memory.Heap.{Heap, HeapTable, block_size, heap_create, kheap_init}
use os_kernel_application_si.Memory.Heap.Segments.{free_block, encode-replicate}
use os_kernel_application_si.Memory.Heap.Alloc.{IsHeap}

module _ (h : Heap) (ptr end : ℕ) (t : HeapTable) where
  -- With aligned bounds and a table of the right size the heap is created, and all its blocks are
  -- free.
  pub heap_create-IsHeap :
      ptr % block_size ≡ 0
      → end % block_size ≡ 0
      → 0 < ptr
      → ptr ≤ end
      → end < 2 ^ 32
      → end - ptr ≤ 2 ^ 31
      → t.total ≡ (end - ptr) / block_size
      → length t.entries ≡ t.total
      → (h' : Heap) × (heap_create h ptr end t ≡ done (pos 0, h'))
        × (h'.saddr ≡ ptr)
        × IsHeap h' (replicate t.total free_block)
  unfolding heap_create
  heap_create-IsHeap ap ae p le hi small tot len = (
    record { table = record { entries = replicate t.total 0; total = t.total }; saddr = ptr },
    run,
    refl,
    record {
      entries = sym (encode-replicate t.total);
      total = sym (length-replicate {A = ℕ} t.total 0) ∙ ap' (sym (encode-replicate t.total));
      low = p;
      high = omega arith;
      small = omega arith;
    },
  )
    where
      ap' : {xs ys : List ℕ} → xs ≡ ys → length xs ≡ length ys
      ap' e = rw e

      blocks : (t.total == ((end + 2 ^ 32 - ptr) % 2 ^ 32) / block_size) ≡ true
      blocks = (==_iff t.total (((end + 2 ^ 32 - ptr) % 2 ^ 32) / block_size)).1 (omega arith)

      run :
          heap_create h ptr end t
          ≡ done (
            pos 0,
            record {
              table = record { entries = replicate t.total 0; total = t.total };
              saddr = ptr;
            },
          )
      run = rw (ap, ae, blocks, memset_all t.entries t.total 0 len)

  -- Bounds that are not aligned are refused, and the heap is left alone.
  heap_create-unaligned :
      (ptr % block_size ≢ 0) ⊎ (end % block_size ≢ 0)
      → heap_create h ptr end t ≡ done (neg einvarg, h)
  unfolding heap_create
  heap_create-unaligned u = ground arith

-- `kheap_init` succeeds over its table of 25600 entries, and the kernel's heap then has nothing
-- in use.
pub kheap_init-IsHeap :
    (h : Heap) (table_memory : List ℕ)
    → length table_memory ≡ 104857600 / block_size
    → (h' : Heap) × (kheap_init h table_memory ≡ done (pos 0, h'))
      × (h'.saddr ≡ 0x01000000)
      × IsHeap h' (replicate (104857600 / block_size) free_block)
unfolding kheap_init
kheap_init-IsHeap h m e =
    heap_create-IsHeap h 0x01000000 (0x01000000 + 104857600)
      (record { entries = m; total = 104857600 / block_size }) refl refl (omega arith) (omega arith)
      (omega arith) (omega arith) refl e
