-- ===== src/Memory/Heap.antt =====
-- memory/heap/heap.c and memory/heap/kheap.c: the block allocator. A table entry is a byte; the
-- table of the model holds the bytes that exist, and an access behind its end is a fault.
pub mod FirstFit
pub mod Segments
pub mod Split
pub mod Alloc
pub mod Align
pub mod Kernel
pub mod Create
pub mod Overrun
use os_kernel_application_si.Base.{
  ℕ, zero, suc, ◌+◌, ◌-◌, ◌*◌, ◌/◌, ◌%◌, ◌^◌, Bool, true, false, not, ◌&&◌, ◌||◌, Option, none,
  some, List, ltb, leb, ◌==◌, if◌then◌else◌, length, get_elem?, set, replicate, bit_and, bit_or,
  Run, done, fault, and_then, map_run, ℤ, pos, negsuc, neg,
}
use os_kernel_application_si.Memory.Bytes.{memset}
use os_kernel_application_si.Status.{enomem, einvarg}

-- PEACHOS_HEAP_BLOCK_SIZE
abbrev pub block_size : ℕ
block_size = 4096

abbrev pub entry_taken : ℕ
entry_taken = 0x01

abbrev pub entry_free : ℕ
entry_free = 0x00

abbrev pub has_next : ℕ
has_next = 0b10000000

abbrev pub is_first : ℕ
is_first = 0b01000000

pub record HeapTable : Type 0 where
  pub entries : List ℕ
  pub total : ℕ

pub record Heap : Type 0 where
  pub table : HeapTable
  pub saddr : ℕ

-- The same heap over other entries.
abbrev pub with_entries : Heap → List ℕ → Heap
with_entries h es = record h { table = record { entries = es; total = h.table.total } }

-- `end - ptr` as a `size_t`
unfoldable pub heap_validate_table : ℕ → ℕ → HeapTable → ℤ
heap_validate_table ptr end t =
    if t.total == ((end + 2 ^ 32 - ptr) % 2 ^ 32) / block_size then pos 0 else neg einvarg

unfoldable pub heap_validate_alignment : ℕ → Bool
heap_validate_alignment ptr = ptr % block_size == 0

-- The status, and the heap that `*heap` is afterwards; the clear of the table may run off its end.
unfoldable pub heap_create : Heap → ℕ → ℕ → HeapTable → Run (ℤ × Heap)
unfolding heap_validate_table heap_validate_alignment memset
heap_create h ptr end t =
    if not (heap_validate_alignment ptr) || not (heap_validate_alignment end)
    then done (neg einvarg, h)
    else elim (heap_validate_table ptr end t) [
      | negsuc e ↦ done (negsuc e, record { table = t; saddr = ptr })
      | pos r ↦
          map_run
            (λ es.
              (pos r, record { table = record { entries = es; total = t.total }; saddr = ptr }))
            (memset t.total t.entries 0 entry_free)
    ]

-- `uint32_t` arithmetic: the sum wraps.
unfoldable pub heap_align_value_to_upper : ℕ → ℕ
heap_align_value_to_upper val =
    if val % block_size == 0 then val else (val - val % block_size + block_size) % 2 ^ 32

abbrev pub heap_get_entry_type : ℕ → ℕ
heap_get_entry_type entry = bit_and entry 0x0f

-- `if (bs == -1) bs = i;`, where `none` stands for -1
abbrev pub begin_run : Option ℕ → ℕ → Option ℕ
begin_run none i = some i
begin_run (some b) i = some b

-- `n` rounds of the loop are left, from entry `i` on.
unfoldable pub start_block_loop : ℕ → List ℕ → ℕ → ℕ → ℕ → Option ℕ → Run (Option ℕ)
start_block_loop zero es total_blocks i bc bs = done bs
start_block_loop (suc n) es total_blocks i bc bs = elim (get_elem? es i) [
  | none ↦ fault
  | some e ↦ elim (heap_get_entry_type e == entry_free) [
    | false ↦ start_block_loop n es total_blocks (i + 1) 0 none
    | true ↦ elim (bc + 1 == total_blocks) [
      | true ↦ done (begin_run bs i)
      | false ↦ start_block_loop n es total_blocks (i + 1) (bc + 1) (begin_run bs i)
    ]
  ]
]

abbrev pub block_or_error : Option ℕ → ℤ
block_or_error none = neg enomem
block_or_error (some b) = pos b

unfoldable pub heap_get_start_block : Heap → ℕ → Run ℤ
heap_get_start_block h total_blocks =
    map_run block_or_error (start_block_loop h.table.total h.table.entries total_blocks 0 0 none)

unfoldable pub heap_block_to_address : Heap → ℕ → ℕ
heap_block_to_address h block = (h.saddr + block * block_size) % 2 ^ 32

-- `n` rounds are left; `entry` is the byte to store next.
unfoldable pub mark_taken_loop : ℕ → ℕ → ℕ → ℕ → List ℕ → Run (List ℕ)
mark_taken_loop zero i end_block entry es = done es
mark_taken_loop (suc n) i end_block entry es =
    let entry' = if i + 1 == end_block then entry_taken else bit_or entry_taken has_next in
    let rest = mark_taken_loop n (i + 1) end_block entry' (set es i entry) in
    if ltb i (length es) then rest else fault

unfoldable pub heap_mark_blocks_taken : Heap → ℕ → ℕ → Run Heap
heap_mark_blocks_taken h start_block total_blocks =
    let first = bit_or entry_taken is_first in
    let entry = if ltb 1 total_blocks then bit_or first has_next else first in
    map_run (with_entries h) (
      mark_taken_loop total_blocks start_block (start_block + total_blocks - 1) entry
        h.table.entries)

-- The address, 0 if there is no memory, and the heap.
unfoldable pub heap_malloc_blocks : Heap → ℕ → Run (ℕ × Heap)
heap_malloc_blocks h total_blocks = and_then (heap_get_start_block h total_blocks) λ r. elim r [
  | negsuc e ↦ done (0, h)
  | pos b ↦
      map_run (λ h'. (heap_block_to_address h b, h')) (heap_mark_blocks_taken h b total_blocks)
]

unfoldable pub mark_free_loop : ℕ → ℕ → List ℕ → Run (List ℕ)
mark_free_loop zero i es = done es
mark_free_loop (suc n) i es = elim (get_elem? es i) [
  | none ↦ fault
  | some e ↦
      let rest = mark_free_loop n (i + 1) (set es i entry_free) in
      if bit_and e has_next == 0 then done (set es i entry_free) else rest
]

-- An index below 0 is an access in front of the table.
unfoldable pub heap_mark_blocks_free : Heap → ℤ → Run Heap
heap_mark_blocks_free h (negsuc n) = fault
heap_mark_blocks_free h (pos b) =
    map_run (with_entries h) (mark_free_loop (h.table.total - b) b h.table.entries)

-- The difference is an `int`, and the division rounds towards 0.
unfoldable pub heap_address_to_block : Heap → ℕ → ℤ
heap_address_to_block h address =
    let d = (address + 2 ^ 32 - h.saddr) % 2 ^ 32 in
    if ltb d (2 ^ 31) then pos (d / block_size) else neg ((2 ^ 32 - d) / block_size)

unfoldable pub heap_malloc : Heap → ℕ → Run (ℕ × Heap)
heap_malloc h size = heap_malloc_blocks h (heap_align_value_to_upper size / block_size)

unfoldable pub heap_free : Heap → ℕ → Run Heap
heap_free h ptr = heap_mark_blocks_free h (heap_address_to_block h ptr)

-- kheap.c: what the kernel's heap is created over, from whatever the table's bytes were.
unfoldable pub kheap_init : Heap → List ℕ → Run (ℤ × Heap)
kheap_init kernel_heap table_memory =
    heap_create kernel_heap 0x01000000 (0x01000000 + 104857600)
      (record { entries = table_memory; total = 104857600 / block_size })
