-- ===== src/Memory/Heap/Align.antt =====
-- heap.c: sizes rounded up to whole blocks.
use os_kernel_application_si.Base.{ℕ, suc, ◌+◌, ◌-◌, ◌*◌, ◌/◌, ◌%◌, ◌^◌, ◌≤◌, ◌<◌, ◌≡◌, arith}
use os_kernel_application_si.Memory.Heap.{block_size, heap_align_value_to_upper}

-- `heap_align_value_to_upper` of a value of at most 2 ^ 32 - 4096 is the least multiple of 4096 that
-- is not below it.
pub heap_align_value_to_upper_lem :
    (val : ℕ)
    → val ≤ 2 ^ 32 - block_size
    → (val ≤ heap_align_value_to_upper val)
      × (heap_align_value_to_upper val < val + block_size)
      × (heap_align_value_to_upper val % block_size ≡ 0)
unfolding heap_align_value_to_upper
heap_align_value_to_upper_lem val h = ground arith

-- `heap_align_value_to_upper` of a larger `uint32_t` wraps to 0.
pub heap_align_value_to_upper_wraps :
    (val : ℕ) → val < 2 ^ 32 → 2 ^ 32 - block_size < val → heap_align_value_to_upper val ≡ 0
unfolding heap_align_value_to_upper
heap_align_value_to_upper_wraps val h k = ground arith

-- The number of blocks is the size divided by the block size, rounded up.
pub blocks_of_size :
    (size : ℕ)
    → 0 < size
    → size ≤ 2 ^ 32 - block_size
    → (m : ℕ) × (heap_align_value_to_upper size / block_size ≡ suc m)
      × (size ≤ suc m * block_size)
      × (m * block_size < size)
unfolding heap_align_value_to_upper
blocks_of_size size p h = ((size - 1) / block_size, ground arith, omega arith, omega arith)
