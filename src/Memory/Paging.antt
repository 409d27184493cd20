-- ===== src/Memory/Paging.antt =====
-- memory/paging/paging.c and paging.h. Memory is its 32-bit words by their addresses; a directory
-- is the address of 1024 words, each the address of a table with flags in its low 12 bits.
pub mod Directory
pub mod Ranges
pub mod Blocks
pub mod Pages
pub mod Build
pub mod Identity
pub mod Copy
pub mod Duplicate
use os_kernel_application_si.Base.{
  ℕ, zero, suc, ◌+◌, ◌-◌, ◌*◌, ◌/◌, ◌%◌, ◌^◌, Bool, true, false, not, ◌||◌, ltb, ◌==◌,
  if◌then◌else◌, bit_and, bit_or, Run, done, and_then, map_run, ℤ, pos, negsuc, neg, is_neg,
}
use os_kernel_application_si.Memory.Heap.{Heap, heap_malloc, heap_free}
use os_kernel_application_si.Status.{einvarg}

abbrev pub page_size : ℕ
page_size = 4096

abbrev pub total_entries_per_table : ℕ
total_entries_per_table = 1024

abbrev pub is_writeable : ℕ
is_writeable = 0b10

abbrev pub is_present : ℕ
is_present = 0b1

abbrev pub access_from_all : ℕ
access_from_all = 0b100

abbrev pub Words : Type 0
Words = ℕ → ℕ

-- `*(uint32_t*) a = v`
unfoldable pub store_word : Words → ℕ → ℕ → Words
store_word m a v = λ b. if b == a then v else m b

-- `p[i]` of an array of words at `p`
abbrev pub word_at : ℕ → ℕ → ℕ
word_at p i = p + i * 4

-- The kernel's heap, the memory, the processor's directory register, and `current_directory`.
pub record Machine : Type 0 where
  pub heap : Heap
  pub words : Words
  pub cr3 : ℕ
  pub current_directory : ℕ

unfoldable pub with_words : Machine → Words → Machine
with_words s m = record s { words = m }

-- `n` words from `p` on become 0.
unfoldable pub clear : ℕ → ℕ → Words → Words
clear zero p m = m
clear (suc n) p m = clear n (p + 4) (store_word m p 0)

-- kheap.c, for `n` words
unfoldable pub kzalloc_words : ℕ → Machine → Run (ℕ × Machine)
kzalloc_words n s =
    map_run
      (λ (r : ℕ × Heap).
        let m = if r.0 == 0 then s.words else clear n r.0 s.words in
        (r.0, record s { heap = r.1; words = m }))
      (heap_malloc s.heap (n * 4))

unfoldable pub kfree : ℕ → Machine → Run Machine
kfree p s = map_run (λ h. record s { heap = h }) (heap_free s.heap p)

unfoldable pub paging_is_aligned : ℕ → Bool
paging_is_aligned addr = addr % page_size == 0

-- The status, and the two indexes, which stay 0 on an error.
unfoldable pub paging_get_indexes : ℕ → ℤ × ℕ × ℕ
paging_get_indexes virtual_address =
    if not (paging_is_aligned virtual_address) then (neg einvarg, 0, 0) else (
      pos 0,
      virtual_address / (total_entries_per_table * page_size),
      virtual_address % (total_entries_per_table * page_size) / page_size,
    )

unfoldable pub paging_align_address : ℕ → ℕ
paging_align_address ptr =
    if ptr % page_size == 0 then ptr else (ptr + page_size - ptr % page_size) % 2 ^ 32

-- `entry & 0xfffff000`
abbrev pub table_address : ℕ → ℕ
table_address entry = bit_and entry 0xfffff000

unfoldable pub paging_set : Words → ℕ → ℕ → ℕ → ℤ × Words
paging_set m directory virt val =
    if not (paging_is_aligned virt)
    then (neg einvarg, m)
    else let (res, directory_index, table_index) = paging_get_indexes virt in
      if is_neg res then (res, m) else (
        pos 0,
        store_word m (word_at (table_address (m (word_at directory directory_index))) table_index)
            val,
      )

unfoldable pub paging_get : Words → ℕ → ℕ → ℕ
paging_get m directory virt =
    let (res, directory_index, table_index) = paging_get_indexes virt in
    m (word_at (table_address (m (word_at directory directory_index))) table_index)

-- `directory->directory_entry` is the word at the chunk's address.
unfoldable pub paging_4gb_chunk_get_directory : Words → ℕ → ℕ
paging_4gb_chunk_get_directory m chunk = m chunk

unfoldable pub paging_map : Words → ℕ → ℕ → ℕ → ℕ → ℤ × Words
paging_map m chunk virt phys flags =
    if not (virt % page_size == 0) || not (phys % page_size == 0)
    then (neg einvarg, m)
    else paging_set m (m chunk) virt (bit_or phys flags)

-- `n` rounds are left; `res` is the status of the last.
unfoldable pub map_range_loop : ℕ → ℤ → Words → ℕ → ℕ → ℕ → ℕ → ℤ × Words
map_range_loop zero res m chunk virt phys flags = (res, m)
map_range_loop (suc n) res m chunk virt phys flags =
    let (res', m') = paging_map m chunk virt phys flags in
    let rest =
      map_range_loop n res' m' chunk ((virt + page_size) % 2 ^ 32) ((phys + page_size) % 2 ^ 32)
        flags in
    if is_neg res' then (res', m') else rest

-- A count below 0 is no round.
unfoldable pub paging_map_range : Words → ℕ → ℕ → ℕ → ℤ → ℕ → ℤ × Words
paging_map_range m chunk virt phys (negsuc n) flags = (pos 0, m)
paging_map_range m chunk virt phys (pos n) flags = map_range_loop n (pos 0) m chunk virt phys flags

unfoldable pub paging_map_to : Words → ℕ → ℕ → ℕ → ℕ → ℕ → ℤ × Words
paging_map_to m chunk virt phys phys_end flags =
    if not (virt % page_size == 0)
    then (neg einvarg, m)
    else if not (phys % page_size == 0)
    then (neg einvarg, m)
    else if not (phys_end % page_size == 0)
    then (neg einvarg, m)
    else if ltb phys_end phys
    then (neg einvarg, m)
    else paging_map_range m chunk virt phys (pos ((phys_end - phys) / page_size)) flags

-- `paging_load_directory` of paging.asm sets the register.
unfoldable pub paging_switch : ℕ → Machine → Machine
paging_switch chunk s = record s { cr3 = s.words chunk; current_directory = s.words chunk }

-- `n` words of a table are left, from word `b` on; `offset` is an `int` that wraps.
unfoldable pub fill_table : ℕ → ℕ → ℕ → ℕ → ℕ → Words → Words
fill_table zero b entry offset flags m = m
fill_table (suc n) b entry offset flags m =
    fill_table n (b + 1) entry offset flags
      (store_word m (word_at entry b) (bit_or ((offset + b * page_size) % 2 ^ 32) flags))

-- `n` tables are left, from entry `i` of the directory on. The allocations are not tested.
unfoldable pub fill_directory : ℕ → ℕ → ℕ → ℕ → ℕ → Machine → Run Machine
fill_directory zero i directory offset flags s = done s
fill_directory (suc n) i directory offset flags s =
    and_then (kzalloc_words total_entries_per_table s) λ (entry, s1).
      let m1 = fill_table total_entries_per_table 0 entry offset flags s1.words in
      let offset' = (offset + total_entries_per_table * page_size) % 2 ^ 32 in
      let m2 = store_word m1 (word_at directory i) (bit_or (bit_or entry flags) is_writeable) in
      fill_directory n (i + 1) directory offset' flags (with_words s1 m2)

unfoldable pub paging_new_4gb : ℕ → Machine → Run (ℕ × Machine)
paging_new_4gb flags s = and_then (kzalloc_words total_entries_per_table s) λ (directory, s1).
    and_then (fill_directory total_entries_per_table 0 directory 0 flags s1) λ s2.
      map_run (λ (r : ℕ × Machine). (r.0, with_words (r.1) (store_word (r.1).words r.0 directory)))
        (kzalloc_words 1 s2)

-- `n` entries of the directory are left, from entry `i` on.
unfoldable pub free_tables : ℕ → ℕ → ℕ → Machine → Run Machine
free_tables zero i chunk s = done s
free_tables (suc n) i chunk s =
    and_then (kfree (table_address (s.words (word_at (s.words chunk) i))) s)
      λ s1. free_tables n (i + 1) chunk s1

unfoldable pub paging_free_4gb : ℕ → Machine → Run Machine
paging_free_4gb chunk s =
    and_then (free_tables 1024 0 chunk s)
      λ s1. and_then (kfree (s1.words chunk) s1) λ s2. kfree chunk s2

-- `n` words are copied, from word `b` on.
unfoldable pub copy_words : ℕ → ℕ → ℕ → ℕ → Words → Words
copy_words zero b dst src m = m
copy_words (suc n) b dst src m =
    copy_words n (b + 1) dst src (store_word m (word_at dst b) (m (word_at src b)))

-- The chunk, or 0; on an error what was allocated before is kept.
unfoldable pub copy_tables : ℕ → ℕ → ℕ → ℕ → ℕ → Machine → Run (ℕ × Machine)
copy_tables zero i chunk new_dir src s = done (chunk, s)
copy_tables (suc n) i chunk new_dir src s =
    let src_entry = s.words (word_at (s.words src) i) in
    and_then (kzalloc_words total_entries_per_table s) λ (new_table, s1).
      let m1 = copy_words total_entries_per_table 0 new_table (table_address src_entry) s1.words in
      let m2 =
        store_word m1 (word_at new_dir i) (bit_or new_table (bit_and src_entry 0x00000fff)) in
      let rest = copy_tables n (i + 1) chunk new_dir src (with_words s1 m2) in
      if new_table == 0 then done (0, s1) else rest

unfoldable pub paging_copy_4gb : ℕ → Machine → Run (ℕ × Machine)
paging_copy_4gb src s = and_then (kzalloc_words 1 s) λ (chunk, s1).
    if chunk == 0
    then done (0, s1)
    else and_then (kzalloc_words total_entries_per_table s1) λ (new_dir, s2).
      if new_dir == 0
      then map_run (λ s3. (0, s3)) (kfree chunk s2)
      else copy_tables total_entries_per_table 0 chunk new_dir src
          (with_words s2 (store_word s2.words chunk new_dir))
