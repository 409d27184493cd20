-- ===== src/Tests/Pages.antt =====
-- The page tables of one chunk: the first 1026 blocks of the heap are its own, the directory and the
-- tables, and 1100 more are free.
use os_kernel_application_si.Base.{
  ℕ, ◌+◌, ◌-◌, ◌*◌, ◌/◌, ◌%◌, ◌^◌, ◌<◌, ◌≡◌, refl, ◌≢◌, ltb, leb, ◌==◌, ◌&&◌, if◌then◌else◌, arith,
  List, ◌++◌, length, replicate, bit_and-page, pos,
}
use os_kernel_application_si.Memory.Heap.{Heap}
use os_kernel_application_si.Memory.Paging.{
  Words, Machine, word_at, total_entries_per_table, paging_get, paging_set, paging_map_to,
}
use os_kernel_application_si.Memory.Paging.Directory.{
  IsDirectory, IsPage, table_of, slot, directory_index, paging_set-paging_get,
}
use os_kernel_application_si.Memory.Paging.Ranges.{IsChunk, Mapped, paging_map_to-Mapped}
use os_kernel_application_si.Task.{TaskData}
use os_kernel_application_si.Process.{Kernel, empty_registers, empty_process}

abbrev some_free : List ℕ
some_free = replicate 1100 0x00

abbrev heap_over : List ℕ → Heap
heap_over es = record { table = record { entries = es; total = length es }; saddr = 0x01000000 }

abbrev fresh_machine : Machine
fresh_machine = record {
  heap = heap_over some_free;
  words = λ a. 0;
  cr3 = 0;
  current_directory = 0;
}

-- The chunk is block 0, the directory block 1, and table `i` block `i + 2`, with the flags 7.
abbrev table_word : ℕ → ℕ
table_word i = 0x01002000 + i * 4096 + 7

unfoldable one_chunk : Words
one_chunk a =
    if a == 0x01000000
    then 0x01001000
    else if leb 0x01001000 a && ltb a 0x01002000
    then table_word ((a - 0x01001000) / 4)
    else 0

entry_word : (i : ℕ) → i < total_entries_per_table → one_chunk (word_at 0x01001000 i) ≡ table_word i
unfolding one_chunk
entry_word i lt =
    let e : (0x01001000 + i * 4 - 0x01001000) / 4 ≡ i = omega arith in ground (arith, e)

table_address_lem :
    (i : ℕ) → i < total_entries_per_table → table_of one_chunk 0x01001000 i ≡ 0x01002000 + i * 4096
table_address_lem i lt =
    rw (entry_word i lt, bit_and-page (table_word i) (omega (arith, lt))) (omega arith)

one_chunk-IsDirectory : IsDirectory one_chunk 0x01001000
one_chunk-IsDirectory = record {
  aligned = refl;
  words = λ i lt. rw (entry_word i lt) (omega (arith, lt));
  apart = λ i lt. rw (table_address_lem i lt) (λ e. omega (arith, e));
  distinct =
      λ i j li lj. rw (table_address_lem i li, table_address_lem j lj) (λ e. omega (arith, e));
}

one_chunk-IsChunk : IsChunk one_chunk 0x01000000
unfolding one_chunk
one_chunk-IsChunk = record { directory = one_chunk-IsDirectory; outside = outside_tables }
  where
    outside_tables : (v : ℕ) → IsPage v → 0x01000000 ≢ slot one_chunk 0x01001000 v
    outside_tables v p e =
        let t = table_address_lem (directory_index v) (omega (arith, p.word)) in omega (arith, e, t)

page : (v : ℕ) → v % 4096 ≡ 0 → v < 2 ^ 32 → IsPage v
page v h lt = record { aligned = h; word = lt }

paging_set-paging_get_example :
    paging_get ((paging_set one_chunk 0x01001000 0x400000 0x9007).1) 0x01001000 0x400000 ≡ 0x9007
paging_set-paging_get_example =
    paging_set-paging_get one_chunk 0x01001000 one_chunk-IsDirectory 0x400000 0x9007
      (page 0x400000 refl (omega arith)) 0x400000 (page 0x400000 refl (omega arith))

paging_map_to-Mapped_example :
    (m' : Words) × (paging_map_to one_chunk 0x01000000 0x400000 0x9000 0xB000 0b111 ≡ (pos 0, m'))
    × Mapped one_chunk 0x01000000 2 0x400000 0x9000 0b111 m'
paging_map_to-Mapped_example =
    paging_map_to-Mapped one_chunk 0x01000000 0x400000 0x9000 0xB000 0b111 one_chunk-IsChunk
      (page 0x400000 refl (omega arith)) (page 0x9000 refl (omega arith))
      (page 0xB000 refl (omega arith)) (omega arith) (omega arith)

abbrev some_taken : List ℕ
some_taken = replicate 1026 0x41 ++ some_free

abbrev owned_machine : Machine
owned_machine = record {
  heap = heap_over some_taken;
  words = one_chunk;
  cr3 = 0;
  current_directory = 0;
}

abbrev parent_task : TaskData
parent_task = record {
  page_directory = 0x01000000;
  registers = record empty_registers { eax = 4; ip = 0x400010 };
  process = 0x5000;
  next = 0;
  prev = 0;
}

abbrev one_task : Kernel
one_task = record {
  machine = owned_machine;
  list = record {
    tasks = λ t. parent_task;
    current_task = 0x6000;
    task_head = 0x6000;
    task_tail = 0x6000;
  };
  processes = λ p. empty_process;
  slots = replicate 12 0;
  current_process = 0x5000;
}

-- A kernel with one task, in block 5
abbrev with_task : Kernel
with_task = record {
  machine = owned_machine;
  list = record {
    tasks = λ t. parent_task;
    current_task = 0x01005000;
    task_head = 0x01005000;
    task_tail = 0x01005000;
  };
  processes = λ p. empty_process;
  slots = replicate 12 0;
  current_process = 0x5000;
}
