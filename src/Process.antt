-- ===== src/Process.antt =====
-- task/process.c and process.h. A process and a task are records by their addresses; the words of memory hold the rest.
pub mod Slots
pub mod Tasks
pub mod Cloning
pub mod Fork
pub mod Creation
use os_kernel_application_si.Base.{
  ℕ, zero, suc, ◌+◌, ◌-◌, ◌*◌, ◌/◌, ◌%◌, ◌^◌, Bool, true, false, not, ◌||◌, ltb, leb, ◌==◌,
  if◌then◌else◌, List, [], ◌∷◌, some, none, length, get_elem?, get_or, set, Run, done, fault,
  and_then, map_run, ℤ, pos, negsuc, neg, is_neg, replicate,
}
use os_kernel_application_si.Status.{eio, einvarg, enomem, eistkn}
use os_kernel_application_si.Strings.{strncpy}
use os_kernel_application_si.Memory.Heap.{Heap, heap_malloc}
use os_kernel_application_si.Memory.Paging.{
  Words, Machine, with_words, store_word, word_at, is_present, is_writeable, access_from_all,
  kzalloc_words, kfree, paging_align_address, paging_map_to, paging_new_4gb, paging_free_4gb,
  paging_copy_4gb, paging_switch,
}
use os_kernel_application_si.Task.{
  Registers, TaskData, TaskList, update, task_new_link, task_list_remove,
}

-- PEACHOS_MAX_PROCESSES
abbrev pub max_processes : ℕ
max_processes = 12

-- PEACHOS_MAX_PATH
abbrev pub max_path : ℕ
max_path = 108

-- PEACHOS_USER_PROGRAM_STACK_SIZE
abbrev pub stack_size : ℕ
stack_size = 16384

-- The bytes of `struct process`
abbrev pub process_bytes : ℕ
process_bytes = 5256

-- The words of `struct task`
abbrev pub task_words : ℕ
task_words = 16

-- `struct process`, less the list of allocations, which nothing uses, and the keyboard's buffer.
pub record ProcessData : Type 0 where
  pub id : ℕ
  pub filename : List ℕ
  pub task : ℕ
  pub ptr : ℕ
  pub stack : ℕ
  pub size : ℕ

pub record Kernel : Type 0 where
  pub machine : Machine
  pub list : TaskList
  pub processes : ℕ → ProcessData
  -- the array `processes`: addresses, 0 for a free slot
  pub slots : List ℕ
  pub current_process : ℕ

abbrev pub empty_process : ProcessData
empty_process = record { id = 0; filename = []; task = 0; ptr = 0; stack = 0; size = 0 }

abbrev pub empty_registers : Registers
empty_registers = record {
  edi = 0;
  esi = 0;
  ebp = 0;
  ebx = 0;
  edx = 0;
  ecx = 0;
  eax = 0;
  ip = 0;
  cs = 0;
  flags = 0;
  esp = 0;
  ss = 0;
}

unfoldable pub set_process : ℕ → ProcessData → Kernel → Kernel
set_process p d k = record k { processes = λ q. if q == p then d else k.processes q }

unfoldable pub set_task : ℕ → TaskData → Kernel → Kernel
set_task t d k = record k { list = record k.list { tasks = update k.list.tasks t d } }

unfoldable pub with_machine : Kernel → Machine → Kernel
with_machine k s = record k { machine = s }

-- The last, partial word of an object of `n` bytes at `p`: the low `n % 4` bytes come from `v`.
unfoldable pub store_low : ℕ → ℕ → ℕ → Words → Words
store_low n p v m =
    let low = 256 ^ (n % 4) in
    let a = word_at p (n / 4) in store_word m a (m a / low * low + v % low)

-- `n` words from `p` on become 0.
unfoldable pub clear_words : ℕ → ℕ → Words → Words
clear_words zero p m = m
clear_words (suc n) p m = clear_words n (p + 4) (store_word m p 0)

-- `n` words, from word `b` on
unfoldable pub copy_from : ℕ → ℕ → ℕ → ℕ → Words → Words
copy_from zero b dst src m = m
copy_from (suc n) b dst src m =
    copy_from n (b + 1) dst src (store_word m (word_at dst b) (m (word_at src b)))

-- `memcpy` of `n` bytes between aligned addresses; a word holds its low byte first.
unfoldable pub memcpy_words : ℕ → ℕ → ℕ → Words → Words
memcpy_words n dst src m =
    let m' = copy_from (n / 4) 0 dst src m in store_low n dst (m' (word_at src (n / 4))) m'

-- `kzalloc` of `n` bytes
unfoldable pub kzalloc_bytes : ℕ → Kernel → Run (ℕ × Kernel)
kzalloc_bytes n k =
    map_run
      (λ (r : ℕ × Heap).
        let cleared = store_low n r.0 0 (clear_words (n / 4) r.0 k.machine.words) in
        let m = if r.0 == 0 then k.machine.words else cleared in
        (r.0, with_machine k (record k.machine { heap = r.1; words = m })))
      (heap_malloc k.machine.heap n)

-- The process at an index of the array, 0 outside it
unfoldable pub process_get : ℤ → Kernel → ℕ
process_get (negsuc n) k = 0
process_get (pos id) k = if leb max_processes id then 0 else get_or k.slots id 0

-- `n` slots are left, from slot `i` on.
unfoldable pub process_slot_loop : ℕ → ℕ → List ℕ → Run ℤ
process_slot_loop zero i slots = done (neg eistkn)
process_slot_loop (suc n) i slots =
    let rest = process_slot_loop n (i + 1) slots in
    elim (get_elem? slots i) [ none ↦ fault | some p ↦ if p == 0 then done (pos i) else rest ]

unfoldable pub process_get_free_slot : Kernel → Run ℤ
process_get_free_slot k = process_slot_loop max_processes 0 k.slots

abbrev pub user_flags : ℕ
user_flags = 0b111

-- The status of `paging_map_to` is dropped.
unfoldable pub process_map_binary : ProcessData → ℕ → Words → ℤ × Words
process_map_binary p chunk m =
    let (r, m') =
      paging_map_to m chunk 0x400000 p.ptr (paging_align_address ((p.ptr + p.size) % 2 ^ 32))
        user_flags in
    (pos 0, m')

-- The stack is mapped from 0x3FB000 on.
unfoldable pub process_map_memory : ProcessData → ℕ → Words → ℤ × Words
process_map_memory p chunk m =
    let (res, m1) = process_map_binary p chunk m in
    let (r, m2) =
      paging_map_to m1 chunk 0x3FB000 p.stack
        (paging_align_address ((p.stack + stack_size) % 2 ^ 32)) user_flags in
    if is_neg res then (res, m1) else (res, m2)
