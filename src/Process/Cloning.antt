-- ===== src/Process/Cloning.antt =====
-- process.c, `process_free` and `process_fork`
use os_kernel_application_si.Base.{
  ℕ, zero, suc, ◌==◌, if◌then◌else◌, set, Run, done, fault, and_then, map_run, ℤ, pos, negsuc, neg,
  replicate,
}
use os_kernel_application_si.Status.{enomem, eistkn}
use os_kernel_application_si.Strings.{strncpy}
use os_kernel_application_si.Memory.Paging.{with_words, kfree, paging_free_4gb, paging_copy_4gb}
use os_kernel_application_si.Task.{Registers, TaskData}
use os_kernel_application_si.Process.{
  Kernel, max_path, stack_size, process_bytes, empty_process, set_process, set_task, with_machine,
  memcpy_words, kzalloc_bytes, process_get_free_slot,
}
use os_kernel_application_si.Process.Tasks.{task_free, task_new}

unfoldable pub process_free : ℕ → Kernel → Run Kernel
process_free p k =
    let d = k.processes p in
    let freed = and_then (task_free d.task k) λ k1.
      and_then (kfree (k1.processes p).ptr k1.machine) λ s1.
        and_then (kfree (k1.processes p).stack s1) λ s2.
          map_run (λ s3. record k1 { machine = s3; slots = set k1.slots (k1.processes p).id 0 })
            (kfree p s2) in
    if p == 0 then done k else freed

-- The child's directory becomes a copy of the parent's, and its registers the parent's, but for
-- `eax`, which is 0. An error leaves the task without a directory.
unfoldable pub cloned_task : ℕ → ℕ → ℕ → Kernel → Run (ℤ × Kernel)
cloned_task parent_task child_task chunk k =
    let copied : TaskData = record (k.list.tasks child_task) { page_directory = chunk } in
    let regs : Registers = record (k.list.tasks parent_task).registers { eax = 0 } in
    if chunk == 0
    then done (neg enomem, set_task child_task copied k)
    else done (pos 0, set_task child_task (record copied { registers = regs }) k)

unfoldable pub fork_clone : ℕ → ℕ → Kernel → Run (ℤ × Kernel)
fork_clone parent_task child_task k =
    and_then (paging_copy_4gb (k.list.tasks parent_task).page_directory k.machine)
      λ (c, s). cloned_task parent_task child_task c (with_machine k s)

-- The end of `process_fork`, from its `task_new` on: the status and the child. The result of
-- `task_new` is only compared with 0, so that an error is taken for a task, whose use is a fault.
unfoldable pub fork_task : ℕ → ℕ → ℕ → Kernel → Run (ℤ × ℕ × Kernel)
fork_task parent child slot k = and_then (task_new child k) λ (t, k1). elim t [
  | negsuc e ↦ fault
  | pos zero ↦ done (pos 0, 0, k1)
  | pos (suc n) ↦
      let task = suc n in
      let k2 = set_process child (record (k1.processes child) { task = task }) k1 in
      and_then (paging_free_4gb (k2.list.tasks task).page_directory k2.machine) λ s.
        map_run
          (λ (r : ℤ × Kernel). elim r.0 [
            | negsuc e ↦ (negsuc e, 0, r.1)
            | pos z ↦ (pos z, child, record (r.1) { slots = set (r.1).slots slot child })
          ])
          (fork_clone (k2.processes parent).task task (with_machine k2 s))
]

-- `memcpy` in the kernel's memory
unfoldable pub copy_memory : ℕ → ℕ → ℕ → Kernel → Kernel
copy_memory n dst src k =
    with_machine k (with_words k.machine (memcpy_words n dst src k.machine.words))

unfoldable pub fork_stack : ℕ → ℕ → ℕ → Kernel → Run (ℤ × ℕ × Kernel)
fork_stack parent child slot k = and_then (kzalloc_bytes stack_size k) λ (stack, k1).
    let k2 = set_process child (record (k1.processes child) { stack = stack }) k1 in
    let k3 = copy_memory stack_size stack (k2.processes parent).stack k2 in
    let rest =
      and_then (strncpy (replicate max_path 0) (k3.processes parent).filename max_path) λ name.
        fork_task parent child slot
          (set_process child (record (k3.processes child) { filename = name; id = slot }) k3) in
    if stack == 0 then done (neg enomem, 0, k2) else rest

-- The status, the child's address, 0 on an error, and the kernel; what was allocated stays.
unfoldable pub process_fork : ℕ → Kernel → Run (ℤ × ℕ × Kernel)
process_fork parent k = and_then (process_get_free_slot k) λ found. elim found [
  | negsuc e ↦ done (neg eistkn, 0, k)
  | pos slot ↦ and_then (kzalloc_bytes process_bytes k) λ (child, k1).
      let k2 = set_process child empty_process k1 in
      let size = (k2.processes parent).size in
      let program = and_then (kzalloc_bytes size k2) λ (ptr, k3).
        let k4 = set_process child (record (k3.processes child) { ptr = ptr }) k3 in
        let k5 = copy_memory size ptr (k4.processes parent).ptr k4 in
        let rest =
          fork_stack parent child slot
            (set_process child (record (k5.processes child) { size = size }) k5) in
        if ptr == 0 then done (neg enomem, 0, k4) else rest in
      if child == 0 then done (neg enomem, 0, k1) else program
]
