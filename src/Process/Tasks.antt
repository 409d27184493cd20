-- ===== src/Process/Tasks.antt =====
-- task.c, `task_new`, `task_init`, `task_free` and `task_switch`
use os_kernel_application_si.Base.{
  ℕ, ◌==◌, if◌then◌else◌, Run, done, fault, and_then, map_run, ℤ, pos, negsuc, neg,
}
use os_kernel_application_si.Status.{eio, enomem}
use os_kernel_application_si.Memory.Paging.{
  Machine, kzalloc_words, kfree, paging_new_4gb, paging_free_4gb, paging_switch,
}
use os_kernel_application_si.Task.{TaskData, task_new_link, task_list_remove}
use os_kernel_application_si.Process.{Kernel, task_words, empty_registers, set_task, with_machine}

-- task.c, `task_free`; an access through a null task is a fault.
unfoldable pub task_free : ℕ → Kernel → Run Kernel
task_free t k =
    if t == 0
    then fault
    else and_then (paging_free_4gb (k.list.tasks t).page_directory k.machine) λ s.
      and_then (task_list_remove t k.list)
        λ l. map_run (λ s'. record k { machine = s'; list = l }) (kfree t s)

-- task.c, `task_init`: the program starts at 0x400000, with its stack below 0x3FF000, in the user's
-- segments.
unfoldable pub task_init : ℕ → ℕ → Kernel → Run (ℤ × Kernel)
task_init t process k =
    map_run
      (λ (r : ℕ × Machine).
        let fresh : TaskData = record {
          page_directory = r.0;
          registers = empty_registers;
          process = 0;
          next = 0;
          prev = 0;
        } in
        let ready : TaskData = record fresh {
          registers = record empty_registers {
            ip = 0x400000;
            ss = 0x23;
            cs = 0x1b;
            esp = 0x3FF000;
          };
          process = process;
        } in
        let k' = with_machine k (r.1) in
        if r.0 == 0 then (neg eio, set_task t fresh k') else (pos 0, set_task t ready k'))
      (paging_new_4gb 0b101 k.machine)

-- task.c, `task_new`: the task's address, or an error. The list's part is `task_new_link`.
unfoldable pub task_new : ℕ → Kernel → Run (ℤ × Kernel)
task_new process k = and_then (kzalloc_words task_words k.machine) λ (t, s).
    if t == 0
    then map_run (λ k'. (neg enomem, k')) (task_free t (with_machine k s))
    else and_then (task_init t process (with_machine k s)) λ (res, k1). elim res [
      | negsuc e ↦ map_run (λ k'. (negsuc e, k')) (task_free t k1)
      | pos n ↦ done (pos t, record k1 { list = task_new_link t k1.list })
    ]

-- task.c
unfoldable pub task_switch : ℕ → Kernel → Kernel
task_switch t k = record k {
  list = record k.list { current_task = t };
  current_process = (k.list.tasks t).process;
  machine = paging_switch (k.list.tasks t).page_directory k.machine;
}
