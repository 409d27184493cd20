-- ===== src/Process/Fork.antt =====
-- process.c, `process_fork`: the child's address space and registers.
use os_kernel_application_si.Base.{ℕ}
use os_kernel_application_si.Memory.Paging.{paging_get}
use os_kernel_application_si.Task.{TaskData}
use os_kernel_application_si.Process.{Kernel}

-- The task at an address
abbrev pub task_at : Kernel → ℕ → TaskData
task_at k t = k.list.tasks t

-- What page `w` is mapped to in the task's address space
abbrev pub mapped : Kernel → ℕ → ℕ → ℕ
mapped k t w = paging_get k.machine.words (k.machine.words (task_at k t).page_directory) w
