-- ===== src/Process/Creation.antt =====
-- task.c, `task_new`: the new task, in the list and with its own address space.
use os_kernel_application_si.Base.{ℕ, ℤ, Run, ◌≡◌, ◌≢◌, List, [], ◌∷◌, ◌++◌, done, pos, bit_or}
use os_kernel_application_si.Memory.Paging.{paging_get}
use os_kernel_application_si.Memory.Paging.Directory.{IsPage}
use os_kernel_application_si.Memory.Paging.Ranges.{IsChunk}
use os_kernel_application_si.Memory.Paging.Pages.{IsTaken}
use os_kernel_application_si.Memory.Paging.Copy.{IsNewChunk}
use os_kernel_application_si.Task.{Registers, TaskData}
use os_kernel_application_si.Task.Linked.{IsTaskList}
use os_kernel_application_si.Process.{Kernel, empty_registers}

-- The registers that a program starts with
abbrev pub first_registers : Registers
first_registers = record empty_registers { ip = 0x400000; ss = 0x23; cs = 0x1b; esp = 0x3FF000 }

-- A new task of a process, behind those at `ids`
pub record Created (k : Kernel) (ids : List ℕ) (process : ℕ) (r : Run (ℤ × Kernel)) : Type 0 where
  pub t : ℕ
  pub after : Kernel
  pub run : r ≡ done (pos t, after)
  pub list : IsTaskList after.list (ids ++ (t ∷ []))
  pub process_of : (after.list.tasks t).process ≡ process
  pub registers : (after.list.tasks t).registers ≡ first_registers
  -- the task's memory and its directory are its own
  pub own : IsTaken after.machine.heap t
  pub fresh : (q : ℕ) → IsTaken k.machine.heap q → q ≢ t
  pub directory : IsNewChunk k.machine after.machine (after.list.tasks t).page_directory
  pub chunk : IsChunk after.machine.words (after.list.tasks t).page_directory
  -- every page is mapped to itself, for all to read
  pub pages :
      (w : ℕ)
      → IsPage w
      → paging_get after.machine.words (after.machine.words (after.list.tasks t).page_directory) w
        ≡ bit_or w 0b101

-- What `task_init` writes
abbrev ready : ℕ → ℕ → TaskData
ready c process = record {
  page_directory = c;
  registers = first_registers;
  process = process;
  next = 0;
  prev = 0;
}
