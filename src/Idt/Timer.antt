-- ===== src/Idt/Timer.antt =====
-- idt.c, `int20h_handler`, with the routine of idt.asm around it and task.asm's `task_return`: the
-- interrupt of the timer.
use os_kernel_application_si.Base.{
  ℕ, not, ◌==◌, if◌then◌else◌, bit_and, bit_or, List, [], ◌∷◌, Run, done, and_then, map_run,
}
use os_kernel_application_si.Task.{
  Registers, InterruptFrame, task_get_next, task_current_save_state,
}
use os_kernel_application_si.Process.{Kernel}
use os_kernel_application_si.Process.Tasks.{task_switch}

-- The task whose registers are to be loaded, 0 to go on with what was interrupted. The
-- acknowledgement of the interrupt is not modelled.
unfoldable pub int20h_handler : InterruptFrame → Kernel → Run (ℕ × Kernel)
int20h_handler frame k =
    if k.list.current_task == 0
    then done (0, k)
    else if not (bit_and frame.cs 0x3 == 3)
    then done (0, k)
    else and_then (task_current_save_state frame k.list) λ l1. and_then (task_get_next l1) λ next.
      let k1 = record k { list = l1 } in
      if next == 0
      then done (0, k1)
      else if next == l1.current_task
      then done (0, k1)
      else done (next, task_switch next k1)

-- An interrupt: the frame, and in `task_return` the flags and the stack pointer of the kernel
pub record Tick : Type 0 where
  pub frame : InterruptFrame
  pub flags : ℕ
  pub stack : ℕ

-- `popad` and `iret`
unfoldable pub frame_registers : InterruptFrame → Registers
frame_registers f = record {
  edi = f.edi;
  esi = f.esi;
  ebp = f.ebp;
  ebx = f.ebx;
  edx = f.edx;
  ecx = f.ecx;
  eax = f.eax;
  ip = f.ip;
  cs = f.cs;
  flags = f.flags;
  esp = f.esp;
  ss = f.ss;
}

-- task.asm: the flags are those of the kernel with the interrupts on, and the `pop ebp` behind the
-- loads takes back what `ebp` was before them, the stack pointer that `task_return` began with.
unfoldable pub task_return : Tick → Registers → Registers
task_return tick r = record r { flags = bit_or tick.flags 0x200; ebp = tick.stack }

-- idt.asm, `int20h`: the registers that user code goes on with, and the kernel
unfoldable pub int20h : Tick → Kernel → Run (Registers × Kernel)
int20h tick k =
    map_run
      (λ (r : ℕ × Kernel).
        let next = task_return tick ((r.1).list.tasks (r.0)).registers in
        (if r.0 == 0 then frame_registers tick.frame else next, r.1))
      (int20h_handler tick.frame k)

-- The interrupts, one behind the other; `cpu` are the registers before them.
unfoldable pub ticks : List Tick → Registers → Kernel → Run (Registers × Kernel)
ticks [] cpu k = done (cpu, k)
ticks (tick ∷ rest) cpu k = and_then (int20h tick k) λ r. ticks rest (r.0) (r.1)
