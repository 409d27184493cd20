-- ===== src/Task.antt =====
-- task/task.c and task.h: the tasks by their addresses, and the list that links them. A null
-- pointer is 0, and an access through it is a fault.
pub mod Linked
pub mod Rotation
pub mod Turns
pub mod Deletion
pub mod Removal
use os_kernel_application_si.Base.{
  ℕ, Bool, not, ◌==◌, if◌then◌else◌, Run, done, fault, and_then, map_run, bit_and,
}

pub record Registers : Type 0 where
  pub edi : ℕ
  pub esi : ℕ
  pub ebp : ℕ
  pub ebx : ℕ
  pub edx : ℕ
  pub ecx : ℕ
  pub eax : ℕ
  pub ip : ℕ
  pub cs : ℕ
  pub flags : ℕ
  pub esp : ℕ
  pub ss : ℕ

-- idt.h, `struct interrupt_frame`
pub record InterruptFrame : Type 0 where
  pub edi : ℕ
  pub esi : ℕ
  pub ebp : ℕ
  pub reserved : ℕ
  pub ebx : ℕ
  pub edx : ℕ
  pub ecx : ℕ
  pub eax : ℕ
  pub ip : ℕ
  pub cs : ℕ
  pub flags : ℕ
  pub esp : ℕ
  pub ss : ℕ

-- `struct task`; the fields `next` and `prev` are addresses of tasks.
pub record TaskData : Type 0 where
  pub page_directory : ℕ
  pub registers : Registers
  pub process : ℕ
  pub next : ℕ
  pub prev : ℕ

-- The tasks in memory, with `current_task`, `task_head` and `task_tail`.
pub record TaskList : Type 0 where
  pub tasks : ℕ → TaskData
  pub current_task : ℕ
  pub task_head : ℕ
  pub task_tail : ℕ

unfoldable pub update : (ℕ → TaskData) → ℕ → TaskData → ℕ → TaskData
update ts a t = λ b. if b == a then t else ts b

unfoldable pub task_has_any : TaskList → Bool
task_has_any l = not (l.task_head == 0)

-- The part of `task_new` that links the task at `t`
unfoldable pub task_new_link : ℕ → TaskList → TaskList
task_new_link t l =
    if l.task_head == 0
    then record l { task_head = t; task_tail = t; current_task = t }
    else let ts = update l.tasks l.task_tail (record (l.tasks l.task_tail) { next = t }) in
      record l { tasks = update ts t (record (ts t) { prev = l.task_tail }); task_tail = t }

unfoldable pub task_get_next : TaskList → Run ℕ
task_get_next l =
    if l.current_task == 0
    then fault
    else let n = (l.tasks l.current_task).next in done (if n == 0 then l.task_head else n)

-- `task->prev->next = task->next`, where there is a previous task
unfoldable pub unlink_prev : ℕ → TaskList → TaskList
unlink_prev t l =
    let p = (l.tasks t).prev in
    let linked = update l.tasks p (record (l.tasks p) { next = (l.tasks t).next }) in
    record l { tasks = if p == 0 then l.tasks else linked }

-- The two tests that move the ends of the list
unfoldable pub unlink_ends : ℕ → TaskList → TaskList
unlink_ends t l = record l {
  task_head = if t == l.task_head then (l.tasks t).next else l.task_head;
  task_tail = if t == l.task_tail then (l.tasks t).prev else l.task_tail;
}

unfoldable pub task_list_remove : ℕ → TaskList → Run TaskList
task_list_remove t l =
    if t == 0
    then fault
    else let l1 = unlink_ends t (unlink_prev t l) in
      if t == l1.current_task
      then map_run (λ n. record l1 { current_task = n }) (task_get_next l1)
      else done l1

unfoldable pub task_save_state : ℕ → InterruptFrame → TaskList → TaskList
task_save_state t frame l =
    let saved : Registers = record {
      ip = frame.ip;
      cs = frame.cs;
      flags = frame.flags;
      esp = frame.esp;
      ss = frame.ss;
      eax = frame.eax;
      ebp = frame.ebp;
      ebx = frame.ebx;
      ecx = frame.ecx;
      edi = frame.edi;
      edx = frame.edx;
      esi = frame.esi;
    } in
    record l { tasks = update l.tasks t (record (l.tasks t) { registers = saved }) }

-- A panic does not return.
unfoldable pub task_current_save_state : InterruptFrame → TaskList → Run TaskList
task_current_save_state frame l =
    if l.current_task == 0 then fault else done (task_save_state l.current_task frame l)
