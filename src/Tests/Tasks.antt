-- ===== src/Tests/Tasks.antt =====
-- A list of three tasks, with the first one's turn.
use os_kernel_application_si.Base.{
  ℕ, zero, suc, ◌+◌, ◌*◌, ◌≤◌, ◌<◌, ◌≡◌, refl, ◌≢◌, ◌==◌, if◌then◌else◌, arith, List, [], ◌∷◌,
  replicate, and_then, done,
}
use os_kernel_application_si.Task.{Registers, InterruptFrame, TaskData, TaskList, task_list_remove}
use os_kernel_application_si.Task.Linked.{place, IsForward, IsTaskList}
use os_kernel_application_si.Idt.Timer.{Tick, frame_registers, ticks}
use os_kernel_application_si.Task.Rotation.{IsRunning, registers_of, restored}
use os_kernel_application_si.Task.Turns.{ticks-fair, ticks-resumes}
use os_kernel_application_si.Task.Removal.{
  current_after, task_list_remove-IsForward, task_list_remove-task_list_remove,
}
use os_kernel_application_si.Process.{Kernel, empty_registers, empty_process, process_get_free_slot}
use os_kernel_application_si.Process.Slots.{FreeSlot, process_get_free_slot-FreeSlot}

-- Task `t` with its links; its directory and its process stand by its address.
abbrev node : ℕ → ℕ → ℕ → TaskData
node t n p = record {
  page_directory = 0x8000 + t;
  registers = record empty_registers { ip = 0x400000; cs = 0x1b; eax = t };
  process = 0x5000 + t;
  next = n;
  prev = p;
}

abbrev three : List ℕ
three = 10 ∷ 20 ∷ 30 ∷ []

abbrev three_tasks : TaskList
three_tasks = record {
  tasks = λ t.
      if t == 10
      then node 10 20 0
      else if t == 20
      then node 20 30 10
      else if t == 30
      then node 30 0 20
      else node 0 0 0;
  current_task = 10;
  task_head = 10;
  task_tail = 30;
}

below_three {ℓ} : (P : ℕ → Type ℓ) → P 0 → P 1 → P 2 → (i : ℕ) → i < 3 → P i
below_three P a b c zero h = a
below_three P a b c (suc zero) h = b
below_three P a b c (suc (suc zero)) h = c
below_three P a b c (suc (suc (suc i))) h = absurd (omega arith)

three_tasks-IsForward : IsForward three_tasks three
three_tasks-IsForward = record {
  head = refl;
  next =
      below_three (λ i. (three_tasks.tasks (place three i)).next ≡ place three (suc i)) refl refl
        refl;
  real =
      below_three (λ i. place three i ≢ 0) (λ e. omega (arith, e)) (λ e. omega (arith, e))
        (λ e. omega (arith, e));
  distinct = λ i j li lj e.
      let p = below_three (λ i. place three i ≡ i * 10 + 10) refl refl refl in
      omega (arith, p i li, p j lj, e);
}

three_tasks-IsTaskList : IsTaskList three_tasks three
three_tasks-IsTaskList = record {
  forward = three_tasks-IsForward;
  tail = refl;
  prev =
      below_three (λ i. (three_tasks.tasks (place three i)).prev ≡ place (0 ∷ three) i) refl refl
        refl;
}

task_list_remove-IsForward_example :
    (l' : TaskList) × (task_list_remove 20 three_tasks ≡ done l')
    × IsForward l' (10 ∷ 30 ∷ [])
    × (l'.task_tail ≡ 30)
    × (l'.current_task ≡ current_after three_tasks three 1)
    × ((b : ℕ) → (l'.tasks b).prev ≡ (three_tasks.tasks b).prev)
task_list_remove-IsForward_example =
    task_list_remove-IsForward three_tasks three 1 three_tasks-IsTaskList (omega arith)

task_list_remove-task_list_remove_example :
    (l' : TaskList) × (and_then (task_list_remove 20 three_tasks) (task_list_remove 30) ≡ done l')
    × ((l'.tasks 10).next ≡ 30)
task_list_remove-task_list_remove_example =
    task_list_remove-task_list_remove three_tasks three 0 three_tasks-IsTaskList (omega arith)

-- An interrupt of a program at `at`
abbrev frame_at : ℕ → InterruptFrame
frame_at place = record {
  edi = 1;
  esi = 2;
  ebp = 3;
  reserved = 0;
  ebx = 4;
  edx = 5;
  ecx = 6;
  eax = 7;
  ip = place;
  cs = 0x1b;
  flags = 0x202;
  esp = 0x3FEFF0;
  ss = 0x23;
}

abbrev two_processes : Kernel
two_processes = record {
  machine = record {
    heap = record { table = record { entries = []; total = 0 }; saddr = 0 };
    words = λ a. a + 0x100000;
    cr3 = 0x10800a;
    current_directory = 0x10800a;
  };
  list = three_tasks;
  processes = λ p. empty_process;
  slots = 0x500a ∷ 0x5014 ∷ replicate 10 0;
  current_process = 0x500a;
}

abbrev tick_at : ℕ → Tick
tick_at place = record { frame = frame_at place; flags = 0x46; stack = 0x5FFFC0 }

first-IsRunning : IsRunning two_processes three 0
first-IsRunning = record {
  turn = record { forward = three_tasks-IsForward; within = omega arith; current = refl };
  process = refl;
  paged = refl;
}

ticks-fair_example :
    (2 ≤ 3)
    × (cpu' : Registers) × (k' : Kernel) × (ticks
          (tick_at 0x400010 ∷ tick_at 0x400020 ∷ [])
          empty_registers
          two_processes
        ≡ done (cpu', k'))
    × IsRunning k' three 2
    × (restored cpu' ≡ restored (registers_of k'.list 30))
ticks-fair_example =
    ticks-fair three (tick_at 0x400010) (tick_at 0x400020 ∷ []) empty_registers two_processes 0 2
      first-IsRunning (omega arith) refl (refl, tt) refl

ticks-resumes_example :
    (cpu' : Registers) × (k' : Kernel) × (ticks
        (tick_at 0x400010 ∷ tick_at 0x400020 ∷ tick_at 0x400030 ∷ [])
        empty_registers
        two_processes
      ≡ done (cpu', k'))
    × IsRunning k' three 0
    × (restored cpu' ≡ restored (frame_registers (frame_at 0x400010)))
ticks-resumes_example =
    ticks-resumes three (tick_at 0x400010) (tick_at 0x400020 ∷ tick_at 0x400030 ∷ [])
      empty_registers two_processes 0 first-IsRunning refl (refl, (refl, tt)) refl

process_get_free_slot-FreeSlot_example :
    FreeSlot (0x500a ∷ 0x5014 ∷ replicate 10 0) (process_get_free_slot two_processes)
process_get_free_slot-FreeSlot_example = process_get_free_slot-FreeSlot two_processes refl
