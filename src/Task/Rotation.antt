-- ===== src/Task/Rotation.antt =====
-- idt.c and idt.asm, `int20h`, with task.c's `task_get_next` and `task_switch`: the timer and the
-- turns of the tasks.
use os_kernel_application_si.Base.{
  ℕ, suc, ◌+◌, ◌%◌, ◌<◌, ◌≡◌, refl, sym, ap, ◌∙◌, ◌≢◌, inl, inr, false, List, ◌==◌, if◌then◌else◌,
  arith, Bool-cases, ==_iff, length, Run, done, bit_and,
}
use native.Mathlib.Nat.{mod-lt, mod-eq_of_lt, mod_self}
use os_kernel_application_si.Task.{
  Registers, InterruptFrame, TaskData, TaskList, task_get_next, task_save_state,
  task_current_save_state,
}
use os_kernel_application_si.Memory.Paging.{paging_switch}
use os_kernel_application_si.Process.{Kernel}
use os_kernel_application_si.Process.Tasks.{task_switch}
use os_kernel_application_si.Idt.Timer.{int20h_handler, Tick, frame_registers, task_return, int20h}
use os_kernel_application_si.Task.Linked.{place, IsForward, place-beyond, update_self, update_ne}

-- An interrupt of code in user mode
abbrev pub IsUser : InterruptFrame → Type 0
IsUser frame = bit_and frame.cs 0x3 ≡ 3

-- The registers of task `t` in memory
abbrev pub registers_of : TaskList → ℕ → Registers
registers_of l t = (l.tasks t).registers

-- The turn of task `i` of the list
pub record IsTurn (l : TaskList) (ids : List ℕ) (i : ℕ) : Type 0 where
  pub forward : IsForward l ids
  pub within : i < length ids
  pub current : l.current_task ≡ place ids i

-- The registers that `task_return` restores: all but `ebp` and the flags
unfoldable pub restored : Registers → Registers
restored r = record r { ebp = 0; flags = 0 }

-- The turn of task `i`, with its process and its pages
pub record IsRunning (k : Kernel) (ids : List ℕ) (i : ℕ) : Type 0 where
  pub turn : IsTurn k.list ids i
  pub process : k.current_process ≡ (k.list.tasks (place ids i)).process
  pub paged : k.machine.cr3 ≡ k.machine.words (k.list.tasks (place ids i)).page_directory

-- A save changes the registers of one task, and nothing else.
module _ {B : Type 0} (field : TaskData → B)
    (keeps : (d : TaskData) (r : Registers) → field (record d { registers = r }) ≡ field d) where
  save-field :
      (l : TaskList) (t : ℕ) (f : InterruptFrame) (b : ℕ)
      → field ((task_save_state t f l).tasks b) ≡ field (l.tasks b)
  unfolding task_save_state
  save-field l t f b = elim (Bool-cases (b == t)) [
    | inl same ↦ rw ((==_iff b t).0 same, update_self l.tasks t _) (keeps (l.tasks t) _)
    | inr other ↦ ap field (update_ne l.tasks t _ b (λ e. ground arith))
  ]

save-next :
    (l : TaskList) (t : ℕ) (f : InterruptFrame) (b : ℕ)
    → ((task_save_state t f l).tasks b).next ≡ (l.tasks b).next
save-next = save-field (λ d. d.next) (λ d r. refl)

pub save_self :
    (l : TaskList) (t : ℕ) (f : InterruptFrame)
    → registers_of (task_save_state t f l) t ≡ frame_registers f
unfolding task_save_state frame_registers
save_self l t f = ap (λ (d : TaskData). d.registers) (update_self l.tasks t _)

pub save_other :
    (l : TaskList) (t : ℕ) (f : InterruptFrame) (b : ℕ)
    → b ≢ t
    → registers_of (task_save_state t f l) b ≡ registers_of l b
unfolding task_save_state
save_other l t f b ne = ap (λ (d : TaskData). d.registers) (update_ne l.tasks t _ b ne)

save-IsTurn :
    (l : TaskList) (ids : List ℕ) (i t : ℕ) (f : InterruptFrame)
    → IsTurn l ids i
    → IsTurn (task_save_state t f l) ids i
unfolding task_save_state
save-IsTurn l ids i t f is = record {
  forward = record {
    head = is.forward.head;
    next = λ j lt. save-next l t f (place ids j) ∙ is.forward.next j lt;
    real = is.forward.real;
    distinct = is.forward.distinct;
  };
  within = is.within;
  current = is.current;
}

module _ (ids : List ℕ) where
  -- The turn behind `i`, in a circle
  abbrev pub following : ℕ → ℕ
  following i = (i + 1) % length ids

  following-last : (i : ℕ) → suc i ≡ length ids → following i ≡ 0
  following-last i e =
      let e' : i + 1 ≡ length ids = omega (arith, e) in rw e' (mod_self (length ids))

  following-inner : (i : ℕ) → suc i < length ids → following i ≡ suc i
  following-inner i lt = let e : i + 1 ≡ suc i = omega arith in rw e (mod-eq_of_lt lt)

  -- At the turn of a task, `task_get_next` is the task behind it in the list, and the first behind
  -- the last.
  pub task_get_next-following :
      (l : TaskList) (i : ℕ) → IsTurn l ids i → task_get_next l ≡ done (place ids (following i))
  unfolding task_get_next
  task_get_next-following l i is =
      rw (is.current, is.forward.next i is.within)
        (elim (Bool-cases (suc i == length ids)) [
          | inl last ↦
              let e = (==_iff (suc i) (length ids)).0 last in
              rw (following-last i e, place-beyond ids (suc i) (omega (arith, e)))
                (ground (arith, is.forward.real i is.within, is.forward.head))
          | inr inner ↦
              let lt : suc i < length ids = ground (arith, is.within) in
              rw (following-inner i lt)
                (ground (arith, is.forward.real i is.within, is.forward.real (suc i) lt))
        ])

  -- What an interrupt of the timer does at the turn of task `i`
  pub record Ticked (k : Kernel) (i : ℕ) (tick : Tick) (r : Run (Registers × Kernel)) : Type 0 where
    pub after : Kernel
    pub cpu : Registers
    pub run : r ≡ done (cpu, after)
    pub running : IsRunning after ids (following i)
    pub tasks : after.list.tasks ≡ (task_save_state (place ids i) tick.frame k.list).tasks
    pub loads : restored cpu ≡ restored (registers_of after.list (place ids (following i)))

  following-within : (i : ℕ) → i < length ids → following i < length ids
  following-within i lt = mod-lt (i + 1) (omega (arith, lt))

  handler_run :
      (k : Kernel) (frame : InterruptFrame) (n : ℕ)
      → k.list.current_task ≢ 0
      → IsUser frame
      → task_get_next (task_save_state k.list.current_task frame k.list) ≡ done n
      → n ≢ 0
      → int20h_handler frame k ≡ (
          let k1 : Kernel = record k { list = task_save_state k.list.current_task frame k.list } in
          if n == k.list.current_task then done (0, k1) else done (n, task_switch n k1))
  unfolding int20h_handler task_current_save_state task_save_state
  handler_run k frame n real user e real' = ground (arith, user, e)

  pub int20h-Ticked :
      (k : Kernel) (i : ℕ) (tick : Tick)
      → IsRunning k ids i
      → IsUser tick.frame
      → Ticked k i tick (int20h tick k)
  unfolding int20h task_switch paging_switch task_return restored
  int20h-Ticked k i tick is user =
      let l = k.list in
      let frame = tick.frame in
      let t = l.current_task in
      let l1 = task_save_state t frame l in
      let is1 = save-IsTurn l ids i t frame is.turn in
      let n = place ids (following i) in
      let lt = following-within i is.turn.within in
      let saved : l1.tasks ≡ (task_save_state (place ids i) frame l).tasks =
        ap (λ c. (task_save_state c frame l).tasks) is.turn.current in
      let real : (n == 0) ≡ false = ground (arith, is.turn.forward.real (following i) lt) in
      rw
        (handler_run k frame n
          (λ e. is.turn.forward.real i is.turn.within (sym is.turn.current ∙ e)) user
          (task_get_next-following l1 i is1) (is.turn.forward.real (following i) lt))
        (elim (Bool-cases (n == t)) [
          | inl same ↦
              let e : n ≡ place ids i = (==_iff n t).0 same ∙ is.turn.current in
              rw same (record {
                after = record k { list = l1 };
                cpu = frame_registers frame;
                run = refl;
                running = record {
                  turn = record {
                    forward = is1.forward;
                    within = lt;
                    current = is1.current ∙ sym e;
                  };
                  process =
                      is.process
                      ∙ ap (λ b. (l.tasks b).process) (sym e)
                      ∙ sym (save-field (λ d. d.process) (λ d r. refl) l t frame n);
                  paged =
                      is.paged
                      ∙ ap (λ b. k.machine.words (l.tasks b).page_directory) (sym e)
                      ∙ ap k.machine.words
                          (sym (save-field (λ d. d.page_directory) (λ d r. refl) l t frame n));
                };
                tasks = saved;
                loads =
                    ap restored (
                      sym (save_self l t frame) ∙ ap (registers_of l1) (sym ((==_iff n t).0 same)));
              })
          | inr other ↦
              rw (other, real)
                (record {
                  after = task_switch n (record k { list = l1 });
                  cpu = task_return tick (registers_of l1 n);
                  run = refl;
                  running = record {
                    turn = record {
                      forward = record {
                        head = is1.forward.head;
                        next = is1.forward.next;
                        real = is1.forward.real;
                        distinct = is1.forward.distinct;
                      };
                      within = lt;
                      current = refl;
                    };
                    process = refl;
                    paged = refl;
                  };
                  tasks = saved;
                  loads = refl;
                })
        ])
