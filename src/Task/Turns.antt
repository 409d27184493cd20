-- ===== src/Task/Turns.antt =====
-- idt.asm, `int20h`: the turns of the tasks over many interrupts of the timer.
use os_kernel_application_si.Base.{
  ℕ, zero, suc, ◌+◌, ◌-◌, ◌%◌, ◌≤◌, ◌<◌, ◌≡◌, refl, sym, ap, ◌∙◌, ◌≢◌, inl, inr, List, [], ◌∷◌, ltb,
  ltb→lt, done-injective, if◌then◌else◌, arith, Bool-cases, length, All, done,
}
use native.Mathlib.Nat.{mod-eq_of_lt, mod-eq-sub-mod, mod-add-mod, add-mod_right}
use os_kernel_application_si.Task.{Registers}
use os_kernel_application_si.Process.{Kernel}
use os_kernel_application_si.Idt.Timer.{Tick, frame_registers, ticks}
use os_kernel_application_si.Task.Linked.{place}
use os_kernel_application_si.Task.Rotation.{
  IsUser, registers_of, restored, IsRunning, following, int20h-Ticked, save_self, save_other,
}

-- An interrupt of user code
abbrev pub OfUser : Tick → Type 0
OfUser tick = IsUser tick.frame

module _ (ids : List ℕ) where
  e0 : (i : ℕ) → i + 0 ≡ i
  e0 i = omega arith

  around : (i n : ℕ) → (following ids i + n) % length ids ≡ (i + suc n) % length ids
  around i n = mod-add-mod (i + 1) (length ids) n ∙ ap (λ k. k % length ids) (omega arith)

  -- From the turn of task `i`, each interrupt of user code gives the turn to the next task, in a
  -- circle: after `n` of them it is the turn of task `(i + n) % length ids`.
  ticks-IsRunning :
      (rest : List Tick) (cpu : Registers) (k : Kernel) (i : ℕ)
      → IsRunning k ids i
      → All OfUser rest
      → restored cpu ≡ restored (registers_of k.list (place ids i))
      → (cpu' : Registers) × (k' : Kernel) × (ticks rest cpu k ≡ done (cpu', k'))
        × IsRunning k' ids ((i + length rest) % length ids)
        × (restored cpu'
            ≡ restored (registers_of k'.list (place ids ((i + length rest) % length ids))))
  unfolding ticks
  ticks-IsRunning [] cpu k i is us loads =
      let e : (i + 0) % length ids ≡ i = rw (e0 i) (mod-eq_of_lt is.turn.within) in
      (cpu, k, refl, rw e is, rw e loads)
  ticks-IsRunning (tick ∷ rest) cpu k i is us loads =
      let one = int20h-Ticked ids k i tick is us.0 in
      let (cpu', k', r, is', loads') =
        ticks-IsRunning rest one.cpu one.after (following ids i) one.running us.1 one.loads in
      let e = around i (length rest) in (cpu', k', rw one.run r, rw e at is', rw e at loads')

  -- The same from the first interrupt on, whatever the processor does before it
  pub ticks-turn :
      (tick : Tick) (rest : List Tick) (cpu : Registers) (k : Kernel) (i : ℕ)
      → IsRunning k ids i
      → OfUser tick
      → All OfUser rest
      → (cpu' : Registers) × (k' : Kernel) × (ticks (tick ∷ rest) cpu k ≡ done (cpu', k'))
        × IsRunning k' ids ((i + suc (length rest)) % length ids)
        × (restored cpu'
            ≡ restored (registers_of k'.list (place ids ((i + suc (length rest)) % length ids))))
  unfolding ticks
  ticks-turn tick rest cpu k i is u us =
      let one = int20h-Ticked ids k i tick is u in
      let (cpu', k', r, is', loads) =
        ticks-IsRunning rest one.cpu one.after (following ids i) one.running us one.loads in
      let e = around i (length rest) in (cpu', k', rw one.run r, rw e at is', rw e at loads)

  -- How many turns it is from task `i` to task `j`, once around for the same task
  abbrev pub turns_until : ℕ → ℕ → ℕ
  turns_until i j = if ltb i j then j - i else j + length ids - i

  turns_until_lem :
      (i j : ℕ)
      → i < length ids
      → j < length ids
      → (turns_until i j ≤ length ids) × ((i + turns_until i j) % length ids ≡ j)
  turns_until_lem i j li lj = elim (Bool-cases (ltb i j)) [
    | inl lt ↦
        let h = ltb→lt i j lt in
        let e : i + (j - i) ≡ j = omega (arith, h) in
        rw lt (omega (arith, lj), rw e (mod-eq_of_lt lj))
    | inr ge ↦
        let h : j ≤ i = ground arith in
        let e : i + (j + length ids - i) ≡ j + length ids = omega (arith, li) in
        rw ge (omega (arith, h, li), rw (e, add-mod_right j (length ids)) (mod-eq_of_lt lj))
  ]

  -- No task starves: from the turn of task `i` of a list, after at most as many interrupts of user
  -- code as there are tasks, any task `j` has the turn: it is the current task, with its process and
  -- its directory, and the processor goes on with the registers saved of it, `ebp` and the flags
  -- excepted.
  pub ticks-fair :
      (tick : Tick) (rest : List Tick) (cpu : Registers) (k : Kernel) (i j : ℕ)
      → IsRunning k ids i
      → j < length ids
      → OfUser tick
      → All OfUser rest
      → suc (length rest) ≡ turns_until i j
      → (suc (length rest) ≤ length ids)
        × (cpu' : Registers) × (k' : Kernel) × (ticks (tick ∷ rest) cpu k ≡ done (cpu', k'))
        × IsRunning k' ids j
        × (restored cpu' ≡ restored (registers_of k'.list (place ids j)))
  ticks-fair tick rest cpu k i j is lt u us n =
      let (soon, there) = turns_until_lem i j is.turn.within lt in
      let (cpu', k', r, is', loads) = ticks-turn tick rest cpu k i is u us in
      let e : (i + suc (length rest)) % length ids ≡ j = ap (λ m. (i + m) % length ids) n ∙ there in
      (rw n soon, cpu', k', r, rw e at is', rw e at loads)

  no_full_circle : (i d : ℕ) → i < length ids → 0 < d → d < length ids → (i + d) % length ids ≢ i
  no_full_circle i d li pos_d ld e = elim (Bool-cases (ltb (i + d) (length ids))) [
    | inl small ↦
        let h = mod-eq_of_lt (ltb→lt (i + d) (length ids) small) in omega (arith, h, e, pos_d)
    | inr big ↦
        let le : length ids ≤ i + d = ground arith in
        let h = mod-eq-sub-mod le in
        let lt : i + d - length ids < length ids = omega (arith, li, ld) in
        let h' = mod-eq_of_lt lt in omega (arith, h, h', e, ld, le)
  ]

  -- The registers of task `j` stay as they were in memory while it is not its turn.
  ticks-registers :
      (rest : List Tick) (cpu : Registers) (k : Kernel) (i j d : ℕ)
      → IsRunning k ids i
      → All OfUser rest
      → j < length ids
      → (i + d) % length ids ≡ j
      → length rest ≤ d
      → d < length ids
      → (cpu' : Registers) × (k' : Kernel) × (ticks rest cpu k ≡ done (cpu', k'))
        × (registers_of k'.list (place ids j) ≡ registers_of k.list (place ids j))
  unfolding ticks
  ticks-registers [] cpu k i j d is us lt at le small = (cpu, k, refl, refl)
  ticks-registers (tick ∷ rest) cpu k i j zero is us lt at le small = absurd (omega arith)
  ticks-registers (tick ∷ rest) cpu k i j (suc d) is us lt at le small =
      let one = int20h-Ticked ids k i tick is us.0 in
      let (cpu', k', r, same) =
        ticks-registers rest one.cpu one.after (following ids i) j d one.running us.1 lt
          (around i d ∙ at) (omega (arith, le)) (omega (arith, small)) in
      let within = is.turn.within in
      let other : place ids j ≢ place ids i = λ q.
        no_full_circle i (suc d) within (omega arith) small
          (at ∙ is.turn.forward.distinct j i lt within q) in
      (
        cpu',
        k',
        rw one.run r,
        same
            ∙ ap (λ ts. (ts (place ids j)).registers) one.tasks
            ∙ save_other k.list (place ids i) tick.frame (place ids j) other,
      )

  -- An interrupted task goes on where it was: once each of the others had its turn, it is the task's
  -- turn again, with its process and its directory, and the processor goes on with the registers of
  -- the frame, `ebp` and the flags excepted.
  pub ticks-resumes :
      (tick : Tick) (rest : List Tick) (cpu : Registers) (k : Kernel) (i : ℕ)
      → IsRunning k ids i
      → OfUser tick
      → All OfUser rest
      → length rest + 1 ≡ length ids
      → (cpu' : Registers) × (k' : Kernel) × (ticks (tick ∷ rest) cpu k ≡ done (cpu', k'))
        × IsRunning k' ids i
        × (restored cpu' ≡ restored (frame_registers tick.frame))
  unfolding ticks
  ticks-resumes tick rest cpu k i is u us n =
      let one = int20h-Ticked ids k i tick is u in
      let all : i + suc (length rest) ≡ i + length ids = omega (arith, n) in
      let round : (i + suc (length rest)) % length ids ≡ i =
        ap (λ m. m % length ids) all ∙ add-mod_right i (length ids) ∙ mod-eq_of_lt is.turn.within in
      let (cpu', k', r, is', loads) =
        ticks-IsRunning rest one.cpu one.after (following ids i) one.running us one.loads in
      let (c2, k2, r2, kept) =
        ticks-registers rest one.cpu one.after (following ids i) i (length rest) one.running us
          is.turn.within (around i (length rest) ∙ round) (omega arith) (omega (arith, n)) in
      let same : (cpu', k') ≡ (c2, k2) = done-injective (cpu', k') (c2, k2) (sym r ∙ r2) in
      let e = around i (length rest) ∙ round in
      (
        cpu',
        k',
        rw one.run r,
        rw e at is',
        (rw e at loads)
            ∙ ap restored (
                ap (λ (s : Registers × Kernel). registers_of (s.1).list (place ids i)) same
                ∙ kept
                ∙ ap (λ ts. (ts (place ids i)).registers) one.tasks
                ∙ save_self k.list (place ids i) tick.frame),
      )
