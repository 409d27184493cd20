-- ===== src/Process/Slots.antt =====
-- process.c, `process_get` and `process_get_free_slot`.
use os_kernel_application_si.Base.{
  ℕ, zero, suc, ◌+◌, ◌<◌, ◌≡◌, refl, ◌≢◌, inl, inr, ◌==◌, arith, Bool-cases, ==_iff, List, length,
  get_or, get_elem?-eq-get_or, Run, done, ℤ, pos, neg,
}
use os_kernel_application_si.Status.{eistkn}
use os_kernel_application_si.Process.{
  max_processes, Kernel, process_slot_loop, process_get_free_slot,
}

-- What the search for a slot ends with
pub data FreeSlot (slots : List ℕ) (r : Run ℤ) : Type 0 where
  -- the least free slot
  free_slot :
      (i : ℕ)
      → r ≡ done (pos i)
      → i < max_processes
      → get_or slots i 0 ≡ 0
      → ((j : ℕ) → j < i → get_or slots j 0 ≢ 0)
      → FreeSlot slots r
  -- all are in use
  all_in_use :
      r ≡ done (neg eistkn)
      → ((j : ℕ) → j < max_processes → get_or slots j 0 ≢ 0)
      → FreeSlot slots r

loop-FreeSlot :
    (n i : ℕ) (slots : List ℕ)
    → length slots ≡ max_processes
    → i + n ≡ max_processes
    → ((j : ℕ) → j < i → get_or slots j 0 ≢ 0)
    → FreeSlot slots (process_slot_loop n i slots)
unfolding process_slot_loop
loop-FreeSlot zero i slots len e before = all_in_use refl (λ j lt. before j (omega (arith, e, lt)))
loop-FreeSlot (suc n) i slots len e before =
    rw (process_slot_loop, get_elem?-eq-get_or slots i 0 (omega (arith, e, len)))
      (elim (Bool-cases (get_or slots i 0 == 0)) [
        | inl empty ↦
            rw empty
              (free_slot i refl (omega (arith, e)) ((==_iff (get_or slots i 0) 0).0 empty) before)
        | inr taken ↦ rw taken (
            loop-FreeSlot n (i + 1) slots len (omega (arith, e)) (λ j lt.
              elim (Bool-cases (j == i)) [
                | inl here ↦ let h = (==_iff j i).0 here in rw h (λ z. ground arith)
                | inr other ↦ before j (ground (arith, lt))
              ]))
      ])

-- `process_get_free_slot`, on an array of 12 slots, gives the least number by which `process_get`
-- finds no process, or the error if it finds one by every number.
pub process_get_free_slot-FreeSlot :
    (k : Kernel) → length k.slots ≡ max_processes → FreeSlot k.slots (process_get_free_slot k)
unfolding process_get_free_slot
process_get_free_slot-FreeSlot k len =
    loop-FreeSlot max_processes 0 k.slots len refl (λ j lt. absurd (omega arith))
