-- ===== src/Memory/Heap/FirstFit.antt =====
-- heap.c, `heap_get_start_block`: which block the search gives, on every table.
use os_kernel_application_si.Base.{
  ℕ, zero, suc, ◌+◌, ◌-◌, ◌≤◌, ◌<◌, ◌≡◌, refl, ◌⊎◌, inl, inr, Bool, true, false, Option, none, some,
  ◌∙◌, List, [], ◌∷◌, ◌==◌, arith, ==_iff, Bool-cases, length, get_elem?, get_or,
  get_elem?-eq-get_or, Run, done, ℤ, pos, neg,
}
use os_kernel_application_si.Status.{enomem}
use os_kernel_application_si.Memory.Heap.{
  Heap, heap_get_entry_type, entry_free, begin_run, start_block_loop, block_or_error,
  heap_get_start_block,
}

-- Entry `k` exists and is free.
unfoldable pub free_at : List ℕ → ℕ → Bool
free_at es k = elim (get_elem? es k) [ none ↦ false | some e ↦ heap_get_entry_type e == entry_free ]

-- The `n` entries from `b` on are free.
abbrev pub FreeRun : List ℕ → ℕ → ℕ → Type 0
FreeRun es b n = (j : ℕ) → b ≤ j → j < b + n → free_at es j ≡ true

-- No run of `n` free entries begins before `s`.
abbrev pub NoneBefore : List ℕ → ℕ → ℕ → Type 0
NoneBefore es n s = (c : ℕ) → c < s → ¬ FreeRun es c n

-- `s` is the start of the table, or stands behind an entry in use.
abbrev pub IsEdge : List ℕ → ℕ → Type 0
IsEdge es s = (s ≡ 0) ⊎ (free_at es (s - 1) ≡ false)

-- What a search for `n` blocks can end with.
pub data StartBlock (es : List ℕ) (n : ℕ) (r : ℤ) : Type 0 where
  -- the first run of `n` free entries
  whole :
      (b : ℕ)
      → r ≡ pos b
      → b + n ≤ length es
      → FreeRun es b n
      → NoneBefore es n b
      → StartBlock es n r
  -- no such run; the table ends in a shorter one
  short :
      (b : ℕ)
      → r ≡ pos b
      → b < length es
      → length es < b + n
      → FreeRun es b (length es - b)
      → IsEdge es b
      → NoneBefore es n (length es)
      → StartBlock es n r
  -- no such run; the last entry is in use
  full : r ≡ neg enomem → IsEdge es (length es) → NoneBefore es n (length es) → StartBlock es n r

-- The variable `bs`, where a run of `bc` entries from `s` on is under way.
abbrev run_start : ℕ → ℕ → Option ℕ
run_start s zero = none
run_start s (suc bc) = some s

begin_run-run_start : (s bc i : ℕ) → i ≡ s + bc → begin_run (run_start s bc) i ≡ some s
begin_run-run_start s zero i e = ground arith
begin_run-run_start s (suc bc) i e = refl

FreeRun-extend :
    (es : List ℕ) (s bc i : ℕ)
    → i ≡ s + bc
    → FreeRun es s bc
    → free_at es i ≡ true
    → FreeRun es s (bc + 1)
FreeRun-extend es s bc i e run h j lo hi = elim (Bool-cases (j == i)) [
  | inl here ↦ rw ((==_iff j i).0 here) h
  | inr other ↦ run j lo (ground arith)
]

NoneBefore-skip :
    (es : List ℕ) (n s bc i : ℕ)
    → i ≡ s + bc
    → bc < n
    → NoneBefore es n s
    → free_at es i ≡ false
    → NoneBefore es n (i + 1)
NoneBefore-skip es n s bc i e lt before h c c<i run = go (omega arith)
  where
    go : (c < s) ⊎ (s ≤ c) → ⊥
    go (inl l) = before c l run
    go (inr g) = let t = run i (omega arith) (omega arith) in cc

pub free_at-out : (es : List ℕ) (k : ℕ) → length es ≤ k → free_at es k ≡ false
unfolding free_at
free_at-out [] k h = refl
free_at-out (x ∷ es) zero h = absurd (omega arith)
free_at-out (x ∷ es) (suc k) h = free_at-out es k (omega arith)

pub free_at-some :
    (es : List ℕ) (k e : ℕ)
    → get_elem? es k ≡ some e
    → free_at es k ≡ (heap_get_entry_type e == entry_free)
unfolding free_at
free_at-some es k e h = rw (free_at, h)

FreeRun-none : (es : List ℕ) (s : ℕ) → FreeRun es s 0
FreeRun-none es s j lo hi = absurd (omega arith)

-- What the loop ends with, as a block of the code.
data Found (es : List ℕ) (n : ℕ) (r : Run (Option ℕ)) : Type 0 where
  found : (o : Option ℕ) → r ≡ done o → StartBlock es n (block_or_error o) → Found es n r

module _ (es : List ℕ) (n : ℕ) where
  at_end :
      (s bc i : ℕ)
      → i ≡ length es
      → i ≡ s + bc
      → bc < n
      → FreeRun es s bc
      → NoneBefore es n s
      → IsEdge es s
      → NoneBefore es n i
      → StartBlock es n (block_or_error (run_start s bc))
  at_end s zero i len e lt run before edge all =
      let e' : s ≡ length es = omega arith in full refl (rw e' at edge) (rw len at all)
  at_end s (suc bc) i len e lt run before edge all =
      let e' : suc bc ≡ length es - s = omega arith in
      short s refl (omega arith) (omega arith) (rw e' at run) edge (rw len at all)

  NoneBefore-end :
      (s bc i : ℕ) → i ≡ length es → i ≡ s + bc → bc < n → NoneBefore es n s → NoneBefore es n i
  NoneBefore-end s bc i len e lt before c c<i run =
      NoneBefore-skip es n s bc i e lt before (free_at-out es i (omega arith)) c (omega arith) run

  loop-Found :
      (k s bc i : ℕ)
      → i + k ≡ length es
      → i ≡ s + bc
      → bc < n
      → FreeRun es s bc
      → NoneBefore es n s
      → IsEdge es s
      → Found es n (start_block_loop k es n i bc (run_start s bc))
  unfolding start_block_loop free_at
  loop-Found zero s bc i len e lt run before edge = found (run_start s bc) refl (
      at_end s bc i (omega arith) e lt run before edge
        (NoneBefore-end s bc i (omega arith) e lt before))
  loop-Found (suc k) s bc i len e lt run before edge =
      let entry = get_or es i 1 in
      let here : get_elem? es i ≡ some entry = get_elem?-eq-get_or es i 1 (omega arith) in
      let seen = free_at-some es i entry here in
      rw (here, start_block_loop)
        (elim (Bool-cases (heap_get_entry_type entry == entry_free)) [
          | inr used ↦ rw used (
              loop-Found k (i + 1) 0 (i + 1) (omega arith) (omega arith) (omega arith)
                (FreeRun-none es (i + 1)) (NoneBefore-skip es n s bc i e lt before (seen ∙ used))
                (inr (rw add-sub (seen ∙ used))))
          | inl free ↦ rw free (
              let run' = FreeRun-extend es s bc i e run (seen ∙ free) in
              elim (Bool-cases (bc + 1 == n)) [
                | inl enough ↦
                    let len_n = (==_iff (bc + 1) n).0 enough in
                    rw (enough, begin_run-run_start s bc i e)
                      (found (some s) refl (whole s refl (omega arith) (rw len_n at run') before))
                | inr more ↦
                    rw (more, begin_run-run_start s bc i e)
                      (let e1 : bc + 1 ≡ suc bc = omega arith in
                        rw e1 (
                          loop-Found k s (suc bc) (i + 1) (omega arith) (omega arith) (ground arith)
                            (rw e1 at run') before edge))
              ])
        ])
    where
      add-sub : i + 1 - 1 ≡ i
      add-sub = omega arith

-- `heap_get_start_block`, for at least one block and a table with all its entries, returns the first
-- run of free entries that is long enough; where there is none, the start of the shorter run that the
-- table ends in, or the error if it ends in an entry in use.
pub heap_get_start_block_lem :
    (h : Heap) (n : ℕ)
    → 0 < n
    → length h.table.entries ≡ h.table.total
    → (r : ℤ) × (heap_get_start_block h n ≡ done r) × StartBlock h.table.entries n r
unfolding heap_get_start_block
heap_get_start_block_lem h n pos_n len = go (
    loop-Found h.table.entries n h.table.total 0 0 0 (omega arith) (omega arith) pos_n
      (FreeRun-none h.table.entries 0) (λ c l. absurd (omega arith)) (inl refl))
  where
    go :
        Found h.table.entries n (start_block_loop h.table.total h.table.entries n 0 0 none)
        → (r : ℤ) × (heap_get_start_block h n ≡ done r) × StartBlock h.table.entries n r
    go (found o e b) = (block_or_error o, rw e, b)
