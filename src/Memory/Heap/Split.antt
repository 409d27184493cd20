-- ===== src/Memory/Heap/Split.antt =====
-- A run of free entries of a block table is a run of free blocks of the sequence it encodes.
use os_kernel_application_si.Base.{
  ℕ, zero, suc, ◌+◌, ◌-◌, ◌≤◌, ◌<◌, ◌≡◌, refl, ap, ◌⊎◌, inl, inr, false, List, [], ◌∷◌, ◌++◌, arith,
  length, replicate, length-append, get_elem?-append-ge,
}
use os_kernel_application_si.Memory.Heap.FirstFit.{free_at, FreeRun}
use os_kernel_application_si.Memory.Heap.Segments.{
  Seg, free_block, chunk, rest_cells, cells, encode, length-rest_cells,
}

free_at-append : (xs ys : List ℕ) (j : ℕ) → free_at (xs ++ ys) (length xs + j) ≡ free_at ys j
unfolding free_at
free_at-append xs ys j = rw (get_elem?-append-ge xs ys j, free_at)

FreeRun-append : (xs ys : List ℕ) (b n : ℕ) → FreeRun (xs ++ ys) (length xs + b) n → FreeRun ys b n
FreeRun-append xs ys b n run j lo hi =
    rw (← free_at-append xs ys j) (run (length xs + j) (omega arith) (omega arith))

-- No entry of a chunk is free.
rest_cells-used : (k j : ℕ) (ys : List ℕ) → j < k → free_at (rest_cells k ++ ys) j ≡ false
unfolding free_at
rest_cells-used zero j ys h = absurd (omega arith)
rest_cells-used (suc zero) zero ys h = refl
rest_cells-used (suc zero) (suc j) ys h = absurd (omega arith)
rest_cells-used (suc (suc k)) zero ys h = refl
rest_cells-used (suc (suc k)) (suc j) ys h = rest_cells-used (suc k) j ys (omega arith)

chunk-used : (k j : ℕ) (ys : List ℕ) → j ≤ k → free_at (cells (chunk k) ++ ys) j ≡ false
unfolding free_at
chunk-used zero zero ys h = refl
chunk-used (suc k) zero ys h = refl
chunk-used k (suc j) ys h = rest_cells-used k j ys (omega arith)

-- `n` free blocks stand at block `b` of `segs`.
pub record SplitAt (segs : List Seg) (b n : ℕ) : Type 0 where
  pub before : List Seg
  pub after : List Seg
  pub parts : segs ≡ before ++ (replicate n free_block ++ after)
  pub offset : length (encode before) ≡ b

prepend :
    (s : Seg) {segs : List Seg} {b n b' : ℕ}
    → b' ≡ length (cells s) + b
    → SplitAt segs b n
    → SplitAt (s ∷ segs) b' n
prepend s e p = record {
  before = s ∷ p.before;
  after = p.after;
  parts = ap (λ r. s ∷ r) p.parts;
  offset = omega (arith, length-append (cells s) (encode p.before), p.offset);
}

run_prefix :
    (m : ℕ) (segs : List Seg)
    → FreeRun (encode segs) 0 m
    → (after : List Seg) × (segs ≡ replicate m free_block ++ after)
unfolding free_at
run_prefix zero segs run = (segs, refl)
run_prefix (suc m) [] run = let t = run 0 (omega arith) (omega arith) in cc
run_prefix (suc m) (free_block ∷ segs) run =
    let (after, e) = run_prefix m segs (λ j lo hi. run (suc j) (omega arith) (omega arith)) in
    (after, ap (λ r. free_block ∷ r) e)
run_prefix (suc m) (chunk k ∷ segs) run =
    let t = run 0 (omega arith) (omega arith) in
    let u = chunk-used k 0 (encode segs) (omega arith) in cc

split_chunk :
    (k : ℕ) (segs : List Seg) (b n : ℕ)
    → 0 < n
    → FreeRun (encode (chunk k ∷ segs)) b n
    → (FreeRun (encode segs) (b - suc k) n → SplitAt segs (b - suc k) n)
    → SplitAt (chunk k ∷ segs) b n
split_chunk k segs b n h run behind = go (omega arith)
  where
    inner : k < b → FreeRun (encode segs) (b - suc k) n
    inner lt =
        let e : b ≡ length (cells (chunk k)) + (b - suc k) = omega (arith, length-rest_cells k) in
        FreeRun-append (cells (chunk k)) (encode segs) (b - suc k) n (rw e at run)

    go : (b ≤ k) ⊎ (k < b) → SplitAt (chunk k ∷ segs) b n
    go (inl le) =
        let t = run b (omega arith) (omega arith) in let u = chunk-used k b (encode segs) le in cc
    go (inr lt) =
        prepend (chunk k) {b = b - suc k} (omega (arith, length-rest_cells k)) (behind (inner lt))

pub split_run : (segs : List Seg) (b n : ℕ) → 0 < n → FreeRun (encode segs) b n → SplitAt segs b n
unfolding free_at
split_run [] b n h run = let t = run b (omega arith) (omega arith) in cc
split_run (free_block ∷ segs) zero n h run =
    let (after, e) = run_prefix n (free_block ∷ segs) run in
    record { before = []; after = after; parts = e; offset = refl }
split_run (free_block ∷ segs) (suc b) n h run =
    prepend free_block (omega arith)
      (split_run segs b n h (λ j lo hi. run (suc j) (omega arith) (omega arith)))
split_run (chunk k ∷ segs) b n h run = split_chunk k segs b n h run (split_run segs (b - suc k) n h)
