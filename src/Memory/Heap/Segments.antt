-- ===== src/Memory/Heap/Segments.antt =====
-- The block table of heap.c as a sequence of free blocks and chunks in use, and what
-- `heap_mark_blocks_taken` and `heap_mark_blocks_free` do to it.
use os_kernel_application_si.Base.{
  ℕ, zero, suc, ◌+◌, ◌≤◌, ◌<◌, ◌≡◌, refl, ap, sym, ◌∙◌, true, false, List, [], ◌∷◌, ◌++◌, ltb, ◌==◌,
  if◌then◌else◌, arith, append_assoc, length, get_elem?, set, replicate, length-append, length-set,
  set-append-ge, get_elem?-append-ge, bit_and, done, fault, some, lt→ltb,
}
use os_kernel_application_si.Memory.Heap.{has_next, mark_taken_loop, mark_free_loop}

-- A chunk of `suc n` blocks that one allocation owns is `chunk n`.
pub data Seg : Type 0 where
  free_block : Seg
  chunk : ℕ → Seg

-- The entries of the `n` blocks behind a chunk's first: all but the last point on.
abbrev pub rest_cells : ℕ → List ℕ
rest_cells zero = []
rest_cells (suc zero) = 0x01 ∷ []
rest_cells (suc (suc n)) = 0x81 ∷ rest_cells (suc n)

abbrev pub first_cell : ℕ → ℕ
first_cell zero = 0x41
first_cell (suc n) = 0xC1

abbrev pub cells : Seg → List ℕ
cells free_block = 0x00 ∷ []
cells (chunk n) = first_cell n ∷ rest_cells n

abbrev pub encode : List Seg → List ℕ
encode [] = []
encode (s ∷ ss) = cells s ++ encode ss

pub length-rest_cells : (n : ℕ) → length (rest_cells n) ≡ n
length-rest_cells zero = refl
length-rest_cells (suc zero) = refl
length-rest_cells (suc (suc n)) = ap suc (length-rest_cells (suc n))

pub encode-append : (xs ys : List Seg) → encode (xs ++ ys) ≡ encode xs ++ encode ys
encode-append [] ys = refl
encode-append (x ∷ xs) ys =
    rw (encode-append xs ys) (sym (append_assoc (cells x) (encode xs) (encode ys)))

pub encode-replicate : (n : ℕ) → encode (replicate n free_block) ≡ replicate n 0x00
encode-replicate zero = refl
encode-replicate (suc n) = ap (λ r. 0x00 ∷ r) (encode-replicate n)

set-at-end :
    (xs ys : List ℕ) (x v i : ℕ) → i ≡ length xs → set (xs ++ (x ∷ ys)) i v ≡ (xs ++ (v ∷ [])) ++ ys
set-at-end xs ys x v i e =
    let e' : i ≡ length xs + 0 = omega arith in
    rw (e', set-append-ge xs (x ∷ ys) 0 v) (sym (append_assoc xs (v ∷ []) ys))

length-snoc : (xs : List ℕ) (v i : ℕ) → i ≡ length xs → i + 1 ≡ length (xs ++ (v ∷ []))
length-snoc xs v i e = omega (arith, length-append xs (v ∷ []))

-- The byte that the loop stores next is the next of `rest_cells`.
rest_cells-next :
    (m i last : ℕ)
    → i + suc m ≡ last
    → rest_cells (suc m) ≡ (if i + 1 == last then 0x01 else 0x81) ∷ rest_cells m
rest_cells-next zero i last e = ground arith
rest_cells-next (suc m) i last e = ground arith

lt-append : (xs zs : List ℕ) (o i : ℕ) → i ≡ length xs → ltb i (length (xs ++ (o ∷ zs))) ≡ true
lt-append xs zs o i e =
    lt→ltb i (length (xs ++ (o ∷ zs))) (omega (arith, length-append xs (o ∷ zs)))

mark_taken_step :
    (n : ℕ) (xs zs : List ℕ) (o i last v : ℕ)
    → i ≡ length xs
    → mark_taken_loop (suc n) i last v (xs ++ (o ∷ zs))
      ≡ mark_taken_loop n
          (i + 1)
          last
          (if i + 1 == last then 0x01 else 0x81)
          ((xs ++ (v ∷ [])) ++ zs)
unfolding mark_taken_loop
mark_taken_step n xs zs o i last v e = rw (lt-append xs zs o i e, set-at-end xs zs o v i e)

pub mark_taken_loop-rest :
    (n : ℕ) (xs : List ℕ) (o : ℕ) (old ys : List ℕ) (i last v : ℕ)
    → i ≡ length xs
    → i + n ≡ last
    → length old ≡ n
    → mark_taken_loop (suc n) i last v (xs ++ (o ∷ (old ++ ys)))
      ≡ done (xs ++ (v ∷ (rest_cells n ++ ys)))
unfolding mark_taken_loop
mark_taken_loop-rest zero xs o [] ys i last v e l len =
    mark_taken_step zero xs ys o i last v e ∙ ap done (append_assoc xs (v ∷ []) ys)
mark_taken_loop-rest zero xs o (q ∷ old) ys i last v e l len = absurd (omega arith)
mark_taken_loop-rest (suc m) xs o [] ys i last v e l len = absurd (omega arith)
mark_taken_loop-rest (suc m) xs o (q ∷ old) ys i last v e l len =
    let w : ℕ = if i + 1 == last then 0x01 else 0x81 in
    mark_taken_step (suc m) xs (q ∷ (old ++ ys)) o i last v e
    ∙ mark_taken_loop-rest m (xs ++ (v ∷ [])) q old ys (i + 1) last w (length-snoc xs v i e)
        (omega arith) (omega arith)
    ∙ ap done (
        append_assoc xs (v ∷ []) (w ∷ (rest_cells m ++ ys))
        ∙ ap (λ r. xs ++ (v ∷ (r ++ ys))) (sym (rest_cells-next m i last l)))

-- A run that does not fit behind `i` makes the loop store behind the table.
pub mark_taken_loop-fault :
    (n i last v : ℕ) (es : List ℕ)
    → i ≤ length es
    → length es < i + n
    → mark_taken_loop n i last v es ≡ fault
unfolding mark_taken_loop
mark_taken_loop-fault zero i last v es h k = absurd (omega arith)
mark_taken_loop-fault (suc n) i last v es h k = ground (
  arith,
  length-set es i v,
  mark_taken_loop-fault n (i + 1) last (if i + 1 == last then 0x01 else 0x81) (set es i v),
)

mark_free_step :
    (n : ℕ) (xs zs : List ℕ) (c i : ℕ)
    → i ≡ length xs
    → mark_free_loop (suc n) i (xs ++ (c ∷ zs)) ≡ (
        if bit_and c has_next == 0
        then done ((xs ++ (0 ∷ [])) ++ zs)
        else mark_free_loop n (i + 1) ((xs ++ (0 ∷ [])) ++ zs))
unfolding mark_free_loop
mark_free_step n xs zs c i e =
    let here : get_elem? (xs ++ (c ∷ zs)) i ≡ some c = found in
    rw (here, mark_free_loop) (rw (set-at-end xs zs c 0 i e))
  where
    found : get_elem? (xs ++ (c ∷ zs)) i ≡ some c
    found = let e' : i ≡ length xs + 0 = omega arith in rw (e', get_elem?-append-ge xs (c ∷ zs) 0)

suc-ne-zero : (n : ℕ) → (suc n == 0) ≡ false
suc-ne-zero n = ground arith

-- Freeing from a chunk's first block on clears its blocks and stops behind the last.
pub mark_free_loop-rest :
    (n k : ℕ) (xs ys : List ℕ) (i v : ℕ)
    → i ≡ length xs
    → n < k
    → (bit_and v has_next == 0) ≡ (n == 0)
    → mark_free_loop k i (xs ++ (v ∷ (rest_cells n ++ ys)))
      ≡ done (xs ++ (replicate (suc n) 0 ++ ys))
mark_free_loop-rest n zero xs ys i v e h f = absurd (omega arith)
mark_free_loop-rest zero (suc k) xs ys i v e h f =
    mark_free_step k xs ys v i e ∙ rw f (ap done (append_assoc xs (0 ∷ []) ys))
mark_free_loop-rest (suc zero) (suc k) xs ys i v e h f =
    mark_free_step k xs (0x01 ∷ ys) v i e
    ∙ rw f (
        mark_free_loop-rest zero k (xs ++ (0 ∷ [])) ys (i + 1) 0x01 (length-snoc xs 0 i e)
          (omega arith) refl
        ∙ ap done (append_assoc xs (0 ∷ []) (0 ∷ ys)))
mark_free_loop-rest (suc (suc n)) (suc k) xs ys i v e h f =
    mark_free_step k xs (0x81 ∷ (rest_cells (suc n) ++ ys)) v i e
    ∙ rw (f ∙ suc-ne-zero (suc n)) (
        mark_free_loop-rest (suc n) k (xs ++ (0 ∷ [])) ys (i + 1) 0x81 (length-snoc xs 0 i e)
          (omega arith) (sym (suc-ne-zero n))
        ∙ ap done (append_assoc xs (0 ∷ []) (replicate (suc (suc n)) 0 ++ ys)))
