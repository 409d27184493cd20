-- ===== src/Strings/Copy.antt =====
-- string.c: what `strncpy` leaves in its destination.
use os_kernel_application_si.Base.{
  ℕ, zero, suc, ◌+◌, ◌-◌, ◌≤◌, ◌<◌, ◌≡◌, refl, ap, sym, ◌∙◌, min, List, [], ◌∷◌, ◌++◌, arith,
  length, take, set, length-append, append_assoc, set-append-ge, done, drop, ltb, lt→ltb, ◌==◌,
  true, false,
}
use os_kernel_application_si.Strings.{strncpy, strncpy_loop, store}
use os_kernel_application_si.Strings.Text.{IsText, NonZero}

-- Room behind `xs` for the next byte.
pub set-next :
    (xs : List ℕ) (y : ℕ) (ys : List ℕ) (i c : ℕ)
    → i ≡ length xs
    → (ltb i (length (xs ++ (y ∷ ys))) ≡ true) × (set (xs ++ (y ∷ ys)) i c ≡ (xs ++ (c ∷ [])) ++ ys)
set-next xs y ys i c e =
    let e' : i ≡ length xs + 0 = omega arith in
    (
      lt→ltb i (length (xs ++ (y ∷ ys))) (omega (arith, length-append xs (y ∷ ys))),
      ap (λ k. set (xs ++ (y ∷ ys)) k c) e'
          ∙ set-append-ge xs (y ∷ ys) 0 c
          ∙ sym (append_assoc xs (c ∷ []) ys),
    )

store-next :
    (xs : List ℕ) (y : ℕ) (ys : List ℕ) (i k : ℕ)
    → i ≡ length xs
    → k ≡ 0
    → store (xs ++ (y ∷ ys)) i 0 ≡ done (xs ++ (0 ∷ drop k ys))
store-next xs y ys i k e z =
    let (lt, put) = set-next xs y ys i 0 e in
    rw (lt, put, z) (ap done (append_assoc xs (0 ∷ []) ys))

strncpy_loop-take :
    (n : ℕ) (xs ys t r : List ℕ) (i : ℕ)
    → i ≡ length xs
    → NonZero t
    → min n (length t) < length ys
    → strncpy_loop n (xs ++ ys) i (t ++ (0 ∷ r))
      ≡ done (xs ++ (take n t ++ (0 ∷ drop (suc (min n (length t))) ys)))
unfolding strncpy_loop
strncpy_loop-take n xs [] t r i e nz h = absurd (omega arith)
strncpy_loop-take zero xs (y ∷ ys) t r i e nz h =
    store-next xs y ys i (min 0 (length t)) e (omega arith)
strncpy_loop-take (suc n) xs (y ∷ ys) [] r i e nz h =
    store-next xs y ys i (min (suc n) 0) e (omega arith)
strncpy_loop-take (suc n) xs (y ∷ ys) (c ∷ t) r i e nz h =
    let (lt, put) = set-next xs y ys i c e in
    let k : min (suc n) (suc (length t)) ≡ suc (min n (length t)) = omega arith in
    let ne : (c == 0) ≡ false = ground (arith, nz.0) in
    rw (ne, lt, put, k)
      (strncpy_loop-take n (xs ++ (c ∷ [])) ys t r (i + 1)
          (omega (arith, length-append xs (c ∷ []))) nz.1 (omega arith)
        ∙ ap done (append_assoc xs (c ∷ []) (take n t ++ (0 ∷ drop (suc (min n (length t))) ys))))

-- `strncpy` with a count of at least 1 and room for its result copies at most `count - 1`
-- characters of the text, ends them by a 0, and leaves the other bytes of its destination alone.
pub strncpy_lem :
    {src t : List ℕ} (dest : List ℕ) (count : ℕ)
    → IsText src t
    → 0 < count
    → count ≤ length dest
    → strncpy dest src count
      ≡ done (take (count - 1) t ++ (0 ∷ drop (suc (min (count - 1) (length t))) dest))
unfolding strncpy
strncpy_lem {t} dest count is p h =
    rw is.bytes (strncpy_loop-take (count - 1) [] dest t is.rest 0 refl is.nonzero (omega arith))
