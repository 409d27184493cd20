-- ===== src/Memory/Bytes/Copy.antt =====
-- memory.c: what `memset` and `memcpy` leave in their destination.
use os_kernel_application_si.Base.{
  ℕ, zero, suc, ◌+◌, ◌-◌, ◌%◌, ◌≤◌, ◌<◌, ◌≡◌, refl, ap, sym, ◌∙◌, List, [], ◌∷◌, ◌++◌, arith, ltb,
  leb, ◌&&◌, true, if◌then◌else◌, length, get_or, set, replicate, length-set, get_or-set_self,
  get_or-set_ne, length-append, set-append-ge, append_assoc, done, lt→ltb, Bool-cases, inl, inr,
  ◌==◌, ==_iff,
}
use os_kernel_application_si.Memory.Bytes.{memset, memcpy}

memset-from :
    (n : ℕ) (xs ys : List ℕ) (i c : ℕ)
    → i ≡ length xs
    → length ys ≡ n
    → memset n (xs ++ ys) i c ≡ done (xs ++ replicate n (c % 256))
unfolding memset
memset-from zero xs [] i c e len = refl
memset-from zero xs (y ∷ ys) i c e len = absurd (omega arith)
memset-from (suc n) xs [] i c e len = absurd (omega arith)
memset-from (suc n) xs (y ∷ ys) i c e len =
    let e' : i ≡ length xs + 0 = omega arith in
    let lt : ltb i (length (xs ++ (y ∷ ys))) ≡ true =
      lt→ltb i (length (xs ++ (y ∷ ys))) (omega (arith, length-append xs (y ∷ ys))) in
    let put : set (xs ++ (y ∷ ys)) i (c % 256) ≡ (xs ++ (c % 256 ∷ [])) ++ ys =
      ap (λ k. set (xs ++ (y ∷ ys)) k (c % 256)) e'
      ∙ set-append-ge xs (y ∷ ys) 0 (c % 256)
      ∙ sym (append_assoc xs (c % 256 ∷ []) ys) in
    rw (lt, put)
      (memset-from n (xs ++ (c % 256 ∷ [])) ys (i + 1) c
          (omega (arith, length-append xs (c % 256 ∷ []))) (omega arith)
        ∙ ap done (append_assoc xs (c % 256 ∷ []) (replicate n (c % 256))))

-- A whole object becomes `c` in every byte.
pub memset_all :
    (xs : List ℕ) (n c : ℕ) → length xs ≡ n → memset n xs 0 c ≡ done (replicate n (c % 256))
memset_all xs n c e = memset-from n [] xs 0 c refl e

-- What stands at index `j` after `n` bytes of `src` were copied to index `i`.
abbrev pub copied : List ℕ → ℕ → List ℕ → ℕ → ℕ → ℕ
copied dst i src n j = if leb i j && ltb j (i + n) then get_or src (j - i) 0 else get_or dst j 0

get_or-cons : (x : ℕ) (xs : List ℕ) (k m : ℕ) → k ≡ suc m → get_or (x ∷ xs) k 0 ≡ get_or xs m 0
get_or-cons x xs k m e = rw e

copied-step :
    (dst : List ℕ) (i x : ℕ) (src : List ℕ) (n j : ℕ)
    → i < length dst
    → copied (set dst i x) (i + 1) src n j ≡ copied dst i (x ∷ src) (suc n) j
copied-step dst i x src n j lt = elim (Bool-cases (i == j)) [
  | inl here ↦
      let e : i ≡ j = (==_iff i j).0 here in
      let k : j - i ≡ 0 = omega arith in
      rw k (ground (arith, e, get_or-set_self dst j x 0, get_or-set_self dst i x 0))
  | inr other ↦ ground (arith, get_or-set_ne dst i j x 0, get_or-cons x src (j - i) (j - (i + 1)))
]

-- A copy inside both objects returns, keeps the length, and writes exactly its bytes.
pub memcpy_lem :
    (n : ℕ) (dst : List ℕ) (i : ℕ) (src : List ℕ)
    → i + n ≤ length dst
    → n ≤ length src
    → (out : List ℕ) × (memcpy n dst i src ≡ done out)
      × (length out ≡ length dst)
      × ((j : ℕ) → get_or out j 0 ≡ copied dst i src n j)
unfolding memcpy
memcpy_lem zero dst i src h k = (dst, refl, refl, λ j. ground arith)
memcpy_lem (suc n) dst i [] h k = absurd (omega arith)
memcpy_lem (suc n) dst i (x ∷ src) h k =
    let fits : i + 1 + n ≤ length (set dst i x) = omega (arith, length-set dst i x) in
    let (out, e, len, at) = memcpy_lem n (set dst i x) (i + 1) src fits (omega arith) in
    (
      out,
      rw (lt→ltb i (length dst) (omega arith)) e,
      len ∙ length-set dst i x,
      λ j. at j ∙ copied-step dst i x src n j (omega arith),
    )
