-- ===== src/Memory/Bytes.antt =====
-- memory/memory.c: `memset`, `memcmp` and `memcpy`. An object is the list of its bytes, a pointer
-- into it an index; an access outside the object is a fault.
pub mod Copy
use os_kernel_application_si.Base.{
  ℕ, zero, suc, ◌+◌, ◌*◌, ◌%◌, List, [], ◌∷◌, Bool, ltb, ◌==◌, if◌then◌else◌, length, set, Run,
  done, fault, ℤ, pos, negsuc,
}

-- `n` bytes of `dst` from index `i` on become `c`.
unfoldable pub memset : ℕ → List ℕ → ℕ → ℕ → Run (List ℕ)
memset zero dst i c = done dst
memset (suc n) dst i c =
    let rest = memset n (set dst i (c % 256)) (i + 1) c in
    if ltb i (length dst) then rest else fault

-- A `char` is signed: the order of two bytes goes by their values less 256 from 128 on.
abbrev pub char_key : ℕ → ℕ
char_key c = (c + 128) % 256

unfoldable pub memcmp : ℕ → List ℕ → List ℕ → Run ℤ
memcmp zero s1 s2 = done (pos 0)
memcmp (suc n) [] s2 = fault
memcmp (suc n) (a ∷ s1) [] = fault
memcmp (suc n) (a ∷ s1) (b ∷ s2) =
    let rest = memcmp n s1 s2 in
    if a == b then rest else if ltb (char_key a) (char_key b) then done (negsuc 0) else done (pos 1)

-- `len` bytes of `src` go to `dst` from index `i` on.
unfoldable pub memcpy : ℕ → List ℕ → ℕ → List ℕ → Run (List ℕ)
memcpy zero dst i src = done dst
memcpy (suc n) dst i [] = fault
memcpy (suc n) dst i (x ∷ src) =
    let rest = memcpy n (set dst i x) (i + 1) src in if ltb i (length dst) then rest else fault
