-- ===== src/Strings.antt =====
-- string/string.c. A pointer into a string is the list of the bytes that can be read from there; a
-- read behind the last of them is a fault. `char` is signed, but no test below tells a negative
-- `char` from a byte of 128 or more.
pub mod Text
pub mod Compare
pub mod Copy
use os_kernel_application_si.Base.{
  ℕ, zero, suc, ◌+◌, ◌-◌, ◌≤◌, Bool, true, false, not, ◌&&◌, ◌||◌, List, [], ◌∷◌, ltb, leb, ◌==◌,
  if◌then◌else◌, length, set, Run, done, fault, ℤ, pos, sub_ℕ,
}

unfoldable pub tolower : ℕ → ℕ
tolower s1 = if leb 65 s1 && leb s1 90 then s1 + 32 else s1

unfoldable pub strlen_loop : List ℕ → ℕ → Run ℕ
strlen_loop [] i = fault
strlen_loop (c ∷ ptr) i = let rest = strlen_loop ptr (i + 1) in if c == 0 then done i else rest

unfoldable pub strlen : List ℕ → Run ℕ
unfolding strlen_loop
strlen ptr = strlen_loop ptr 0

-- `n` rounds are left of the loop.
unfoldable pub strnlen_loop : ℕ → List ℕ → ℕ → Run ℕ
strnlen_loop zero ptr i = done i
strnlen_loop (suc n) [] i = fault
strnlen_loop (suc n) (c ∷ ptr) i =
    let rest = strnlen_loop n ptr (i + 1) in if c == 0 then done i else rest

unfoldable pub strnlen : List ℕ → ℕ → Run ℕ
unfolding strnlen_loop
strnlen ptr max = strnlen_loop max ptr 0

unfoldable pub terminator_loop : ℕ → List ℕ → ℕ → ℕ → Run ℕ
terminator_loop zero str terminator i = done i
terminator_loop (suc n) [] terminator i = fault
terminator_loop (suc n) (c ∷ str) terminator i =
    let rest = terminator_loop n str terminator (i + 1) in
    if c == 0 || c == terminator then done i else rest

unfoldable pub strnlen_terminator : List ℕ → ℕ → ℕ → Run ℕ
unfolding terminator_loop
strnlen_terminator str max terminator = terminator_loop max str terminator 0

unfoldable pub istrncmp : List ℕ → List ℕ → ℕ → Run ℤ
unfolding tolower
istrncmp s1 s2 zero = done (pos 0)
istrncmp [] s2 (suc n) = fault
istrncmp (u1 ∷ s1) [] (suc n) = fault
istrncmp (u1 ∷ s1) (u2 ∷ s2) (suc n) =
    let rest = istrncmp s1 s2 n in
    if not (u1 == u2) && not (tolower u1 == tolower u2)
    then done (sub_ℕ u1 u2)
    else if u1 == 0
    then done (pos 0)
    else rest

unfoldable pub strncmp : List ℕ → List ℕ → ℕ → Run ℤ
strncmp str1 str2 zero = done (pos 0)
strncmp [] str2 (suc n) = fault
strncmp (u1 ∷ str1) [] (suc n) = fault
strncmp (u1 ∷ str1) (u2 ∷ str2) (suc n) =
    let rest = strncmp str1 str2 n in
    if not (u1 == u2) then done (sub_ℕ u1 u2) else if u1 == 0 then done (pos 0) else rest

-- `*p = c` into an object, at index `i`.
abbrev pub store : List ℕ → ℕ → ℕ → Run (List ℕ)
store dest i c = if ltb i (length dest) then done (set dest i c) else fault

unfoldable pub strcpy_loop : List ℕ → ℕ → List ℕ → Run (List ℕ)
strcpy_loop dest i [] = fault
strcpy_loop dest i (c ∷ src) =
    let rest = strcpy_loop (set dest i c) (i + 1) src in
    if c == 0 then store dest i 0 else if ltb i (length dest) then rest else fault

unfoldable pub strcpy : List ℕ → List ℕ → Run (List ℕ)
unfolding strcpy_loop
strcpy dest src = strcpy_loop dest 0 src

-- `n` rounds are left; the loop ends by its count or at a 0 of `src`, and then stores the 0.
unfoldable pub strncpy_loop : ℕ → List ℕ → ℕ → List ℕ → Run (List ℕ)
strncpy_loop zero dest i src = store dest i 0
strncpy_loop (suc n) dest i [] = fault
strncpy_loop (suc n) dest i (c ∷ src) =
    let rest = strncpy_loop n (set dest i c) (i + 1) src in
    if c == 0 then store dest i 0 else if ltb i (length dest) then rest else fault

unfoldable pub strncpy : List ℕ → List ℕ → ℕ → Run (List ℕ)
unfolding strncpy_loop
strncpy dest src count = strncpy_loop (count - 1) dest 0 src

unfoldable pub isdigit : ℕ → Bool
isdigit c = leb 48 c && leb c 57

-- The difference of a digit; `-` is used at digits only.
unfoldable pub tonumericdigit : ℕ → ℤ
tonumericdigit c = sub_ℕ c 48
