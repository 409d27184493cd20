-- ===== src/Fs/Fat16/Names.antt =====
-- fat16.c: names of directory entries, which are two fields padded with spaces.
pub mod Fields
pub mod Printed
pub mod RoundTrip
use os_kernel_application_si.Base.{
  ℕ, zero, suc, ◌+◌, ◌-◌, Bool, true, false, ◌||◌, ◌&&◌, not, List, [], ◌∷◌, ◌++◌, ltb, leb, ◌==◌,
  if◌then◌else◌, length, get_or, set, take, replicate, Run, done, fault, and_then, map_run,
}
use os_kernel_application_si.Memory.Bytes.{memset}
use os_kernel_application_si.Strings.{store}
use os_kernel_application_si.Fs.Fat16.{DirectoryItem}

-- The bytes at `in`, the object that `*out` points into and the index there; both afterwards.
unfoldable pub fat16_to_proper_string : List ℕ → List ℕ → ℕ → Run (List ℕ × ℕ)
fat16_to_proper_string [] out i = fault
fat16_to_proper_string (c ∷ in_bytes) out i =
    let rest = fat16_to_proper_string in_bytes (set out i c) (i + 1) in
    if c == 0x00
    then done (out, i)
    else if c == 0x20
    then map_run (λ out'. (out', i)) (store out i 0x00)
    else if ltb i (length out)
    then rest
    else fault

-- `out` is cleared and gets the name; the copies of the fields end in a 0.
unfoldable pub fat16_get_full_relative_filename : DirectoryItem → List ℕ → ℕ → Run (List ℕ)
fat16_get_full_relative_filename item out max_len =
    let fname_buf = take 8 item.filename ++ (0x00 ∷ []) in
    let ext_buf = take 3 item.ext ++ (0x00 ∷ []) in
    let first = get_or ext_buf 0 0x00 in
    and_then (memset max_len out 0 0x00) λ cleared.
      and_then (fat16_to_proper_string fname_buf cleared 0) λ named.
        if not (first == 0x00) && not (first == 0x20)
        then and_then (store named.0 named.1 b'.')
            (λ dotted. map_run (λ got. got.0) (fat16_to_proper_string ext_buf dotted (named.1 + 1)))
        else done named.0

-- `(c >= 'a' && c <= 'z') ? c - 32 : c`
abbrev pub to_upper : ℕ → ℕ
to_upper c = if leb 97 c && leb c 122 then c - 32 else c

-- `n` bytes are left of the field; the name behind what was taken, and the field.
unfoldable pub base_loop : ℕ → List ℕ → List ℕ → ℕ → Run (List ℕ × List ℕ)
base_loop n [] out_fname i = fault
base_loop zero (c ∷ name) out_fname i = done (c ∷ name, out_fname)
base_loop (suc n) (c ∷ name) out_fname i =
    let rest = base_loop n name (set out_fname i (to_upper c)) (i + 1) in
    if c == 0x00 || c == b'.' then done (c ∷ name, out_fname) else rest

unfoldable pub ext_loop : ℕ → List ℕ → List ℕ → ℕ → Run (List ℕ)
ext_loop n [] out_ext j = fault
ext_loop zero (c ∷ name) out_ext j = done out_ext
ext_loop (suc n) (c ∷ name) out_ext j =
    let rest = ext_loop n name (set out_ext j (to_upper c)) (j + 1) in
    if c == 0x00 then done out_ext else rest

-- `if (*name == '.') name++;`
abbrev pub skip_dot : List ℕ → List ℕ
skip_dot [] = []
skip_dot (c ∷ name) = if c == b'.' then name else c ∷ name

-- The fields of the name, 8 bytes and 3, which are spaces first.
unfoldable pub fat16_name_to_83 : List ℕ → Run (List ℕ × List ℕ)
fat16_name_to_83 name =
    and_then (base_loop 8 name (replicate 8 0x20) 0)
      λ got. map_run (λ ext. (got.1, ext)) (ext_loop 3 (skip_dot got.0) (replicate 3 0x20) 0)
