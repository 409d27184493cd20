-- ===== src/Fs/PathParser.antt =====
-- fs/pparser.c: paths such as `0:/dir/file`. Each part is the 108 bytes of its buffer; the linked
-- list of the parts is a list. The allocations are taken to succeed: the code does not test them.
pub mod Parts
pub mod Parse
use os_kernel_application_si.Base.{
  ℕ, zero, suc, ◌+◌, Bool, true, false, ◌&&◌, ◌||◌, Option, none, some, List, [], ◌∷◌, ltb, leb,
  ◌==◌, if◌then◌else◌, length, set, drop, get_elem?, replicate, Run, done, fault, out_of_fuel,
  and_then, map_run, ℤ, pos, negsuc, neg,
}
use os_kernel_application_si.Status.{ebadpath}
use os_kernel_application_si.Memory.Bytes.{memcmp}
use os_kernel_application_si.Strings.{strlen, strnlen, isdigit, tonumericdigit}

-- PEACHOS_MAX_PATH
abbrev pub max_path : ℕ
max_path = 108

pub record PathRoot : Type 0 where
  pub drive_no : ℤ
  pub parts : List (List ℕ)

abbrev pub is_zero : ℤ → Bool
is_zero (pos n) = n == 0
is_zero (negsuc n) = false

-- `filename[0]` and `filename[1]` are read only behind the tests before them.
unfoldable pub pathparser_path_valid_format : List ℕ → Run Bool
pathparser_path_valid_format filename = and_then (strnlen filename max_path) λ len.
    if ltb len 3 then done false else elim filename [
      | [] ↦ fault
      | c ∷ rest ↦
          if isdigit c then map_run is_zero (memcmp 2 rest (b':' ∷ b'/' ∷ [])) else done false
    ]

-- The drive number or an error, and the path behind the drive.
unfoldable pub pathparser_get_drive_by_path : List ℕ → Run (ℤ × List ℕ)
pathparser_get_drive_by_path path = and_then (pathparser_path_valid_format path) λ valid.
    if valid
    then elim path [ [] ↦ fault | c ∷ rest ↦ done (tonumericdigit c, drop 2 rest) ]
    else done (neg ebadpath, path)

-- The copy loop: the count, the buffer, and the path at the `/` or 0 that ends the part.
unfoldable pub part_loop : List ℕ → ℕ → List ℕ → Run (ℕ × List ℕ × List ℕ)
part_loop [] i buf = fault
part_loop (c ∷ path) i buf =
    let rest = part_loop path (i + 1) (set buf i c) in
    if c == b'/' || c == 0
    then done (i, buf, c ∷ path)
    else if ltb i (length buf)
    then rest
    else fault

-- `if (**path == '/') *path += 1;`
abbrev pub skip_slash : List ℕ → List ℕ
skip_slash [] = []
skip_slash (c ∷ path) = if c == b'/' then path else c ∷ path

abbrev pub part_or_null : ℕ × List ℕ × List ℕ → Option (List ℕ) × List ℕ
part_or_null (i, buf, path) = (if i == 0 then none else some buf, skip_slash path)

-- The part, `none` if it is empty, and the path behind it.
unfoldable pub pathparser_get_path_part : List ℕ → Run (Option (List ℕ) × List ℕ)
unfolding part_loop
pathparser_get_path_part path = map_run part_or_null (part_loop path 0 (replicate max_path 0))

-- The link of a part in front of those behind it; an empty part ends the list.
abbrev pub link_part : Option (List ℕ) → Run (List (List ℕ)) → Run (List (List ℕ))
link_part none rest = done []
link_part (some part) rest = map_run (λ parts. part ∷ parts) rest

-- `pathparser_parse_path_part` until it returns 0: the parts that it links, in order.
unfoldable pub pathparser_parse_path_parts : ℕ → List ℕ → Run (List (List ℕ))
pathparser_parse_path_parts zero path = out_of_fuel
pathparser_parse_path_parts (suc fuel) path = elim (pathparser_get_path_part path) [
  | fault ↦ fault
  | out_of_fuel ↦ out_of_fuel
  | done got ↦ let rest = pathparser_parse_path_parts fuel got.1 in link_part got.0 rest
]

-- `none` is a null pointer. Each part takes at least a byte of the path, so its bytes are fuel
-- enough.
unfoldable pub pathparser_parse : List ℕ → Run (Option PathRoot)
pathparser_parse path = and_then (strlen path) λ len.
    if ltb max_path len
    then done none
    else and_then (pathparser_get_drive_by_path path) λ got. elim got.0 [
      | negsuc e ↦ done none
      | pos d ↦
          map_run (λ parts. some (record { drive_no = pos d; parts = parts }))
            (pathparser_parse_path_parts (suc (length got.1)) got.1)
    ]
