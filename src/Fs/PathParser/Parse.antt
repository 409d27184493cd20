-- ===== src/Fs/PathParser/Parse.antt =====
-- pparser.c, `pathparser_parse`: for every string, what it returns.
use os_kernel_application_si.Base.{
  ℕ, suc, ◌+◌, ◌-◌, ◌≤◌, ◌<◌, ◌≡◌, refl, ap, ◌∙◌, ◌⊎◌, Bool, true, false, ◌&&◌, none, some, List,
  [], ◌∷◌, ◌++◌, map, ◌==◌, ltb_of_le, arith, length, length-append, done, pos, neg,
}
use os_kernel_application_si.Status.{ebadpath}
use os_kernel_application_si.Memory.Bytes.{memcmp}
use os_kernel_application_si.Strings.{isdigit, tonumericdigit}
use os_kernel_application_si.Strings.Text.{IsText, NonZero, strlen-length, strnlen-length}
use os_kernel_application_si.Fs.PathParser.{
  max_path, pathparser_path_valid_format, pathparser_get_drive_by_path, pathparser_parse,
}
use os_kernel_application_si.Fs.PathParser.Parts.{pad, Splits, parse_path_parts_lem}

-- The text begins with a digit and `:/`.
unfoldable pub has_drive : List ℕ → Bool
has_drive [] = false
has_drive (d ∷ []) = false
has_drive (d ∷ a ∷ []) = false
has_drive (d ∷ a ∷ b ∷ u) = isdigit d && (a == b':' && b == b'/')

text_lem : (t r : List ℕ) → NonZero t → IsText (t ++ (0 ∷ r)) t
text_lem t r nz = record { rest = r; bytes = refl; nonzero = nz }

valid_format-has_drive :
    (t r : List ℕ) → NonZero t → pathparser_path_valid_format (t ++ (0 ∷ r)) ≡ done (has_drive t)
unfolding pathparser_path_valid_format has_drive memcmp
valid_format-has_drive [] r nz = ground (arith, strnlen-length 108 (text_lem [] r nz))
valid_format-has_drive (d ∷ []) r nz = ground (arith, strnlen-length 108 (text_lem (d ∷ []) r nz))
valid_format-has_drive (d ∷ a ∷ []) r nz =
    ground (arith, strnlen-length 108 (text_lem (d ∷ a ∷ []) r nz))
valid_format-has_drive (d ∷ a ∷ b ∷ u) r nz =
    ground (arith, strnlen-length 108 (text_lem (d ∷ a ∷ b ∷ u) r nz))

get_drive-ok :
    (d : ℕ) (u r : List ℕ)
    → NonZero (d ∷ b':' ∷ b'/' ∷ u)
    → isdigit d ≡ true
    → pathparser_get_drive_by_path (d ∷ b':' ∷ b'/' ∷ (u ++ (0 ∷ r)))
      ≡ done (pos (d - 48), u ++ (0 ∷ r))
unfolding pathparser_get_drive_by_path has_drive isdigit tonumericdigit
get_drive-ok d u r nz digit = ground (arith, valid_format-has_drive (d ∷ b':' ∷ b'/' ∷ u) r nz)

get_drive-refused :
    (s t : List ℕ)
    → IsText s t
    → has_drive t ≡ false
    → pathparser_get_drive_by_path s ≡ done (neg ebadpath, s)
unfolding pathparser_get_drive_by_path
get_drive-refused s t is no_drive =
    let e : pathparser_path_valid_format s ≡ done false =
      rw is.bytes (valid_format-has_drive t is.rest is.nonzero ∙ ap done no_drive) in
    rw e

-- For every string that begins with a drive and has at most 108 characters, the parser returns a
-- root with the drive's number and the parts that the text behind the drive is split into.
pub pathparser_parse_lem :
    (s u : List ℕ) (d : ℕ)
    → IsText s (d ∷ b':' ∷ b'/' ∷ u)
    → isdigit d ≡ true
    → length u + 3 ≤ max_path
    → (ps : List (List ℕ)) × (pathparser_parse s
        ≡ done (some (record { drive_no = pos (d - 48); parts = map pad ps })))
      × Splits u ps
unfolding pathparser_parse
pathparser_parse_lem s u d is digit len =
    let (ps, e, split) =
      parse_path_parts_lem (suc (length (u ++ (0 ∷ is.rest)))) u is.rest is.nonzero.1.1.1
        (omega arith) (omega (arith, length-append u (0 ∷ is.rest))) in
    let drive_ok = get_drive-ok d u is.rest is.nonzero digit in
    (
      ps,
      rw (
        is.bytes,
        strlen-length (text_lem (d ∷ b':' ∷ b'/' ∷ u) is.rest is.nonzero),
        ltb_of_le max_path (suc (suc (suc (length u)))) (omega arith),
        drive_ok,
        e,
      ),
      split,
    )

-- Every other string is refused by a null pointer: one that is longer, and one without a drive.
pub pathparser_parse-none :
    {s t : List ℕ}
    → IsText s t
    → (max_path < length t) ⊎ (has_drive t ≡ false)
    → pathparser_parse s ≡ done none
unfolding pathparser_parse
pathparser_parse-none {s} {t} is bad = ground (arith, strlen-length is, get_drive-refused s t is)
