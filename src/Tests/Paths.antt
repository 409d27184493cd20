-- ===== src/Tests/Paths.antt =====
-- The path parser on `0:/a//b` and on a name without a drive.
use os_kernel_application_si.Base.{
  ℕ, ◌≡◌, refl, inr, map, arith, List, [], ◌∷◌, none, some, done, pos,
}
use os_kernel_application_si.Strings.{isdigit}
use os_kernel_application_si.Strings.Text.{IsText}
use os_kernel_application_si.Fs.PathParser.{pathparser_parse}
use os_kernel_application_si.Fs.PathParser.Parts.{Splits, pad}
use os_kernel_application_si.Fs.PathParser.Parse.{
  has_drive, pathparser_parse_lem, pathparser_parse-none,
}

-- `a//b`
abbrev empty_part : List ℕ
empty_part = 97 ∷ 47 ∷ 47 ∷ 98 ∷ []

empty_part-IsText :
    IsText (48 ∷ 58 ∷ 47 ∷ 97 ∷ 47 ∷ 47 ∷ 98 ∷ 0 ∷ []) (48 ∷ b':' ∷ b'/' ∷ empty_part)
empty_part-IsText = record {
  rest = [];
  bytes = refl;
  nonzero = (
    omega arith,
    (omega arith, (omega arith, (omega arith, (omega arith, (omega arith, (omega arith, tt)))))),
  );
}

pathparser_parse_lem_example :
    (ps : List (List ℕ)) × (pathparser_parse (48 ∷ 58 ∷ 47 ∷ 97 ∷ 47 ∷ 47 ∷ 98 ∷ 0 ∷ [])
      ≡ done (some (record { drive_no = pos 0; parts = map pad ps })))
    × Splits empty_part ps
pathparser_parse_lem_example =
    pathparser_parse_lem (48 ∷ 58 ∷ 47 ∷ 97 ∷ 47 ∷ 47 ∷ 98 ∷ 0 ∷ []) empty_part 48 empty_part-IsText
      (unfold isdigit in refl) (omega arith)

bare-IsText : IsText (97 ∷ 0 ∷ []) (97 ∷ [])
bare-IsText = record { rest = []; bytes = refl; nonzero = (omega arith, tt) }

pathparser_parse-none_example : pathparser_parse (97 ∷ 0 ∷ []) ≡ done none
pathparser_parse-none_example = pathparser_parse-none bare-IsText (inr (unfold has_drive in refl))
