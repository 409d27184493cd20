-- ===== src/Tests/Text.antt =====
-- The string and memory routines on short texts.
use os_kernel_application_si.Base.{ℕ, ◌≡◌, refl, arith, List, [], ◌∷◌, ◌++◌, done}
use os_kernel_application_si.Strings.{strlen}
use os_kernel_application_si.Strings.Text.{NonZero, IsText, strlen-length}

-- `ab` and `aB`
abbrev lower : List ℕ
lower = 97 ∷ 98 ∷ []

abbrev mixed : List ℕ
mixed = 97 ∷ 66 ∷ []

text : (s t : List ℕ) → NonZero t → s ≡ t ++ (0 ∷ []) → IsText s t
text s t nz e = record { rest = []; bytes = e; nonzero = nz }

lower-IsText : IsText (97 ∷ 98 ∷ 0 ∷ []) lower
lower-IsText = text (97 ∷ 98 ∷ 0 ∷ []) lower (omega arith, (omega arith, tt)) refl

mixed-IsText : IsText (97 ∷ 66 ∷ 0 ∷ []) mixed
mixed-IsText = text (97 ∷ 66 ∷ 0 ∷ []) mixed (omega arith, (omega arith, tt)) refl

strlen-length_example : strlen (97 ∷ 98 ∷ 0 ∷ []) ≡ done 2
strlen-length_example = strlen-length lower-IsText
