-- ===== src/Fs/Fat16/Names/RoundTrip.antt =====
-- fat16.c: `fat16_name_to_83` and `fat16_get_full_relative_filename` one after the other.
use os_kernel_application_si.Base.{
  ℕ, suc, ◌+◌, ◌-◌, ◌≤◌, ◌≡◌, refl, ap, ◌∙◌, List, [], ◌∷◌, ◌++◌, map, arith, pos, All, length,
  take, replicate, length-append, done,
}
use os_kernel_application_si.Strings.{istrncmp, tolower}
use os_kernel_application_si.Strings.Compare.{istrncmp_lem}
use os_kernel_application_si.Strings.Text.{NonZero, IsText}
use os_kernel_application_si.Fs.Fat16.{DirectoryItem}
use os_kernel_application_si.Fs.Fat16.Names.{
  to_upper, fat16_name_to_83, fat16_get_full_relative_filename,
}
use os_kernel_application_si.Fs.Fat16.Names.Fields.{
  FieldChar, field, length-map, dotted, name_to_83_lem,
}
use os_kernel_application_si.Fs.Fat16.Names.Printed.{Printed, Printed-upper, printed, full_name}

lower_upper : (c : ℕ) → tolower (to_upper c) ≡ tolower c
unfolding tolower
lower_upper c = ground arith

map-lower_upper : (t : List ℕ) → map tolower (map to_upper t) ≡ map tolower t
map-lower_upper [] = refl
map-lower_upper (c ∷ t) = rw (lower_upper c, map-lower_upper t)

dotted-lower_upper :
    (base ext : List ℕ)
    → map tolower (dotted (map to_upper base) (map to_upper ext)) ≡ map tolower (dotted base ext)
dotted-lower_upper base [] = map-lower_upper base
dotted-lower_upper [] (x ∷ ext) = ap (λ t. tolower b'.' ∷ t) (map-lower_upper (x ∷ ext))
dotted-lower_upper (c ∷ base) (x ∷ ext) = rw (lower_upper c, dotted-lower_upper base (x ∷ ext))

NonZero-dotted : (base ext : List ℕ) → NonZero base → NonZero ext → NonZero (dotted base ext)
NonZero-dotted base [] nb ne = nb
NonZero-dotted [] (x ∷ ext) nb ne = (omega arith, ne)
NonZero-dotted (c ∷ base) (x ∷ ext) nb ne = (nb.0, NonZero-dotted base (x ∷ ext) nb.1 ne)

NonZero-FieldChar : (t : List ℕ) → All FieldChar t → NonZero t
NonZero-FieldChar [] ok = tt
NonZero-FieldChar (c ∷ t) ok = (ok.0.0, NonZero-FieldChar t ok.1)

NonZero-Printed : (t : List ℕ) → Printed t → NonZero t
NonZero-Printed [] ok = tt
NonZero-Printed (c ∷ t) ok = (ok.0.0, NonZero-Printed t ok.1)

length-dotted : (base ext : List ℕ) → length (dotted base ext) ≤ length base + length ext + 1
length-dotted base [] = omega arith
length-dotted base (x ∷ ext) = omega (arith, length-append base (b'.' ∷ (x ∷ ext)))

printed-IsText :
    (base ext : List ℕ)
    → All FieldChar base
    → All FieldChar ext
    → length base ≤ 8
    → length ext ≤ 3
    → IsText (printed base ext) (dotted (map to_upper base) (map to_upper ext))
printed-IsText base ext okb oke lb le =
    let t = dotted (map to_upper base) (map to_upper ext) in
    let k : 108 - length t ≡ suc (107 - length t) = omega (
      arith,
      length-dotted (map to_upper base) (map to_upper ext),
      length-map base,
      length-map ext,
    ) in
    record {
      rest = replicate (107 - length t) 0;
      bytes = rw k;
      nonzero =
          NonZero-dotted (map to_upper base) (map to_upper ext)
            (NonZero-Printed (map to_upper base) (Printed-upper base okb))
            (NonZero-Printed (map to_upper ext) (Printed-upper ext oke));
    }

-- The fields that `fat16_name_to_83` makes of a name of at most 8 and 3 characters, which are not
-- spaces, are printed by `fat16_get_full_relative_filename` as a text that `istrncmp` finds equal
-- to the name.
pub name_to_83-full_name :
    (base ext r out : List ℕ) (item : DirectoryItem)
    → All FieldChar base
    → All FieldChar ext
    → length base ≤ 8
    → length ext ≤ 3
    → length out ≡ 108
    → (fname ext' out' : List ℕ) × (fat16_name_to_83 (dotted base ext ++ (0 ∷ r))
        ≡ done (fname, ext'))
      × (fat16_get_full_relative_filename (record item { filename = fname; ext = ext' }) out 108
          ≡ done out')
      × (istrncmp out' (dotted base ext ++ (0 ∷ r)) 108 ≡ done (pos 0))
name_to_83-full_name base ext r out item okb oke lb le len =
    let name : IsText (dotted base ext ++ (0 ∷ r)) (dotted base ext) = record {
      rest = r;
      bytes = refl;
      nonzero = NonZero-dotted base ext (NonZero-FieldChar base okb) (NonZero-FieldChar ext oke);
    } in
    let (z, run, same) = istrncmp_lem 108 (printed-IsText base ext okb oke lb le) name in
    (
      field 8 base,
      field 3 ext,
      printed base ext,
      name_to_83_lem base ext r okb oke lb le,
      full_name base ext out item okb oke lb le len,
      run ∙ ap done (same.1 (ap (take 108) (dotted-lower_upper base ext))),
    )
