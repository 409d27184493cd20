-- ===== src/Fs/Fat16/Names/Printed.antt =====
-- fat16.c, `fat16_get_full_relative_filename`: the text that the fields of a name are printed as.
use os_kernel_application_si.Base.{
  ℕ, zero, suc, ◌+◌, ◌-◌, ◌≤◌, ◌<◌, ◌≡◌, ◌≢◌, refl, ap, sym, ◌∙◌, true, false, ◌||◌, List, [], ◌∷◌,
  ◌++◌, map, ◌==◌, arith, All, length, take, replicate, length-append, append_assoc, done,
}
use os_kernel_application_si.Memory.Bytes.Copy.{memset_all}
use os_kernel_application_si.Strings.Copy.{set-next}
use os_kernel_application_si.Fs.Fat16.{DirectoryItem}
use os_kernel_application_si.Fs.Fat16.Names.{
  to_upper, fat16_to_proper_string, fat16_get_full_relative_filename,
}
use os_kernel_application_si.Fs.Fat16.Names.Fields.{FieldChar, field, length-map, dotted}

-- Characters of a field, as `fat16_to_proper_string` copies them.
abbrev pub Printed : List ℕ → Type 0
Printed s = All (λ c. (c ≢ 0x00) × (c ≢ 0x20)) s

to_proper_string-stop :
    (s : List ℕ) (c : ℕ) (r xs : List ℕ) (k i : ℕ)
    → Printed s
    → (c == 0x00 || c == 0x20) ≡ true
    → i ≡ length xs
    → length s < k
    → fat16_to_proper_string (s ++ (c ∷ r)) (xs ++ replicate k 0) i
      ≡ done (xs ++ (s ++ replicate (k - length s) 0), i + length s)
unfolding fat16_to_proper_string
to_proper_string-stop s c r xs zero i ok stop e lt = absurd (omega arith)
to_proper_string-stop [] c r xs (suc k) i ok stop e lt =
    let (in_range, put) = set-next xs 0 (replicate k 0) i 0 e in
    let same = put ∙ append_assoc xs (0 ∷ []) (replicate k 0) in
    let z : i + 0 ≡ i = omega arith in ground (arith, in_range, same, z)
to_proper_string-stop (a ∷ s) c r xs (suc k) i ok stop e lt =
    let (in_range, put) = set-next xs 0 (replicate k 0) i a e in
    let n0 : (a == 0x00) ≡ false = ground (arith, ok.0.0) in
    let n20 : (a == 0x20) ≡ false = ground (arith, ok.0.1) in
    let z : i + 1 + length s ≡ i + suc (length s) = omega arith in
    let left : suc k - suc (length s) ≡ k - length s = omega arith in
    rw (n0, n20, in_range, put, left)
      (to_proper_string-stop s c r (xs ++ (a ∷ [])) k (i + 1) ok.1 stop
          (omega (arith, length-append xs (a ∷ []))) (omega arith)
        ∙ rw (z, append_assoc xs (a ∷ []) (s ++ replicate (k - length s) 0)))

-- A field and the 0 behind it: the text, and a space or the 0.
field-stop :
    (n : ℕ) (t : List ℕ)
    → length t ≤ n
    → (c : ℕ) × (r : List ℕ) × ((c == 0x00 || c == 0x20) ≡ true)
      × (take n (field n t) ++ (0x00 ∷ []) ≡ map to_upper t ++ (c ∷ r))
field-stop zero [] le = (0x00, [], refl, refl)
field-stop zero (a ∷ t) le = absurd (omega arith)
field-stop (suc n) [] le = (0x20, take n (replicate n 0x20) ++ (0x00 ∷ []), refl, refl)
field-stop (suc n) (a ∷ t) le =
    let (c, r, stop, e) = field-stop n t (omega arith) in (c, r, stop, ap (λ q. to_upper a ∷ q) e)

pub Printed-upper : (t : List ℕ) → All FieldChar t → Printed (map to_upper t)
Printed-upper [] ok = tt
Printed-upper (c ∷ t) ok =
    ((ground (arith, ok.0.0), ground (arith, ok.0.1.0)), Printed-upper t ok.1)

-- The bytes of a directory entry's name, printed into a buffer of 108 bytes.
abbrev pub printed : List ℕ → List ℕ → List ℕ
printed base ext =
    dotted (map to_upper base) (map to_upper ext)
    ++ replicate (108 - length (dotted (map to_upper base) (map to_upper ext))) 0

-- What the fields of a name are printed as.
pub full_name :
    (base ext out : List ℕ) (item : DirectoryItem)
    → All FieldChar base
    → All FieldChar ext
    → length base ≤ 8
    → length ext ≤ 3
    → length out ≡ 108
    → fat16_get_full_relative_filename
        (record item { filename = field 8 base; ext = field 3 ext })
        out
        108
      ≡ done (printed base ext)
unfolding fat16_get_full_relative_filename
full_name base [] out item okb oke lb le len =
    let (c, r, stop, e) = field-stop 8 base lb in
    let size = length-map base in
    let first =
      to_proper_string-stop (map to_upper base) c r [] 108 0 (Printed-upper base okb) stop refl
        (omega (arith, size)) in
    rw (memset_all out 108 0 len, e, first)
full_name base (x ∷ ext) out item okb oke lb le len =
    let (c, r, stop, e) = field-stop 8 base lb in
    let (c', r', stop', e') = field-stop 3 (x ∷ ext) le in
    let size = length-map base in
    let size' = length-map ext in
    let first =
      to_proper_string-stop (map to_upper base) c r [] 108 0 (Printed-upper base okb) stop refl
        (omega (arith, size)) in
    let b = map to_upper base in
    let n = length b in
    let p = Printed-upper (x ∷ ext) oke in
    let n0 : (to_upper x == 0x00) ≡ false = ground (arith, p.0.0) in
    let n20 : (to_upper x == 0x20) ≡ false = ground (arith, p.0.1) in
    let k : 108 - n ≡ suc (107 - n) = omega (arith, size) in
    let (in_range, put) = set-next b 0 (replicate (107 - n) 0) (0 + n) b'.' (omega arith) in
    let second =
      to_proper_string-stop (map to_upper (x ∷ ext)) c' r' (b ++ (b'.' ∷ [])) (107 - n) (0 + n + 1)
        p stop' (omega (arith, length-append b (b'.' ∷ []))) (omega (arith, size, size')) in
    let left : 107 - n - suc (length (map to_upper ext))
        ≡ 108 - length (b ++ (b'.' ∷ map to_upper (x ∷ ext))) =
      omega (arith, length-append b (b'.' ∷ map to_upper (x ∷ ext))) in
    rw (memset_all out 108 0 len, e, first, n0, n20, k, in_range, put, e', second, left)
      (ap done (
        append_assoc b (b'.' ∷ []) (
          map to_upper (x ∷ ext)
          ++ replicate (108 - length (b ++ (b'.' ∷ map to_upper (x ∷ ext)))) 0)
        ∙ sym (
            append_assoc b (b'.' ∷ map to_upper (x ∷ ext))
              (replicate (108 - length (b ++ (b'.' ∷ map to_upper (x ∷ ext)))) 0))))
