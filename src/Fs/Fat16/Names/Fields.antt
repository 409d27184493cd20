-- ===== src/Fs/Fat16/Names/Fields.antt =====
-- fat16.c, `fat16_name_to_83`: the fields that a name is split into.
use os_kernel_application_si.Base.{
  ℕ, zero, suc, ◌+◌, ◌≤◌, ◌≡◌, ◌≢◌, refl, ap, ◌∙◌, true, false, ◌||◌, List, [], ◌∷◌, ◌++◌, map,
  ◌==◌, arith, All, length, drop, replicate, length-append, append_assoc, done,
}
use os_kernel_application_si.Strings.Copy.{set-next}
use os_kernel_application_si.Fs.Fat16.Names.{to_upper, base_loop, ext_loop, fat16_name_to_83}

-- Characters that a field of a name can hold.
abbrev pub FieldChar : ℕ → Type 0
FieldChar c = (c ≢ 0x00) × ((c ≢ 0x20) × (c ≢ b'.'))

-- A field of `n` bytes.
abbrev pub field : ℕ → List ℕ → List ℕ
field n t = map to_upper t ++ drop (length t) (replicate n 0x20)

pub length-map : (t : List ℕ) → length (map to_upper t) ≡ length t
length-map [] = refl
length-map (c ∷ t) = ap suc (length-map t)

base_loop-stop :
    (n : ℕ) (t : List ℕ) (c : ℕ) (r xs ys : List ℕ) (i : ℕ)
    → All FieldChar t
    → (c == 0x00 || c == b'.') ≡ true
    → i ≡ length xs
    → length t ≤ n
    → n ≤ length ys
    → base_loop n (t ++ (c ∷ r)) (xs ++ ys) i
      ≡ done (c ∷ r, xs ++ (map to_upper t ++ drop (length t) ys))
unfolding base_loop
base_loop-stop zero [] c r xs ys i ok stop e le fits = refl
base_loop-stop zero (a ∷ t) c r xs ys i ok stop e le fits = absurd (omega arith)
base_loop-stop (suc n) [] c r xs ys i ok stop e le fits = rw stop
base_loop-stop (suc n) (a ∷ t) c r xs [] i ok stop e le fits = absurd (omega arith)
base_loop-stop (suc n) (a ∷ t) c r xs (y ∷ ys) i ok stop e le fits =
    let (lt, put) = set-next xs y ys i (to_upper a) e in
    let goes : (a == 0x00 || a == b'.') ≡ false = ground (arith, ok.0.0, ok.0.1.1) in
    rw (goes, put)
      (base_loop-stop n t c r (xs ++ (to_upper a ∷ [])) ys (i + 1) ok.1 stop
          (omega (arith, length-append xs (to_upper a ∷ []))) (omega arith) (omega arith)
        ∙ rw (append_assoc xs (to_upper a ∷ []) (map to_upper t ++ drop (length t) ys)))

ext_loop-stop :
    (n : ℕ) (t r xs ys : List ℕ) (i : ℕ)
    → All FieldChar t
    → i ≡ length xs
    → length t ≤ n
    → n ≤ length ys
    → ext_loop n (t ++ (0 ∷ r)) (xs ++ ys) i ≡ done (xs ++ (map to_upper t ++ drop (length t) ys))
unfolding ext_loop
ext_loop-stop zero [] r xs ys i ok e le fits = refl
ext_loop-stop zero (a ∷ t) r xs ys i ok e le fits = absurd (omega arith)
ext_loop-stop (suc n) [] r xs ys i ok e le fits = refl
ext_loop-stop (suc n) (a ∷ t) r xs [] i ok e le fits = absurd (omega arith)
ext_loop-stop (suc n) (a ∷ t) r xs (y ∷ ys) i ok e le fits =
    let (lt, put) = set-next xs y ys i (to_upper a) e in
    let goes : (a == 0x00) ≡ false = ground (arith, ok.0.0) in
    rw (goes, put)
      (ext_loop-stop n t r (xs ++ (to_upper a ∷ [])) ys (i + 1) ok.1
          (omega (arith, length-append xs (to_upper a ∷ []))) (omega arith) (omega arith)
        ∙ rw (append_assoc xs (to_upper a ∷ []) (map to_upper t ++ drop (length t) ys)))

-- The text of a name: the base, and the extension behind a dot if there is one.
abbrev pub dotted : List ℕ → List ℕ → List ℕ
dotted base [] = base
dotted base (c ∷ ext) = base ++ (b'.' ∷ (c ∷ ext))

-- A name with at most 8 characters in its base and 3 in its extension is split into its fields.
pub name_to_83_lem :
    (base ext r : List ℕ)
    → All FieldChar base
    → All FieldChar ext
    → length base ≤ 8
    → length ext ≤ 3
    → fat16_name_to_83 (dotted base ext ++ (0 ∷ r)) ≡ done (field 8 base, field 3 ext)
unfolding fat16_name_to_83
name_to_83_lem base [] r okb oke lb le =
    let first = base_loop-stop 8 base 0 r [] (replicate 8 0x20) 0 okb refl refl lb (omega arith) in
    let second = ext_loop-stop 3 [] r [] (replicate 3 0x20) 0 tt refl (omega arith) (omega arith) in
    rw (first, second)
name_to_83_lem base (c ∷ ext) r okb oke lb le =
    let first =
      base_loop-stop 8 base b'.' ((c ∷ ext) ++ (0 ∷ r)) [] (replicate 8 0x20) 0 okb refl refl lb
        (omega arith) in
    let second = ext_loop-stop 3 (c ∷ ext) r [] (replicate 3 0x20) 0 oke refl le (omega arith) in
    rw (append_assoc base (b'.' ∷ (c ∷ ext)) (0 ∷ r), first, second)
