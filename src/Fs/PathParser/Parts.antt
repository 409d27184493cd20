-- ===== src/Fs/PathParser/Parts.antt =====
-- pparser.c: the parts that the parser makes of the text behind the drive.
use os_kernel_application_si.Base.{
  ℕ, zero, suc, ◌+◌, ◌≤◌, ◌<◌, ◌≡◌, refl, ap, ◌∙◌, ◌≢◌, ◌||◌, inl, inr, true, false, Bool-cases,
  ==_iff, Option, none, some, List, [], ◌∷◌, ◌++◌, map, ◌==◌, if◌then◌else◌, arith, length, drop,
  replicate, All, length-append, append_assoc, length-replicate, done,
}
use os_kernel_application_si.Strings.Text.{NonZero}
use os_kernel_application_si.Strings.Copy.{set-next}
use os_kernel_application_si.Fs.PathParser.{
  max_path, part_loop, skip_slash, link_part, pathparser_get_path_part, pathparser_parse_path_parts,
}

-- Characters of a part: neither 0 nor a slash.
abbrev pub NoSlash : List ℕ → Type 0
NoSlash p = All (λ c. (c ≢ 0) × (c ≢ b'/')) p

-- The buffer of a part.
abbrev pub pad : List ℕ → List ℕ
pad p = p ++ drop (length p) (replicate max_path 0)

-- The parts that a text is split into: at slashes, up to the end or to an empty part.
pub data Splits : List ℕ → List (List ℕ) → Type 0 where
  at_end : Splits [] []
  at_empty : (t : List ℕ) → Splits (b'/' ∷ t) []
  last : (c : ℕ) (p : List ℕ) → NoSlash (c ∷ p) → Splits (c ∷ p) ((c ∷ p) ∷ [])
  more :
      (c : ℕ) (p : List ℕ) {t : List ℕ} {ps : List (List ℕ)}
      → NoSlash (c ∷ p)
      → Splits t ps
      → Splits ((c ∷ p) ++ (b'/' ∷ t)) ((c ∷ p) ∷ ps)

-- A text up to its first slash.
pub data Break (t : List ℕ) : Type 0 where
  whole : NoSlash t → Break t
  cut : (p u : List ℕ) → NoSlash p → NonZero u → t ≡ p ++ (b'/' ∷ u) → Break t

pub break : (t : List ℕ) → NonZero t → Break t
break [] nz = whole tt
break (c ∷ t) nz = elim (Bool-cases (c == b'/')) [
  | inl slash ↦ cut [] t tt nz.1 (ap (λ x. x ∷ t) ((==_iff c b'/').0 slash))
  | inr plain ↦ elim (break t nz.1) [
    | whole h ↦ whole ((nz.0, ground arith), h)
    | cut p u h k e ↦ cut (c ∷ p) u ((nz.0, ground arith), h) k (ap (λ r. c ∷ r) e)
  ]
]

suc-ne-zero : (n : ℕ) → (suc n == 0) ≡ false
suc-ne-zero n = ground arith

part_loop-stop :
    (p : List ℕ) (c : ℕ) (r xs ys : List ℕ) (i : ℕ)
    → NoSlash p
    → (c == b'/' || c == 0) ≡ true
    → i ≡ length xs
    → length p ≤ length ys
    → part_loop (p ++ (c ∷ r)) i (xs ++ ys)
      ≡ done (i + length p, xs ++ (p ++ drop (length p) ys), c ∷ r)
unfolding part_loop
part_loop-stop [] c r xs ys i ns stop e h = let z : i ≡ i + 0 = omega arith in rw (stop, ← z)
part_loop-stop (q ∷ p) c r xs [] i ns stop e h = absurd (omega arith)
part_loop-stop (q ∷ p) c r xs (y ∷ ys) i ns stop e h =
    let (lt, put) = set-next xs y ys i q e in
    let plain : (q == b'/' || q == 0) ≡ false = ground (arith, ns.0.0, ns.0.1) in
    let k : i + 1 + length p ≡ i + suc (length p) = omega arith in
    rw (plain, lt, put)
      (part_loop-stop p c r (xs ++ (q ∷ [])) ys (i + 1) ns.1 stop
          (omega (arith, length-append xs (q ∷ []))) (omega arith)
        ∙ rw (k, append_assoc xs (q ∷ []) (p ++ drop (length p) ys)))

pub get_path_part-stop :
    (p : List ℕ) (c : ℕ) (r : List ℕ)
    → NoSlash p
    → (c == b'/' || c == 0) ≡ true
    → length p ≤ max_path
    → pathparser_get_path_part (p ++ (c ∷ r))
      ≡ done (if length p == 0 then none else some (pad p), skip_slash (c ∷ r))
unfolding pathparser_get_path_part
get_path_part-stop p c r ns stop h =
    let z : 0 + length p ≡ length p = omega arith in
    rw
      (part_loop-stop p c r [] (replicate max_path 0) 0 ns stop refl
        (omega (arith, length-replicate {A = ℕ} max_path 0)))
      (rw z)

parts-step :
    (fuel : ℕ) (path rest : List ℕ) (o : Option (List ℕ))
    → pathparser_get_path_part path ≡ done (o, rest)
    → pathparser_parse_path_parts (suc fuel) path
      ≡ link_part o (pathparser_parse_path_parts fuel rest)
unfolding pathparser_parse_path_parts
parts-step fuel path rest o e = rw (e, pathparser_parse_path_parts)

-- What the loop makes of `t` and the 0 behind it.
abbrev pub Parsed : ℕ → List ℕ → List ℕ → Type 0
Parsed fuel t r =
    (ps : List (List ℕ)) × (pathparser_parse_path_parts fuel (t ++ (0 ∷ r)) ≡ done (map pad ps))
    × Splits t ps

parts_at_end : (fuel : ℕ) (r : List ℕ) → pathparser_parse_path_parts (suc fuel) (0 ∷ r) ≡ done []
parts_at_end fuel r =
    parts-step fuel (0 ∷ r) (0 ∷ r) none (get_path_part-stop [] 0 r tt refl (omega arith))

Parsed-whole :
    (fuel : ℕ) (t r : List ℕ)
    → NoSlash t
    → length t ≤ max_path
    → length t < suc fuel
    → Parsed (suc fuel) t r
Parsed-whole fuel [] r ns len f = ([], parts_at_end fuel r, at_end)
Parsed-whole zero (c ∷ p) r ns len f = absurd (omega arith)
Parsed-whole (suc fuel) (c ∷ p) r ns len f = (
  (c ∷ p) ∷ [],
  parts-step (suc fuel) ((c ∷ p) ++ (0 ∷ r)) (0 ∷ r) (some (pad (c ∷ p)))
        (get_path_part-stop (c ∷ p) 0 r ns refl len ∙ rw (suc-ne-zero (length p)))
      ∙ rw (parts_at_end fuel r),
  last c p ns,
)

Parsed-more :
    (fuel c : ℕ) (p u r : List ℕ)
    → NoSlash (c ∷ p)
    → length (c ∷ p) ≤ max_path
    → Parsed fuel u r
    → Parsed (suc fuel) ((c ∷ p) ++ (b'/' ∷ u)) r
Parsed-more fuel c p u r ns len (ps, e, s) = (
  (c ∷ p) ∷ ps,
  rw (append_assoc (c ∷ p) (b'/' ∷ u) (0 ∷ r)) (
      parts-step fuel ((c ∷ p) ++ (b'/' ∷ (u ++ (0 ∷ r)))) (u ++ (0 ∷ r)) (some (pad (c ∷ p)))
        (get_path_part-stop (c ∷ p) b'/' (u ++ (0 ∷ r)) ns refl len ∙ rw (suc-ne-zero (length p)))
      ∙ rw e),
  more c p ns s,
)

-- A text of at most 108 characters is split by the loop as `Splits` says.
pub parse_path_parts_lem :
    (fuel : ℕ) (t r : List ℕ) → NonZero t → length t ≤ max_path → length t < fuel → Parsed fuel t r
parse_path_parts_lem zero t r nz len f = absurd (omega arith)
parse_path_parts_lem (suc fuel) t r nz len f = elim (break t nz) [
  | whole ns ↦ Parsed-whole fuel t r ns len f
  | cut [] u ns nzu e ↦ rw e (
    [],
    parts-step fuel (b'/' ∷ (u ++ (0 ∷ r))) (u ++ (0 ∷ r)) none
        (get_path_part-stop [] b'/' (u ++ (0 ∷ r)) tt refl (omega arith)),
    at_empty u,
  )
  | cut (c ∷ p) u ns nzu e ↦
      let size = ap length e ∙ length-append (c ∷ p) (b'/' ∷ u) in
      rw e (
        Parsed-more fuel c p u r ns (omega (arith, size))
          (parse_path_parts_lem fuel u r nzu (omega (arith, size)) (omega (arith, size))))
]
