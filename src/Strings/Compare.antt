-- ===== src/Strings/Compare.antt =====
-- string.c: what a result of 0 of `istrncmp` and `strncmp` says.
use os_kernel_application_si.Base.{
  ℕ, zero, suc, ◌≡◌, refl, ◌≢◌, ◌↔◌, List, [], ◌∷◌, ◌++◌, map, arith, take, cons-head, cons-tail,
  Run, done, ℤ, pos, sub_ℕ, inl, inr, Bool-cases, ◌==◌, ==_iff,
}
use mathlib.Core.Path.{ap₂}
use os_kernel_application_si.Strings.{tolower, istrncmp, strncmp}
use os_kernel_application_si.Strings.Text.{IsText, NonZero}

tolower_pos : (c : ℕ) → c ≢ 0 → tolower c ≢ 0
unfolding tolower
tolower_pos c h = ground arith

-- The comparison returns, and its result is 0 exactly if the lowered texts agree.
abbrev Compares : List ℕ → List ℕ → ℕ → Run ℤ → Type 0
Compares t v n run =
    (r : ℤ) × (run ≡ done r) × ((r ≡ pos 0) ↔ (take n (map tolower t) ≡ take n (map tolower v)))

istrncmp-texts :
    (t v rt rv : List ℕ) (n : ℕ)
    → NonZero t
    → NonZero v
    → Compares t v n (istrncmp (t ++ (0 ∷ rt)) (v ++ (0 ∷ rv)) n)
unfolding istrncmp
istrncmp-texts t v rt rv zero ht hv = (pos 0, refl, (λ e. refl, λ e. refl))
istrncmp-texts [] [] rt rv (suc n) ht hv = (pos 0, refl, (λ e. refl, λ e. refl))
istrncmp-texts [] (b ∷ v) rt rv (suc n) ht hv =
    (sub_ℕ 0 b, ground arith, (λ e. ground arith, λ e. cc))
istrncmp-texts (a ∷ t) [] rt rv (suc n) ht hv =
    (sub_ℕ a 0, ground (arith, tolower_pos a), (λ e. ground arith, λ e. cc))
istrncmp-texts (a ∷ t) (b ∷ v) rt rv (suc n) ht hv =
    let (r, e, same) = istrncmp-texts t v rt rv n ht.1 hv.1 in
    elim (Bool-cases (tolower a == tolower b)) [
      | inl eq ↦
          let eq' = (==_iff (tolower a) (tolower b)).0 eq in
          (r, ground (arith, e, ht.0), (λ z. ap₂ ◌∷◌ eq' (same.0 z), λ z. same.1 (cons-tail z)))
      | inr ne ↦ (
        sub_ℕ a b,
        ground arith,
        (λ z. absurd (ground arith), λ z. let h = cons-head z in absurd (ground arith)),
      )
    ]

-- `istrncmp` of two texts returns, and gives 0 exactly if their first `n` characters agree but for
-- the case of ASCII letters.
pub istrncmp_lem :
    {s1 s2 t v : List ℕ} (n : ℕ)
    → IsText s1 t
    → IsText s2 v
    → (r : ℤ) × (istrncmp s1 s2 n ≡ done r)
      × ((r ≡ pos 0) ↔ (take n (map tolower t) ≡ take n (map tolower v)))
istrncmp_lem {t} {v} n is1 is2 =
    rw (is1.bytes, is2.bytes) (istrncmp-texts t v is1.rest is2.rest n is1.nonzero is2.nonzero)

strncmp-texts :
    (t v rt rv : List ℕ) (n : ℕ)
    → NonZero t
    → NonZero v
    → (r : ℤ) × (strncmp (t ++ (0 ∷ rt)) (v ++ (0 ∷ rv)) n ≡ done r)
      × ((r ≡ pos 0) ↔ (take n t ≡ take n v))
unfolding strncmp
strncmp-texts t v rt rv zero ht hv = (pos 0, refl, (λ e. refl, λ e. refl))
strncmp-texts [] [] rt rv (suc n) ht hv = (pos 0, refl, (λ e. refl, λ e. refl))
strncmp-texts [] (b ∷ v) rt rv (suc n) ht hv =
    (sub_ℕ 0 b, ground arith, (λ e. ground arith, λ e. cc))
strncmp-texts (a ∷ t) [] rt rv (suc n) ht hv =
    (sub_ℕ a 0, ground arith, (λ e. ground arith, λ e. cc))
strncmp-texts (a ∷ t) (b ∷ v) rt rv (suc n) ht hv =
    let (r, e, same) = strncmp-texts t v rt rv n ht.1 hv.1 in
    elim (Bool-cases (a == b)) [
      | inl eq ↦
          let eq' = (==_iff a b).0 eq in
          (r, ground (arith, e, ht.0), (λ z. ap₂ ◌∷◌ eq' (same.0 z), λ z. same.1 (cons-tail z)))
      | inr ne ↦ (
        sub_ℕ a b,
        ground arith,
        (λ z. absurd (ground arith), λ z. let h = cons-head z in absurd (ground arith)),
      )
    ]

-- `strncmp` of two texts returns, and gives 0 exactly if their first `n` characters agree.
pub strncmp_lem :
    {s1 s2 t v : List ℕ} (n : ℕ)
    → IsText s1 t
    → IsText s2 v
    → (r : ℤ) × (strncmp s1 s2 n ≡ done r) × ((r ≡ pos 0) ↔ (take n t ≡ take n v))
strncmp_lem {t} {v} n is1 is2 =
    rw (is1.bytes, is2.bytes) (strncmp-texts t v is1.rest is2.rest n is1.nonzero is2.nonzero)
