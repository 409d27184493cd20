-- ===== src/Fs/File/Descriptors.antt =====
-- file.c: which descriptor a file gets, and what closing it does.
use os_kernel_application_si.Base.{
  ℕ, zero, suc, ◌+◌, ◌-◌, ◌≤◌, ◌<◌, ◌≡◌, refl, ap, sym, ◌∙◌, false, Option, none, some, List, [],
  ◌∷◌, arith, length, get_elem?, set, get_elem?-set_self, Run, done, done-injective,
}
use os_kernel_application_si.Status.{eio, enomem}
use os_kernel_application_si.Fs.Fat16.{minus, is_negative}
use os_kernel_application_si.Fs.File.{
  Filesystem, FileTable, max_file_descriptors, with_descriptor, free_descriptor_loop,
  file_new_descriptor, file_free_descriptor, file_get_descriptor, fclose,
}

-- Entry `j` is in use.
abbrev pub InUse : {P : Type 0} → List (Option P) → ℕ → Type 0
InUse {P} ds j = (q : P) × (get_elem? ds j ≡ some (some q))

-- What the search of `n` entries from `i` on ends with.
data FirstFree {P : Type 0} (ds : List (Option P)) (n i : ℕ) (r : Run (Option ℕ)) : Type 0 where
  first :
      (k : ℕ)
      → k < n
      → get_elem? ds k ≡ some none
      → ((j : ℕ) → j < k → InUse ds j)
      → r ≡ done (some (i + k))
      → FirstFree ds n i r
  all_used : ((j : ℕ) → j < n → InUse ds j) → r ≡ done none → FirstFree ds n i r

InUse-cons :
    {P : Type 0} (q : P) (ds : List (Option P)) (n j : ℕ)
    → j < suc n
    → ((j : ℕ) → j < n → InUse ds j)
    → InUse (some q ∷ ds) j
InUse-cons q ds n zero lt rest = (q, refl)
InUse-cons q ds n (suc j) lt rest = rest j (omega arith)

free_descriptor_loop-FirstFree :
    {P : Type 0} (n : ℕ) (ds : List (Option P)) (i : ℕ)
    → n ≤ length ds
    → FirstFree ds n i (free_descriptor_loop n ds i)
unfolding free_descriptor_loop
free_descriptor_loop-FirstFree zero ds i le = all_used (λ j lt. absurd (omega arith)) refl
free_descriptor_loop-FirstFree (suc n) [] i le = absurd (omega arith)
free_descriptor_loop-FirstFree (suc n) (none ∷ ds) i le =
    first 0 (omega arith) refl (λ j lt. absurd (omega arith))
      (ap (λ k. done (some k)) (omega arith))
free_descriptor_loop-FirstFree (suc n) (some q ∷ ds) i le =
    elim (free_descriptor_loop-FirstFree n ds (i + 1) (omega arith)) [
      | first k lt free used e ↦
          first (suc k) (omega arith) free (λ j l. InUse-cons q ds k j l used)
            (e ∙ ap (λ m. done (some m)) (omega arith))
      | all_used used e ↦ all_used (λ j l. InUse-cons q ds n j l used) e
    ]

-- What `file_new_descriptor` does.
pub data NewDescriptor {S P : Type 0} (t : FileTable S P) (p : P) (r : Run (ℕ × FileTable S P))
    : Type 0 where
  -- the first free entry is taken, and its number is one more than its index
  given :
      (i : ℕ)
      → i < max_file_descriptors
      → get_elem? t.file_descriptors i ≡ some none
      → ((j : ℕ) → j < i → InUse t.file_descriptors j)
      → r ≡ done (i + 1, with_descriptor t i (some p))
      → NewDescriptor t p r
  table_full :
      ((j : ℕ) → j < max_file_descriptors → InUse t.file_descriptors j)
      → r ≡ done (minus enomem, t)
      → NewDescriptor t p r

module _ {S P : Type 0} (t : FileTable S P) (p : P) (len : length t.file_descriptors ≡ 512) where
  -- A new descriptor is the first free entry of the table of 512; a full table is left alone.
  pub file_new_descriptor_lem : NewDescriptor t p (file_new_descriptor t p)
  unfolding file_new_descriptor
  file_new_descriptor_lem =
      elim (free_descriptor_loop-FirstFree 512 t.file_descriptors 0 (omega (arith, len))) [
        | first k lt free used e ↦
            let z : 0 + k ≡ k = omega arith in given k lt free used (rw (e, z))
        | all_used used e ↦ table_full used (rw e)
      ]

set-set_back :
    {P : Type 0} (ds : List (Option P)) (i : ℕ) (p : P)
    → get_elem? ds i ≡ some none
    → set (set ds i (some p)) i none ≡ ds
set-set_back [] i p e = refl
set-set_back (d ∷ ds) zero p e = ap (λ o. o ∷ ds) cc
set-set_back (d ∷ ds) (suc i) p e = ap (λ r. d ∷ r) (set-set_back ds i p e)

module _ {S P : Type 0} (fs : Filesystem S P) (t : FileTable S P) (p : P) (i : ℕ)
    (len : length t.file_descriptors ≡ 512)
    (free : get_elem? t.file_descriptors i ≡ some none) where
  get_descriptor-new :
      i < 511 → file_get_descriptor (with_descriptor t i (some p)) (i + 1) ≡ done (some p)
  unfolding file_get_descriptor
  get_descriptor-new lt =
      let k : i + 1 - 1 ≡ i = omega arith in
      let got = get_elem?-set_self t.file_descriptors i (some p) (omega (arith, len)) in
      ground (arith, k, got)

  close-new :
      i < 511 → fs.close p ≡ 0 → fclose fs (with_descriptor t i (some p)) (i + 1) ≡ done (0, t)
  unfolding fclose file_free_descriptor
  close-new lt ok =
      let k : i + 1 - 1 ≡ i = omega arith in
      rw (get_descriptor-new lt, ok, k, set-set_back t.file_descriptors i p free)

  close-last : i ≡ 511 → (t' : FileTable S P) → fclose fs t' (i + 1) ≡ done (minus eio, t')
  unfolding fclose file_get_descriptor
  close-last e t' = ground arith

new_descriptor_cases :
    {S P : Type 0} (fs : Filesystem S P) (t t' : FileTable S P) (p : P) (fd : ℕ)
    → length t.file_descriptors ≡ 512
    → fs.close p ≡ 0
    → file_new_descriptor t p ≡ done (fd, t')
    → is_negative fd ≡ false
    → (fd ≤ 512)
      × (fd < 512 → (file_get_descriptor t' fd ≡ done (some p)) × (fclose fs t' fd ≡ done (0, t)))
      × (fd ≡ 512 → fclose fs t' fd ≡ done (minus eio, t'))
new_descriptor_cases {S} {P} fs t t' p fd len ok e positive =
    elim (file_new_descriptor_lem t p len) [
      | given i lt free used run ↦
          let both = done-injective (fd, t') (i + 1, with_descriptor t i (some p)) (sym e ∙ run) in
          let number : fd ≡ i + 1 = ap (λ (r : ℕ × FileTable S P). r.0) both in
          let table : t' ≡ with_descriptor t i (some p) =
            ap (λ (r : ℕ × FileTable S P). r.1) both in
          rw (number, table)
            (
              omega arith,
              (λ small. (
                get_descriptor-new fs t p i len free (omega arith),
                close-new fs t p i len free (omega arith) ok,
              )),
              λ last. close-last fs t p i len free (omega arith) (with_descriptor t i (some p)),
            )
      | table_full used run ↦
          let both = done-injective (fd, t') (minus enomem, t) (sym e ∙ run) in
          let number : fd ≡ minus enomem = ap (λ (r : ℕ × FileTable S P). r.0) both in
          absurd (ground arith)
    ]

-- By a number below 512 that `file_new_descriptor` gave, `file_get_descriptor` finds the file, and
-- `fclose`, where the file system closes it, frees the entry again, which leaves the table as it was.
pub file_new_descriptor-fclose :
    {S P : Type 0} (fs : Filesystem S P) (t t' : FileTable S P) (p : P) (fd : ℕ)
    → length t.file_descriptors ≡ 512
    → fs.close p ≡ 0
    → file_new_descriptor t p ≡ done (fd, t')
    → fd < 512
    → (file_get_descriptor t' fd ≡ done (some p)) × (fclose fs t' fd ≡ done (0, t))
file_new_descriptor-fclose fs t t' p fd len ok e small =
    (new_descriptor_cases fs t t' p fd len ok e (ground arith)).1 small

-- The number 512, which `file_new_descriptor` gives for the last entry, is refused by `fclose`, and
-- the entry stays in use.
pub file_new_descriptor-fclose_last :
    {S P : Type 0} (fs : Filesystem S P) (t t' : FileTable S P) (p : P)
    → length t.file_descriptors ≡ 512
    → fs.close p ≡ 0
    → file_new_descriptor t p ≡ done (512, t')
    → fclose fs t' 512 ≡ done (minus eio, t')
file_new_descriptor-fclose_last fs t t' p len ok e =
    (new_descriptor_cases fs t t' p 512 len ok e (ground arith)).2 refl
