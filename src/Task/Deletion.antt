-- ===== src/Task/Deletion.antt =====
-- The removal of one place of a list, for `task_list_remove` of task.c
use os_kernel_application_si.Base.{
  ℕ, zero, suc, ◌≤◌, ◌<◌, ◌≡◌, refl, ap, ◌≢◌, ◌⊎◌, inl, inr, List, [], ◌∷◌, if◌then◌else◌, arith,
  Bool-cases, ltb, ltb→lt, length,
}
use os_kernel_application_si.Task.Linked.{place}

-- The list without its place `k`
abbrev pub delete : ℕ → List ℕ → List ℕ
delete k [] = []
delete zero (x ∷ ids) = ids
delete (suc k) (x ∷ ids) = x ∷ delete k ids

pub length-delete :
    (k : ℕ) (ids : List ℕ) → k < length ids → suc (length (delete k ids)) ≡ length ids
length-delete k [] h = absurd (omega arith)
length-delete zero (x ∷ ids) h = refl
length-delete (suc k) (x ∷ ids) h = ap suc (length-delete k ids (omega arith))

pub place-delete_lt : (k : ℕ) (ids : List ℕ) (i : ℕ) → i < k → place (delete k ids) i ≡ place ids i
place-delete_lt k [] i h = refl
place-delete_lt zero (x ∷ ids) i h = absurd (omega arith)
place-delete_lt (suc k) (x ∷ ids) zero h = refl
place-delete_lt (suc k) (x ∷ ids) (suc i) h = place-delete_lt k ids i (omega arith)

pub place-delete_ge :
    (k : ℕ) (ids : List ℕ) (i : ℕ) → k ≤ i → place (delete k ids) i ≡ place ids (suc i)
place-delete_ge k [] i h = refl
place-delete_ge zero (x ∷ ids) i h = refl
place-delete_ge (suc k) (x ∷ ids) zero h = absurd (omega arith)
place-delete_ge (suc k) (x ∷ ids) (suc i) h = place-delete_ge k ids i (omega arith)

pub first_or_later : (k : ℕ) → (k ≡ 0) ⊎ ((j : ℕ) × (k ≡ suc j))
first_or_later zero = inl refl
first_or_later (suc j) = inr (j, refl)

pub later : (n : ℕ) → n ≢ 0 → (m : ℕ) × (n ≡ suc m)
later zero ne = absurd (ne refl)
later (suc m) ne = (m, refl)

-- Where place `i` of the shorter list was
unfoldable pub origin : ℕ → ℕ → ℕ
origin k i = if ltb i k then i else suc i

pub origin-place : (k : ℕ) (ids : List ℕ) (i : ℕ) → place (delete k ids) i ≡ place ids (origin k i)
unfolding origin
origin-place k ids i = elim (Bool-cases (ltb i k)) [
  | inl low ↦ rw low (place-delete_lt k ids i (ltb→lt i k low))
  | inr high ↦ rw high (place-delete_ge k ids i (ground arith))
]

pub origin-within :
    (k : ℕ) (ids : List ℕ) (i : ℕ)
    → k < length ids
    → i < length (delete k ids)
    → origin k i < length ids
unfolding origin
origin-within k ids i lt li = ground (arith, length-delete k ids lt)

pub origin-injective : (k i j : ℕ) → origin k i ≡ origin k j → i ≡ j
unfolding origin
origin-injective k i j e = ground arith
