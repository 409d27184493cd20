-- ===== src/Fs/Fat16/RootDirectory/Slots.antt =====
-- fat16.c: the search for a free slot of the root directory.
use os_kernel_application_si.Base.{
  ℕ, zero, suc, ◌+◌, ◌≤◌, ◌<◌, ◌≡◌, refl, ap, ◌∙◌, Bool-cases, inl, inr, Bool, true, false, ◌||◌,
  ◌==◌, some, List, [], ◌∷◌, arith, length, get_elem?, Run, done,
}
use os_kernel_application_si.Status.{enomem}
use os_kernel_application_si.Fs.Fat16.{DirectoryItem, Volume, minus}
use os_kernel_application_si.Fs.Fat16.RootDirectory.{
  first_byte, free_slot_loop, fat16_find_free_root_dir_slot,
}

-- The entry was never used, or is deleted.
abbrev pub is_free : DirectoryItem → Bool
is_free entry = first_byte entry == 0x00 || first_byte entry == 0xE5

-- Slot `j` holds a file.
abbrev pub Occupied : List DirectoryItem → ℕ → Type 0
Occupied items j = (item : DirectoryItem) × (get_elem? items j ≡ some item) × (is_free item ≡ false)

-- What the search of `n` slots, the first of which has number `i`, ends with.
pub data FreeSlot (items : List DirectoryItem) (n i : ℕ) (r : Run ℕ) : Type 0 where
  free_slot :
      (k : ℕ) (item : DirectoryItem)
      → k < n
      → get_elem? items k ≡ some item
      → is_free item ≡ true
      → ((j : ℕ) → j < k → Occupied items j)
      → r ≡ done (i + k)
      → FreeSlot items n i r
  no_free_slot :
      ((j : ℕ) → j < n → Occupied items j) → r ≡ done (minus enomem) → FreeSlot items n i r

Occupied-cons :
    (item : DirectoryItem) (items : List DirectoryItem) (n j : ℕ)
    → is_free item ≡ false
    → j < suc n
    → ((j : ℕ) → j < n → Occupied items j)
    → Occupied (item ∷ items) j
Occupied-cons item items n zero used lt rest = (item, refl, used)
Occupied-cons item items n (suc j) used lt rest = rest j (omega arith)

free_slot_loop-FreeSlot :
    (n : ℕ) (items : List DirectoryItem) (i : ℕ)
    → n ≤ length items
    → FreeSlot items n i (free_slot_loop n items i)
unfolding free_slot_loop
free_slot_loop-FreeSlot zero items i le = no_free_slot (λ j lt. absurd (omega arith)) refl
free_slot_loop-FreeSlot (suc n) [] i le = absurd (omega arith)
free_slot_loop-FreeSlot (suc n) (item ∷ items) i le =
    let next = free_slot_loop-FreeSlot n items (i + 1) (omega arith) in
    elim (Bool-cases (is_free item)) [
      | inl free ↦
          let z : i ≡ i + 0 = omega arith in
          free_slot 0 item (omega arith) refl free (λ j lt. absurd (omega arith))
            (rw free (ap done z))
      | inr used ↦ elim next [
        | free_slot k other lt at free before e ↦
            free_slot (suc k) other (omega arith) at free
              (λ j l. Occupied-cons item items k j used l before)
              (rw used (e ∙ ap done (omega arith)))
        | no_free_slot all e ↦
            no_free_slot (λ j l. Occupied-cons item items n j used l all) (rw used e)
      ]
    ]

-- On a root directory that holds all its entries, the search gives the first slot whose entry was
-- never used or is deleted, or the error where every slot holds a file; the volume stays as it was.
pub find_free_root_dir_slot_lem :
    (v : Volume)
    → v.header.root_dir_entries ≤ length v.root_directory.item
    → (r : ℕ) × (fat16_find_free_root_dir_slot v ≡ done (r, v))
      × FreeSlot v.root_directory.item v.header.root_dir_entries 0 (done r)
unfolding fat16_find_free_root_dir_slot
find_free_root_dir_slot_lem v le =
    elim (free_slot_loop-FreeSlot v.header.root_dir_entries v.root_directory.item 0 le) [
      | free_slot k item lt at free before e ↦
          (0 + k, rw e, free_slot k item lt at free before refl)
      | no_free_slot all e ↦ (minus enomem, rw e, no_free_slot all refl)
    ]
