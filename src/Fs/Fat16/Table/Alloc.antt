-- ===== src/Fs/Fat16/Table/Alloc.antt =====
-- fat16.c: `fat16_find_free_cluster` and `fat16_alloc_cluster` on the entries of the table.
use os_kernel_application_si.Base.{
  ℕ, zero, suc, ◌+◌, ◌%◌, ◌^◌, ◌≤◌, ◌<◌, ◌≡◌, refl, ap, ◌∙◌, ◌≢◌, ◌⊎◌, inl, inr, true, false,
  Bool-cases, ==_iff, ◌&&◌, ◌==◌, if◌then◌else◌, arith, Run, done,
}
use os_kernel_application_si.Status.{enomem}
use os_kernel_application_si.Fs.Fat16.{Volume, minus, is_negative}
use os_kernel_application_si.Fs.Fat16.Table.{
  fat16_eoc, fat16_get_fat_entry, fat16_set_fat_entry, free_cluster_loop, count_of_clusters,
  fat16_find_free_cluster, is_cluster, fat16_alloc_cluster,
}
use os_kernel_application_si.Fs.Fat16.Table.Entry.{
  IsVolume, table_size, entry, Stored, get_fat_entry_lem, set_fat_entry_lem,
}

-- What a search of the `n` clusters from `i` on ends with.
pub data Search (v : Volume) (i n : ℕ) (r : Run (ℕ × Volume)) : Type 0 where
  found :
      (k : ℕ)
      → i ≤ k
      → k < i + n
      → entry v k ≡ 0
      → ((j : ℕ) → i ≤ j → j < k → entry v j ≢ 0)
      → r ≡ done (k, v)
      → Search v i n r
  none_free :
      ((j : ℕ) → i ≤ j → j < i + n → entry v j ≢ 0) → r ≡ done (minus enomem, v) → Search v i n r

from_next :
    (v : Volume) (i n : ℕ) (r : Run (ℕ × Volume))
    → entry v i ≢ 0
    → Search v (i + 1) n r
    → Search v i (suc n) r
from_next v i n r used (found k lo hi z before e) =
    found k (omega arith) (omega arith) z (λ j a b. at j (omega arith) before a b) e
  where
    at :
        (j : ℕ)
        → (j ≡ i) ⊎ (i + 1 ≤ j) ⊎ (j < i)
        → ((j : ℕ) → i + 1 ≤ j → j < k → entry v j ≢ 0)
        → i ≤ j
        → j < k
        → entry v j ≢ 0
    at j (inl e) f a b = rw e used
    at j (inr (inl h)) f a b = f j h b
    at j (inr (inr h)) f a b = absurd (omega arith)
from_next v i n r used (none_free all e) = none_free (λ j a b. at j (omega arith) a b) e
  where
    at : (j : ℕ) → (j ≡ i) ⊎ (i + 1 ≤ j) ⊎ (j < i) → i ≤ j → j < i + suc n → entry v j ≢ 0
    at j (inl e) a b = rw e used
    at j (inr (inl h)) a b = all j h (omega arith)
    at j (inr (inr h)) a b = absurd (omega arith)

free_cluster_loop-step :
    (n i : ℕ) (v : Volume) (e : ℕ)
    → fat16_get_fat_entry i v ≡ done (e, v)
    → free_cluster_loop (suc n) i v
      ≡ (if e == 0 then done (i, v) else free_cluster_loop n (i + 1) v)
unfolding free_cluster_loop
free_cluster_loop-step n i v e h = ground (arith, h)

free_cluster_loop-Search :
    (n i : ℕ) (v : Volume)
    → IsVolume v
    → i + n ≤ table_size v
    → Search v i n (free_cluster_loop n i v)
free_cluster_loop-Search zero i v is h =
    none_free (λ j a b. absurd (omega arith)) (unfold free_cluster_loop in refl)
free_cluster_loop-Search (suc n) i v is h =
    let rest = free_cluster_loop-Search n (i + 1) v is (omega arith) in
    rw (free_cluster_loop-step n i v (entry v i) (get_fat_entry_lem v i is (omega arith)))
      (elim (Bool-cases (entry v i == 0)) [
        | inl z ↦ rw z (
            found i (omega arith) (omega arith) ((==_iff (entry v i) 0).0 z)
              (λ j a b. absurd (omega arith)) refl)
        | inr u ↦ rw u (from_next v i n (free_cluster_loop n (i + 1) v) (ground arith) rest)
      ])

-- A volume whose table has an entry for each of its clusters, and whose clusters are numbered by
-- 16 bits.
pub record IsFat (v : Volume) : Type 0 where
  pub volume : IsVolume v
  pub clusters : 0 < v.header.sectors_per_cluster
  pub covers : count_of_clusters v + 2 ≤ table_size v
  pub words : table_size v ≤ 2 ^ 16

-- The search gives the first free cluster of the volume, or the error.
pub find_free_cluster_lem :
    (v : Volume) → IsFat v → Search v 2 (count_of_clusters v) (fat16_find_free_cluster v)
unfolding fat16_find_free_cluster
find_free_cluster_lem v is =
    let ne : (v.header.sectors_per_cluster == 0) ≡ false = ground (arith, is.clusters) in
    rw ne (free_cluster_loop-Search (count_of_clusters v) 2 v is.volume (omega (arith, is.covers)))

pub Stored-IsFat : {v v' : Volume} {c x : ℕ} → IsFat v → Stored v c x v' → IsFat v'
unfolding count_of_clusters
Stored-IsFat {v} {v'} is s = rw s.same (record {
  volume = record { sectors = s.sectors; low = is.volume.low };
  clusters = is.clusters;
  covers = is.covers;
  words = is.words;
})

pub Stored-table_size : {v v' : Volume} {c x : ℕ} → Stored v c x v' → table_size v' ≡ table_size v
Stored-table_size s = ap table_size s.same

-- What an allocation behind cluster `prev` does.
pub data Allocated (v : Volume) (prev : ℕ) (r : Run (ℕ × Volume)) : Type 0 where
  -- the first free cluster now ends a chain, and the entry of `prev`, if that is a cluster, is its
  -- number; all other entries are as they were
  allocated :
      (c : ℕ) (v' : Volume)
      → 2 ≤ c
      → c < count_of_clusters v + 2
      → entry v c ≡ 0
      → ((j : ℕ) → 2 ≤ j → j < c → entry v j ≢ 0)
      → r ≡ done (c, v')
      → IsFat v'
      → v' ≡ record v { drive = v'.drive }
      → ((k : ℕ)
          → k < table_size v
          → entry v' k
            ≡ (if is_cluster prev && k == prev then c else if k == c then fat16_eoc else entry v k))
      → Allocated v prev r
  no_space :
      ((j : ℕ) → 2 ≤ j → j < count_of_clusters v + 2 → entry v j ≢ 0)
      → r ≡ done (minus enomem, v)
      → Allocated v prev r

module _ (v v1 : Volume) (prev c : ℕ) (lt : c < 2 ^ 16) where
  alloc-linked :
      (v2 : Volume)
      → fat16_find_free_cluster v ≡ done (c, v)
      → fat16_set_fat_entry c fat16_eoc v ≡ done (0, v1)
      → fat16_set_fat_entry prev c v1 ≡ done (0, v2)
      → is_cluster prev ≡ true
      → fat16_alloc_cluster prev v ≡ done (c, v2)
  unfolding fat16_alloc_cluster
  alloc-linked v2 e e1 e2 link =
      let word : c % 2 ^ 16 ≡ c = omega arith in
      let small : is_negative c ≡ false = ground arith in
      ground (arith, e, e1, e2, word, small, link)

  alloc-alone :
      fat16_find_free_cluster v ≡ done (c, v)
      → fat16_set_fat_entry c fat16_eoc v ≡ done (0, v1)
      → is_cluster prev ≡ false
      → fat16_alloc_cluster prev v ≡ done (c, v1)
  unfolding fat16_alloc_cluster
  alloc-alone e e1 alone =
      let small : is_negative c ≡ false = ground arith in ground (arith, e, e1, small, alone)

alloc-full :
    (v : Volume) (prev : ℕ)
    → fat16_find_free_cluster v ≡ done (minus enomem, v)
    → fat16_alloc_cluster prev v ≡ done (minus enomem, v)
unfolding fat16_alloc_cluster
alloc-full v prev e = ground (arith, e)

-- `fat16_alloc_cluster` allocates the first free cluster of the volume, or changes nothing and
-- fails if there is none.
pub alloc_cluster_lem :
    (v : Volume) (prev : ℕ)
    → IsFat v
    → (is_cluster prev ≡ true → prev < table_size v)
    → Allocated v prev (fat16_alloc_cluster prev v)
alloc_cluster_lem v prev is inside = elim (find_free_cluster_lem v is) [
  | none_free all e ↦ no_space (λ j a b. all j a (omega arith)) (alloc-full v prev e)
  | found c lo hi z before e ↦
      let in_table : c < table_size v = omega (arith, is.covers) in
      let lt : c < 2 ^ 16 = omega (arith, is.words) in
      let (v1, e1, s1) = set_fat_entry_lem v c fat16_eoc is.volume in_table (omega arith) in
      let is1 = Stored-IsFat is s1 in
      elim (Bool-cases (is_cluster prev)) [
        | inl link ↦
            let size = Stored-table_size s1 in
            let (v2, e2, s2) =
              set_fat_entry_lem v1 prev c is1.volume (omega (arith, size, inside link)) lt in
            allocated c v2 lo (omega arith) z before (alloc-linked v v1 prev c lt v2 e e1 e2 link)
              (Stored-IsFat is1 s2)
              (s2.same ∙ ap (λ (w : Volume). record w { drive = v2.drive }) s1.same)
              (λ k h. ground (arith, link, s1.first k, s2.first k, size))
        | inr alone ↦
            allocated c v1 lo (omega arith) z before (alloc-alone v v1 prev c lt e e1 alone) is1
              s1.same (λ k h. ground (arith, alone, s1.first k))
      ]
]
