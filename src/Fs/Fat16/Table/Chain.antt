-- ===== src/Fs/Fat16/Table/Chain.antt =====
-- fat16.c: `fat16_free_cluster_chain` on the chains of the table.
use os_kernel_application_si.Base.{
  ℕ, zero, suc, ◌+◌, ◌≤◌, ◌<◌, ◌≡◌, refl, ap, sym, ◌∙◌, true, false, Bool, Bool-cases, inl, inr,
  List, [], ◌∷◌, ◌||◌, ◌==◌, if◌then◌else◌, arith, done, length, ==_iff,
}
use os_kernel_application_si.Fs.Fat16.{Volume}
use os_kernel_application_si.Fs.Fat16.Table.{
  fat16_eoc_min, fat16_get_fat_entry, fat16_set_fat_entry, ends_chain, free_chain_loop,
  fat16_free_cluster_chain,
}
use os_kernel_application_si.Fs.Fat16.Table.Entry.{
  IsVolume, table_size, entry, Stored, get_fat_entry_lem, set_fat_entry_lem,
}
use os_kernel_application_si.Fs.Fat16.Table.Alloc.{Stored-table_size}

abbrev pub mem : ℕ → List ℕ → Bool
mem k [] = false
mem k (c ∷ cs) = k == c || mem k cs

-- The clusters of a chain that begins at `c`: no two of them are the same.
pub data Chain (v : Volume) : ℕ → List ℕ → Type 0 where
  ended : {c : ℕ} → ends_chain c ≡ true → Chain v c []
  linked :
      {c : ℕ} {cs : List ℕ}
      → ends_chain c ≡ false
      → c < table_size v
      → mem c cs ≡ false
      → Chain v (entry v c) cs
      → Chain v c (c ∷ cs)

-- How many numbers below `n` are in a list.
unfoldable members : ℕ → List ℕ → ℕ
members zero cs = 0
members (suc n) cs = (if mem n cs then 1 else 0) + members n cs

members_le : (n : ℕ) (cs : List ℕ) → members n cs ≤ n
unfolding members
members_le zero cs = omega arith
members_le (suc n) cs = ground (arith, members_le n cs)

members-cons_above : (n c : ℕ) (cs : List ℕ) → n ≤ c → members n (c ∷ cs) ≡ members n cs
unfolding members
members-cons_above zero c cs h = refl
members-cons_above (suc n) c cs h = ground (arith, members-cons_above n c cs)

members-cons :
    (n c : ℕ) (cs : List ℕ) → c < n → mem c cs ≡ false → members n (c ∷ cs) ≡ suc (members n cs)
unfolding members
members-cons zero c cs h out = absurd (omega arith)
members-cons (suc n) c cs h out = elim (Bool-cases (n == c)) [
  | inl e ↦
      let same : n ≡ c = (==_iff n c).0 e in
      let away = members-cons_above n c cs (omega arith) in
      let out' : mem n cs ≡ false = rw same out in rw (e, out', away) (omega arith)
  | inr e ↦ rw (e, members-cons n c cs (ground arith) out) (omega arith)
]

members-empty : (n : ℕ) → members n [] ≡ 0
unfolding members
members-empty zero = refl
members-empty (suc n) = omega (arith, members-empty n)

Chain-members :
    (v : Volume) (c : ℕ) (cs : List ℕ) → Chain v c cs → members fat16_eoc_min cs ≡ length cs
Chain-members v c cs (ended e) = members-empty fat16_eoc_min
Chain-members v c cs (linked {cs = rest} goes inside out tail) = omega (
  arith,
  members-cons fat16_eoc_min c rest (ground arith) out,
  Chain-members v (entry v c) rest tail,
)

-- A chain has fewer clusters than there are numbers that do not end one.
pub Chain-length : (v : Volume) (c : ℕ) (cs : List ℕ) → Chain v c cs → length cs ≤ 65528
Chain-length v c cs chain = omega (arith, Chain-members v c cs chain, members_le fat16_eoc_min cs)

-- A chain stays one when a cluster that is not in it is cleared.
Chain-Stored :
    (v v' : Volume) (k c : ℕ) (cs : List ℕ)
    → Stored v k 0 v'
    → mem k cs ≡ false
    → Chain v c cs
    → Chain v' c cs
Chain-Stored v v' k c cs s out (ended e) = ended e
Chain-Stored v v' k c cs s out (linked {cs = rest} goes inside new tail) =
    let kept : entry v' c ≡ entry v c = s.first c inside ∙ ground arith in
    let tail' = Chain-Stored v v' k (entry v c) rest s (ground arith) tail in
    linked goes (omega (arith, Stored-table_size s)) new (rw kept tail')

Stored-IsVolume : {v v' : Volume} {c x : ℕ} → IsVolume v → Stored v c x v' → IsVolume v'
Stored-IsVolume is s = rw s.same (record { sectors = s.sectors; low = is.low })

-- `v'` is `v` with the entries of `cs` cleared.
pub record Cleared (v : Volume) (cs : List ℕ) (v' : Volume) : Type 0 where
  pub volume : IsVolume v'
  pub same : v' ≡ record v { drive = v'.drive }
  pub entries : (k : ℕ) → k < table_size v → entry v' k ≡ (if mem k cs then 0 else entry v k)

free_chain_loop-next :
    (fuel c d : ℕ) (v v' : Volume)
    → ends_chain c ≡ false
    → fat16_get_fat_entry c v ≡ done (d, v)
    → fat16_set_fat_entry c 0x0000 v ≡ done (0, v')
    → free_chain_loop (suc fuel) c v
      ≡ (if ends_chain d then done (0, v') else free_chain_loop fuel d v')
unfolding free_chain_loop
free_chain_loop-next fuel c d v v' goes get set = ground (arith, goes, get, set)

free_chain_loop-end :
    (fuel c : ℕ) (v : Volume) → ends_chain c ≡ true → free_chain_loop (suc fuel) c v ≡ done (0, v)
unfolding free_chain_loop
free_chain_loop-end fuel c v e = ground (arith, e)

-- The test behind a round agrees with the loop's own.
free_chain_loop-break :
    (fuel d : ℕ) (v : Volume)
    → 0 < fuel
    → (if ends_chain d then done (0, v) else free_chain_loop fuel d v) ≡ free_chain_loop fuel d v
free_chain_loop-break zero d v h = absurd (omega arith)
free_chain_loop-break (suc fuel) d v h = elim (Bool-cases (ends_chain d)) [
  | inl e ↦ rw e (sym (free_chain_loop-end fuel d v e))
  | inr e ↦ rw e refl
]

free_chain_loop-Cleared :
    (fuel c : ℕ) (cs : List ℕ) (v : Volume)
    → IsVolume v
    → Chain v c cs
    → length cs < fuel
    → (v' : Volume) × (free_chain_loop fuel c v ≡ done (0, v')) × Cleared v cs v'
free_chain_loop-Cleared zero c cs v is chain h = absurd (omega arith)
free_chain_loop-Cleared (suc fuel) c cs v is (ended e) h =
    (v, free_chain_loop-end fuel c v e, record { volume = is; same = refl; entries = λ k b. refl })
free_chain_loop-Cleared (suc fuel) c cs v is (linked {cs = rest} goes inside new tail) h =
    let (v1, set, s) = set_fat_entry_lem v c 0 is inside (omega arith) in
    let (v2, e, cl) =
      free_chain_loop-Cleared fuel (entry v c) rest v1 (Stored-IsVolume is s)
        (Chain-Stored v v1 c (entry v c) rest s new tail) (omega arith) in
    let step =
      free_chain_loop-next fuel c (entry v c) v v1 goes (get_fat_entry_lem v c is inside) set in
    let size = Stored-table_size s in
    (
      v2,
      step ∙ free_chain_loop-break fuel (entry v c) v1 (omega arith) ∙ e,
      record {
        volume = cl.volume;
        same = cl.same ∙ ap (λ (w : Volume). record w { drive = v2.drive }) s.same;
        entries = λ k b. cl.entries k (omega arith) ∙ ground (arith, s.first k b);
      },
    )

-- A chain of the table is freed: the entries of its clusters become 0, and no others change.
pub free_cluster_chain_lem :
    (v : Volume) (c : ℕ) (cs : List ℕ)
    → IsVolume v
    → Chain v c cs
    → (v' : Volume) × (fat16_free_cluster_chain c v ≡ done (0, v')) × Cleared v cs v'
unfolding fat16_free_cluster_chain
free_cluster_chain_lem v c cs is chain =
    free_chain_loop-Cleared 65536 c cs v is chain (omega (arith, Chain-length v c cs chain))
