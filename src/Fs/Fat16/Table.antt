-- ===== src/Fs/Fat16/Table.antt =====
-- fat16.c: the file allocation table.
pub mod Entry
pub mod Alloc
pub mod Chain
use os_kernel_application_si.Base.{
  ℕ, zero, suc, ◌+◌, ◌-◌, ◌*◌, ◌/◌, ◌%◌, ◌^◌, Bool, true, false, ◌||◌, ◌&&◌, List, [], ◌∷◌, ◌++◌,
  ltb, leb, ◌==◌, if◌then◌else◌, length, get_or, Run, done, fault, out_of_fuel, and_then, map_run,
}
use os_kernel_application_si.Status.{eio, enomem}
use os_kernel_application_si.Disk.{sector_size}
use os_kernel_application_si.Fs.Fat16.{
  Header, Volume, M, pure, ◌>>=◌, ◌>>◌, minus, is_negative, checked, read_at, write_at, u16_at,
  u16_bytes, fat16_get_first_fat_sector, cluster_bytes,
}

abbrev pub fat16_eoc : ℕ
fat16_eoc = 0xFFFF

abbrev pub fat16_eoc_min : ℕ
fat16_eoc_min = 0xFFF8

-- PEACHOS_FAT16_BAD_SECTOR
abbrev pub bad_sector : ℕ
bad_sector = 0xFF7

-- `uint32_t` positions of an entry in the first table and in the second.
abbrev pub entry_position : Volume → ℕ → ℕ
entry_position v cluster = (fat16_get_first_fat_sector v * sector_size + cluster * 2) % 2 ^ 32

abbrev pub second_position : Volume → ℕ → ℕ
second_position v cluster =
    (entry_position v cluster + v.header.sectors_per_fat * sector_size) % 2 ^ 32

unfoldable pub fat16_get_fat_entry : ℕ → M ℕ
fat16_get_fat_entry cluster v = and_then (read_at (entry_position v cluster) 2 v) λ got.
    let res = got.0.0 in if is_negative res then done (res, v) else done (u16_at got.0.1 0, v)

unfoldable pub fat16_set_fat_entry : ℕ → ℕ → M ℕ
fat16_set_fat_entry cluster value v =
    checked (write_at (entry_position v cluster) (u16_bytes value) 2)
      (λ res. write_at (second_position v cluster) (u16_bytes value) 2) v

-- `n` rounds are left of the walk from one cluster to the next.
unfoldable pub cluster_walk : ℕ → ℕ → M ℕ
cluster_walk zero cluster = pure cluster
cluster_walk (suc n) cluster = do
  entry ← fat16_get_fat_entry cluster
  let rest = cluster_walk n entry
  if entry == 0xFF8 || entry == 0xFFF
      then pure (minus eio)
      else if entry == bad_sector || entry == 0xFF0 || entry == 0xFF6 || entry == 0
      then pure (minus eio)
      else rest

-- A volume without sectors in a cluster makes the division fault.
unfoldable pub fat16_get_cluster_for_offset : ℕ → ℕ → M ℕ
fat16_get_cluster_for_offset starting_cluster offset v =
    if cluster_bytes v == 0
    then fault
    else cluster_walk (offset / cluster_bytes v) starting_cluster v

-- Clusters of the volume; none where the difference is negative.
unfoldable pub count_of_clusters : Volume → ℕ
count_of_clusters v =
    let total_sectors =
      if v.header.number_of_sectors == 0
      then (if ltb v.header.sectors_big (2 ^ 31) then v.header.sectors_big else 0)
      else v.header.number_of_sectors in
    (total_sectors - v.root_directory.ending_sector_pos) / v.header.sectors_per_cluster

-- `n` rounds are left, from cluster `i` on.
unfoldable pub free_cluster_loop : ℕ → ℕ → M ℕ
free_cluster_loop zero i = pure (minus enomem)
free_cluster_loop (suc n) i = do
  entry ← fat16_get_fat_entry i
  let rest = free_cluster_loop n (i + 1)
  if entry == 0 then pure i else rest

unfoldable pub fat16_find_free_cluster : M ℕ
fat16_find_free_cluster v =
    if v.header.sectors_per_cluster == 0 then fault else free_cluster_loop (count_of_clusters v) 2 v

-- `prev_cluster >= 2`, as an `int`
abbrev pub is_cluster : ℕ → Bool
is_cluster prev = leb 2 prev && ltb prev (2 ^ 31)

unfoldable pub fat16_alloc_cluster : ℕ → M ℕ
fat16_alloc_cluster prev_cluster = checked fat16_find_free_cluster λ cluster.
    checked (fat16_set_fat_entry cluster fat16_eoc) λ _.
      if is_cluster prev_cluster
      then checked (fat16_set_fat_entry prev_cluster (cluster % 2 ^ 16)) (λ _. pure cluster)
      else pure cluster

-- `cluster < 2 || cluster >= FAT16_EOC_MIN`: a negative `int` has a pattern above both.
abbrev pub ends_chain : ℕ → Bool
ends_chain cluster = ltb cluster 2 || leb fat16_eoc_min cluster

unfoldable pub free_chain_loop : ℕ → ℕ → M ℕ
free_chain_loop zero cluster v = out_of_fuel
free_chain_loop (suc fuel) cluster v =
    let round = (do
      next ← fat16_get_fat_entry cluster
      fat16_set_fat_entry cluster 0x0000
      let rest = free_chain_loop fuel next
      if ends_chain next then pure 0 else rest) in
    if ends_chain cluster then done (0, v) else round v

-- Each round but the last clears an entry below 0xFFF8 that was in use.
unfoldable pub fat16_free_cluster_chain : ℕ → M ℕ
fat16_free_cluster_chain first_cluster = free_chain_loop 65536 first_cluster
