-- ===== src/Tests/Table.antt =====
-- The file allocation table of a small volume: clusters 2 and 3 are a chain, 4 to 11 are free.
use os_kernel_application_si.Base.{
  ℕ, ◌≡◌, refl, arith, List, [], ◌∷◌, length-replicate, replicate, done, ◌==◌, if◌then◌else◌,
}
use os_kernel_application_si.Disk.Sectors.{IsDrive}
use os_kernel_application_si.Fs.Fat16.{Volume}
use os_kernel_application_si.Fs.Fat16.Table.{
  count_of_clusters, fat16_alloc_cluster, fat16_free_cluster_chain,
}
use os_kernel_application_si.Fs.Fat16.Table.Entry.{IsVolume, entry}
use os_kernel_application_si.Fs.Fat16.Table.Alloc.{IsFat, Allocated, alloc_cluster_lem}
use os_kernel_application_si.Fs.Fat16.Table.Chain.{
  Chain, ended, linked, Cleared, free_cluster_chain_lem,
}

abbrev pub table_bytes : List ℕ
table_bytes = 0 ∷ 0 ∷ 0 ∷ 0 ∷ 3 ∷ 0 ∷ 0xFF ∷ 0xFF ∷ replicate 504 0

-- The first table is sector 1, the second sector 2, and the data begins with sector 4.
abbrev pub small : Volume
small = record {
  header = record {
    sectors_per_cluster = 1;
    reserved_sectors = 1;
    fat_copies = 2;
    root_dir_entries = 16;
    number_of_sectors = 14;
    sectors_per_fat = 1;
    sectors_big = 0;
  };
  root_directory = record { item = []; total = 0; sector_pos = 3; ending_sector_pos = 4 };
  drive = λ lba. if lba == 1 then table_bytes else replicate 512 0;
  room = 5;
}

pub small-IsDrive : IsDrive small.drive
small-IsDrive lba = ground (arith, length-replicate {A = ℕ} 512 0, length-replicate {A = ℕ} 504 0)

small-IsVolume : IsVolume small
small-IsVolume = record { sectors = small-IsDrive; low = omega arith }

small-IsFat : IsFat small
small-IsFat = record {
  volume = small-IsVolume;
  clusters = omega arith;
  covers = (unfold count_of_clusters in omega arith);
  words = omega arith;
}

small-Chain : Chain small 2 (2 ∷ 3 ∷ [])
unfolding entry
small-Chain = linked refl (omega arith) refl (linked refl (omega arith) refl (ended refl))

free_cluster_chain_lem_example :
    (v' : Volume) × (fat16_free_cluster_chain 2 small ≡ done (0, v'))
    × Cleared small (2 ∷ 3 ∷ []) v'
free_cluster_chain_lem_example =
    free_cluster_chain_lem small 2 (2 ∷ 3 ∷ []) small-IsVolume small-Chain

alloc_cluster_lem_example : Allocated small 3 (fat16_alloc_cluster 3 small)
alloc_cluster_lem_example = alloc_cluster_lem small 3 small-IsFat (λ e. omega arith)
