-- ===== src/Fs/Fat16/Contents/Delete.antt =====
-- fat16.c: what `fat16_delete` does to the table and to the root directory.
use os_kernel_application_si.Base.{
  ℕ, suc, ◌+◌, ◌-◌, ◌*◌, ◌^◌, ◌≤◌, ◌<◌, ◌≡◌, refl, ap, sym, ◌∙◌, Bool-cases, inl, inr, false, some,
  List, ◌∷◌, leb, if◌then◌else◌, arith, length, get_elem?, set, get_elem?-set_self, get_or, Run,
  done, length-set,
}
use os_kernel_application_si.Disk.{Drive}
use os_kernel_application_si.Disk.Sectors.{IsDrive, byte_at}
use os_kernel_application_si.Disk.Streamer.{diskstreamer_seek}
use os_kernel_application_si.Disk.Streamer.Write.{Written, overwritten, diskstreamer_write_lem}
use os_kernel_application_si.Fs.Fat16.{
  DirectoryItem, Volume, pure, is_negative, write_at, fat16_get_first_cluster,
}
use os_kernel_application_si.Fs.Fat16.Table.{fat16_free_cluster_chain}
use os_kernel_application_si.Fs.Fat16.Table.Entry.{IsVolume, table_size, entry}
use os_kernel_application_si.Fs.Fat16.Table.Chain.{
  mem, Chain, ended, linked, Cleared, free_cluster_chain_lem,
}
use os_kernel_application_si.Fs.Fat16.RootDirectory.{
  item_bytes, get_item, put_item, fat16_find_root_dir_slot_by_name, fat16_write_root_dir_entry,
}
use os_kernel_application_si.Fs.Fat16.RootDirectory.Entries.{IsItem, length-item_bytes}
use os_kernel_application_si.Fs.Fat16.Contents.{deleted_item, delete_slot, fat16_delete}

-- A write of any bytes in the first 2 GiB.
pub write_at_lem :
    (v : Volume) (p : ℕ) (bytes : List ℕ) (n : ℕ)
    → IsDrive v.drive
    → p + n < 2 ^ 31
    → length bytes ≡ n
    → (d : Drive) × (write_at p bytes n v ≡ done (0, record v { drive = d }))
      × Written v.drive p bytes n d
unfolding write_at diskstreamer_seek
write_at_lem v p bytes n is small len =
    let (d, e, w) =
      diskstreamer_write_lem (suc n) v.drive p bytes n is small (omega (arith, len))
        (omega arith) in
    (d, rw e, w)

-- A write behind the first table keeps its entries.
entry-Written :
    (v : Volume) (d : Drive) (p n k : ℕ) (bytes : List ℕ)
    → Written v.drive p bytes n d
    → (v.header.reserved_sectors + v.header.sectors_per_fat) * 512 ≤ p
    → k < table_size v
    → entry (record v { drive = d }) k ≡ entry v k
unfolding entry
entry-Written v d p n k bytes w behind lt =
    let a = v.header.reserved_sectors * 512 + k * 2 in ground (arith, w.bytes a, w.bytes (a + 1))

Chain-none :
    (v : Volume) (c : ℕ) (cs : List ℕ)
    → IsVolume v
    → leb 2 c ≡ false
    → Chain v c cs
    → Cleared v cs v
Chain-none v c cs is small (ended e) = record { volume = is; same = refl; entries = λ k h. refl }
Chain-none v c cs is small (linked goes inside new tail) = absurd (ground arith)

-- The clusters of a chain are freed, also where it has none.
freed :
    (v : Volume) (c : ℕ) (cs : List ℕ)
    → IsVolume v
    → Chain v c cs
    → (v' : Volume) × ((if leb 2 c then fat16_free_cluster_chain c else pure 0) v ≡ done (0, v'))
      × Cleared v cs v'
freed v c cs is chain = elim (Bool-cases (leb 2 c)) [
  | inl big ↦ rw big (free_cluster_chain_lem v c cs is chain)
  | inr small ↦ rw small (v, refl, Chain-none v c cs is small chain)
]

-- `v'` is `v` after the file of a slot was deleted: the clusters of its chain are free, and its entry
-- is marked in memory and on the disk.
pub record Deleted (v : Volume) (slot : ℕ) (item : DirectoryItem) (cs : List ℕ) (v' : Volume)
    : Type 0 where
  pub entries : (k : ℕ) → k < table_size v → entry v' k ≡ (if mem k cs then 0 else entry v k)
  pub items : v'.root_directory.item ≡ set v.root_directory.item slot (deleted_item item)
  pub stored :
      (j : ℕ)
      → j < 32
      → byte_at v'.drive (v.root_directory.sector_pos * 512 + slot * 32 + j)
        ≡ get_or (item_bytes (deleted_item item)) j 0

module _ (v : Volume) (slot : ℕ) (item : DirectoryItem) (d d' : Drive)
    (here : get_elem? v.root_directory.item slot ≡ some item)
    (inside : slot < length v.root_directory.item) where
  abbrev emptied : Volume
  emptied = record v {
    drive = d;
    root_directory = record (v.root_directory) {
      item = set v.root_directory.item slot (deleted_item item);
    };
  }

  delete_run :
      (if leb 2 (fat16_get_first_cluster item)
            then fat16_free_cluster_chain (fat16_get_first_cluster item)
            else pure 0)
          v
        ≡ done (0, record v { drive = d })
      → write_at
          (v.root_directory.sector_pos * 512 + slot * 32)
          (item_bytes (deleted_item item))
          32
          emptied
        ≡ done (0, record emptied { drive = d' })
      → delete_slot slot v ≡ done (0, record emptied { drive = d' })
  unfolding delete_slot get_item put_item fat16_write_root_dir_entry
  delete_run e w =
      let new = get_elem?-set_self v.root_directory.item slot (deleted_item item) inside in
      ground (arith, here, e, w, new)

deleted_item-IsItem : (item : DirectoryItem) → IsItem item → IsItem (deleted_item item)
deleted_item-IsItem item is = record {
  filename = length-set item.filename 0 0xE5 ∙ is.filename;
  ext = is.ext;
}

pub overwritten-hit :
    (d : Drive) (p j n : ℕ) (src : List ℕ) → j < n → overwritten d p src n (p + j) ≡ get_or src j 0
overwritten-hit d p j n src lt = let e : p + j - p ≡ j = omega arith in ground (arith, e)

module _ (v : Volume) (slot : ℕ) (item : DirectoryItem) (cs : List ℕ) (is : IsVolume v)
    (is_item : IsItem item) (here : get_elem? v.root_directory.item slot ≡ some item)
    (inside : slot < length v.root_directory.item)
    (behind : v.header.reserved_sectors + 2 * v.header.sectors_per_fat
      ≤ v.root_directory.sector_pos)
    (small : v.root_directory.sector_pos * 512 + slot * 32 + 32 < 2 ^ 31)
    (chain : Chain v (fat16_get_first_cluster item) cs) where
  delete_slot-Deleted :
      (v' : Volume) × (delete_slot slot v ≡ done (0, v')) × Deleted v slot item cs v'
  unfolding entry
  delete_slot-Deleted =
      let (v1, run, cl) = freed v (fat16_get_first_cluster item) cs is chain in
      let p = v.root_directory.sector_pos * 512 + slot * 32 in
      let bytes = item_bytes (deleted_item item) in
      let len = length-item_bytes (deleted_item item) (deleted_item-IsItem item is_item) in
      let gone = emptied v slot item v1.drive v1.drive here inside in
      let (d', e, w) = write_at_lem gone p bytes 32 cl.volume.sectors small len in
      let kept : (k : ℕ) → k < table_size v → entry (record gone { drive = d' }) k ≡ entry v1 k =
        λ k lt.
          entry-Written gone d' p 32 k bytes w (omega arith) lt
          ∙ sym (ap (λ (u : Volume). entry u k) cl.same) in
      (
        record gone { drive = d' },
        delete_run v slot item v1.drive d' here inside
            (run ∙ ap (λ (u : Volume). done (0, u)) cl.same) e,
        record {
          entries = λ k lt. kept k lt ∙ cl.entries k lt;
          items = refl;
          stored = λ j lt. w.bytes (p + j) ∙ overwritten-hit v1.drive p j 32 bytes lt;
        },
      )

delete-found :
    (v : Volume) (part : List ℕ) (parts : List (List ℕ)) (slot : ℕ) (r : Run (ℕ × Volume))
    → fat16_find_root_dir_slot_by_name part v ≡ done (slot, v)
    → is_negative slot ≡ false
    → delete_slot slot v ≡ r
    → fat16_delete (part ∷ parts) v ≡ r
unfolding fat16_delete
delete-found v part parts slot r e found run = ground (arith, e, found, run)

-- `fat16_delete` of a name that the search finds in a slot, on a volume whose root directory stands
-- behind its tables: it returns 0; the clusters of the file's chain are free and no other entry of
-- the table changes; the entry of the slot, and no other, is marked as deleted, in memory and in its
-- 32 bytes on the disk.
pub delete_lem :
    (v : Volume) (part : List ℕ) (parts : List (List ℕ)) (slot : ℕ) (item : DirectoryItem)
    (cs : List ℕ)
    → IsVolume v
    → IsItem item
    → get_elem? v.root_directory.item slot ≡ some item
    → slot < length v.root_directory.item
    → v.header.reserved_sectors + 2 * v.header.sectors_per_fat ≤ v.root_directory.sector_pos
    → v.root_directory.sector_pos * 512 + slot * 32 + 32 < 2 ^ 31
    → Chain v (fat16_get_first_cluster item) cs
    → fat16_find_root_dir_slot_by_name part v ≡ done (slot, v)
    → is_negative slot ≡ false
    → (v' : Volume) × (fat16_delete (part ∷ parts) v ≡ done (0, v')) × Deleted v slot item cs v'
delete_lem v part parts slot item cs is is_item here inside behind small chain e found =
    let (v', run, del) =
      delete_slot-Deleted v slot item cs is is_item here inside behind small chain in
    (v', delete-found v part parts slot (done (0, v')) e found run, del)
