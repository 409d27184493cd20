-- ===== src/Fs/Fat16/Files.antt =====
-- fat16.c: the operations on open files.
pub mod Create
use os_kernel_application_si.Base.{
  ℕ, zero, suc, ◌+◌, ◌-◌, ◌*◌, ◌%◌, ◌^◌, false, ◌||◌, not, Option, none, some, List, [], ◌∷◌, ◌++◌,
  ltb, leb, ◌==◌, if◌then◌else◌, replicate, done, fault, out_of_fuel, and_then, map_run, bit_and,
}
use os_kernel_application_si.Status.{eio, enomem, einvarg}
use os_kernel_application_si.Disk.{sector_size}
use os_kernel_application_si.Strings.{istrncmp}
use os_kernel_application_si.Fs.PathParser.{max_path, is_zero}
use os_kernel_application_si.Fs.Fat16.{
  DirectoryItem, Directory, M, pure, ◌>>=◌, ◌>>◌, minus, is_negative, kzalloc, read_at,
  fat16_get_first_cluster, fat16_cluster_to_sector, cluster_bytes,
}
use os_kernel_application_si.Fs.Fat16.Table.{fat16_get_cluster_for_offset, fat16_free_cluster_chain}
use os_kernel_application_si.Fs.Fat16.Names.{fat16_get_full_relative_filename, fat16_name_to_83}
use os_kernel_application_si.Fs.Fat16.RootDirectory.{
  get_item, put_item, fat16_find_root_dir_slot_by_name, fat16_find_free_root_dir_slot,
  fat16_write_root_dir_entry, fat16_get_total_items_for_directory,
}

-- `struct fat_item`: a file holds the copy of its entry, `none` for a null pointer.
pub data FatItem : Type 0 where
  directory_item : Directory → FatItem
  file_item : Option DirectoryItem → FatItem

-- `struct fat_file_descriptor`; the slot is an `int`.
pub record FileDescriptor : Type 0 where
  pub item : FatItem
  pub pos : ℕ
  pub root_dir_slot : ℕ

-- What `fat16_open` returns: a descriptor, or the pattern of the error in `ERROR(...)`.
pub data Opened : Type 0 where
  opened : FileDescriptor → Opened
  error : ℕ → Opened

pub data FileMode : Type 0 where
  file_mode_read : FileMode
  file_mode_write : FileMode
  file_mode_append : FileMode
  file_mode_invalid : FileMode

pub data SeekMode : Type 0 where
  seek_set : SeekMode
  seek_cur : SeekMode
  seek_end : SeekMode
  seek_other : SeekMode

pub record FileStat : Type 0 where
  pub flags : ℕ
  pub filesize : ℕ

-- FAT_FILE_SUBDIRECTORY
abbrev pub file_subdirectory : ℕ
file_subdirectory = 0x10

-- The status and the bytes.
unfoldable pub fat16_read_internal : ℕ → ℕ → ℕ → ℕ → M (ℕ × List ℕ)
fat16_read_internal zero cluster offset total v = out_of_fuel
fat16_read_internal (suc fuel) cluster offset total v =
    and_then (fat16_get_cluster_for_offset cluster offset v) λ found.
      let bytes = cluster_bytes v in
      let starting_sector = fat16_cluster_to_sector v found.0 in
      let starting_pos = (starting_sector * sector_size + offset % bytes) % 2 ^ 32 in
      let total_to_read = if ltb bytes total then bytes else total in
      if is_negative found.0
      then done ((found.0, []), v)
      else and_then (read_at starting_pos total_to_read v) (λ got.
        let rest =
          fat16_read_internal fuel cluster (offset + total_to_read) (total - total_to_read) v in
        if not (got.0.0 == 0)
        then done (got.0, v)
        else if ltb total_to_read total
        then map_run (λ more. ((more.0.0, got.0.1 ++ more.0.1), more.1)) rest
        else done ((0, got.0.1), v))

-- The copy, or `none`; the size is the entry's.
unfoldable pub fat16_clone_directory_item : DirectoryItem → M (Option DirectoryItem)
fat16_clone_directory_item item = do
  item_copy ← kzalloc
  pure (if item_copy then some item else none)

-- The status. The only caller overwrites the pointer to the directory. The count of the entries is
-- not negative, since no read of the disk returns an error.
unfoldable pub fat16_load_fat_directory : ℕ → DirectoryItem → M ℕ
fat16_load_fat_directory fuel item v =
    let cluster = fat16_get_first_cluster item in
    let load = (do
      total ← fat16_get_total_items_for_directory fuel (fat16_cluster_to_sector v cluster)
      dir_item ← kzalloc
      let read =
          fat16_read_internal fuel cluster 0x00 (total * 32) >>= λ (got : ℕ × List ℕ). pure got.0
      if dir_item then read else pure (minus enomem)) in
    if bit_and item.attribute file_subdirectory == 0
    then done (minus einvarg, v)
    else ((do directory ← kzalloc; if directory then load else pure (minus enomem)) v)

-- `none` is a null pointer. The type is a file's, also where the entry is a directory's.
unfoldable pub fat16_new_fat_item_for_directory_item : ℕ → DirectoryItem → M (Option FatItem)
fat16_new_fat_item_for_directory_item fuel item = do
  f_item ← kzalloc
  let is_dir = not (bit_and item.attribute file_subdirectory == 0)
  let make = (do
    res ← (if is_dir then fat16_load_fat_directory fuel item else pure 0)
    copy ← fat16_clone_directory_item item
    pure (some (file_item copy)))
  if f_item then make else pure none

-- `n` entries are left; the last one of the name counts.
unfoldable pub find_item_loop :
    ℕ → ℕ → List DirectoryItem → List ℕ → Option FatItem → M (Option FatItem)
find_item_loop fuel zero items name f_item = pure f_item
find_item_loop fuel (suc n) [] name f_item = λ v. fault
find_item_loop fuel (suc n) (entry ∷ items) name f_item = λ v.
    and_then (fat16_get_full_relative_filename entry (replicate max_path 0) max_path) λ tmp.
      and_then (istrncmp tmp name max_path) λ r.
        if is_zero r
        then (fat16_new_fat_item_for_directory_item fuel entry >>= λ (found : Option FatItem).
              find_item_loop fuel n items name found)
            v
        else find_item_loop fuel n items name f_item v

-- `total` is an `int`.
unfoldable pub fat16_find_item_in_directory : ℕ → Directory → List ℕ → M (Option FatItem)
fat16_find_item_in_directory fuel directory name =
    find_item_loop fuel (if is_negative directory.total then 0 else directory.total) directory.item
      name none

-- The parts of the path behind the item that was found.
unfoldable pub next_parts : ℕ → List (List ℕ) → Option FatItem → M (Option FatItem)
next_parts fuel [] current_item = pure current_item
next_parts fuel (part ∷ parts) none = λ v. fault
next_parts fuel (part ∷ parts) (some (file_item item)) = pure none
next_parts fuel (part ∷ parts) (some (directory_item directory)) = do
  tmp_item ← fat16_find_item_in_directory fuel directory part
  next_parts fuel parts tmp_item

unfoldable pub fat16_get_directory_entry : ℕ → List (List ℕ) → M (Option FatItem)
fat16_get_directory_entry fuel [] = λ v. fault
fat16_get_directory_entry fuel (part ∷ parts) = λ v.
    (fat16_find_item_in_directory fuel v.root_directory part >>= λ (found : Option FatItem).
    elim found [ none ↦ pure none | some current_item ↦ next_parts fuel parts (some current_item) ])
      v

-- The item of a new descriptor and the descriptor itself are allocated first.
abbrev pub new_descriptor : Option FatItem → ℕ → Opened
new_descriptor none slot = error (minus eio)
new_descriptor (some item) slot = opened (record { item = item; pos = 0; root_dir_slot = slot })

unfoldable pub open_read : ℕ → List (List ℕ) → M Opened
open_read fuel path = do
  descriptor ← kzalloc
  let rest = fat16_get_directory_entry fuel path >>= λ (item : Option FatItem).
      pure (new_descriptor item (minus 1))
  if descriptor then rest else pure (error (minus enomem))

-- The file of a slot loses its clusters and its size.
unfoldable pub truncate : ℕ → M ℕ
truncate slot = do
  existing ← get_item slot
  let first_cluster = fat16_get_first_cluster existing
  freed ← (if leb 2 first_cluster then fat16_free_cluster_chain first_cluster else pure 0)
  put_item slot (record existing {
    filesize = 0;
    low_16_bits_first_cluster = 0;
    high_16_bits_first_cluster = 0;
  })
  fat16_write_root_dir_entry slot

-- FAT_FILE_ARCHIVED
abbrev pub file_archived : ℕ
file_archived = 0x20

abbrev pub new_entry : List ℕ × List ℕ → DirectoryItem
new_entry fields = record {
  filename = fields.0;
  ext = fields.1;
  attribute = file_archived;
  reserved = 0;
  creation_time_tenths_of_a_sec = 0;
  creation_time = 0;
  creation_date = 0;
  last_access = 0;
  high_16_bits_first_cluster = 0;
  last_mod_time = 0;
  last_mod_date = 0;
  low_16_bits_first_cluster = 0;
  filesize = 0;
}

-- `if (slot >= total) total = slot + 1;`, where both are `int`s
unfoldable pub extend_total : ℕ → M ℕ
extend_total slot v =
    let root = v.root_directory in
    if is_negative root.total || leb root.total slot
    then done (0, record v { root_directory = record root { total = slot + 1 } })
    else done (0, v)

unfoldable pub create : ℕ → List ℕ → M ℕ
create slot name v = and_then (fat16_name_to_83 name) λ fields.
    (do put_item slot (new_entry fields); fat16_write_root_dir_entry slot; extend_total slot) v

-- The descriptor of a slot: three allocations.
unfoldable pub descriptor_of_slot : ℕ → M Opened
descriptor_of_slot slot = do
  descriptor ← kzalloc
  item ← (if descriptor then kzalloc else pure false)
  entry ← get_item slot
  copy ← (if item then fat16_clone_directory_item entry else pure none)
  pure (elim copy [
    | none ↦ error (minus enomem)
    | some c ↦ opened (record { item = file_item (some c); pos = 0; root_dir_slot = slot })
  ])

unfoldable pub open_write : List ℕ → M Opened
open_write name = do
  slot ← fat16_find_root_dir_slot_by_name name
  free_slot ← (if is_negative slot then fat16_find_free_root_dir_slot else pure slot)
  changed ←
      (if not (is_negative slot)
        then truncate slot
        else if is_negative free_slot
        then pure 0
        else create free_slot name)
  let rest = descriptor_of_slot free_slot
  if is_negative free_slot then pure (error (minus enomem)) else rest

unfoldable pub fat16_open : ℕ → List (List ℕ) → FileMode → M Opened
fat16_open fuel path file_mode_read = open_read fuel path
fat16_open fuel [] file_mode_write = λ v. fault
fat16_open fuel (part ∷ parts) file_mode_write = open_write part
fat16_open fuel path file_mode_append = pure (error (minus einvarg))
fat16_open fuel path file_mode_invalid = pure (error (minus einvarg))
