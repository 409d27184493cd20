-- ===== src/Fs/Fat16/RootDirectory.antt =====
-- fat16.c: the entries of the root directory, in memory and on the disk, and the mount.
pub mod Entries
pub mod Slots
use os_kernel_application_si.Base.{
  ℕ, zero, suc, ◌+◌, ◌-◌, ◌*◌, ◌/◌, ◌%◌, ◌^◌, Bool, true, false, ◌||◌, ◌&&◌, not, Option, none,
  some, List, [], ◌∷◌, ◌++◌, ltb, leb, ◌==◌, if◌then◌else◌, length, get_or, get_elem?, set, take,
  drop, replicate, Run, done, fault, out_of_fuel, and_then, map_run, bit_and,
}
use os_kernel_application_si.Status.{eio, enomem, efsnotus}
use os_kernel_application_si.Disk.{Drive, sector_size}
use os_kernel_application_si.Strings.{istrncmp}
use os_kernel_application_si.Fs.PathParser.{max_path, is_zero}
use os_kernel_application_si.Fs.Fat16.{
  Header, DirectoryItem, Directory, Volume, M, pure, ◌>>=◌, ◌>>◌, minus, is_negative, kzalloc,
  read_at, write_at, u16_at, u32_at, u16_bytes, u32_bytes, fat16_sector_to_absolute,
}
use os_kernel_application_si.Fs.Fat16.Names.{fat16_get_full_relative_filename}

-- The bytes behind the name and the extension, 21 of them.
abbrev pub item_tail : DirectoryItem → List ℕ
item_tail item =
    item.attribute
    ∷ (item.reserved
        ∷ (item.creation_time_tenths_of_a_sec
            ∷ (u16_bytes item.creation_time
                ++ (u16_bytes item.creation_date
                    ++ (u16_bytes item.last_access
                        ++ (u16_bytes item.high_16_bits_first_cluster
                            ++ (u16_bytes item.last_mod_time
                                ++ (u16_bytes item.last_mod_date
                                    ++ (u16_bytes item.low_16_bits_first_cluster
                                        ++ u32_bytes item.filesize)))))))))

-- The 32 bytes of an entry on the disk: `struct fat_directory_item` is packed, with its fields in
-- their order and the low byte of a number first, and goes to the disk and back as its bytes.
unfoldable pub item_bytes : DirectoryItem → List ℕ
item_bytes item = item.filename ++ (item.ext ++ item_tail item)

-- The entry whose 32 bytes a read puts over the struct
unfoldable pub item_of : List ℕ → DirectoryItem
item_of bytes = record {
  filename = take 8 bytes;
  ext = take 3 (drop 8 bytes);
  attribute = get_or bytes 11 0;
  reserved = get_or bytes 12 0;
  creation_time_tenths_of_a_sec = get_or bytes 13 0;
  creation_time = u16_at bytes 14;
  creation_date = u16_at bytes 16;
  last_access = u16_at bytes 18;
  high_16_bits_first_cluster = u16_at bytes 20;
  last_mod_time = u16_at bytes 22;
  last_mod_date = u16_at bytes 24;
  low_16_bits_first_cluster = u16_at bytes 26;
  filesize = u32_at bytes 28;
}

-- The entries in a sequence of bytes.
unfoldable pub items_of : ℕ → List ℕ → List DirectoryItem
items_of zero bytes = []
items_of (suc n) bytes = item_of bytes ∷ items_of n (drop 32 bytes)

abbrev pub first_byte : DirectoryItem → ℕ
first_byte item = get_or item.filename 0 0x00

-- `private->root_directory.item[slot]`
unfoldable pub get_item : ℕ → M DirectoryItem
get_item slot v = elim (get_elem? v.root_directory.item slot) [
  | none ↦ fault
  | some item ↦ done (item, v)
]

unfoldable pub put_item : ℕ → DirectoryItem → M ℕ
put_item slot item v =
    let root = v.root_directory in
    done (0, record v { root_directory = record root { item = set root.item slot item } })

-- `n` slots are left, from slot `i` on; the entries are those from there.
unfoldable pub slot_by_name_loop : ℕ → List DirectoryItem → List ℕ → ℕ → Run ℕ
slot_by_name_loop zero items name i = done (minus 1)
slot_by_name_loop (suc n) [] name i = fault
slot_by_name_loop (suc n) (entry ∷ items) name i =
    let rest = slot_by_name_loop n items name (i + 1) in
    let tested =
      and_then (fat16_get_full_relative_filename entry (replicate max_path 0) max_path)
        λ tmp. and_then (istrncmp tmp name max_path) λ r. if is_zero r then done i else rest in
    if first_byte entry == 0x00
    then done (minus 1)
    else if first_byte entry == 0xE5
    then rest
    else if entry.attribute == 0x0F
    then rest
    else tested

-- The buffer `tmp` is cleared before it is read, so that what it holds at first does not matter.
unfoldable pub fat16_find_root_dir_slot_by_name : List ℕ → M ℕ
fat16_find_root_dir_slot_by_name name v =
    map_run (λ slot. (slot, v))
      (slot_by_name_loop v.header.root_dir_entries v.root_directory.item name 0)

unfoldable pub free_slot_loop : ℕ → List DirectoryItem → ℕ → Run ℕ
free_slot_loop zero items i = done (minus enomem)
free_slot_loop (suc n) [] i = fault
free_slot_loop (suc n) (entry ∷ items) i =
    let rest = free_slot_loop n items (i + 1) in
    if first_byte entry == 0x00 || first_byte entry == 0xE5 then done i else rest

unfoldable pub fat16_find_free_root_dir_slot : M ℕ
fat16_find_free_root_dir_slot v =
    map_run (λ slot. (slot, v)) (free_slot_loop v.header.root_dir_entries v.root_directory.item 0)

unfoldable pub fat16_write_root_dir_entry : ℕ → M ℕ
fat16_write_root_dir_entry slot_index v =
    let byte_offset = v.root_directory.sector_pos * sector_size + slot_index * 32 in
    and_then (get_item slot_index v) λ got. write_at byte_offset (item_bytes got.0) 32 v

-- `FAT_FILE_VOLUME_LABEL | FAT_FILE_SUBDIRECTORY`
abbrev pub label_or_directory : ℕ
label_or_directory = 0x18

-- 1 and the buffer, or 0; `count` entries were passed.
unfoldable pub readdir_loop : ℕ → List DirectoryItem → ℕ → ℕ → List ℕ → ℕ → Run (ℕ × List ℕ)
readdir_loop zero items index count buf buf_size = done (0, buf)
readdir_loop (suc n) [] index count buf buf_size = fault
readdir_loop (suc n) (entry ∷ items) index count buf buf_size =
    let skipped = readdir_loop n items index count buf buf_size in
    let counted = readdir_loop n items index (count + 1) buf buf_size in
    if first_byte entry == 0x00
    then done (0, buf)
    else if first_byte entry == 0xE5
    then skipped
    else if not (bit_and entry.attribute label_or_directory == 0)
    then skipped
    else if count == index
    then map_run (λ out. (1, out)) (fat16_get_full_relative_filename entry buf buf_size)
    else counted

unfoldable pub fat16_readdir : Volume → ℕ → List ℕ → ℕ → Run (ℕ × List ℕ)
fat16_readdir v index buf buf_size =
    readdir_loop v.header.root_dir_entries v.root_directory.item index 0 buf buf_size

-- The reads of the loop stand one behind the other, 32 bytes each, from position `p` on.
unfoldable pub total_items_loop : ℕ → ℕ → ℕ → M ℕ
total_items_loop zero p i = λ v. out_of_fuel
total_items_loop (suc fuel) p i = do
  got ← read_at p 32
  let deleted = total_items_loop fuel (p + 32) i
  let counted = total_items_loop fuel (p + 32) (i + 1)
  if not (got.0 == 0)
      then pure (minus eio)
      else if get_or got.1 0 0x00 == 0x00
      then pure i
      else if get_or got.1 0 0x00 == 0xE5
      then deleted
      else counted

unfoldable pub fat16_get_total_items_for_directory : ℕ → ℕ → M ℕ
fat16_get_total_items_for_directory fuel directory_start_sector =
    total_items_loop fuel (directory_start_sector * sector_size) 0

-- The status; the directory of the volume is set. The size in whole sectors that the code rounds up
-- is not used by it.
unfoldable pub fat16_get_root_directory : ℕ → M ℕ
fat16_get_root_directory fuel v =
    let h = v.header in
    let root_dir_sector_pos = h.fat_copies * h.sectors_per_fat + h.reserved_sectors in
    let root_dir_size = h.root_dir_entries * 32 in
    let filled : ℕ → List ℕ → Directory = λ (total_items : ℕ) (bytes : List ℕ). record {
      item = items_of h.root_dir_entries bytes;
      total = total_items;
      sector_pos = root_dir_sector_pos;
      ending_sector_pos = root_dir_sector_pos + root_dir_size / sector_size;
    } in
    and_then (fat16_get_total_items_for_directory fuel root_dir_sector_pos v) λ counted.
      and_then (kzalloc counted.1) λ dir.
        if not dir.0
        then done (minus enomem, dir.1)
        else and_then (read_at (fat16_sector_to_absolute root_dir_sector_pos) root_dir_size dir.1)
            (λ got.
              if not (got.0.0 == 0)
              then done (minus eio, got.1)
              else done (0, record (got.1) { root_directory = filled counted.0 got.0.1 }))

-- The fields of the 36 bytes of `struct fat_header`.
unfoldable pub header_of : List ℕ → Header
header_of bytes = record {
  sectors_per_cluster = get_or bytes 13 0;
  reserved_sectors = u16_at bytes 14;
  fat_copies = get_or bytes 16 0;
  root_dir_entries = u16_at bytes 17;
  number_of_sectors = u16_at bytes 19;
  sectors_per_fat = u16_at bytes 22;
  sectors_big = u32_at bytes 32;
}

-- The volume that `fat16_init_private` makes: all of it is 0.
unfoldable pub fat16_init_private : Drive → ℕ → Volume
fat16_init_private drive room = record {
  header = record {
    sectors_per_cluster = 0;
    reserved_sectors = 0;
    fat_copies = 0;
    root_dir_entries = 0;
    number_of_sectors = 0;
    sectors_per_fat = 0;
    sectors_big = 0;
  };
  root_directory = record { item = []; total = 0; sector_pos = 0; ending_sector_pos = 0 };
  drive = drive;
  room = room;
}

-- The status and `disk->fs_private`, which is `none` after an error. The allocation of the private
-- data and of the streams is taken to succeed: the code does not test it.
unfoldable pub fat16_resolve : ℕ → Drive → ℕ → Run (ℕ × Option Volume)
fat16_resolve fuel drive room =
    let v = fat16_init_private drive room in
    and_then (read_at 0 62 v) λ got.
      if not (got.0.0 == 0)
      then done (minus eio, none)
      else if not (get_or got.0.1 38 0 == 0x29)
      then done (minus efsnotus, none)
      else and_then (fat16_get_root_directory fuel (record v { header = header_of got.0.1 }))
          (λ root. if not (root.0 == 0) then done (minus eio, none) else done (0, some root.1))
