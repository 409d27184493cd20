-- ===== src/Fs/Fat16/Contents.antt =====
-- fat16.c: reads and writes of a file's contents, and the other operations on a descriptor.
pub mod Delete
use os_kernel_application_si.Base.{
  ℕ, zero, suc, ◌+◌, ◌-◌, ◌*◌, ◌/◌, ◌%◌, ◌^◌, Bool, true, false, ◌||◌, ◌&&◌, not, Option, none,
  some, List, [], ◌∷◌, ◌++◌, ltb, leb, ◌==◌, if◌then◌else◌, length, get_or, take, drop, replicate,
  Run, done, fault, out_of_fuel, and_then, map_run, bit_and, set,
}
use os_kernel_application_si.Status.{eio, enomem, einvarg, eunimp}
use os_kernel_application_si.Disk.{sector_size}
use os_kernel_application_si.Fs.Fat16.{
  Header, DirectoryItem, Directory, Volume, M, pure, ◌>>=◌, ◌>>◌, minus, is_negative, checked,
  write_at, fat16_get_first_cluster, fat16_cluster_to_sector, cluster_bytes,
}
use os_kernel_application_si.Fs.Fat16.Table.{
  fat16_get_fat_entry, fat16_alloc_cluster, ends_chain, fat16_free_cluster_chain,
}
use os_kernel_application_si.Fs.Fat16.RootDirectory.{
  get_item, put_item, fat16_find_root_dir_slot_by_name, fat16_write_root_dir_entry,
}
use os_kernel_application_si.Fs.Fat16.Files.{
  FatItem, directory_item, file_item, FileDescriptor, SeekMode, seek_set, seek_cur, seek_end,
  seek_other, FileStat, fat16_read_internal,
}

unfoldable pub fat16_write_cluster_data : ℕ → ℕ → List ℕ → ℕ → M ℕ
fat16_write_cluster_data cluster offset_in_cluster buf len v =
    write_at ((fat16_cluster_to_sector v cluster * sector_size + offset_in_cluster) % 2 ^ 32) buf
      len v

-- The cluster behind one, which is allocated where the chain ends.
unfoldable pub next_or_new : ℕ → M ℕ
next_or_new current_cluster = do
  next ← fat16_get_fat_entry current_cluster
  let new = fat16_alloc_cluster current_cluster
  if ends_chain next then new else pure next

-- `n` clusters are left to go.
unfoldable pub extend_walk : ℕ → ℕ → M ℕ
extend_walk zero current_cluster = pure current_cluster
extend_walk (suc n) current_cluster =
    checked (next_or_new current_cluster) λ next. extend_walk n next

-- `src` is what is left of the data behind the `written` bytes.
unfoldable pub write_loop : ℕ → ℕ → ℕ → List ℕ → ℕ → ℕ → M ℕ
write_loop zero current_cluster offset_in_cluster src written total = λ v. out_of_fuel
write_loop (suc fuel) current_cluster offset_in_cluster src written total = λ v.
    let space = cluster_bytes v - offset_in_cluster in
    let to_write = if ltb (total - written) space then total - written else space in
    let round =
      checked (fat16_write_cluster_data current_cluster offset_in_cluster src to_write) λ res.
        if ltb (written + to_write) total
        then checked (next_or_new current_cluster)
            (λ next. write_loop fuel next 0 (drop to_write src) (written + to_write) total)
        else pure (written + to_write) in
    if ltb written total then round v else done (written, v)

-- The cluster that the write begins in.
unfoldable pub start_cluster : ℕ → ℕ → M ℕ
start_cluster first_cluster file_offset v =
    if first_cluster == 0
    then fat16_alloc_cluster (minus 1) v
    else if cluster_bytes v == 0
    then fault
    else extend_walk (file_offset / cluster_bytes v) first_cluster v

-- The result, and `*first_cluster` where that is not an error. A round writes a byte at least, so
-- that `total + 2` is fuel enough.
unfoldable pub fat16_write_internal : ℕ → ℕ → List ℕ → ℕ → M (ℕ × ℕ)
fat16_write_internal first_cluster file_offset data_bytes total v =
    and_then (start_cluster first_cluster file_offset v) λ start.
      let first = if first_cluster == 0 then start.0 else first_cluster in
      if is_negative start.0
      then done ((start.0, first_cluster), start.1)
      else if cluster_bytes v == 0
      then fault
      else map_run (λ res. ((res.0, first), res.1))
          (write_loop (total + 2) start.0 (file_offset % cluster_bytes v) data_bytes 0 total
            start.1)

-- `descriptor->item->item`, where the code reads it
abbrev pub file_of : FatItem → M DirectoryItem
file_of (directory_item directory) v = fault
file_of (file_item none) v = fault
file_of (file_item (some item)) v = done (item, v)

-- `n` members are left; the number of members or an error, and the bytes.
unfoldable pub read_members : ℕ → DirectoryItem → ℕ → ℕ → ℕ → M (ℕ × List ℕ)
read_members zero item offset size nmemb = pure (nmemb, [])
read_members (suc n) item offset size nmemb = do
  got ← fat16_read_internal (size + 1) (fat16_get_first_cluster item) offset size
  let rest = read_members n item ((offset + size) % 2 ^ 32) size nmemb >>= λ (more : ℕ × List ℕ).
      pure (more.0, got.1 ++ more.1)
  if is_negative got.0 then pure got else rest

-- The position of the descriptor stays what it is.
unfoldable pub fat16_read : FileDescriptor → ℕ → ℕ → M (ℕ × List ℕ)
fat16_read fat_desc size nmemb = do
  item ← file_of fat_desc.item
  read_members nmemb item fat_desc.pos size nmemb

-- The clusters of the entry, where the write allocated its first, and its size.
unfoldable pub after_write : DirectoryItem → ℕ → ℕ → DirectoryItem
after_write item first_cluster new_end =
    let set_first = item.low_16_bits_first_cluster == 0 && not (first_cluster == 0) in
    record item {
      low_16_bits_first_cluster =
          if set_first then first_cluster % 2 ^ 16 else item.low_16_bits_first_cluster;
      high_16_bits_first_cluster =
          if set_first then first_cluster / 2 ^ 16 % 2 ^ 16 else item.high_16_bits_first_cluster;
      filesize = if ltb item.filesize new_end then new_end else item.filesize;
    }

-- `memcpy` to the slot, which has to be there, and the flush.
unfoldable pub sync_slot : ℕ → DirectoryItem → M ℕ
sync_slot slot item = do old ← get_item slot; put_item slot item; fat16_write_root_dir_entry slot

-- The result and the descriptor.
unfoldable pub fat16_write : FileDescriptor → ℕ → ℕ → List ℕ → M (ℕ × FileDescriptor)
fat16_write fat_desc size nmemb buf = do
  item ← file_of fat_desc.item
  let total = size * nmemb % 2 ^ 32
  written ← fat16_write_internal (fat16_get_first_cluster item) fat_desc.pos buf total
  let item' = after_write item written.1 ((fat_desc.pos + written.0) % 2 ^ 32)
  let moved = record fat_desc {
    item = file_item (some item');
    pos = (fat_desc.pos + written.0) % 2 ^ 32;
  }
  let sync = sync_slot fat_desc.root_dir_slot item'
  let flushed = (if is_negative fat_desc.root_dir_slot then pure 0 else sync) >>= λ (res : ℕ).
      pure (nmemb, moved)
  if is_negative written.0 then pure (written.0, fat_desc) else flushed

-- FAT_FILE_READ_ONLY, FILE_STAT_READ_ONLY
abbrev pub file_read_only : ℕ
file_read_only = 0x01

-- The status, and what is stored through `stat`.
unfoldable pub fat16_stat : FileDescriptor → FileStat → Run (ℕ × FileStat)
fat16_stat descriptor stat = elim descriptor.item [
  | directory_item directory ↦ done (minus einvarg, stat)
  | file_item o ↦ elim o [
    | none ↦ fault
    | some ritem ↦ done (
      0,
      record {
        flags = if bit_and ritem.attribute file_read_only == 0 then 0x00 else 1;
        filesize = ritem.filesize;
      },
    )
  ]
]

abbrev pub seek_in : FileDescriptor → ℕ → SeekMode → ℕ × FileDescriptor
seek_in desc offset seek_set = (0, record desc { pos = offset })
seek_in desc offset seek_end = (minus eunimp, desc)
seek_in desc offset seek_cur = (0, record desc { pos = (desc.pos + offset) % 2 ^ 32 })
seek_in desc offset seek_other = (minus einvarg, desc)

-- The status and the descriptor; `offset` is unsigned.
unfoldable pub fat16_seek : FileDescriptor → ℕ → SeekMode → Run (ℕ × FileDescriptor)
fat16_seek desc offset seek_mode = elim desc.item [
  | directory_item directory ↦ done (minus einvarg, desc)
  | file_item o ↦ elim o [
    | none ↦ fault
    | some ritem ↦
        if leb ritem.filesize offset
        then done (minus eio, desc)
        else done (seek_in desc offset seek_mode)
  ]
]

abbrev pub deleted_item : DirectoryItem → DirectoryItem
deleted_item item = record item {
  filename = set item.filename 0 0xE5;
  filesize = 0;
  low_16_bits_first_cluster = 0;
  high_16_bits_first_cluster = 0;
}

unfoldable pub delete_slot : ℕ → M ℕ
delete_slot slot = do
  item ← get_item slot
  let first_cluster = fat16_get_first_cluster item
  freed ← (if leb 2 first_cluster then fat16_free_cluster_chain first_cluster else pure 0)
  put_item slot (deleted_item item)
  flushed ← fat16_write_root_dir_entry slot
  pure 0

unfoldable pub fat16_delete : List (List ℕ) → M ℕ
fat16_delete [] = λ v. fault
fat16_delete (part ∷ parts) = do
  slot ← fat16_find_root_dir_slot_by_name part
  let found = delete_slot slot
  if is_negative slot then pure (minus eio) else found
