-- ===== src/Fs/Fat16/Files/Create.antt =====
-- fat16.c, `fat16_open` for writing: a name that the root directory does not have yet.
use os_kernel_application_si.Base.{
  ℕ, suc, ◌+◌, ◌-◌, ◌*◌, ◌^◌, ◌≤◌, ◌<◌, ◌≡◌, refl, ◌∙◌, true, false, ◌||◌, some, List, ◌∷◌, ◌++◌,
  leb, ◌==◌, if◌then◌else◌, arith, length, set, get_elem?-set_self, done, All, map, drop, replicate,
  length-append, length-drop, length-replicate,
}
use os_kernel_application_si.Disk.{Drive}
use os_kernel_application_si.Disk.Sectors.{IsDrive, byte_at}
use os_kernel_application_si.Disk.Streamer.Write.{overwritten}
use os_kernel_application_si.Fs.Fat16.{DirectoryItem, Volume, minus, is_negative, kzalloc, write_at}
use os_kernel_application_si.Fs.Fat16.Names.{fat16_name_to_83, to_upper}
use os_kernel_application_si.Fs.Fat16.Names.Fields.{
  FieldChar, field, dotted, length-map, name_to_83_lem,
}
use os_kernel_application_si.Fs.Fat16.RootDirectory.{
  item_bytes, get_item, put_item, fat16_find_root_dir_slot_by_name, fat16_find_free_root_dir_slot,
  fat16_write_root_dir_entry,
}
use os_kernel_application_si.Fs.Fat16.RootDirectory.Entries.{length-item_bytes}
use os_kernel_application_si.Fs.Fat16.Files.{
  FileDescriptor, file_item, Opened, opened, file_mode_write, new_entry, extend_total, create,
  fat16_clone_directory_item, descriptor_of_slot, open_write, fat16_open,
}
use os_kernel_application_si.Fs.Fat16.Contents.Delete.{write_at_lem}

field-length : (n : ℕ) (t : List ℕ) → length t ≤ n → length (field n t) ≡ n
field-length n t le = omega (
  arith,
  length-append (map to_upper t) (drop (length t) (replicate {A = ℕ} n 0x20)),
  length-map t,
  length-drop {A = ℕ} (length t) (replicate n 0x20),
  length-replicate {A = ℕ} n 0x20,
)

-- The descriptor of a new file.
abbrev pub created : ℕ → List ℕ × List ℕ → FileDescriptor
created slot fields = record {
  item = file_item (some (new_entry fields));
  pos = 0;
  root_dir_slot = slot;
}

-- The `int` that `total` becomes.
abbrev pub grown : ℕ → ℕ → ℕ
grown total slot = if is_negative total || leb total slot then slot + 1 else total

kzalloc-run :
    (w : Volume) (room : ℕ) → w.room ≡ suc room → kzalloc w ≡ done (true, record w { room = room })
unfolding kzalloc
kzalloc-run w room e =
    let z : (w.room == 0) ≡ false = ground (arith, e) in
    let m : w.room - 1 ≡ room = omega (arith, e) in rw (z, m)

module _ (v : Volume) (slot : ℕ) (name : List ℕ) (fields : List ℕ × List ℕ) (d : Drive)
    (inside : slot < length v.root_directory.item) where
  abbrev placed : Volume
  placed = record v {
    root_directory = record (v.root_directory) {
      item = set v.root_directory.item slot (new_entry fields);
    };
  }

  abbrev in_place : Volume
  in_place = record v {
    root_directory = record (v.root_directory) {
      item = set v.root_directory.item slot (new_entry fields);
      total = grown v.root_directory.total slot;
    };
    drive = d;
  }

  create_run :
      fat16_name_to_83 name ≡ done fields
      → write_at
          (v.root_directory.sector_pos * 512 + slot * 32)
          (item_bytes (new_entry fields))
          32
          placed
        ≡ done (0, record placed { drive = d })
      → create slot name v ≡ done (0, in_place)
  unfolding create get_item put_item fat16_write_root_dir_entry extend_total
  create_run n w =
      let new = get_elem?-set_self v.root_directory.item slot (new_entry fields) inside in
      ground (arith, n, w, new)

  descriptor_run :
      (room : ℕ)
      → v.room ≡ 3 + room
      → descriptor_of_slot slot in_place
        ≡ done (opened (created slot fields), record in_place { room = room })
  unfolding descriptor_of_slot get_item fat16_clone_directory_item
  descriptor_run room enough =
      let new = get_elem?-set_self v.root_directory.item slot (new_entry fields) inside in
      let k1 = kzalloc-run in_place (2 + room) (omega (arith, enough)) in
      let k2 = kzalloc-run (record in_place { room = 2 + room }) (1 + room) (omega arith) in
      let k3 = kzalloc-run (record in_place { room = 1 + room }) room (omega arith) in
      ground (arith, k1, k2, k3, new)

open_write-new :
    (v v1 v2 : Volume) (slot : ℕ) (name : List ℕ) (o : Opened)
    → fat16_find_root_dir_slot_by_name name v ≡ done (minus 1, v)
    → fat16_find_free_root_dir_slot v ≡ done (slot, v)
    → is_negative slot ≡ false
    → create slot name v ≡ done (0, v1)
    → descriptor_of_slot slot v1 ≡ done (o, v2)
    → open_write name v ≡ done (o, v2)
unfolding open_write
open_write-new v v1 v2 slot name o missing free positive made opens =
    ground (arith, missing, free, positive, made, opens)

open_write-open :
    (fuel : ℕ) (v : Volume) (name : List ℕ) (parts : List (List ℕ))
    → fat16_open fuel (name ∷ parts) file_mode_write v ≡ open_write name v
unfolding fat16_open
open_write-open fuel v name parts = refl

-- `v'` is `v` with a new entry in a slot: in memory, and in its 32 bytes of the disk, of which no
-- others change; and a search up to `total` reaches the slot.
pub record Created (v : Volume) (slot : ℕ) (item : DirectoryItem) (v' : Volume) : Type 0 where
  pub items : v'.root_directory.item ≡ set v.root_directory.item slot item
  pub reached : slot < v'.root_directory.total
  pub bytes :
      (a : ℕ)
      → byte_at v'.drive a
        ≡ overwritten v.drive (v.root_directory.sector_pos * 512 + slot * 32) (item_bytes item) 32 a

-- `fat16_open` for writing of a name of at most 8 and 3 characters that is not in the root directory,
-- where a slot is free and three allocations succeed: it returns a descriptor at position 0 of an
-- empty file in that slot, whose entry with the fields of the name is in memory and on the disk.
pub open_create_lem :
    (fuel : ℕ) (v : Volume) (slot room : ℕ) (base ext r : List ℕ) (parts : List (List ℕ))
    → IsDrive v.drive
    → slot < length v.root_directory.item
    → v.root_directory.sector_pos * 512 + slot * 32 + 32 < 2 ^ 31
    → v.room ≡ 3 + room
    → All FieldChar base
    → All FieldChar ext
    → length base ≤ 8
    → length ext ≤ 3
    → fat16_find_root_dir_slot_by_name (dotted base ext ++ (0 ∷ r)) v ≡ done (minus 1, v)
    → fat16_find_free_root_dir_slot v ≡ done (slot, v)
    → (v' : Volume) × (fat16_open fuel ((dotted base ext ++ (0 ∷ r)) ∷ parts) file_mode_write v
        ≡ done (opened (created slot (field 8 base, field 3 ext)), v'))
      × Created v slot (new_entry (field 8 base, field 3 ext)) v'
open_create_lem fuel v slot room base ext r parts is inside small enough okb oke lb le missing
      free =
    let fields : List ℕ × List ℕ = (field 8 base, field 3 ext) in
    let name = dotted base ext ++ (0 ∷ r) in
    let p = v.root_directory.sector_pos * 512 + slot * 32 in
    let len : length (item_bytes (new_entry fields)) ≡ 32 =
      length-item_bytes (new_entry fields)
        (record { filename = field-length 8 base lb; ext = field-length 3 ext le }) in
    let (d, e, w) =
      write_at_lem (placed v slot name fields v.drive inside) p (item_bytes (new_entry fields)) 32
        is small len in
    let w1 = in_place v slot name fields d inside in
    (
      record w1 { room = room },
      open_write-open fuel v name parts
          ∙ open_write-new v w1 (record w1 { room = room }) slot name (opened (created slot fields))
              missing free (ground arith)
              (create_run v slot name fields d inside (name_to_83_lem base ext r okb oke lb le) e)
              (descriptor_run v slot name fields d inside room enough),
      record { items = refl; reached = ground arith; bytes = λ a. w.bytes a },
    )
