-- ===== src/Tests/Files.antt =====
-- Names, directory entries and descriptors, and the deletion of a file.
use os_kernel_application_si.Base.{
  ℕ, ◌≡◌, refl, arith, Option, none, some, List, [], ◌∷◌, ◌++◌, length-replicate, replicate, done,
  pos, true,
}
use os_kernel_application_si.Memory.Bytes.{memset}
use os_kernel_application_si.Strings.{istrncmp, tolower}
use os_kernel_application_si.Fs.Fat16.{DirectoryItem, Volume, minus, fat16_get_first_cluster}
use os_kernel_application_si.Fs.Fat16.Table.Entry.{entry}
use os_kernel_application_si.Fs.Fat16.Table.Chain.{Chain, ended, linked}
use os_kernel_application_si.Fs.Fat16.Names.{
  fat16_name_to_83, fat16_get_full_relative_filename, fat16_to_proper_string,
}
use os_kernel_application_si.Fs.Fat16.Names.RoundTrip.{name_to_83-full_name}
use os_kernel_application_si.Fs.Fat16.RootDirectory.{
  fat16_find_free_root_dir_slot, fat16_find_root_dir_slot_by_name, slot_by_name_loop,
}
use os_kernel_application_si.Fs.Fat16.RootDirectory.Entries.{IsItem}
use os_kernel_application_si.Fs.Fat16.Contents.{fat16_delete}
use os_kernel_application_si.Fs.Fat16.Contents.Delete.{Deleted, delete_lem}
use os_kernel_application_si.Fs.Fat16.Names.Fields.{field}
use os_kernel_application_si.Fs.Fat16.Files.Create.{created, Created, open_create_lem}
use os_kernel_application_si.Fs.Fat16.RootDirectory.{free_slot_loop}
use os_kernel_application_si.Fs.Fat16.Files.{
  opened, fat16_open, file_mode_write, FileDescriptor, file_item, new_entry,
}
use os_kernel_application_si.Fs.File.{
  FileTable, file_new_descriptor, free_descriptor_loop, file_get_descriptor, fclose,
}
use os_kernel_application_si.Fs.File.Descriptors.{file_new_descriptor-fclose}
use os_kernel_application_si.Fs.Mount.{fat16_fs}
use os_kernel_application_si.Tests.Table.{small, small-IsDrive}

-- The entry of the file `A`, whose clusters are 2 and 3.
abbrev entry_a : DirectoryItem
entry_a = record (new_entry (65 ∷ replicate 7 0x20, replicate 3 0x20)) {
  low_16_bits_first_cluster = 2;
  filesize = 700;
}

abbrev no_entry : DirectoryItem
no_entry = record (new_entry (replicate 8 0, replicate 3 0)) { attribute = 0 }

abbrev one_file : Volume
one_file = record small {
  root_directory = record {
    item = entry_a ∷ replicate 15 no_entry;
    total = 1;
    sector_pos = 3;
    ending_sector_pos = 4;
  };
}

name_to_83-full_name_example :
    (fname ext' out' : List ℕ) × (fat16_name_to_83 (97 ∷ 46 ∷ 98 ∷ 0 ∷ []) ≡ done (fname, ext'))
    × (fat16_get_full_relative_filename
          (record entry_a { filename = fname; ext = ext' })
          (replicate 108 7)
          108
        ≡ done out')
    × (istrncmp out' (97 ∷ 46 ∷ 98 ∷ 0 ∷ []) 108 ≡ done (pos 0))
name_to_83-full_name_example =
    name_to_83-full_name (97 ∷ []) (98 ∷ []) [] (replicate 108 7) entry_a
      ((omega arith, (omega arith, omega arith)), tt)
      ((omega arith, (omega arith, omega arith)), tt) (omega arith) (omega arith)
      (length-replicate {A = ℕ} 108 7)

entry_a-IsItem : IsItem entry_a
entry_a-IsItem = record { filename = refl; ext = refl }

found_a : fat16_find_root_dir_slot_by_name (97 ∷ 0 ∷ []) one_file ≡ done (0, one_file)
unfolding fat16_find_root_dir_slot_by_name slot_by_name_loop fat16_get_full_relative_filename
    fat16_to_proper_string memset istrncmp tolower
found_a = refl

entry_a-Chain : Chain one_file (fat16_get_first_cluster entry_a) (2 ∷ 3 ∷ [])
unfolding entry fat16_get_first_cluster
entry_a-Chain = linked refl (omega arith) refl (linked refl (omega arith) refl (ended refl))

delete_lem_example :
    (v' : Volume) × (fat16_delete ((97 ∷ 0 ∷ []) ∷ []) one_file ≡ done (0, v'))
    × Deleted one_file 0 entry_a (2 ∷ 3 ∷ []) v'
delete_lem_example =
    delete_lem one_file (97 ∷ 0 ∷ []) [] 0 entry_a (2 ∷ 3 ∷ [])
      (record { sectors = small-IsDrive; low = omega arith }) entry_a-IsItem refl (omega arith)
      (omega arith) (omega arith) entry_a-Chain found_a refl

-- `b` is not in the directory, and slot 1 is free.
missing_b : fat16_find_root_dir_slot_by_name (98 ∷ 0 ∷ []) one_file ≡ done (minus 1, one_file)
unfolding fat16_find_root_dir_slot_by_name slot_by_name_loop fat16_get_full_relative_filename
    fat16_to_proper_string memset istrncmp tolower
missing_b = refl

second_slot : fat16_find_free_root_dir_slot one_file ≡ done (1, one_file)
unfolding fat16_find_free_root_dir_slot free_slot_loop
second_slot = refl

open_create_lem_example :
    (v' : Volume) × (fat16_open 100 ((98 ∷ 0 ∷ []) ∷ []) file_mode_write one_file
      ≡ done (opened (created 1 (field 8 (98 ∷ []), field 3 [])), v'))
    × Created one_file 1 (new_entry (field 8 (98 ∷ []), field 3 [])) v'
open_create_lem_example =
    open_create_lem 100 one_file 1 2 (98 ∷ []) [] [] [] small-IsDrive (omega arith) (omega arith)
      refl ((omega arith, (omega arith, omega arith)), tt) tt (omega arith) (omega arith) missing_b
      second_slot

abbrev opened_a : FileDescriptor
opened_a = record { item = file_item (some entry_a); pos = 0; root_dir_slot = 0 }

abbrev table_with : List (Option FileDescriptor) → FileTable Volume FileDescriptor
table_with ds = record { file_descriptors = ds; mounted = true; disk_state = one_file }

first_descriptor :
    file_new_descriptor (table_with (replicate 512 none)) opened_a
    ≡ done (1, table_with (some opened_a ∷ replicate 511 none))
unfolding file_new_descriptor free_descriptor_loop
first_descriptor = refl

file_new_descriptor-fclose_example :
    (file_get_descriptor (table_with (some opened_a ∷ replicate 511 none)) 1 ≡ done (some opened_a))
    × (fclose (fat16_fs 100) (table_with (some opened_a ∷ replicate 511 none)) 1
        ≡ done (0, table_with (replicate 512 none)))
file_new_descriptor-fclose_example =
    file_new_descriptor-fclose (fat16_fs 100) (table_with (replicate 512 none))
      (table_with (some opened_a ∷ replicate 511 none)) opened_a 1
      (length-replicate {A = Option FileDescriptor} 512 none) refl first_descriptor (omega arith)

-- Only the last entry is free.
abbrev one_left : Option FileDescriptor → FileTable Volume FileDescriptor
one_left o = table_with (replicate 511 (some opened_a) ++ (o ∷ []))

last_descriptor :
    file_new_descriptor (one_left none) opened_a ≡ done (512, one_left (some opened_a))
unfolding file_new_descriptor free_descriptor_loop
last_descriptor = refl
