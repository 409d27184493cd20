-- ===== src/Fs/Fat16.antt =====
-- fs/fat/fat16.c: the state of a mounted volume, and reads and writes of its disk. An `int` is its
-- 32-bit pattern, so that a negative result is a number from 2 ^ 31 on. The streams of
-- `struct fat_private` are on the one disk, and every use begins with a seek, so that a stream's
-- position need not be kept.
pub mod Table
pub mod Names
pub mod RootDirectory
pub mod Files
pub mod Contents
use os_kernel_application_si.Base.{
  ℕ, zero, suc, ◌+◌, ◌-◌, ◌*◌, ◌/◌, ◌%◌, ◌^◌, Bool, true, false, ◌||◌, ◌&&◌, List, [], ◌∷◌, ◌++◌,
  ltb, leb, ◌==◌, if◌then◌else◌, length, get_or, Run, done, fault, out_of_fuel, and_then, map_run,
  ℤ, pos, negsuc,
}
use os_kernel_application_si.Disk.{Drive, the_disk, sector_size}
use os_kernel_application_si.Disk.Streamer.{
  Stream, diskstreamer_seek, diskstreamer_read, diskstreamer_write,
}

-- The fields of `struct fat_header` that the driver uses.
pub record Header : Type 0 where
  pub sectors_per_cluster : ℕ
  pub reserved_sectors : ℕ
  pub fat_copies : ℕ
  pub root_dir_entries : ℕ
  pub number_of_sectors : ℕ
  pub sectors_per_fat : ℕ
  pub sectors_big : ℕ

-- `struct fat_directory_item`
pub record DirectoryItem : Type 0 where
  pub filename : List ℕ
  pub ext : List ℕ
  pub attribute : ℕ
  pub reserved : ℕ
  pub creation_time_tenths_of_a_sec : ℕ
  pub creation_time : ℕ
  pub creation_date : ℕ
  pub last_access : ℕ
  pub high_16_bits_first_cluster : ℕ
  pub last_mod_time : ℕ
  pub last_mod_date : ℕ
  pub low_16_bits_first_cluster : ℕ
  pub filesize : ℕ

-- `struct fat_directory`
pub record Directory : Type 0 where
  pub item : List DirectoryItem
  pub total : ℕ
  pub sector_pos : ℕ
  pub ending_sector_pos : ℕ

-- `struct fat_private` of the disk, and the disk; `room` is the number of calls of `kzalloc` that
-- still find memory.
pub record Volume : Type 0 where
  pub header : Header
  pub root_directory : Directory
  pub drive : Drive
  pub room : ℕ

abbrev pub M : Type 0 → Type 0
M A = Volume → Run (A × Volume)

abbrev pub pure : {A : Type 0} → A → M A
pure a v = done (a, v)

infixl 5 ◌>>=◌ ◌>>◌
abbrev pub ◌>>=◌ : {A B : Type 0} → M A → (A → M B) → M B
◌>>=◌ m k v = elim (m v) [ done got ↦ k got.0 got.1 | fault ↦ fault | out_of_fuel ↦ out_of_fuel ]

abbrev pub ◌>>◌ : {A B : Type 0} → M A → M B → M B
m >> k = m >>= λ _. k

-- The pattern of `-error`.
abbrev pub minus : ℕ → ℕ
minus error = 2 ^ 32 - error

-- `res < 0`
abbrev pub is_negative : ℕ → Bool
is_negative res = leb (2 ^ 31) res

-- `if (res < 0) return res;` in front of the rest.
abbrev pub checked : M ℕ → (ℕ → M ℕ) → M ℕ
checked m k v = elim (m v) [
  | done got ↦ if is_negative got.0 then done got else k got.0 got.1
  | fault ↦ fault
  | out_of_fuel ↦ out_of_fuel
]

abbrev pub int_bits : ℤ → ℕ
int_bits (pos n) = n
int_bits (negsuc n) = minus (suc n)

-- `kzalloc`: whether it returns an object.
unfoldable pub kzalloc : M Bool
kzalloc v = if v.room == 0 then done (false, v) else done (true, record v { room = v.room - 1 })

-- A seek to `p` and a read of `n` bytes: the status and the bytes. A round moves the position by a
-- byte at least, so that `n` is fuel enough.
unfoldable pub read_at : ℕ → ℕ → M (ℕ × List ℕ)
read_at p n v =
    map_run (λ got. ((int_bits got.0, got.1), v))
      (diskstreamer_read (suc n) v.drive
        (diskstreamer_seek (record { pos = 0; disk = the_disk }) p).1 n)

-- A seek to `p` and a write of `n` bytes of `src`: the status.
unfoldable pub write_at : ℕ → List ℕ → ℕ → M ℕ
write_at p src n v =
    map_run (λ got. (int_bits got.0, record v { drive = got.1 }))
      (diskstreamer_write (suc n) v.drive
        (diskstreamer_seek (record { pos = 0; disk = the_disk }) p).1 src n)

-- Little-endian numbers in an object.
abbrev pub u16_at : List ℕ → ℕ → ℕ
u16_at bytes i = get_or bytes i 0 + 256 * get_or bytes (i + 1) 0

abbrev pub u32_at : List ℕ → ℕ → ℕ
u32_at bytes i = u16_at bytes i + 65536 * u16_at bytes (i + 2)

abbrev pub u16_bytes : ℕ → List ℕ
u16_bytes n = n % 256 ∷ n / 256 % 256 ∷ []

abbrev pub u32_bytes : ℕ → List ℕ
u32_bytes n = u16_bytes (n % 65536) ++ u16_bytes (n / 65536)

abbrev pub fat16_sector_to_absolute : ℕ → ℕ
fat16_sector_to_absolute sector = sector * sector_size

-- `high << 16 | low`, of two 16-bit fields
unfoldable pub fat16_get_first_cluster : DirectoryItem → ℕ
fat16_get_first_cluster item =
    item.high_16_bits_first_cluster * 2 ^ 16 + item.low_16_bits_first_cluster

unfoldable pub fat16_cluster_to_sector : Volume → ℕ → ℕ
fat16_cluster_to_sector v cluster =
    (v.root_directory.ending_sector_pos
      + (cluster + 2 ^ 32 - 2) % 2 ^ 32 * v.header.sectors_per_cluster)
    % 2 ^ 32

abbrev pub fat16_get_first_fat_sector : Volume → ℕ
fat16_get_first_fat_sector v = v.header.reserved_sectors

-- The bytes of a cluster.
abbrev pub cluster_bytes : Volume → ℕ
cluster_bytes v = v.header.sectors_per_cluster * sector_size
