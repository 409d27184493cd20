-- ===== src/Fs/Fat16/Table/Entry.antt =====
-- fat16.c: what `fat16_get_fat_entry` and `fat16_set_fat_entry` do to the two tables on the disk.
use os_kernel_application_si.Base.{
  ℕ, ◌+◌, ◌-◌, ◌*◌, ◌/◌, ◌%◌, ◌^◌, ◌≤◌, ◌<◌, ◌≡◌, refl, ◌∙◌, ◌≢◌, [], ◌∷◌, ◌==◌, if◌then◌else◌,
  arith, done, get_or,
}
use os_kernel_application_si.Disk.{Drive}
use os_kernel_application_si.Disk.Sectors.{IsDrive, byte_at}
use os_kernel_application_si.Disk.Streamer.{diskstreamer_seek}
use os_kernel_application_si.Disk.Streamer.Write.{Written, diskstreamer_write_lem}
use os_kernel_application_si.Disk.Streamer.Read.{bytes_from, diskstreamer_read_lem}
use os_kernel_application_si.Fs.Fat16.{Volume, read_at, write_at, u16_bytes, checked}
use os_kernel_application_si.Fs.Fat16.Table.{
  entry_position, second_position, fat16_get_fat_entry, fat16_set_fat_entry,
}

-- A volume whose two tables stand in the first 2 GiB of the disk.
pub record IsVolume (v : Volume) : Type 0 where
  pub sectors : IsDrive v.drive
  pub low : (v.header.reserved_sectors + 2 * v.header.sectors_per_fat) * 512 < 2 ^ 31

-- The clusters that a table has an entry for.
abbrev pub table_size : Volume → ℕ
table_size v = v.header.sectors_per_fat * 256

-- The 16-bit number at an address of the disk.
abbrev pub word_at : Drive → ℕ → ℕ
word_at d a = byte_at d a + 256 * byte_at d (a + 1)

abbrev pub table_start : Volume → ℕ
table_start v = v.header.reserved_sectors * 512

-- The entry of cluster `c` in the first table, and in the second.
unfoldable pub entry : Volume → ℕ → ℕ
entry v c = word_at v.drive (table_start v + c * 2)

unfoldable pub second_entry : Volume → ℕ → ℕ
second_entry v c = word_at v.drive (table_start v + v.header.sectors_per_fat * 512 + c * 2)

read_at-two :
    (v : Volume) (p : ℕ)
    → IsDrive v.drive
    → p + 2 < 2 ^ 31
    → p % 512 ≤ 510
    → read_at p 2 v ≡ done ((0, byte_at v.drive p ∷ byte_at v.drive (p + 1) ∷ []), v)
unfolding read_at diskstreamer_seek bytes_from
read_at-two v p is small h =
    rw ((diskstreamer_read_lem 3 v.drive p 2 is small (omega arith)).0 (omega arith))

module _ (v : Volume) (c : ℕ) (is : IsVolume v) (fits : c < table_size v) where
  positions :
      (entry_position v c ≡ table_start v + c * 2)
      × (second_position v c ≡ table_start v + v.header.sectors_per_fat * 512 + c * 2)
  positions = (omega (arith, is.low), omega (arith, is.low))

  -- A read of an entry never leaves its sector, and gives the number on the disk.
  pub get_fat_entry_lem : fat16_get_fat_entry c v ≡ done (entry v c, v)
  unfolding fat16_get_fat_entry entry
  get_fat_entry_lem = rw (
    positions.0,
    read_at-two v (table_start v + c * 2) is.sectors (omega (arith, is.low)) (omega arith),
  )

-- `v'` is `v` with the entry of cluster `c` set to `value` in both tables.
pub record Stored (v : Volume) (c value : ℕ) (v' : Volume) : Type 0 where
  pub same : v' ≡ record v { drive = v'.drive }
  pub sectors : IsDrive v'.drive
  pub first : (k : ℕ) → k < table_size v → entry v' k ≡ (if k == c then value else entry v k)
  pub second :
      (k : ℕ) → k < table_size v → second_entry v' k ≡ (if k == c then value else second_entry v k)
  pub outside :
      (a : ℕ)
      → a / 2 ≢ (table_start v + c * 2) / 2
      → a / 2 ≢ (table_start v + v.header.sectors_per_fat * 512 + c * 2) / 2
      → byte_at v'.drive a ≡ byte_at v.drive a

-- A word at an even address after a word was written at another.
word_at-Written :
    (d d' : Drive) (p a value : ℕ)
    → Written d p (u16_bytes value) 2 d'
    → value < 2 ^ 16
    → p % 2 ≡ 0
    → a % 2 ≡ 0
    → word_at d' a ≡ (if a == p then value else word_at d a)
word_at-Written d d' p a value w lt hp ha =
    ground (arith, w.bytes a, w.bytes (a + 1), first, second)
  where
    first : a ≡ p → get_or (u16_bytes value) (a - p) 0 ≡ value % 256
    first e = let z : a - p ≡ 0 = omega arith in rw z

    second : a ≡ p → get_or (u16_bytes value) (a + 1 - p) 0 ≡ value / 256 % 256
    second e = let z : a + 1 - p ≡ 1 = omega arith in rw z

write_at-two :
    (v : Volume) (p value : ℕ)
    → IsDrive v.drive
    → p + 2 < 2 ^ 31
    → (d' : Drive) × (write_at p (u16_bytes value) 2 v ≡ done (0, record v { drive = d' }))
      × Written v.drive p (u16_bytes value) 2 d'
unfolding write_at diskstreamer_seek
write_at-two v p value is small =
    let (d', e, w) =
      diskstreamer_write_lem 3 v.drive p (u16_bytes value) 2 is small (omega arith) (omega arith) in
    (d', rw e, w)

module _ (v : Volume) (c value : ℕ) (is : IsVolume v) (fits : c < table_size v) where
  set_run :
      (d d' : Drive)
      → write_at (table_start v + c * 2) (u16_bytes value) 2 v ≡ done (0, record v { drive = d })
      → write_at
          (table_start v + v.header.sectors_per_fat * 512 + c * 2)
          (u16_bytes value)
          2
          (record v { drive = d })
        ≡ done (0, record v { drive = d' })
      → fat16_set_fat_entry c value v ≡ done (0, record v { drive = d' })
  unfolding fat16_set_fat_entry
  set_run d d' e e' =
      let (p_eq, q_eq) = positions v c is fits in rw q_eq (rw p_eq (rw (e, checked) (rw e')))

  -- A write of an entry stores it in both tables, and changes no other byte of the disk.
  pub set_fat_entry_lem :
      value < 2 ^ 16
      → (v' : Volume) × (fat16_set_fat_entry c value v ≡ done (0, v')) × Stored v c value v'
  unfolding entry second_entry
  set_fat_entry_lem lt =
      let p = table_start v + c * 2 in
      let q = table_start v + v.header.sectors_per_fat * 512 + c * 2 in
      let (d, e, w) = write_at-two v p value is.sectors (omega (arith, is.low)) in
      let (d', e', w') =
        write_at-two (record v { drive = d }) q value w.sectors (omega (arith, is.low)) in
      (
        record v { drive = d' },
        set_run d d' e e',
        record {
          same = refl;
          sectors = w'.sectors;
          first = λ k h.
              word_at-Written d d' q (table_start v + k * 2) value w' lt (omega arith) (omega arith)
              ∙ ground (
                arith,
                word_at-Written v.drive d p (table_start v + k * 2) value w lt (omega arith)
                    (omega arith),
              );
          second = λ k h.
              word_at-Written d d' q (table_start v + v.header.sectors_per_fat * 512 + k * 2) value
                w' lt (omega arith) (omega arith)
              ∙ ground (
                arith,
                word_at-Written v.drive d p (table_start v + v.header.sectors_per_fat * 512 + k * 2)
                    value w lt (omega arith) (omega arith),
              );
          outside = λ a h k. w'.bytes a ∙ ground (arith, w.bytes a);
        },
      )
