-- ===== src/Disk.antt =====
-- disk/disk.c: the ATA driver. The drive answers an LBA of 28 bits with a sector of 512 bytes; it is
-- the function from the one to the other, and the waits for its ready bits end.
pub mod Select
pub mod Sectors
pub mod Streamer
use os_kernel_application_si.Base.{
  ℕ, zero, suc, ◌+◌, ◌-◌, ◌*◌, ◌/◌, ◌%◌, ◌^◌, Bool, Option, none, some, List, [], ◌∷◌, ◌++◌, ltb,
  ◌==◌, if◌then◌else◌, length, take, drop, bit_or, Run, done, fault, map_run, ℤ, pos, neg,
}
use os_kernel_application_si.Status.{eio}

-- PEACHOS_SECTOR_SIZE, and 256 words
abbrev pub sector_size : ℕ
sector_size = 512

-- The sectors' bytes, by LBA.
abbrev pub Drive : Type 0
Drive = ℕ → List ℕ

-- A `struct disk *`: the address of the one disk, or any other.
pub data DiskPtr : Type 0 where
  the_disk : DiskPtr
  other_disk : DiskPtr

-- The sector that the drive takes from the ports 0x1F3 to 0x1F6 (of the last one, the low 4 bits).
unfoldable pub selected_lba : ℕ → ℕ
selected_lba lba =
    let port_1f6 = bit_or (lba / 2 ^ 24) 0xE0 % 256 in
    let port_1f3 = lba % 256 in
    let port_1f4 = lba / 2 ^ 8 % 256 in
    let port_1f5 = lba / 2 ^ 16 % 256 in
    port_1f6 % 16 * 2 ^ 24 + port_1f5 * 2 ^ 16 + port_1f4 * 2 ^ 8 + port_1f3

-- The bytes of `n` sectors, in order.
unfoldable pub read_sectors : ℕ → Drive → ℕ → List ℕ
read_sectors zero d l = []
read_sectors (suc n) d l = d l ++ read_sectors n d (l + 1)

-- The status, and the bytes that are stored to the caller's buffer.
unfoldable pub disk_read_sector : Drive → ℕ → ℕ → ℤ × List ℕ
unfolding read_sectors selected_lba
disk_read_sector d lba total = (pos 0, read_sectors total d (selected_lba lba))

abbrev pub put_sector : Drive → ℕ → List ℕ → Drive
put_sector d l bytes k = if k == l then bytes else d k

-- `n` sectors are left to write from `buf`; a read behind its end is a fault.
unfoldable pub write_sectors : ℕ → Drive → ℕ → List ℕ → Run Drive
write_sectors zero d l buf = done d
write_sectors (suc n) d l buf =
    let rest = write_sectors n (put_sector d l (take 512 buf)) (l + 1) (drop 512 buf) in
    if ltb (length buf) sector_size then fault else rest

unfoldable pub disk_write_sector : Drive → ℕ → ℕ → List ℕ → Run (ℤ × Drive)
unfolding write_sectors selected_lba
disk_write_sector d lba total buf =
    map_run (λ d'. (pos 0, d')) (write_sectors total d (selected_lba lba) buf)

unfoldable pub disk_get : ℕ → Option DiskPtr
disk_get index = if index == 0 then some the_disk else none

unfoldable pub disk_read_block : Drive → DiskPtr → ℕ → ℕ → ℤ × List ℕ
unfolding disk_read_sector
disk_read_block d other_disk lba total = (neg eio, [])
disk_read_block d the_disk lba total = disk_read_sector d lba total

unfoldable pub disk_write_block : Drive → DiskPtr → ℕ → ℕ → List ℕ → Run (ℤ × Drive)
unfolding disk_write_sector
disk_write_block d other_disk lba total buf = done (neg eio, d)
disk_write_block d the_disk lba total buf = disk_write_sector d lba total buf
