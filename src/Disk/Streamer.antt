-- ===== src/Disk/Streamer.antt =====
-- disk/streamer.c: a position in the bytes of the disk. Positions are those of an `int` that is not
-- negative. A read returns the bytes that it stores through `out`; the object there is the caller's.
pub mod Write
pub mod Read
use os_kernel_application_si.Base.{
  ℕ, zero, suc, ◌+◌, ◌-◌, ◌/◌, ◌%◌, Bool, Option, none, some, List, [], ◌∷◌, ◌++◌, ltb,
  if◌then◌else◌, length, take, drop, Run, done, fault, out_of_fuel, and_then, map_run, ℤ, pos,
  negsuc,
}
use os_kernel_application_si.Memory.Bytes.{memcpy}
use os_kernel_application_si.Disk.{
  Drive, DiskPtr, sector_size, disk_get, disk_read_block, disk_write_block,
}

pub record Stream : Type 0 where
  pub pos : ℕ
  pub disk : DiskPtr

-- `none` is a null pointer. The allocation is taken to succeed: the code does not test it.
unfoldable pub diskstreamer_new : ℕ → Option Stream
unfolding disk_get
diskstreamer_new disk_id = elim (disk_get disk_id) [
  | none ↦ none
  | some disk ↦ some (record { pos = 0; disk = disk })
]

unfoldable pub diskstreamer_seek : Stream → ℕ → ℤ × Stream
diskstreamer_seek stream p = (ℤ.pos 0, record stream { pos = p })

-- `buf[offset + i]` for `i` below `n`, where `buf` is the list
abbrev pub slice : List ℕ → ℕ → ℕ → Run (List ℕ)
slice buf offset n =
    if ltb (length buf) (offset + n) then fault else done (take n (drop offset buf))

-- The bytes that this call stored stand in front of those of the next.
abbrev pub after_bytes : List ℕ → ℤ × List ℕ × Stream → ℤ × List ℕ × Stream
after_bytes bytes (res, more, s) = (res, bytes ++ more, s)

unfoldable pub diskstreamer_read : ℕ → Drive → Stream → ℕ → Run (ℤ × List ℕ × Stream)
diskstreamer_read zero d stream total = out_of_fuel
diskstreamer_read (suc fuel) d stream total =
    let sector = stream.pos / sector_size in
    let offset = stream.pos % sector_size in
    let (res, buf) = disk_read_block d stream.disk sector 1 in
    elim res [
      | negsuc e ↦ done (negsuc e, [], stream)
      | pos r ↦
          let total_to_read = if ltb sector_size total then sector_size else total in
          and_then (slice buf offset total_to_read) λ bytes.
            let moved = record stream { pos = stream.pos + total_to_read } in
            let rest = diskstreamer_read fuel d moved (total - sector_size) in
            if ltb sector_size total
            then map_run (after_bytes bytes) rest
            else done (pos r, bytes, moved)
    ]

unfoldable pub diskstreamer_write : ℕ → Drive → Stream → List ℕ → ℕ → Run (ℤ × Drive × Stream)
diskstreamer_write zero d stream src total = out_of_fuel
diskstreamer_write (suc fuel) d stream src total =
    let sector = stream.pos / sector_size in
    let offset = stream.pos % sector_size in
    let (res, buf) = disk_read_block d stream.disk sector 1 in
    elim res [
      | negsuc e ↦ done (negsuc e, d, stream)
      | pos r ↦
          let room = sector_size - offset in
          let total_to_write = if ltb room total then room else total in
          and_then (memcpy total_to_write buf offset src) λ buf'.
            and_then (disk_write_block d stream.disk sector 1 buf') λ (res', d'). elim res' [
              | negsuc e ↦ done (negsuc e, d', stream)
              | pos r' ↦
                  let moved = record stream { pos = stream.pos + total_to_write } in
                  let rest =
                    diskstreamer_write fuel d' moved (drop total_to_write src)
                      (total - total_to_write) in
                  if ltb total_to_write total then rest else done (pos r', d', moved)
            ]
    ]
