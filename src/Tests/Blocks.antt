-- ===== src/Tests/Blocks.antt =====
-- The stream on a drive whose sectors are all 0.
use os_kernel_application_si.Base.{
  ℕ, ◌≡◌, arith, [], ◌∷◌, length-replicate, replicate, done, fault, pos,
}
use os_kernel_application_si.Disk.{Drive}
use os_kernel_application_si.Disk.Sectors.{IsDrive}
use os_kernel_application_si.Disk.Streamer.{diskstreamer_read, diskstreamer_write}
use os_kernel_application_si.Disk.Streamer.Write.{at_pos, Written, diskstreamer_write_lem}
use os_kernel_application_si.Disk.Streamer.Read.{
  bytes_from, diskstreamer_read_whole, diskstreamer_read_beyond,
  diskstreamer_write-diskstreamer_read,
}

abbrev blank : Drive
blank lba = replicate 512 0

blank-IsDrive : IsDrive blank
blank-IsDrive lba = length-replicate {A = ℕ} 512 0

-- Four bytes across the end of the first sector.
diskstreamer_write_lem_example :
    (d' : Drive) × (diskstreamer_write 5 blank (at_pos 510) (1 ∷ 2 ∷ 3 ∷ 4 ∷ []) 4
      ≡ done (pos 0, d', at_pos 514))
    × Written blank 510 (1 ∷ 2 ∷ 3 ∷ 4 ∷ []) 4 d'
diskstreamer_write_lem_example =
    diskstreamer_write_lem 5 blank 510 (1 ∷ 2 ∷ 3 ∷ 4 ∷ []) 4 blank-IsDrive (omega arith)
      (omega arith) (omega arith)

diskstreamer_read_beyond_example : diskstreamer_read 5 blank (at_pos 510) 4 ≡ fault
diskstreamer_read_beyond_example =
    diskstreamer_read_beyond 5 blank 510 4 blank-IsDrive (omega arith) (omega arith) (omega arith)

diskstreamer_read_whole_example :
    diskstreamer_read 601 blank (at_pos 512) 600
    ≡ done (pos 0, bytes_from blank 512 600, at_pos 1112)
diskstreamer_read_whole_example =
    diskstreamer_read_whole 601 blank 512 600 blank-IsDrive (omega arith) (omega arith)
      (omega arith)

diskstreamer_write-diskstreamer_read_example :
    (d' : Drive) × (diskstreamer_write 3 blank (at_pos 1030) (7 ∷ 8 ∷ []) 2
      ≡ done (pos 0, d', at_pos 1032))
    × (diskstreamer_read 3 d' (at_pos 1030) 2 ≡ done (pos 0, 7 ∷ 8 ∷ [], at_pos 1032))
diskstreamer_write-diskstreamer_read_example =
    diskstreamer_write-diskstreamer_read 3 blank 1030 (7 ∷ 8 ∷ []) 2 blank-IsDrive (omega arith)
      (omega arith) (omega arith) (omega arith)
