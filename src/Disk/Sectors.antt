-- ===== src/Disk/Sectors.antt =====
-- disk.c: reading and writing one sector, and the drive as a sequence of bytes.
use os_kernel_application_si.Base.{
  ℕ, zero, suc, ◌/◌, ◌%◌, ◌^◌, ◌<◌, ◌≡◌, refl, ap, List, [], ◌∷◌, append-nil, ltb_of_le, length,
  take, get_or, arith, done, pos,
}
use os_kernel_application_si.Disk.{
  Drive, the_disk, selected_lba, put_sector, disk_read_block, disk_write_block,
}
use os_kernel_application_si.Disk.Select.{selected_lba_lem}

-- Every sector has 512 bytes.
abbrev pub IsDrive : Drive → Type 0
IsDrive d = (l : ℕ) → length (d l) ≡ 512

-- The byte at address `a` of the drive.
abbrev pub byte_at : Drive → ℕ → ℕ
byte_at d a = get_or (d (a / 512)) (a % 512) 0

selected : (lba : ℕ) → lba < 2 ^ 28 → selected_lba lba ≡ lba
selected lba h = omega (arith, selected_lba_lem lba (omega arith))

pub disk_read_block-one :
    (d : Drive) (lba : ℕ) → lba < 2 ^ 28 → disk_read_block d the_disk lba 1 ≡ (pos 0, d lba)
unfolding disk_read_block
disk_read_block-one d lba h = rw (selected lba h, append-nil)

take_all : (n : ℕ) (xs : List ℕ) → length xs ≡ n → take n xs ≡ xs
take_all zero [] e = refl
take_all zero (x ∷ xs) e = absurd (omega arith)
take_all (suc n) [] e = absurd (omega arith)
take_all (suc n) (x ∷ xs) e = ap (λ r. x ∷ r) (take_all n xs (omega arith))

pub disk_write_block-one :
    (d : Drive) (lba : ℕ) (buf : List ℕ)
    → lba < 2 ^ 28
    → length buf ≡ 512
    → disk_write_block d the_disk lba 1 buf ≡ done (pos 0, put_sector d lba buf)
unfolding disk_write_block
disk_write_block-one d lba buf h e =
    rw (selected lba h, ltb_of_le (length buf) 512 (omega arith))
      (ap (λ b. done (pos 0, put_sector d lba b)) (take_all 512 buf e))
