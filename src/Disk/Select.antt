-- ===== src/Disk/Select.antt =====
-- disk.c: the sector that the port writes select.
use os_kernel_application_si.Base.{
  ℕ, ◌/◌, ◌%◌, ◌^◌, ◌<◌, ◌≡◌, refl, Bool, ◌==◌, ==_iff, bit_or, holds_below, holds_below-true,
  arith,
}
use os_kernel_application_si.Disk.{selected_lba}

-- Setting the three top bits of a byte keeps its low four.
keeps_low : ℕ → Bool
keeps_low x = bit_or x 0xE0 % 256 % 16 == x % 16

high_nibble : (x : ℕ) → x < 256 → bit_or x 0xE0 % 256 % 16 ≡ x % 16
unfolding keeps_low holds_below
high_nibble x small =
    (==_iff (bit_or x 0xE0 % 256 % 16) (x % 16)).0 (holds_below-true keeps_low 256 refl x small)

-- The drive is asked for the low 28 bits of the sector number.
pub selected_lba_lem : (lba : ℕ) → lba < 2 ^ 32 → selected_lba lba ≡ lba % 2 ^ 28
unfolding selected_lba
selected_lba_lem lba h = omega (arith, high_nibble (lba / 2 ^ 24) (omega arith))
