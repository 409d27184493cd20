-- ===== src/Gdt.antt =====
-- gdt/gdt.c and gdt.h: the descriptors of the processor's segments, as their 8 bytes.
pub mod Decoding
use os_kernel_application_si.Base.{
  ℕ, zero, suc, ◌+◌, ◌/◌, Bool, not, ◌&&◌, ltb, ◌==◌, if◌then◌else◌, List, [], ◌∷◌, bit_and, bit_or,
  Run, done, fault, and_then, map_run,
}

pub record GdtStructured : Type 0 where
  pub base : ℕ
  pub limit : ℕ
  pub type : ℕ

-- A target of 8 bytes; a panic does not return. `limit >> 12` is the limit that is encoded above
-- 65536, with the flags 0xC0 in place of 0x40.
unfoldable pub encode_gdt_entry : GdtStructured → Run (List ℕ)
encode_gdt_entry source =
    let large = ltb 65536 source.limit in
    let limit = if large then source.limit / 4096 else source.limit in
    let flags = if large then 0xC0 else 0x40 in
    if large && not (bit_and source.limit 0xFFF == 0xFFF)
    then fault
    else done (
        bit_and limit 0xFF
        ∷ bit_and (limit / 256) 0xFF
        ∷ bit_and source.base 0xFF
        ∷ bit_and (source.base / 256) 0xFF
        ∷ bit_and (source.base / 65536) 0xFF
        ∷ source.type
        ∷ bit_or flags (bit_and (limit / 65536) 0x0F)
        ∷ bit_and (source.base / 16777216) 0xFF
        ∷ [])

-- `total_entires` rounds; the table has as many entries as the list, and the kernel passes that many.
unfoldable pub gdt_structured_to_gdt : List GdtStructured → ℕ → Run (List (List ℕ))
gdt_structured_to_gdt structured_gdt zero = done []
gdt_structured_to_gdt [] (suc n) = fault
gdt_structured_to_gdt (s ∷ structured_gdt) (suc n) =
    and_then (encode_gdt_entry s)
      λ e. map_run (λ rest. e ∷ rest) (gdt_structured_to_gdt structured_gdt n)

-- kernel.c, `gdt_structured`, with the address and the size of the task state segment
abbrev pub gdt_structured : ℕ → ℕ → List GdtStructured
gdt_structured tss size =
    record { base = 0; limit = 0; type = 0 }
    ∷ record { base = 0; limit = 0xffffffff; type = 0x9a }
    ∷ record { base = 0; limit = 0xffffffff; type = 0x92 }
    ∷ record { base = 0; limit = 0xffffffff; type = 0xf8 }
    ∷ record { base = 0; limit = 0xffffffff; type = 0xf2 }
    ∷ record { base = tss; limit = size; type = 0xE9 }
    ∷ []
