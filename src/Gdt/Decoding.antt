-- ===== src/Gdt/Decoding.antt =====
-- gdt.c: the descriptors as the processor reads them.
use os_kernel_application_si.Base.{
  ℕ, ◌+◌, ◌*◌, ◌/◌, ◌%◌, ◌^◌, ◌≤◌, ◌<◌, ◌≡◌, refl, ap, ◌≢◌, ◌⊎◌, inl, inr, true, false, ltb,
  if◌then◌else◌, arith, Bool-cases, List, get_or, bit_and, [], ◌∷◌, bit_or, bit_or-shl,
  bit_and-ones, shl, done, fault,
}
use os_kernel_application_si.Gdt.{GdtStructured, encode_gdt_entry}

-- The base, the access byte and the limit in bytes of a descriptor: with the flag of granularity a
-- limit counts pages of 4096 bytes.
pub record Segment : Type 0 where
  pub base : ℕ
  pub access : ℕ
  pub limit : ℕ

abbrev byte : List ℕ → ℕ → ℕ
byte d i = get_or d i 0

unfoldable pub decode : List ℕ → Segment
decode d =
    let limit = byte d 0 + byte d 1 * 256 + byte d 6 % 16 * 65536 in
    record {
      base = byte d 2 + byte d 3 * 256 + byte d 4 * 65536 + byte d 7 * 16777216;
      access = byte d 5;
      limit = if ltb (byte d 6) 128 then limit else limit * 4096 + 4095;
    }

low_byte : (x : ℕ) → bit_and x 0xFF ≡ x % 256
low_byte x = omega (arith, bit_and-ones 8 x)

low_digit : (x : ℕ) → bit_and x 0x0F ≡ x % 16
low_digit x = omega (arith, bit_and-ones 4 x)

low_page : (x : ℕ) → bit_and x 0xFFF ≡ x % 4096
low_page x = omega (arith, bit_and-ones 12 x)

with_flags : (k x : ℕ) → bit_or (k * 16) (bit_and x 0x0F) ≡ k * 16 + x % 16
with_flags k x =
    let e : k * 16 ≡ shl 4 k = omega arith in
    rw (low_digit x, e) (bit_or-shl 4 k (x % 16) (omega arith))

-- A limit the descriptors can say: one below 2^20 bytes is taken up to 65536, one above that must
-- end a page.
pub record IsSource (s : GdtStructured) : Type 0 where
  pub base : s.base < 2 ^ 32
  pub limit : s.limit < 2 ^ 32
  pub pages : (s.limit ≤ 65536) ⊎ (s.limit % 4096 ≡ 4095)

-- The bytes, by their values, with the flags `k` in the high half of the seventh
abbrev descriptor : ℕ → ℕ → GdtStructured → List ℕ
descriptor limit k s =
    limit % 256
    ∷ limit / 256 % 256
    ∷ s.base % 256
    ∷ s.base / 256 % 256
    ∷ s.base / 65536 % 256
    ∷ s.type
    ∷ (k * 16 + limit / 65536 % 16)
    ∷ s.base / 16777216 % 256
    ∷ []

bytes :
    (limit k : ℕ) (s : GdtStructured)
    → bit_and limit 0xFF
        ∷ bit_and (limit / 256) 0xFF
        ∷ bit_and s.base 0xFF
        ∷ bit_and (s.base / 256) 0xFF
        ∷ bit_and (s.base / 65536) 0xFF
        ∷ s.type
        ∷ bit_or (k * 16) (bit_and (limit / 65536) 0x0F)
        ∷ bit_and (s.base / 16777216) 0xFF
        ∷ []
      ≡ descriptor limit k s
bytes limit k s =
    rw
      (
        low_byte limit,
        low_byte (limit / 256),
        low_byte s.base,
        low_byte (s.base / 256),
        low_byte (s.base / 65536),
        low_byte (s.base / 16777216),
        with_flags k (limit / 65536),
      )
      refl

decode-small :
    (limit : ℕ) (s : GdtStructured)
    → IsSource s
    → limit ≤ 65536
    → decode (descriptor limit 4 s) ≡ record { base = s.base; access = s.type; limit = limit }
unfolding decode
decode-small limit s is le =
    let b : s.base % 256
          + s.base / 256 % 256 * 256
          + s.base / 65536 % 256 * 65536
          + s.base / 16777216 % 256 * 16777216
        ≡ s.base =
      omega (arith, is.base) in
    let l : limit % 256 + limit / 256 % 256 * 256 + (4 * 16 + limit / 65536 % 16) % 16 * 65536
        ≡ limit =
      omega (arith, le) in
    let f : ltb (4 * 16 + limit / 65536 % 16) 128 ≡ true = ground arith in rw (b, l, f) refl

decode-large :
    (limit : ℕ) (s : GdtStructured)
    → IsSource s
    → limit < 2 ^ 20
    → decode (descriptor limit 12 s)
      ≡ record { base = s.base; access = s.type; limit = limit * 4096 + 4095 }
unfolding decode
decode-large limit s is le =
    let b : s.base % 256
          + s.base / 256 % 256 * 256
          + s.base / 65536 % 256 * 65536
          + s.base / 16777216 % 256 * 16777216
        ≡ s.base =
      omega (arith, is.base) in
    let l : limit % 256 + limit / 256 % 256 * 256 + (12 * 16 + limit / 65536 % 16) % 16 * 65536
        ≡ limit =
      omega (arith, le) in
    let f : ltb (12 * 16 + limit / 65536 % 16) 128 ≡ false = ground arith in rw (b, l, f) refl

-- For a base and a limit of 32 bits, the limit at most 65536 or the last byte of a page,
-- `encodeGdtEntry` writes a descriptor from which the processor reads the base, the limit and the
-- type that it was given.
pub encode_gdt_entry-decode :
    (s : GdtStructured)
    → IsSource s
    → (d : List ℕ) × (encode_gdt_entry s ≡ done d)
      × (decode d ≡ record { base = s.base; access = s.type; limit = s.limit })
unfolding encode_gdt_entry
encode_gdt_entry-decode s is = elim (Bool-cases (ltb 65536 s.limit)) [
  | inr small ↦ (
    descriptor s.limit 4 s,
    rw small (ap done (bytes s.limit 4 s)),
    decode-small s.limit s is (ground arith),
  )
  | inl large ↦
      let ends : s.limit % 4096 ≡ 4095 = ground (arith, is.pages) in
      let whole : s.limit / 4096 * 4096 + 4095 ≡ s.limit = omega (arith, ends) in
      (
        descriptor (s.limit / 4096) 12 s,
        rw (large, low_page s.limit, ends) (ap done (bytes (s.limit / 4096) 12 s)),
        rw whole at (decode-large (s.limit / 4096) s is (omega (arith, is.limit))),
      )
]

-- `encodeGdtEntry` panics on every other limit of 32 bits.
pub encode_gdt_entry-panics :
    (s : GdtStructured) → 65536 < s.limit → s.limit % 4096 ≢ 4095 → encode_gdt_entry s ≡ fault
unfolding encode_gdt_entry
encode_gdt_entry-panics s big ne = ground (arith, low_page s.limit)
