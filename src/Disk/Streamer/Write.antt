-- ===== src/Disk/Streamer/Write.antt =====
-- streamer.c, `diskstreamer_write`: which bytes of the drive it changes.
use os_kernel_application_si.Base.{
  ℕ, zero, suc, ◌+◌, ◌-◌, ◌/◌, ◌%◌, ◌^◌, ◌≤◌, ◌<◌, ◌≡◌, refl, ap, ◌∙◌, inl, inr, List, [], ◌∷◌, ltb,
  leb, ◌&&◌, ◌==◌, ==_iff, Bool-cases, if◌then◌else◌, length, drop, get_or, length-drop, arith,
  done, pos,
}
use os_kernel_application_si.Memory.Bytes.{memcpy}
use os_kernel_application_si.Memory.Bytes.Copy.{memcpy_lem, copied}
use os_kernel_application_si.Disk.{Drive, the_disk, sector_size, put_sector}
use os_kernel_application_si.Disk.Sectors.{
  IsDrive, byte_at, disk_read_block-one, disk_write_block-one,
}
use os_kernel_application_si.Disk.Streamer.{Stream, diskstreamer_write}

abbrev pub at_pos : ℕ → Stream
at_pos p = record { pos = p; disk = the_disk }

-- The bytes of the drive after `total` bytes of `src` were written at address `p`.
abbrev pub overwritten : Drive → ℕ → List ℕ → ℕ → ℕ → ℕ
overwritten d p src total a =
    if leb p a && ltb a (p + total) then get_or src (a - p) 0 else byte_at d a

-- `d'` is the drive `d` with `total` bytes of `src` at address `p`.
pub record Written (d : Drive) (p : ℕ) (src : List ℕ) (total : ℕ) (d' : Drive) : Type 0 where
  pub sectors : IsDrive d'
  pub bytes : (a : ℕ) → byte_at d' a ≡ overwritten d p src total a

get_or-drop : (n : ℕ) (xs : List ℕ) (k : ℕ) → get_or (drop n xs) k 0 ≡ get_or xs (n + k) 0
get_or-drop zero xs k = ap (λ j. get_or xs j 0) (omega arith)
get_or-drop (suc n) [] k = refl
get_or-drop (suc n) (x ∷ xs) k =
    let e : suc n + k ≡ suc (n + k) = omega arith in rw e (get_or-drop n xs k)

-- A sector is put back with some of its bytes replaced.
put_sector-Written :
    (d : Drive) (p n : ℕ) (src out : List ℕ)
    → IsDrive d
    → p % 512 + n ≤ 512
    → length out ≡ 512
    → ((j : ℕ) → get_or out j 0 ≡ copied (d (p / 512)) (p % 512) src n j)
    → Written d p src n (put_sector d (p / 512) out)
put_sector-Written d p n src out is fits len at = record {
  sectors = λ l. ground (arith, is l);
  bytes = λ a. elim (Bool-cases (a / 512 == p / 512)) [
    | inl same ↦
        let e = (==_iff (a / 512) (p / 512)).0 same in
        let k : a % 512 - p % 512 ≡ a - p = omega (arith, e) in
        rw same (at (a % 512) ∙ ground (arith, k, e, ap d e))
    | inr other ↦ ground arith
  ];
}

-- The bytes that one round writes.
abbrev round : ℕ → ℕ → ℕ
round p total =
    if ltb (sector_size - p % sector_size) total then sector_size - p % sector_size else total

write_step_run :
    (fuel : ℕ) (d : Drive) (p n : ℕ) (src out : List ℕ) (total : ℕ)
    → p < 2 ^ 31
    → n ≡ round p total
    → memcpy n (d (p / 512)) (p % 512) src ≡ done out
    → length out ≡ 512
    → diskstreamer_write (suc fuel) d (at_pos p) src total ≡ (
        if ltb n total
        then diskstreamer_write fuel
            (put_sector d (p / 512) out)
            (at_pos (p + n))
            (drop n src)
            (total - n)
        else done (pos 0, put_sector d (p / 512) out, at_pos (p + n)))
unfolding diskstreamer_write
write_step_run fuel d p n src out total small en e full =
    ground (arith, disk_read_block-one d (p / 512), e, disk_write_block-one d (p / 512) out)

write_step :
    (fuel : ℕ) (d : Drive) (p : ℕ) (src : List ℕ) (total : ℕ)
    → IsDrive d
    → p < 2 ^ 31
    → total ≤ length src
    → (d' : Drive) × Written d p src (round p total) d'
      × (diskstreamer_write (suc fuel) d (at_pos p) src total ≡ (
          if ltb (round p total) total
          then diskstreamer_write fuel d'
              (at_pos (p + round p total))
              (drop (round p total) src)
              (total - round p total)
          else done (pos 0, d', at_pos (p + round p total))))
write_step fuel d p src total is small len =
    let n = round p total in
    let fits : p % 512 + n ≤ length (d (p / 512)) = ground (arith, is (p / 512)) in
    let (out, e, len', at) = memcpy_lem n (d (p / 512)) (p % 512) src fits (ground arith) in
    let full = len' ∙ is (p / 512) in
    (
      put_sector d (p / 512) out,
      put_sector-Written d p n src out is (ground (arith, is (p / 512), fits)) full at,
      write_step_run fuel d p n src out total small refl e full,
    )

-- Two writes one behind the other.
Written-append :
    (d d' d'' : Drive) (p n total : ℕ) (src : List ℕ)
    → n ≤ total
    → Written d p src n d'
    → Written d' (p + n) (drop n src) (total - n) d''
    → Written d p src total d''
Written-append d d' d'' p n total src le w w' = record {
  sectors = w'.sectors;
  bytes = λ a. w'.bytes a ∙ ground (arith, w.bytes a, get_or-drop n src (a - (p + n)), index a);
}
  where
    index : (a : ℕ) → p + n ≤ a → get_or src (n + (a - (p + n))) 0 ≡ get_or src (a - p) 0
    index a h = ap (λ k. get_or src k 0) (omega arith)

-- `diskstreamer_write` at position `p` returns, stores `total` bytes of its source at the addresses
-- `p` to `p + total`, leaves every other byte of the drive as it was, and moves the position behind
-- them, on every alignment.
pub diskstreamer_write_lem :
    (fuel : ℕ) (d : Drive) (p : ℕ) (src : List ℕ) (total : ℕ)
    → IsDrive d
    → p + total < 2 ^ 31
    → total ≤ length src
    → total < fuel
    → (d' : Drive) × (diskstreamer_write fuel d (at_pos p) src total
        ≡ done (pos 0, d', at_pos (p + total)))
      × Written d p src total d'
diskstreamer_write_lem zero d p src total is small len f = absurd (omega arith)
diskstreamer_write_lem (suc fuel) d p src total is small len f =
    let n = round p total in
    let (d', w, e) = write_step fuel d p src total is (omega arith) len in
    elim (Bool-cases (ltb n total)) [
      | inl more ↦
          let (d'', e', w') =
            diskstreamer_write_lem fuel d' (p + n) (drop n src) (total - n) w.sectors (ground arith)
              (omega (arith, length-drop n src)) (ground arith) in
          (
            d'',
            e ∙ rw more (e' ∙ ap (λ k. done (pos 0, d'', at_pos k)) (ground arith)),
            Written-append d d' d'' p n total src (ground arith) w w',
          )
      | inr last ↦ let k : n ≡ total = ground arith in (d', e ∙ rw (last, k), rw k at w)
    ]
