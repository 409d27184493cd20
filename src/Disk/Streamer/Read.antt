-- ===== src/Disk/Streamer/Read.antt =====
-- streamer.c, `diskstreamer_read`: which bytes it gives, and where it reads behind its buffer.
use os_kernel_application_si.Base.{
  ℕ, zero, suc, ◌+◌, ◌-◌, ◌*◌, ◌/◌, ◌%◌, ◌^◌, ◌≤◌, ◌<◌, ◌≡◌, refl, ap, ◌∙◌, min, inl, inr, List, [],
  ◌∷◌, ◌++◌, ltb, Bool-cases, if◌then◌else◌, length, take, drop, get_or, arith, done, fault,
  map_run, pos,
}
use mathlib.Core.Path.{ap₂}
use os_kernel_application_si.Disk.{Drive, sector_size}
use os_kernel_application_si.Disk.Sectors.{IsDrive, byte_at, disk_read_block-one}
use os_kernel_application_si.Disk.Streamer.{after_bytes, diskstreamer_read, diskstreamer_write}
use os_kernel_application_si.Disk.Streamer.Write.{
  at_pos, overwritten, Written, diskstreamer_write_lem,
}

-- The bytes of the drive at the addresses `p` to `p + n`.
unfoldable pub bytes_from : Drive → ℕ → ℕ → List ℕ
bytes_from d p zero = []
bytes_from d p (suc n) = byte_at d p ∷ bytes_from d (p + 1) n

take-drop-cons :
    (off n : ℕ) (xs : List ℕ)
    → off < length xs
    → take (suc n) (drop off xs) ≡ get_or xs off 0 ∷ take n (drop (off + 1) xs)
take-drop-cons zero n [] h = absurd (omega arith)
take-drop-cons (suc off) n [] h = absurd (omega arith)
take-drop-cons zero n (x ∷ xs) h = refl
take-drop-cons (suc off) n (x ∷ xs) h =
    let e : suc off + 1 ≡ suc (off + 1) = omega arith in
    rw e (take-drop-cons off n xs (omega arith))

-- Bytes within one sector.
take-sector :
    (n : ℕ) (d : Drive) (l off p : ℕ)
    → IsDrive d
    → off + n ≤ 512
    → p ≡ l * 512 + off
    → take n (drop off (d l)) ≡ bytes_from d p n
unfolding bytes_from
take-sector zero d l off p is h e = refl
take-sector (suc n) d l off p is h e =
    let q : p / 512 ≡ l = omega arith in
    let r : p % 512 ≡ off = omega arith in
    take-drop-cons off n (d l) (omega (arith, is l))
    ∙ rw (q, r)
        (ap (λ t. get_or (d l) off 0 ∷ t)
          (take-sector n d l (off + 1) (p + 1) is (omega arith) (omega arith)))

bytes_from-append :
    (n m : ℕ) (d : Drive) (p total : ℕ)
    → n + m ≡ total
    → bytes_from d p n ++ bytes_from d (p + n) m ≡ bytes_from d p total
unfolding bytes_from
bytes_from-append zero m d p total e =
    let a : p + 0 ≡ p = omega arith in let b : m ≡ total = omega arith in rw (a, b)
bytes_from-append (suc n) m d p zero e = absurd (omega arith)
bytes_from-append (suc n) m d p (suc total) e =
    let a : p + suc n ≡ p + 1 + n = omega arith in
    rw a (ap (λ t. byte_at d p ∷ t) (bytes_from-append n m d (p + 1) total (omega arith)))

-- A read begins and ends in one sector, or begins at the start of one.
abbrev pub InSector : ℕ → ℕ → Type 0
InSector p total = p % 512 + min total 512 ≤ 512

read_step :
    (fuel : ℕ) (d : Drive) (p total : ℕ)
    → IsDrive d
    → p < 2 ^ 31
    → InSector p total
    → diskstreamer_read (suc fuel) d (at_pos p) total ≡ (
        if ltb 512 total
        then map_run
            (after_bytes (bytes_from d p (min total 512)))
            (diskstreamer_read fuel d (at_pos (p + min total 512)) (total - 512))
        else done (pos 0, bytes_from d p (min total 512), at_pos (p + min total 512)))
unfolding diskstreamer_read
read_step fuel d p total is small h =
    let n = min total 512 in
    let clipped : (if ltb sector_size total then sector_size else total) ≡ n = ground arith in
    let got = take-sector n d (p / 512) (p % 512) p is h (omega arith) in
    ground (arith, disk_read_block-one d (p / 512), is (p / 512), clipped, got)

read_fault :
    (fuel : ℕ) (d : Drive) (p total : ℕ)
    → IsDrive d
    → p < 2 ^ 31
    → 512 < p % 512 + min total 512
    → diskstreamer_read (suc fuel) d (at_pos p) total ≡ fault
unfolding diskstreamer_read
read_fault fuel d p total is small h = ground (arith, disk_read_block-one d (p / 512), is (p / 512))

-- Both cases of a read.
pub diskstreamer_read_lem :
    (fuel : ℕ) (d : Drive) (p total : ℕ)
    → IsDrive d
    → p + total < 2 ^ 31
    → total < fuel
    → (InSector p total
        → diskstreamer_read fuel d (at_pos p) total
          ≡ done (pos 0, bytes_from d p total, at_pos (p + total)))
      × (512 < p % 512 + min total 512 → diskstreamer_read fuel d (at_pos p) total ≡ fault)
diskstreamer_read_lem zero d p total is small f = absurd (omega arith)
diskstreamer_read_lem (suc fuel) d p total is small f = (
  λ h. elim (Bool-cases (ltb 512 total)) [
    | inl more ↦
        let n : min total 512 ≡ 512 = ground arith in
        let rest =
          (diskstreamer_read_lem fuel d (p + 512) (total - 512) is (ground arith) (ground arith)).0
            (ground arith) in
        let end : p + 512 + (total - 512) ≡ p + total = ground arith in
        read_step fuel d p total is (omega arith) h
        ∙ rw (more, n, rest, end, bytes_from-append 512 (total - 512) d p total (ground arith))
    | inr last ↦
        let n : min total 512 ≡ total = ground arith in
        read_step fuel d p total is (omega arith) h ∙ rw (last, n)
  ],
  λ h. read_fault fuel d p total is (omega arith) h,
)

-- `diskstreamer_read` of `total` bytes at position `p` that lie in one sector or begin at the start
-- of one returns exactly the bytes at `p` to `p + total`, and moves the position behind them.
pub diskstreamer_read_whole :
    (fuel : ℕ) (d : Drive) (p total : ℕ)
    → IsDrive d
    → p + total < 2 ^ 31
    → total < fuel
    → InSector p total
    → diskstreamer_read fuel d (at_pos p) total
      ≡ done (pos 0, bytes_from d p total, at_pos (p + total))
diskstreamer_read_whole fuel d p total is small f h =
    (diskstreamer_read_lem fuel d p total is small f).0 h

-- `diskstreamer_read` of bytes that begin inside a sector and go on behind its end reads behind the
-- end of its sector buffer.
pub diskstreamer_read_beyond :
    (fuel : ℕ) (d : Drive) (p total : ℕ)
    → IsDrive d
    → p + total < 2 ^ 31
    → total < fuel
    → 512 < p % 512 + min total 512
    → diskstreamer_read fuel d (at_pos p) total ≡ fault
diskstreamer_read_beyond fuel d p total is small f h =
    (diskstreamer_read_lem fuel d p total is small f).1 h

bytes_from-Written :
    (n k : ℕ) (d d' : Drive) (p total : ℕ) (src : List ℕ)
    → Written d p src total d'
    → k + n ≤ total
    → total ≤ length src
    → bytes_from d' (p + k) n ≡ take n (drop k src)
unfolding bytes_from
bytes_from-Written zero k d d' p total src w h len = refl
bytes_from-Written (suc n) k d d' p total src w h len =
    let e : p + k + 1 ≡ p + (k + 1) = omega arith in
    rw (take-drop-cons k n src (omega arith), e)
      (ap₂ ◌∷◌ (w.bytes (p + k) ∙ hit)
        (bytes_from-Written n (k + 1) d d' p total src w (omega arith) len))
  where
    hit : overwritten d p src total (p + k) ≡ get_or src k 0
    hit = let e : p + k - p ≡ k = omega arith in ground (arith, e)

-- What `diskstreamer_write` stored, `diskstreamer_read` gives back.
pub diskstreamer_write-diskstreamer_read :
    (fuel : ℕ) (d : Drive) (p : ℕ) (src : List ℕ) (total : ℕ)
    → IsDrive d
    → p + total < 2 ^ 31
    → total ≤ length src
    → total < fuel
    → InSector p total
    → (d' : Drive) × (diskstreamer_write fuel d (at_pos p) src total
        ≡ done (pos 0, d', at_pos (p + total)))
      × (diskstreamer_read fuel d' (at_pos p) total
          ≡ done (pos 0, take total src, at_pos (p + total)))
diskstreamer_write-diskstreamer_read fuel d p src total is small len f h =
    let (d', e, w) = diskstreamer_write_lem fuel d p src total is small len f in
    let z : p + 0 ≡ p = omega arith in
    let back = bytes_from-Written total 0 d d' p total src w (omega arith) len in
    (d', e, (diskstreamer_read_lem fuel d' p total w.sectors small f).0 h ∙ rw (rw z at back))
