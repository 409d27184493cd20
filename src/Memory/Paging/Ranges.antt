-- ===== src/Memory/Paging/Ranges.antt =====
-- paging.c, `paging_map`, `paging_map_range` and `paging_map_to`: ranges of pages.
use os_kernel_application_si.Base.{
  ℕ, zero, suc, ◌+◌, ◌-◌, ◌*◌, ◌/◌, ◌%◌, ◌^◌, ◌≤◌, ◌<◌, ◌≡◌, refl, sym, ap, ◌∙◌, ◌≢◌, ◌⊎◌, inl, inr,
  ◌&&◌, leb, ltb, ltb_of_le, ◌==◌, if◌then◌else◌, arith, bit_or, pos,
}
use os_kernel_application_si.Memory.Paging.{
  Words, store_word, page_size, paging_get, paging_set, paging_map, map_range_loop,
  paging_map_range, paging_map_to,
}
use os_kernel_application_si.Memory.Paging.Directory.{
  store_word_ne, IsDirectory, IsPage, slot, paging_set-slot, paging_set-IsDirectory,
  paging_set-paging_get, slot-stored,
}

-- A chunk points to a directory, and lies outside its tables.
pub record IsChunk (m : Words) (c : ℕ) : Type 0 where
  pub directory : IsDirectory m (m c)
  pub outside : (v : ℕ) → IsPage v → c ≢ slot m (m c) v

-- The word of page `w` once `n` pages from `v` on are mapped to those from `phys` on.
unfoldable pub range_word : ℕ → ℕ → ℕ → ℕ → ℕ → ℕ → ℕ
range_word n v phys flags w old =
    if leb v w && ltb w (v + n * page_size) then bit_or (phys + (w - v)) flags else old

-- `m'` is `m` with those pages mapped.
pub record Mapped (m : Words) (c n v phys flags : ℕ) (m' : Words) : Type 0 where
  pub chunk : IsChunk m' c
  pub same : m' c ≡ m c
  pub pages :
      (w : ℕ)
      → IsPage w
      → paging_get m' (m c) w ≡ range_word n v phys flags w (paging_get m (m c) w)

none-Mapped : (m : Words) (c v phys flags : ℕ) → IsChunk m c → Mapped m c 0 v phys flags m
unfolding range_word
none-Mapped m c v phys flags is = record { chunk = is; same = refl; pages = λ w p. ground arith }

paging_map-paging_set :
    (m : Words) (c v phys flags : ℕ)
    → v % page_size ≡ 0
    → phys % page_size ≡ 0
    → paging_map m c v phys flags ≡ paging_set m (m c) v (bit_or phys flags)
unfolding paging_map
paging_map-paging_set m c v phys flags h k = rw (h, k) refl

range_word-within :
    (n v phys flags w old : ℕ)
    → v ≤ w
    → w < v + n * page_size
    → range_word n v phys flags w old ≡ bit_or (phys + (w - v)) flags
unfolding range_word
range_word-within n v phys flags w old lo hi = ground arith

range_word-outside :
    (n v phys flags w old : ℕ)
    → (w < v) ⊎ (v + n * page_size ≤ w)
    → range_word n v phys flags w old ≡ old
unfolding range_word
range_word-outside n v phys flags w old out = ground arith

-- `p + PAGING_PAGE_SIZE` of a pointer
abbrev next : ℕ → ℕ
next v = (v + page_size) % 2 ^ 32

-- Where page `w` is, of the range from `v` on
position :
    (n v w : ℕ)
    → v % page_size ≡ 0
    → w % page_size ≡ 0
    → (w ≡ v)
      ⊎ (((v + page_size ≤ w) × (w < v + suc n * page_size))
          ⊎ ((w < v) ⊎ (v + suc n * page_size ≤ w)))
position n v w h k = ground arith

-- The word of one page more
range_word-one :
    (n v phys flags w old : ℕ)
    → IsPage v
    → IsPage w
    → v + suc n * page_size ≤ 2 ^ 32
    → phys + suc n * page_size ≤ 2 ^ 32
    → range_word n
        ((v + page_size) % 2 ^ 32)
        ((phys + page_size) % 2 ^ 32)
        flags
        w
        (if w == v then bit_or phys flags else old)
      ≡ range_word (suc n) v phys flags w old
range_word-one n v phys flags w old p q lv lp = go (position n v w p.aligned q.aligned)
  where
    go :
        (w ≡ v)
          ⊎ (((v + page_size ≤ w) × (w < v + suc n * page_size))
              ⊎ ((w < v) ⊎ (v + suc n * page_size ≤ w)))
        → range_word n (next v) (next phys) flags w (if w == v then bit_or phys flags else old)
          ≡ range_word (suc n) v phys flags w old
    go (inl e) =
        range_word-outside n (next v) (next phys) flags w
          (if w == v then bit_or phys flags else old) (ground arith)
        ∙ ground (arith, range_word-within (suc n) v phys flags w old)
    go (inr (inl (lo, hi))) =
        range_word-within n (next v) (next phys) flags w (if w == v then bit_or phys flags else old)
          (omega (arith, p.word)) (omega (arith, p.word))
        ∙ ap (λ a. bit_or a flags) (omega (arith, p.word))
        ∙ sym (range_word-within (suc n) v phys flags w old (omega arith) hi)
    go (inr (inr out)) =
        range_word-outside n (next v) (next phys) flags w
          (if w == v then bit_or phys flags else old) (ground arith)
        ∙ ground arith
        ∙ sym (range_word-outside (suc n) v phys flags w old out)

module _ (c flags : ℕ) where
  one-Mapped :
      (m : Words) (v phys : ℕ)
      → IsChunk m c
      → IsPage v
      → phys % page_size ≡ 0
      → (m' : Words) × (paging_map m c v phys flags ≡ (pos 0, m'))
        × IsChunk m' c
        × (m' c ≡ m c)
        × ((w : ℕ)
            → IsPage w
            → paging_get m' (m c) w ≡ (if w == v then bit_or phys flags else paging_get m (m c) w))
  one-Mapped m v phys is p h =
      let val = bit_or phys flags in
      let kept : store_word m (slot m (m c) v) val c ≡ m c =
        store_word_ne m (slot m (m c) v) val c (is.outside v p) in
      let set = paging_set-slot m (m c) v val p.aligned in
      (
        store_word m (slot m (m c) v) val,
        paging_map-paging_set m c v phys flags p.aligned h ∙ set,
        record {
          directory = rw kept (rw set at (paging_set-IsDirectory m (m c) is.directory v val p));
          outside = λ w q. rw (kept, slot-stored m (m c) is.directory v val p w q) (is.outside w q);
        },
        kept,
        λ w q. rw set at (paging_set-paging_get m (m c) is.directory v val p w q),
      )

  map_range_loop-Mapped :
      (n : ℕ) (m : Words) (v phys : ℕ)
      → IsChunk m c
      → IsPage v
      → phys % page_size ≡ 0
      → v + n * page_size ≤ 2 ^ 32
      → phys + n * page_size ≤ 2 ^ 32
      → (m' : Words) × (map_range_loop n (pos 0) m c v phys flags ≡ (pos 0, m'))
        × Mapped m c n v phys flags m'
  unfolding map_range_loop
  map_range_loop-Mapped zero m v phys is p h lv lp = (m, refl, none-Mapped m c v phys flags is)
  map_range_loop-Mapped (suc n) m v phys is p h lv lp =
      let (m1, e, is1, same1, get1) = one-Mapped m v phys is p h in
      let (m2, e', got) =
        map_range_loop-Mapped n m1 ((v + page_size) % 2 ^ 32) ((phys + page_size) % 2 ^ 32) is1
          (record { aligned = omega (arith, p.aligned); word = omega arith }) (omega (arith, h))
          (omega (arith, lv, p.word)) (omega (arith, lp)) in
      (
        m2,
        rw (e, e'),
        record {
          chunk = got.chunk;
          same = got.same ∙ same1;
          pages = λ w q.
              rw same1 at (got.pages w q)
              ∙ rw (get1 w q) (range_word-one n v phys flags w (paging_get m (m c) w) p q lv lp);
        },
      )

-- Of a well-formed chunk, `paging_map_to` with aligned addresses, the end not in front of the start,
-- and a range of at most 2^32 - virt bytes returns 0 and maps exactly the pages of the range: page
-- `virt + i` to `phys + i` with the flags, and every other page stays as it was.
pub paging_map_to-Mapped :
    (m : Words) (c virt phys phys_end flags : ℕ)
    → IsChunk m c
    → IsPage virt
    → IsPage phys
    → IsPage phys_end
    → phys ≤ phys_end
    → virt + (phys_end - phys) ≤ 2 ^ 32
    → (m' : Words) × (paging_map_to m c virt phys phys_end flags ≡ (pos 0, m'))
      × Mapped m c ((phys_end - phys) / page_size) virt phys flags m'
unfolding paging_map_to paging_map_range
paging_map_to-Mapped m c virt phys phys_end flags is v p e le fits =
    let (m', r, got) =
      map_range_loop-Mapped c flags ((phys_end - phys) / page_size) m virt phys is v p.aligned
        (omega (arith, fits)) (omega (arith, le, e.word)) in
    (m', rw (v.aligned, p.aligned, e.aligned, ltb_of_le phys_end phys le) r, got)
