-- ===== src/Memory/Paging/Directory.antt =====
-- paging.c, `paging_set` and `paging_get`: a directory as a map from pages to words.
use os_kernel_application_si.Base.{
  ℕ, ◌*◌, ◌/◌, ◌%◌, ◌^◌, ◌<◌, ◌≡◌, refl, ap, ◌≢◌, inl, inr, ◌==◌, if◌then◌else◌, arith, Bool-cases,
  ==_iff, bit_and-page, pos,
}
use os_kernel_application_si.Memory.Paging.{
  Words, store_word, word_at, table_address, page_size, total_entries_per_table, paging_is_aligned,
  paging_get_indexes, paging_get, paging_set,
}

pub store_word_self : (m : Words) (a v : ℕ) → store_word m a v a ≡ v
unfolding store_word
store_word_self m a v = ground arith

pub store_word_ne : (m : Words) (a v b : ℕ) → b ≢ a → store_word m a v b ≡ m b
unfolding store_word
store_word_ne m a v b ne = ground arith

-- The address of a table, where entry `i` of the directory points.
abbrev pub table_of : Words → ℕ → ℕ → ℕ
table_of m d i = table_address (m (word_at d i))

-- A directory on a page of its own, with tables on pages of their own.
pub record IsDirectory (m : Words) (d : ℕ) : Type 0 where
  pub aligned : d % page_size ≡ 0
  pub words : (i : ℕ) → i < total_entries_per_table → m (word_at d i) < 2 ^ 32
  pub apart : (i : ℕ) → i < total_entries_per_table → table_of m d i ≢ d
  pub distinct :
      (i j : ℕ)
      → i < total_entries_per_table
      → j < total_entries_per_table
      → table_of m d i ≡ table_of m d j
      → i ≡ j

-- A page: an aligned address of 32 bits
pub record IsPage (v : ℕ) : Type 0 where
  pub aligned : v % page_size ≡ 0
  pub word : v < 2 ^ 32

abbrev pub directory_index : ℕ → ℕ
directory_index v = v / (total_entries_per_table * page_size)

abbrev pub table_index : ℕ → ℕ
table_index v = v % (total_entries_per_table * page_size) / page_size

-- Where the word of page `v` is.
abbrev pub slot : Words → ℕ → ℕ → ℕ
slot m d v = word_at (table_of m d (directory_index v)) (table_index v)

indexes :
    (v : ℕ) → v % page_size ≡ 0 → paging_get_indexes v ≡ (pos 0, directory_index v, table_index v)
unfolding paging_get_indexes paging_is_aligned
indexes v h = rw h refl

pub paging_get-slot : (m : Words) (d v : ℕ) → v % page_size ≡ 0 → paging_get m d v ≡ m (slot m d v)
unfolding paging_get
paging_get-slot m d v h = rw (indexes v h) refl

pub paging_set-slot :
    (m : Words) (d v val : ℕ)
    → v % page_size ≡ 0
    → paging_set m d v val ≡ (pos 0, store_word m (slot m d v) val)
unfolding paging_set paging_is_aligned
paging_set-slot m d v val h = rw (h, indexes v h) refl

module _ (m : Words) (d : ℕ) (is : IsDirectory m d) where
  table-aligned : (i : ℕ) → i < total_entries_per_table → table_of m d i % page_size ≡ 0
  table-aligned i lt = rw (bit_and-page (m (word_at d i)) (is.words i lt)) (omega arith)

  -- The words of the tables are none of the directory's.
  slot-outside : (v i : ℕ) → IsPage v → i < total_entries_per_table → word_at d i ≢ slot m d v
  slot-outside v i p lt e =
      is.apart (directory_index v) (omega (arith, p.word)) (
        omega (arith, e, is.aligned, lt, table-aligned (directory_index v) (omega (arith, p.word))))

  -- Two pages have two words.
  pub slot-distinct : (v w : ℕ) → IsPage v → IsPage w → slot m d v ≡ slot m d w → v ≡ w
  slot-distinct v w p q e =
      let lv : directory_index v < 1024 = omega (arith, p.word) in
      let lw : directory_index w < 1024 = omega (arith, q.word) in
      let tables : table_of m d (directory_index v) ≡ table_of m d (directory_index w) =
        omega
          (arith, e, table-aligned (directory_index v) lv, table-aligned (directory_index w) lw) in
      let same = is.distinct (directory_index v) (directory_index w) lv lw tables in
      omega (arith, same, e, tables, p.aligned, q.aligned)

  module _ (v val : ℕ) (p : IsPage v) where
    stored : Words
    stored = store_word m (slot m d v) val

    unchanged : (i : ℕ) → i < total_entries_per_table → stored (word_at d i) ≡ m (word_at d i)
    unfolding stored
    unchanged i lt = store_word_ne m (slot m d v) val (word_at d i) (slot-outside v i p lt)

    pub slot-stored : (w : ℕ) → IsPage w → slot (store_word m (slot m d v) val) d w ≡ slot m d w
    unfolding stored
    slot-stored w q =
        ap (λ e. word_at (table_address e) (table_index w))
          (unchanged (directory_index w) (omega (arith, q.word)))

    stored-IsDirectory : IsDirectory stored d
    stored-IsDirectory = record {
      aligned = is.aligned;
      words = λ i lt. rw (unchanged i lt) (is.words i lt);
      apart = λ i lt. rw (unchanged i lt) (is.apart i lt);
      distinct = λ i j li lj. rw (unchanged i li, unchanged j lj) (is.distinct i j li lj);
    }

    -- `paging_set` keeps a directory well-formed.
    pub paging_set-IsDirectory : IsDirectory ((paging_set m d v val).1) d
    unfolding stored
    paging_set-IsDirectory = rw (paging_set-slot m d v val p.aligned) stored-IsDirectory

    -- In a well-formed directory, `paging_get` after `paging_set` of a page gives the value for that
    -- page, and for every other page what it gave before.
    pub paging_set-paging_get :
        (w : ℕ)
        → IsPage w
        → paging_get ((paging_set m d v val).1) d w ≡ (if w == v then val else paging_get m d w)
    unfolding stored
    paging_set-paging_get w q =
        rw
          (
            paging_set-slot m d v val p.aligned,
            paging_get-slot stored d w q.aligned,
            paging_get-slot m d w q.aligned,
            unchanged (directory_index w) (omega (arith, q.word)),
          )
          (elim (Bool-cases (w == v)) [
            | inl same ↦
                let e = (==_iff w v).0 same in rw (same, e) (store_word_self m (slot m d v) val)
            | inr other ↦
                let ne : w ≢ v = λ e. ground arith in
                rw other (
                  store_word_ne m (slot m d v) val (slot m d w) (λ e. ne (slot-distinct w v q p e)))
          ])
