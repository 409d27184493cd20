-- ===== src/Memory/Paging/Build.antt =====
-- paging.c: a directory under construction, with its first tables in place.
use os_kernel_application_si.Base.{
  ℕ, suc, ◌+◌, ◌%◌, ◌^◌, ◌≤◌, ◌<◌, ◌≡◌, sym, ap, ◌∙◌, ◌≢◌, ◌⊎◌, inl, inr, ltb, arith, Bool-cases,
  Run,
}
use os_kernel_application_si.Memory.Paging.{
  Words, Machine, with_words, store_word, word_at, page_size, total_entries_per_table,
  table_address,
}
use os_kernel_application_si.Memory.Paging.Directory.{
  store_word_self, store_word_ne, table_of, IsDirectory,
}
use os_kernel_application_si.Memory.Paging.Blocks.{IsPool}
use os_kernel_application_si.Memory.Paging.Pages.{IsTaken, Page, taken-aligned}

-- The first `n` tables of the directory at `d` are in place, table `i` with `content i`; what the
-- heap `s0` began with is as it was.
pub record Built (s0 : Machine) (d : ℕ) (content : ℕ → ℕ → ℕ) (n : ℕ) (s : Machine) : Type 0 where
  pub pool : IsPool s.heap
  pub directory : IsTaken s.heap d
  pub entry : (i : ℕ) → i < n → s.words (word_at d i) < 2 ^ 32
  pub table : (i : ℕ) → i < n → IsTaken s.heap (table_of s.words d i)
  pub apart : (i : ℕ) → i < n → table_of s.words d i ≢ d
  pub distinct : (i j : ℕ) → i < n → j < n → table_of s.words d i ≡ table_of s.words d j → i ≡ j
  pub contents :
      (i b : ℕ)
      → i < n
      → b < total_entries_per_table
      → s.words (word_at (table_of s.words d i) b) ≡ content i b
  pub still : (q : ℕ) → IsTaken s0.heap q → IsTaken s.heap q
  pub kept :
      (q b : ℕ)
      → IsTaken s0.heap q
      → b < total_entries_per_table
      → s.words (word_at q b) ≡ s0.words (word_at q b)
  pub other : (i : ℕ) (q : ℕ) → i < n → IsTaken s0.heap q → table_of s.words d i ≢ q

-- A word of another page
pub other_page :
    (q p b : ℕ)
    → q % page_size ≡ 0
    → p % page_size ≡ 0
    → q ≢ p
    → b < total_entries_per_table
    → (word_at q b < p) ⊎ (p + page_size ≤ word_at q b)
other_page q p b hq hp ne lt = elim (Bool-cases (ltb q p)) [
  | inl low ↦ let l : q < p = ground arith in inl (omega (arith, l, hq, hp, lt))
  | inr high ↦ let l : p < q = ground arith in inr (omega (arith, l, hq, hp))
]

module _ (s0 : Machine) (d : ℕ) (content : ℕ → ℕ → ℕ) (n : ℕ) (s : Machine)
    (is : Built s0 d content n s) (fresh_d : (q : ℕ) → IsTaken s0.heap q → q ≢ d)
    (lt : n < total_entries_per_table) (r : Run (ℕ × Machine)) (page : Page s r) (m1 : Words)
    (e : ℕ) (filled : (b : ℕ) → b < total_entries_per_table → m1 (word_at page.p b) ≡ content n b)
    (same : (a : ℕ) → (a < page.p) ⊎ (page.p + page_size ≤ a) → m1 a ≡ page.after.words a)
    (small : e < 2 ^ 32) (points : table_address e ≡ page.p) where
  m2 : Words
  m2 = store_word m1 (word_at d n) e

  next : Machine
  next = with_words page.after m2

  d-other : d ≢ page.p
  d-other = page.fresh d is.directory

  d-aligned : d % page_size ≡ 0
  d-aligned = taken-aligned s.heap d is.pool is.directory

  -- The words of a page that was taken before, but for the directory
  taken-same :
      (q b : ℕ)
      → IsTaken s.heap q
      → q ≢ d
      → b < total_entries_per_table
      → m2 (word_at q b) ≡ s.words (word_at q b)
  unfolding m2
  taken-same q b t ne lb =
      let hq = taken-aligned s.heap q is.pool t in
      let o = other_page q page.p b hq page.aligned (page.fresh q t) lb in
      store_word_ne m1 (word_at d n) e (word_at q b)
        (λ h. ne (omega (arith, h, hq, d-aligned, lb, lt)))
      ∙ same (word_at q b) o
      ∙ page.words (word_at q b) o

  entry-old : (i : ℕ) → i < n → m2 (word_at d i) ≡ s.words (word_at d i)
  unfolding m2
  entry-old i li =
      let o = other_page d page.p i d-aligned page.aligned d-other (omega arith) in
      store_word_ne m1 (word_at d n) e (word_at d i) (λ h. omega (arith, h, li))
      ∙ same (word_at d i) o
      ∙ page.words (word_at d i) o

  entry-new : m2 (word_at d n) ≡ e
  unfolding m2
  entry-new = store_word_self m1 (word_at d n) e

  table-old : (i : ℕ) → i < n → table_of m2 d i ≡ table_of s.words d i
  table-old i li = ap table_address (entry-old i li)

  table-new : table_of m2 d n ≡ page.p
  table-new = ap table_address entry-new ∙ points

  content-new : (b : ℕ) → b < total_entries_per_table → m2 (word_at page.p b) ≡ content n b
  unfolding m2
  content-new b lb =
      store_word_ne m1 (word_at d n) e (word_at page.p b)
        (λ h. d-other (omega (arith, h, page.aligned, d-aligned, lb, lt)))
      ∙ filled b lb

  -- A place of the longer row is an old one or the new one.
  old_or_new : (i : ℕ) → i < suc n → (i < n) ⊎ (i ≡ n)
  old_or_new i li = ground arith

  entry' : (i : ℕ) → (i < n) ⊎ (i ≡ n) → m2 (word_at d i) < 2 ^ 32
  entry' i (inl li) = rw (entry-old i li) (is.entry i li)
  entry' i (inr h) = rw (h, entry-new) small

  table' : (i : ℕ) → (i < n) ⊎ (i ≡ n) → IsTaken page.after.heap (table_of m2 d i)
  table' i (inl li) = rw (table-old i li) (page.still _ (is.table i li))
  table' i (inr h) = rw (h, table-new) page.new

  apart' : (i : ℕ) → (i < n) ⊎ (i ≡ n) → table_of m2 d i ≢ d
  apart' i (inl li) = rw (table-old i li) (is.apart i li)
  apart' i (inr h) = rw (h, table-new) (λ g. d-other (sym g))

  distinct' :
      (i j : ℕ) → (i < n) ⊎ (i ≡ n) → (j < n) ⊎ (j ≡ n) → table_of m2 d i ≡ table_of m2 d j → i ≡ j
  distinct' i j (inl li) (inl lj) g =
      is.distinct i j li lj (sym (table-old i li) ∙ g ∙ table-old j lj)
  distinct' i j (inl li) (inr h) g =
      absurd
        (page.fresh _ (is.table i li) (sym (table-old i li) ∙ g ∙ ap (table_of m2 d) h ∙ table-new))
  distinct' i j (inr h) (inl lj) g = absurd (
      page.fresh _ (is.table j lj)
        (sym (table-old j lj) ∙ sym g ∙ ap (table_of m2 d) h ∙ table-new))
  distinct' i j (inr h) (inr k) g = h ∙ sym k

  contents' :
      (i b : ℕ)
      → (i < n) ⊎ (i ≡ n)
      → b < total_entries_per_table
      → m2 (word_at (table_of m2 d i) b) ≡ content i b
  contents' i b (inl li) lb =
      rw (table-old i li)
        (taken-same _ b (is.table i li) (is.apart i li) lb ∙ is.contents i b li lb)
  contents' i b (inr h) lb = rw (h, table-new) (content-new b lb)

  other' : (i q : ℕ) → (i < n) ⊎ (i ≡ n) → IsTaken s0.heap q → table_of m2 d i ≢ q
  other' i q (inl li) t = rw (table-old i li) (is.other i q li t)
  other' i q (inr h) t = rw (h, table-new) (λ g. page.fresh q (is.still q t) (sym g))

  -- One table more
  pub Built-step :
      Built s0 d content (suc n) (with_words page.after (store_word m1 (word_at d n) e))
  unfolding m2 next with_words
  Built-step = record {
    pool = page.pool;
    directory = page.still d is.directory;
    entry = λ i li. entry' i (old_or_new i li);
    table = λ i li. table' i (old_or_new i li);
    apart = λ i li. apart' i (old_or_new i li);
    distinct = λ i j li lj. distinct' i j (old_or_new i li) (old_or_new j lj);
    contents = λ i b li lb. contents' i b (old_or_new i li) lb;
    still = λ q t. page.still q (is.still q t);
    kept = λ q b t lb. taken-same q b (is.still q t) (fresh_d q t) lb ∙ is.kept q b t lb;
    other = λ i q li t. other' i q (old_or_new i li) t;
  }

-- A finished directory is well-formed.
pub Built-IsDirectory :
    (s0 s : Machine) (d : ℕ) (content : ℕ → ℕ → ℕ)
    → Built s0 d content total_entries_per_table s
    → IsDirectory s.words d
Built-IsDirectory s0 s d content is = record {
  aligned = taken-aligned s.heap d is.pool is.directory;
  words = is.entry;
  apart = is.apart;
  distinct = is.distinct;
}
