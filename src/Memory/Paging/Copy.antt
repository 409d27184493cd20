-- ===== src/Memory/Paging/Copy.antt =====
-- paging.c, `paging_copy_4gb`.
use os_kernel_application_si.Base.{
  subst, ℕ, zero, suc, ◌+◌, ◌%◌, ◌^◌, ◌≤◌, ◌<◌, ◌≡◌, refl, sym, ap, ◌∙◌, ◌≢◌, ◌⊎◌, inl, inr, false,
  ◌==◌, if◌then◌else◌, arith, Bool-cases, ==_iff, bit_or, bit_and, bit_and-page, bit_and-flags,
  bit_or-flags, done, and_then_done,
}
use os_kernel_application_si.Memory.Paging.{
  Words, Machine, with_words, store_word, word_at, page_size, total_entries_per_table,
  table_address, copy_words, copy_tables,
}
use os_kernel_application_si.Memory.Paging.Directory.{store_word_self, store_word_ne, table_of}
use os_kernel_application_si.Memory.Paging.Blocks.{IsPool}
use os_kernel_application_si.Memory.Paging.Pages.{
  IsTaken, entries_free, kzalloc_words-Page, taken-aligned,
}
use os_kernel_application_si.Memory.Paging.Build.{Built, Built-step, other_page}

copy_words-outside :
    (n b dst src : ℕ) (m : Words) (a : ℕ)
    → (a < word_at dst b) ⊎ (word_at dst (b + n) ≤ a)
    → copy_words n b dst src m a ≡ m a
unfolding copy_words
copy_words-outside zero b dst src m a o = refl
copy_words-outside (suc n) b dst src m a o =
    copy_words-outside n (b + 1) dst src _ a (ground (arith, o))
    ∙ store_word_ne m (word_at dst b) _ a (λ e. ground (arith, o, e))

module _ (dst src : ℕ) (hd : dst % page_size ≡ 0) (hs : src % page_size ≡ 0) (ne : src ≢ dst) where
  copy_words-within :
      (n b : ℕ) (m : Words) (k : ℕ)
      → b ≤ k
      → k < b + n
      → b + n ≤ total_entries_per_table
      → copy_words n b dst src m (word_at dst k) ≡ m (word_at src k)
  unfolding copy_words
  copy_words-within zero b m k lo hi le = absurd (omega arith)
  copy_words-within (suc n) b m k lo hi le = elim (Bool-cases (k == b)) [
    | inl same ↦
        let e = (==_iff k b).0 same in
        rw e (
          copy_words-outside n (b + 1) dst src _ (word_at dst b) (inl (omega arith))
          ∙ store_word_self m (word_at dst b) _)
    | inr other ↦
        copy_words-within n (b + 1) _ k (ground (arith, lo)) (omega (arith, hi)) (omega (arith, le))
        ∙ store_word_ne m (word_at dst b) _ (word_at src k)
            (λ e. ground (arith, e, other_page src dst k hs hd ne (omega (arith, hi, le)), le))
  ]

-- A directory at `d` of a chunk at `src`, all on pages that the heap gave away
pub record IsOwned (s : Machine) (src d : ℕ) : Type 0 where
  pub points : s.words src ≡ d
  pub chunk : IsTaken s.heap src
  pub directory : IsTaken s.heap d
  pub entry : (i : ℕ) → i < total_entries_per_table → s.words (word_at d i) < 2 ^ 32
  pub table : (i : ℕ) → i < total_entries_per_table → IsTaken s.heap (table_of s.words d i)

-- The chunk at `c` is `s'`'s own: it, its directory and its tables are given away by the heap of
-- `s'`, and none of them was by that of `s`.
pub record IsNewChunk (s s' : Machine) (c : ℕ) : Type 0 where
  pub pool : IsPool s'.heap
  pub owned : IsOwned s' c (s'.words c)
  pub still : (q : ℕ) → IsTaken s.heap q → IsTaken s'.heap q
  pub chunk : (q : ℕ) → IsTaken s.heap q → q ≢ c
  pub directory : (q : ℕ) → IsTaken s.heap q → q ≢ s'.words c
  pub table :
      (i q : ℕ)
      → i < total_entries_per_table
      → IsTaken s.heap q
      → table_of s'.words (s'.words c) i ≢ q

-- The words of its tables
abbrev pub contents_of : Machine → ℕ → ℕ → ℕ → ℕ
contents_of s d i b = s.words (word_at (table_of s.words d i) b)

module _ (s0 : Machine) (src d nd chunk : ℕ) (pool : IsPool s0.heap) (owned : IsOwned s0 src d)
    (fresh : (q : ℕ) → IsTaken s0.heap q → q ≢ nd) where
  pub copy_tables-Built :
      (n i : ℕ) (s : Machine)
      → i + n ≡ total_entries_per_table
      → Built s0 nd (contents_of s0 d) i s
      → n ≤ entries_free s
      → (s' : Machine) × (copy_tables n i chunk nd src s ≡ done (chunk, s'))
        × Built s0 nd (contents_of s0 d) total_entries_per_table s'
  unfolding copy_tables with_words
  copy_tables-Built zero i s all is enough =
      let e : i ≡ 1024 = omega (arith, all) in
      (s, refl, subst (λ k. Built s0 nd (contents_of s0 d) k s) e is)
  copy_tables-Built (suc n) i s all is enough =
      let li : i < 1024 = omega (arith, all) in
      let here : word_at src 0 ≡ src = omega arith in
      let dir : s.words src ≡ d =
        ap s.words (sym here)
        ∙ is.kept src 0 owned.chunk (omega arith)
        ∙ ap s0.words here
        ∙ owned.points in
      let se = s.words (word_at (s.words src) i) in
      let entry : se ≡ s0.words (word_at d i) =
        ap (λ a. s.words (word_at a i)) dir ∙ is.kept d i owned.directory li in
      let t = table_address se in
      let t0 = table_of s0.words d i in
      let same_table : t ≡ t0 = ap table_address entry in
      let taken0 = owned.table i li in
      let taken_t : IsTaken s.heap t =
        subst (IsTaken s.heap) (sym same_table) (is.still t0 taken0) in
      let page =
        kzalloc_words-Page 1024 s (omega arith) (omega arith) is.pool (omega (arith, enough)) in
      let ht = taken-aligned s.heap t is.pool taken_t in
      let ne = page.fresh t taken_t in
      let m1 = copy_words 1024 0 page.p t page.after.words in
      let flags = bit_and se 0xfff in
      let e = bit_or page.p flags in
      let low : flags < 4096 = omega (arith, bit_and-flags se) in
      let sum : e ≡ page.p + flags = bit_or-flags page.p flags page.aligned low in
      let small : e < 2 ^ 32 = omega (arith, sum, low, page.bound) in
      let points : table_address e ≡ page.p =
        bit_and-page e small ∙ omega (arith, sum, low, page.aligned) in
      let next =
        Built-step s0 nd (contents_of s0 d) i s is fresh li _ page m1 e
          (λ b lb.
            copy_words-within page.p t page.aligned ht ne 1024 0 page.after.words b (omega arith) lb
              (omega arith)
            ∙ page.words (word_at t b) (other_page t page.p b ht page.aligned ne lb)
            ∙ ap (λ a. s.words (word_at a b)) same_table
            ∙ is.kept t0 b taken0 lb)
          (λ a o. copy_words-outside 1024 0 page.p t page.after.words a (ground (arith, o))) small
          points in
      let suc_i : i + 1 ≡ suc i = omega arith in
      let (s', r, built) =
        copy_tables-Built n (i + 1) (with_words page.after (store_word m1 (word_at nd i) e))
          (omega (arith, all))
          (subst
            (λ k.
              Built s0 nd (contents_of s0 d) k
                (with_words page.after (store_word m1 (word_at nd i) e)))
            (sym suc_i) next)
          (omega (arith, page.count, enough)) in
      let real : (page.p == 0) ≡ false = ground (arith, page.real) in
      (
        s',
        and_then_done _ page.run (
            ap
              (λ c.
                if c
                then done (0, page.after)
                else copy_tables n (i + 1) chunk nd src
                    (with_words page.after (store_word m1 (word_at nd i) e)))
              real
            ∙ r),
        built,
      )
