-- ===== src/Memory/Paging/Identity.antt =====
-- paging.c, `paging_new_4gb`.
use os_kernel_application_si.Base.{
  subst, ℕ, ◌+◌, ◌*◌, ◌<◌, ◌≡◌, sym, ap, ◌∙◌, ◌≢◌, arith, bit_or, Run,
}
use os_kernel_application_si.Memory.Paging.{
  Words, Machine, with_words, store_word, word_at, page_size, total_entries_per_table,
  table_address, paging_get,
}
use os_kernel_application_si.Memory.Paging.Directory.{
  store_word_self, store_word_ne, table_of, IsDirectory, IsPage, directory_index, table_index, slot,
  paging_get-slot,
}
use os_kernel_application_si.Memory.Paging.Ranges.{IsChunk}
use os_kernel_application_si.Memory.Paging.Blocks.{IsPool}
use os_kernel_application_si.Memory.Paging.Pages.{IsTaken, Page, taken-aligned}
use os_kernel_application_si.Memory.Paging.Copy.{IsOwned, IsNewChunk}
use os_kernel_application_si.Memory.Paging.Build.{Built, other_page}

-- The word of a page that is mapped to itself
abbrev pub identity : ℕ → ℕ → ℕ → ℕ
identity flags i b = bit_or (i * 4194304 + b * page_size) flags

-- Before the first table
pub Built-start :
    (s : Machine) (content : ℕ → ℕ → ℕ) (r : Run (ℕ × Machine)) (page : Page s r)
    → IsPool s.heap
    → Built s page.p content 0 page.after
Built-start s content r page is = record {
  pool = page.pool;
  directory = page.new;
  entry = λ i lt. absurd (omega arith);
  table = λ i lt. absurd (omega arith);
  apart = λ i lt. absurd (omega arith);
  distinct = λ i j li lj. absurd (omega arith);
  contents = λ i b lt lb. absurd (omega arith);
  still = page.still;
  kept = λ q b t lb.
      page.words (word_at q b)
        (other_page q page.p b (taken-aligned s.heap q is t) page.aligned (page.fresh q t) lb);
  other = λ i q lt t. absurd (omega arith);
}

-- What a finished directory gives for page `w`
pub Built-paging_get :
    (s0 s : Machine) (d : ℕ) (content : ℕ → ℕ → ℕ)
    → Built s0 d content total_entries_per_table s
    → (w : ℕ) → IsPage w
    → paging_get s.words d w ≡ content (directory_index w) (table_index w)
Built-paging_get s0 s d content is w p =
    paging_get-slot s.words d w p.aligned
    ∙ is.contents (directory_index w) (table_index w) (omega (arith, p.word)) (omega arith)

-- The words of a directory and its tables, once a word is stored in a page outside them
module _ (s0 s : Machine) (d : ℕ) (content : ℕ → ℕ → ℕ)
    (is : Built s0 d content total_entries_per_table s) (r : Run (ℕ × Machine))
    (page : Page s r) where
  last : Words
  last = store_word page.after.words page.p d

  last-taken :
      (q b : ℕ)
      → IsTaken s.heap q
      → b < total_entries_per_table
      → last (word_at q b) ≡ s.words (word_at q b)
  unfolding last
  last-taken q b t lb =
      let hq = taken-aligned s.heap q is.pool t in
      let o = other_page q page.p b hq page.aligned (page.fresh q t) lb in
      store_word_ne page.after.words page.p d (word_at q b) (λ e. ground (arith, o, e))
      ∙ page.words (word_at q b) o

  last-chunk : last page.p ≡ d
  unfolding last
  last-chunk = store_word_self page.after.words page.p d

  last-table : (i : ℕ) → i < total_entries_per_table → table_of last d i ≡ table_of s.words d i
  last-table i lt = ap table_address (last-taken d i is.directory lt)

  last-IsDirectory : IsDirectory last d
  last-IsDirectory = record {
    aligned = taken-aligned s.heap d is.pool is.directory;
    words = λ i lt. rw (last-taken d i is.directory lt) (is.entry i lt);
    apart = λ i lt. rw (last-table i lt) (is.apart i lt);
    distinct = λ i j li lj. rw (last-table i li, last-table j lj) (is.distinct i j li lj);
  }

  last-slot : (w : ℕ) → IsPage w → slot last d w ≡ slot s.words d w
  last-slot w p =
      ap (λ t. word_at t (table_index w)) (last-table (directory_index w) (omega (arith, p.word)))

  last-outside : (w : ℕ) → IsPage w → page.p ≢ slot s.words d w
  last-outside w p e =
      let t = is.table (directory_index w) (omega (arith, p.word)) in
      let o =
        other_page _ page.p (table_index w) (taken-aligned s.heap _ is.pool t) page.aligned
          (page.fresh _ t) (omega arith) in
      ground (arith, o, e)

  pub last-kept :
      (q b : ℕ)
      → IsTaken s0.heap q
      → b < total_entries_per_table
      → store_word page.after.words page.p d (word_at q b) ≡ s0.words (word_at q b)
  unfolding last
  last-kept q b t lb = last-taken q b (is.still q t) lb ∙ is.kept q b t lb

  pub last-IsChunk : IsChunk (store_word page.after.words page.p d) page.p
  unfolding last
  last-IsChunk = record {
    directory = subst (λ a. IsDirectory last a) (sym last-chunk) last-IsDirectory;
    outside = λ w p e. last-outside w p (e ∙ ap (λ a. slot last a w) last-chunk ∙ last-slot w p);
  }

  -- Of a chunk whose directory was no page of `s0` either, all is new.
  pub last-IsNewChunk :
      ((q : ℕ) → IsTaken s0.heap q → q ≢ d)
      → IsNewChunk s0 (with_words page.after (store_word page.after.words page.p d)) page.p
  unfolding last with_words
  last-IsNewChunk fresh = record {
    pool = page.pool;
    owned = subst (IsOwned (with_words page.after last) page.p) (sym last-chunk) (record {
      points = last-chunk;
      chunk = page.new;
      directory = page.still d is.directory;
      entry = last-IsDirectory.words;
      table = λ i lt. rw (last-table i lt) (page.still _ (is.table i lt));
    });
    still = λ q t. page.still q (is.still q t);
    chunk = λ q t. page.fresh q (is.still q t);
    directory = λ q t. rw last-chunk (fresh q t);
    table = λ i q lt t. rw (last-chunk, last-table i lt) (is.other i q lt t);
  }

  pub last-paging_get :
      (w : ℕ)
      → IsPage w
      → paging_get (store_word page.after.words page.p d) d w
        ≡ content (directory_index w) (table_index w)
  unfolding last
  last-paging_get w p =
      paging_get-slot last d w p.aligned
      ∙ ap last (last-slot w p)
      ∙ last-taken _ (table_index w) (is.table (directory_index w) (omega (arith, p.word)))
          (omega arith)
      ∙ is.contents (directory_index w) (table_index w) (omega (arith, p.word)) (omega arith)
