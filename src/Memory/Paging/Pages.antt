-- ===== src/Memory/Paging/Pages.antt =====
-- kheap.c, `kzalloc` of at most a page, with the words of memory.
use os_kernel_application_si.Base.{
  ℕ, zero, suc, ◌+◌, ◌*◌, ◌%◌, ◌^◌, ◌≤◌, ◌<◌, ◌≡◌, refl, ◌∙◌, ◌≢◌, ◌⊎◌, false, ◌==◌, arith, length,
  set, length-set, Run, done,
}
use os_kernel_application_si.Memory.Heap.{Heap, with_entries, heap_malloc}
use os_kernel_application_si.Memory.Heap.FirstFit.{free_at}
use os_kernel_application_si.Memory.Paging.{
  Words, Machine, store_word, page_size, clear, kzalloc_words,
}
use os_kernel_application_si.Memory.Paging.Directory.{store_word_ne}
use os_kernel_application_si.Memory.Paging.Blocks.{
  IsPool, block_address, free_count, free_count-set, free_at-set_self, free_at-set_ne, OneBlock,
  taken, no_block, heap_malloc-OneBlock,
}

-- The address of a block that an allocation owns
pub record IsTaken (h : Heap) (q : ℕ) : Type 0 where
  pub block : ℕ
  pub address : q ≡ block_address h block
  pub within : block < length h.table.entries
  pub owned : free_at h.table.entries block ≡ false

abbrev pub entries_free : Machine → ℕ
entries_free s = free_count s.heap.table.entries

-- A page of its own from `kzalloc`
pub record Page (s : Machine) (r : Run (ℕ × Machine)) : Type 0 where
  pub p : ℕ
  pub after : Machine
  pub run : r ≡ done (p, after)
  pub pool : IsPool after.heap
  pub real : p ≢ 0
  pub aligned : p % page_size ≡ 0
  pub bound : p + page_size ≤ 2 ^ 32
  pub new : IsTaken after.heap p
  pub fresh : (q : ℕ) → IsTaken s.heap q → q ≢ p
  pub still : (q : ℕ) → IsTaken s.heap q → IsTaken after.heap q
  pub count : entries_free s ≡ suc (entries_free after)
  pub words : (a : ℕ) → (a < p) ⊎ (p + page_size ≤ a) → after.words a ≡ s.words a

clear-outside : (n p : ℕ) (m : Words) (a : ℕ) → (a < p) ⊎ (p + n * 4 ≤ a) → clear n p m a ≡ m a
unfolding clear
clear-outside zero p m a o = refl
clear-outside (suc n) p m a o =
    clear-outside n (p + 4) (store_word m p 0) a (ground (arith, o))
    ∙ store_word_ne m p 0 a (λ e. ground (arith, o, e))

pub taken-aligned : (h : Heap) (q : ℕ) → IsPool h → IsTaken h q → q % page_size ≡ 0
taken-aligned h q is t = omega (arith, is.aligned, t.address)

-- `kzalloc` of at most a page gives a page of its own while a block is free.
pub kzalloc_words-Page :
    (n : ℕ) (s : Machine)
    → 0 < n
    → n ≤ 1024
    → IsPool s.heap
    → 0 < entries_free s
    → Page s (kzalloc_words n s)
unfolding kzalloc_words
kzalloc_words-Page n s lo hi is some_free =
    go (heap_malloc-OneBlock s.heap (n * 4) is (omega (arith, lo)) (omega (arith, hi)))
  where
    go : OneBlock s.heap (heap_malloc s.heap (n * 4)) → Page s (kzalloc_words n s)
    go (no_block z r) = absurd (omega (arith, z, some_free))
    go (taken b lt f r) =
        let p = block_address s.heap b in
        let es = s.heap.table.entries in
        let real : (p == 0) ≡ false = ground (arith, is.low) in
        rw (r, real)
          (record {
            p = p;
            after = record s {
              heap = with_entries s.heap (set es b 0x41);
              words = clear n p s.words;
            };
            run = refl;
            pool = record {
              total = length-set es b 0x41 ∙ is.total;
              aligned = is.aligned;
              low = is.low;
              high = is.high;
            };
            real = λ e. omega (arith, e, is.low);
            aligned = omega (arith, is.aligned);
            bound = omega (arith, is.high, is.total, lt);
            new = record {
              block = b;
              address = refl;
              within = omega (arith, length-set es b 0x41, lt);
              owned = free_at-set_self es b lt;
            };
            fresh = λ q t e.
                let same : b ≡ t.block = omega (arith, t.address, e) in
                let owned = rw same at f in let no = t.owned in cc;
            still = λ q t. record {
              block = t.block;
              address = t.address;
              within = omega (arith, length-set es b 0x41, t.within);
              owned =
                  free_at-set_ne es b t.block (λ e. let no = t.owned in let f' = rw e at f in cc)
                  ∙ t.owned;
            };
            count = free_count-set es b f;
            words = λ a o. clear-outside n p s.words a (ground (arith, o, hi));
          })
