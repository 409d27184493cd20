-- ===== src/Memory/Paging/Duplicate.antt =====
-- paging.c, `paging_copy_4gb`: the copy and its original.
use os_kernel_application_si.Base.{ℕ, Run}
use os_kernel_application_si.Memory.Paging.{Machine, with_words, store_word}
use os_kernel_application_si.Memory.Paging.Blocks.{IsPool}
use os_kernel_application_si.Memory.Paging.Pages.{Page}
use os_kernel_application_si.Memory.Paging.Copy.{IsOwned}

-- The directory is allocated and the chunk points to it.
module _ (s : Machine) (pool : IsPool s.heap) (src d : ℕ) (owned : IsOwned s src d)
    (r : Run (ℕ × Machine)) (chunk : Page s r) (r' : Run (ℕ × Machine))
    (dir : Page chunk.after r') where
  -- The state that the tables are added to, less the allocation of the directory
  base : Machine
  base = with_words chunk.after (store_word chunk.after.words chunk.p dir.p)

  start : Machine
  start = with_words dir.after (store_word dir.after.words chunk.p dir.p)
