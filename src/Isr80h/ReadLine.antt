-- ===== src/Isr80h/ReadLine.antt =====
-- isr80h/process.c, `isr80h_command6_readline`: the whole line.
use os_kernel_application_si.Base.{
  ℕ, ◌<◌, ◌≡◌, refl, ◌≢◌, ◌++◌, false, ltb, ◌==◌, if◌then◌else◌, arith, List, [], ◌∷◌, Option, none,
  some, length, get_or, Run, done, fault, out_of_fuel, and_then, map_run, pos,
}
use os_kernel_application_si.Memory.Heap.{Heap}
use os_kernel_application_si.Memory.Heap.FirstFit.{free_at}
use os_kernel_application_si.Memory.Paging.Blocks.{
  IsPool, block_address, free_count, taken, no_block, heap_malloc-OneBlock,
}
use os_kernel_application_si.Terminal.{Terminal}
use os_kernel_application_si.Terminal.Screen.{IsScreen, terminal_writechar-IsScreen}
use os_kernel_application_si.Isr80h.{
  is_end, Line, put_key, echo, drain, collect, close_line, Reply, finish, readline,
}
use os_kernel_application_si.Isr80h.Editing.{edit, Holds}

-- What the keys make of a line with room for `room` characters. Ends of lines in front of it are
-- dropped, and the first character that is not one of them is taken as it is.
unfoldable pub typed_line : ℕ → List ℕ → Option (List ℕ)
typed_line room [] = none
typed_line room (c ∷ keys) =
    let rest = typed_line room keys in
    let nothing = edit room [] keys in
    let first = edit room (c ∷ []) keys in
    if is_end c then rest else if c == 0 then nothing else first

-- What the task gets of a line: nothing of an empty one, else the line with a 0 behind it
abbrev pub sent_of : List ℕ → Option (List ℕ)
sent_of ys = if ltb 0 (length ys) then some (ys ++ (0 ∷ [])) else none

-- The outcome of a call
pub data Read (max : ℕ) (h : Heap) (o : Option (List ℕ)) (r : Run (Option Reply)) : Type 0 where
  -- no block of the heap is free: the call is refused
  no_memory : free_count h.table.entries ≡ 0 → r ≡ done none → Read max h o r
  -- the keys do not end the line: the call waits for more
  waiting : o ≡ none → r ≡ out_of_fuel → Read max h o r
  -- the length is returned and the line is sent, the same blocks of the heap are free as before
  finished :
      (ys : List ℕ) (reply : Reply)
      → o ≡ some ys
      → r ≡ done (some reply)
      → length ys < max
      → reply.result ≡ length ys
      → reply.sent ≡ sent_of ys
      → ((c : ℕ) → free_at reply.heap.table.entries c ≡ free_at h.table.entries c)
      → IsScreen reply.terminal
      → Read max h o r

module _ (max : ℕ) where
  -- The second loop, and the 0
  abbrev rest_of : Line → Run Line
  rest_of l = and_then (collect max l.keys l) close_line

  data Closed (o : Option (List ℕ)) (r : Run Line) : Type 0 where
    open_line : o ≡ none → r ≡ out_of_fuel → Closed o r
    closed :
        (ys : List ℕ) (l : Line)
        → o ≡ some ys
        → r ≡ done l
        → Holds max ys l
        → get_or l.kbuf (length ys) 1 ≡ 0
        → Closed o r

block_real : (h : Heap) (b : ℕ) → IsPool h → block_address h b ≢ 0
block_real h b is e = omega (arith, is.low, e)

-- With memory for a buffer of one byte, a first character that is no end of a line makes
-- `sys_readline` store behind the buffer.
pub readline-fault :
    (h : Heap) (c : ℕ) (keys : List ℕ) (t : Terminal)
    → IsPool h
    → 0 < free_count h.table.entries
    → is_end c ≡ false
    → c ≢ 0
    → IsScreen t
    → readline (pos 1) h (c ∷ keys) t ≡ fault
unfolding readline drain collect close_line echo put_key
readline-fault h c keys t pool some_free text ne is =
    let (t', r, _) = terminal_writechar-IsScreen c 15 t is in
    let char : (c == 0) ≡ false = ground arith in
    elim (heap_malloc-OneBlock h 1 pool (omega arith) (omega arith)) [
      | no_block none_free m ↦ absurd (omega (arith, none_free, some_free))
      | taken b lt unused m ↦
          let real : (block_address h b == 0) ≡ false = ground (arith, block_real h b pool) in
          rw (m, real, text, char, r)
            (one (finish _ _) keys (record { kbuf = c ∷ []; count = 1; terminal = t'; keys = keys })
              refl refl)
    ]
  where
    one :
        (k : Line → Run Reply) (ks : List ℕ) (l : Line)
        → l.count ≡ 1
        → length l.kbuf ≡ 1
        → map_run {B = Option Reply}
            (λ reply. some reply)
            (and_then (and_then (collect 1 ks l) close_line) k)
          ≡ fault
    one k [] l e len = rw e (rw len refl)
    one k (x ∷ ks) l e len = rw e (rw len refl)
