-- ===== src/Isr80h.antt =====
-- isr80h/process.c, `isr80h_command6_readline`: the line that it collects. `keys` are what
-- `keyboard_pop` gives each time the processor is woken; a run that they do not end waits for more.
pub mod Buffer
pub mod Editing
pub mod ReadLine
use os_kernel_application_si.Base.{
  ℕ, zero, suc, ◌+◌, ◌-◌, ◌≤◌, Bool, true, false, not, ◌&&◌, ◌||◌, ltb, leb, ◌==◌, if◌then◌else◌,
  List, [], ◌∷◌, replicate, length, set, take, Option, none, some, Run, done, fault, out_of_fuel,
  and_then, map_run, ℤ, pos, negsuc,
}
use os_kernel_application_si.Memory.Heap.{Heap, heap_malloc, heap_free}
use os_kernel_application_si.Terminal.{Terminal, terminal_writechar}

-- `\r` or `\n`
abbrev pub is_end : ℕ → Bool
is_end c = c == 13 || c == 10

-- The buffer, the count `i`, the terminal, and the keys that are left
pub record Line : Type 0 where
  pub kbuf : List ℕ
  pub count : ℕ
  pub terminal : Terminal
  pub keys : List ℕ

-- `kbuf[i++] = c`
unfoldable pub put_key : ℕ → Line → Run Line
put_key c l =
    if ltb l.count (length l.kbuf)
    then done (record l { kbuf = set l.kbuf l.count c; count = l.count + 1 })
    else fault

unfoldable pub echo : ℕ → Line → Run Line
echo c l = map_run (λ t. record l { terminal = t }) (terminal_writechar c 15 l.terminal)

-- The first loop, which drops the ends of lines, and what follows it
unfoldable pub drain : List ℕ → Line → Run Line
drain [] l = out_of_fuel
drain (c ∷ keys) l =
    let rest = drain keys l in
    let first = and_then (echo c (record l { keys = keys })) (put_key c) in
    if is_end c then rest else if c == 0 then done (record l { keys = keys }) else first

-- The second loop; `keys` are those left.
unfoldable pub collect : ℕ → List ℕ → Line → Run Line
collect max [] l = if ltb l.count (max - 1) then out_of_fuel else done (record l { keys = [] })
collect max (c ∷ keys) l =
    let nothing = collect max keys l in
    let back = and_then (echo 0x08 (record l { count = l.count - 1 })) λ l'. collect max keys l' in
    let erased = if ltb 0 l.count then back else nothing in
    let typed = and_then (and_then (echo (if c == 13 then 10 else c) l) (put_key c)) λ l'.
      let more = collect max keys l' in
      if is_end c then done (record l' { keys = keys }) else more in
    let round = if c == 0 then nothing else if c == 0x08 then erased else typed in
    if ltb l.count (max - 1) then round else done (record l { keys = c ∷ keys })

-- `kbuf[i] = 0`
unfoldable pub close_line : Line → Run Line
close_line l =
    if ltb l.count (length l.kbuf) then done (record l { kbuf = set l.kbuf l.count 0 }) else fault

-- What the call leaves: its result `i`, what it passes to `copy_to_task` for the buffer of the task,
-- if it calls it, the heap without the buffer, the terminal, and the keys that are left.
pub record Reply : Type 0 where
  pub result : ℕ
  pub sent : Option (List ℕ)
  pub heap : Heap
  pub terminal : Terminal
  pub keys : List ℕ

-- From the copy to the task on; `copy_to_task` itself, which gives back what it allocates, is not
-- modelled.
unfoldable pub finish : ℕ → Heap → Line → Run Reply
finish p h l =
    map_run
      (λ h'. record {
        result = l.count;
        sent = if ltb 0 l.count then some (take (l.count + 1) l.kbuf) else none;
        heap = h';
        terminal = l.terminal;
        keys = l.keys;
      })
      (heap_free h p)

-- The size `max` is the task's second argument. `none` is the result -1, for a size that is not from 1 to 512 and without memory.
unfoldable pub readline : ℤ → Heap → List ℕ → Terminal → Run (Option Reply)
readline (negsuc n) h keys t = done none
readline (pos max) h keys t =
    let start : Line = record { kbuf = replicate max 0; count = 0; terminal = t; keys = keys } in
    let line = and_then (drain keys start) λ l. and_then (collect max l.keys l) close_line in
    let given = and_then (heap_malloc h max) λ (p, h').
      if p == 0 then done none else map_run (λ r. some r) (and_then line (finish p h')) in
    if max == 0 || ltb 512 max then done none else given
