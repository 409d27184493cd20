-- ===== src/Tests/Keys.antt =====
-- The keyboard buffer with one character, whose tail has come round.
use os_kernel_application_si.Base.{
  ℕ, zero, suc, ◌≡◌, refl, ◌+◌, ◌%◌, ◌<◌, arith, some, [], ◌∷◌, get_or, replicate, length-replicate,
}
use os_kernel_application_si.Keyboard.{
  KeyboardBuffer, keyboard_push, keyboard_pop, keyboard_backspace,
}
use os_kernel_application_si.Keyboard.Queue.{IsQueue, push-IsQueue, pop-IsQueue, backspace-IsQueue}

get_or-replicate : (n i : ℕ) → get_or (replicate {A = ℕ} n 0) i 0 ≡ 0
get_or-replicate zero i = refl
get_or-replicate (suc n) zero = refl
get_or-replicate (suc n) (suc i) = get_or-replicate n i

abbrev silent : KeyboardBuffer
silent = record { buffer = replicate 1024 0; tail = 1023; head = 1023 }

silent-IsQueue : IsQueue silent []
silent-IsQueue = record {
  size = length-replicate {A = ℕ} 1024 0;
  fits = omega arith;
  nonzero = tt;
  tail = refl;
  cells = λ i lt. get_or-replicate 1024 ((1023 + i) % 1024);
}

abbrev one_key : KeyboardBuffer
one_key = record { buffer = 97 ∷ replicate 1023 0; tail = 1; head = 0 }

one_key_cells :
    (i : ℕ) → i < 1024 → get_or one_key.buffer ((0 + i) % 1024) 0 ≡ get_or {A = ℕ} (97 ∷ []) i 0
one_key_cells zero lt = refl
one_key_cells (suc i) lt =
    let e : (0 + suc i) % 1024 ≡ suc i = omega arith in rw e (get_or-replicate 1023 i)

one_key-IsQueue : IsQueue one_key (97 ∷ [])
one_key-IsQueue = record {
  size = length-replicate {A = ℕ} 1024 0;
  fits = omega arith;
  nonzero = (omega arith, tt);
  tail = refl;
  cells = one_key_cells;
}

push-IsQueue_example :
    (k' : KeyboardBuffer) × (keyboard_push (some silent) 97 ≡ some k') × IsQueue k' (97 ∷ [])
push-IsQueue_example = push-IsQueue silent [] 97 silent-IsQueue (omega arith) (omega arith)

pop-IsQueue_example :
    (k' : KeyboardBuffer) × (keyboard_pop (some one_key) ≡ (97, some k')) × IsQueue k' []
pop-IsQueue_example = pop-IsQueue one_key 97 [] one_key-IsQueue

backspace-IsQueue_example : IsQueue (keyboard_backspace one_key) []
backspace-IsQueue_example = backspace-IsQueue one_key [] 97 (omega arith) one_key-IsQueue
