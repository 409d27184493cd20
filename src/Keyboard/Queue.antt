-- ===== src/Keyboard/Queue.antt =====
-- keyboard.c: the buffer of a process as a queue of characters.
use os_kernel_application_si.Base.{
  ℕ, zero, suc, ◌+◌, ◌-◌, ◌%◌, ◌^◌, ◌≤◌, ◌<◌, ◌≡◌, ◌≢◌, refl, ap, sym, ◌∙◌, inl, inr, Bool-cases,
  ==_iff, false, some, List, [], ◌∷◌, ◌++◌, All, ◌==◌, if◌then◌else◌, arith, length, length-append,
  length-set, get_or, set, get_or-set_self, get_or-set_ne,
}
use os_kernel_application_si.Keyboard.{
  KeyboardBuffer, keyboard_get_tail_index, keyboard_backspace, keyboard_push, keyboard_pop,
}

-- The buffer holds the characters of `xs`, the oldest first, from the head to the tail, and 0 in all
-- its other bytes. A full buffer is a queue too.
pub record IsQueue (k : KeyboardBuffer) (xs : List ℕ) : Type 0 where
  pub size : length k.buffer ≡ 1024
  pub fits : length xs ≤ 1024
  pub nonzero : All (λ c. c ≢ 0) xs
  pub tail : k.tail % 1024 ≡ (k.head + length xs) % 1024
  pub cells : (i : ℕ) → i < 1024 → get_or k.buffer ((k.head + i) % 1024) 0 ≡ get_or xs i 0

get_or-snoc :
    (xs : List ℕ) (c i : ℕ)
    → get_or (xs ++ (c ∷ [])) i 0 ≡ (if i == length xs then c else get_or xs i 0)
get_or-snoc [] c zero = refl
get_or-snoc [] c (suc i) = ground arith
get_or-snoc (x ∷ xs) c zero = ground arith
get_or-snoc (x ∷ xs) c (suc i) = get_or-snoc xs c i ∙ ground arith

All-snoc : (xs : List ℕ) (c : ℕ) → All (λ d. d ≢ 0) xs → c ≢ 0 → All (λ d. d ≢ 0) (xs ++ (c ∷ []))
All-snoc [] c all ne = (ne, tt)
All-snoc (x ∷ xs) c all ne = (all.0, All-snoc xs c all.1 ne)

All-front : (xs : List ℕ) (c : ℕ) → All (λ d. d ≢ 0) (xs ++ (c ∷ [])) → All (λ d. d ≢ 0) xs
All-front [] c all = tt
All-front (x ∷ xs) c all = (all.0, All-front xs c all.1)

get_or_end : (xs : List ℕ) (i : ℕ) → length xs ≤ i → get_or xs i 0 ≡ 0
get_or_end [] i le = refl
get_or_end (x ∷ xs) zero le = absurd (omega arith)
get_or_end (x ∷ xs) (suc i) le = get_or_end xs i (omega arith)

-- A cell of the buffer after a store at the `n`th place behind the head.
cell_set :
    (buffer : List ℕ) (h t n i v : ℕ)
    → length buffer ≡ 1024
    → t % 1024 ≡ (h + n) % 1024
    → n < 1024
    → i < 1024
    → get_or (set buffer (t % 1024) v) ((h + i) % 1024) 0
      ≡ (if i == n then v else get_or buffer ((h + i) % 1024) 0)
cell_set buffer h t n i v size at ln li = elim (Bool-cases (i == n)) [
  | inl e ↦
      let same : i ≡ n = (==_iff i n).0 e in
      let idx : t % 1024 ≡ (h + i) % 1024 = rw same at in
      rw (e, idx) (get_or-set_self buffer ((h + i) % 1024) v 0 (omega (arith, size)))
  | inr ne ↦
      let differ : i ≢ n = λ e. ground (arith, ne) in
      rw ne (get_or-set_ne buffer (t % 1024) ((h + i) % 1024) v 0 (λ e. differ (omega arith)))
]

-- `keyboard_push` of a character that is not 0 appends it to a queue that is not full.
pub push-IsQueue :
    (k : KeyboardBuffer) (xs : List ℕ) (c : ℕ)
    → IsQueue k xs
    → length xs < 1024
    → c ≢ 0
    → (k' : KeyboardBuffer) × (keyboard_push (some k) c ≡ some k') × IsQueue k' (xs ++ (c ∷ []))
unfolding keyboard_push keyboard_get_tail_index
push-IsQueue k xs c is room ne = (
  record k { buffer = set k.buffer (k.tail % 1024) c; tail = (k.tail + 1) % 2 ^ 32 },
  refl,
  record {
    size = length-set k.buffer (k.tail % 1024) c ∙ is.size;
    fits = omega (arith, length-append xs (c ∷ []));
    nonzero = All-snoc xs c is.nonzero ne;
    tail = omega (arith, is.tail, length-append xs (c ∷ []));
    cells = λ i lt.
        cell_set k.buffer k.head k.tail (length xs) i c is.size is.tail room lt
        ∙ ground (arith, is.cells i lt, get_or-snoc xs c i);
  },
)

popped_cells :
    (k : KeyboardBuffer) (x : ℕ) (xs : List ℕ)
    → IsQueue k (x ∷ xs)
    → (i : ℕ) → i < 1024
    → get_or (set k.buffer (k.head % 1024) 0) (((k.head + 1) % 2 ^ 32 + i) % 1024) 0 ≡ get_or xs i 0
popped_cells k x xs is i lt = elim (Bool-cases (i == 1023)) [
  | inl e ↦
      let last : i ≡ 1023 = (==_iff i 1023).0 e in
      let idx : ((k.head + 1) % 2 ^ 32 + i) % 1024 ≡ k.head % 1024 = omega arith in
      rw idx (
        get_or-set_self k.buffer (k.head % 1024) 0 0 (omega (arith, is.size))
        ∙ sym (get_or_end xs i (omega (arith, is.fits))))
  | inr ne ↦
      let inside : i + 1 < 1024 = ground arith in
      let idx : ((k.head + 1) % 2 ^ 32 + i) % 1024 ≡ (k.head + (i + 1)) % 1024 = omega arith in
      let later : (i + 1 == 0) ≡ false = ground arith in
      let next : i + 1 ≡ suc i = omega arith in
      rw idx (
        cell_set k.buffer k.head k.head 0 (i + 1) 0 is.size (ap (λ h. h % 1024) (omega arith))
          (omega arith) inside
        ∙ rw later (is.cells (i + 1) inside ∙ rw next))
]

-- `keyboard_pop` takes the oldest character of a queue.
pub pop-IsQueue :
    (k : KeyboardBuffer) (x : ℕ) (xs : List ℕ)
    → IsQueue k (x ∷ xs)
    → (k' : KeyboardBuffer) × (keyboard_pop (some k) ≡ (x, some k')) × IsQueue k' xs
unfolding keyboard_pop
pop-IsQueue k x xs is =
    let z : (k.head + 0) % 1024 ≡ k.head % 1024 = ap (λ h. h % 1024) (omega arith) in
    let c : get_or k.buffer (k.head % 1024) 0 ≡ x = rw z at (is.cells 0 (omega arith)) in
    let some_char : (x == 0) ≡ false = ground (arith, is.nonzero.0) in
    (
      record k { buffer = set k.buffer (k.head % 1024) 0; head = (k.head + 1) % 2 ^ 32 },
      rw (c, some_char),
      record {
        size = length-set k.buffer (k.head % 1024) 0 ∙ is.size;
        fits = omega (arith, is.fits);
        nonzero = is.nonzero.1;
        tail = omega (arith, is.tail);
        cells = popped_cells k x xs is;
      },
    )

-- `keyboard_pop` of an empty queue gives 0 and changes nothing.
pub pop_empty : (k : KeyboardBuffer) → IsQueue k [] → keyboard_pop (some k) ≡ (0, some k)
unfolding keyboard_pop
pop_empty k is =
    let z : (k.head + 0) % 1024 ≡ k.head % 1024 = ap (λ h. h % 1024) (omega arith) in
    let c : get_or k.buffer (k.head % 1024) 0 ≡ 0 = rw z at (is.cells 0 (omega arith)) in rw c

-- `keyboard_backspace` of a queue that is not empty takes back the newest character.
pub backspace-IsQueue :
    (k : KeyboardBuffer) (xs : List ℕ) (c : ℕ)
    → k.tail < 2 ^ 32
    → IsQueue k (xs ++ (c ∷ []))
    → IsQueue (keyboard_backspace k) xs
unfolding keyboard_backspace keyboard_get_tail_index
backspace-IsQueue k xs c word is =
    let n = length-append xs (c ∷ []) in
    let at : (k.tail + 2 ^ 32 - 1) % 2 ^ 32 % 1024 ≡ (k.head + length xs) % 1024 =
      omega (arith, is.tail, n) in
    record {
      size = length-set k.buffer ((k.tail + 2 ^ 32 - 1) % 2 ^ 32 % 1024) 0 ∙ is.size;
      fits = omega (arith, is.fits, n);
      nonzero = All-front xs c is.nonzero;
      tail = at;
      cells = λ i lt.
          cell_set k.buffer k.head ((k.tail + 2 ^ 32 - 1) % 2 ^ 32) (length xs) i 0 is.size at
            (omega (arith, is.fits, n)) lt
          ∙ ground (arith, is.cells i lt, get_or-snoc xs c i, get_or_end xs i);
    }
