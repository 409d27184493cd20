-- ===== src/Keyboard/Scancodes.antt =====
-- classic.c: what an interrupt of the keyboard does to the buffer of the current process.
use os_kernel_application_si.Base.{
  ℕ, ◌≤◌, ◌<◌, ◌≡◌, refl, ◌≢◌, ◌↔◌, inl, inr, ltb, ◌==◌, arith, Bool-cases, ==_iff, List, [], ◌∷◌,
  Option, length, get_or, get_elem?-eq-get_or, bit_and, zero, suc, ◌+◌, ◌-◌, ◌&&◌, Bool, true, leb,
  if◌then◌else◌, sym, ap, done, fault,
}
use os_kernel_application_si.Keyboard.{KeyboardBuffer}
use os_kernel_application_si.Keyboard.Classic.{
  keyboard_scan_set_one, classic_keyboard_scancode_to_char, lower, clasic_keyboard_handle_interrupt,
}

-- The keys of a keyboard, by the scancode of the first of a row, with the characters that they give
-- in lower case: from escape to tab, the three rows of letters with return, backslash in front of the
-- last one, the star, the space, and the keypad, which the table has from 69 on.
abbrev rows : List (ℕ × List ℕ)
rows =
    (1, 27 ∷ 49 ∷ 50 ∷ 51 ∷ 52 ∷ 53 ∷ 54 ∷ 55 ∷ 56 ∷ 57 ∷ 48 ∷ 45 ∷ 61 ∷ 8 ∷ 9 ∷ [])
    ∷ (16, 113 ∷ 119 ∷ 101 ∷ 114 ∷ 116 ∷ 121 ∷ 117 ∷ 105 ∷ 111 ∷ 112 ∷ 91 ∷ 93 ∷ 13 ∷ [])
    ∷ (30, 97 ∷ 115 ∷ 100 ∷ 102 ∷ 103 ∷ 104 ∷ 106 ∷ 107 ∷ 108 ∷ 59 ∷ 39 ∷ 96 ∷ [])
    ∷ (43, 92 ∷ 122 ∷ 120 ∷ 99 ∷ 118 ∷ 98 ∷ 110 ∷ 109 ∷ 44 ∷ 46 ∷ 47 ∷ [])
    ∷ (55, 42 ∷ [])
    ∷ (57, 32 ∷ [])
    ∷ (69, 55 ∷ 56 ∷ 57 ∷ 45 ∷ 52 ∷ 53 ∷ 54 ∷ 43 ∷ 49 ∷ 50 ∷ 51 ∷ 48 ∷ 46 ∷ [])
    ∷ []

-- The character of a scancode, 0 for none
unfoldable pub key_in : List (ℕ × List ℕ) → ℕ → ℕ
key_in [] s = 0
key_in (r ∷ rs) s =
    let rest = key_in rs s in
    if leb (r.0) s && ltb s (r.0 + length (r.1)) then get_or (r.1) (s - r.0) 0 else rest

-- What a scancode types: nothing for the keys without a character, and nothing for a release
unfoldable pub typed_by : ℕ → List ℕ
typed_by s = let c = key_in rows s in if c == 0 then [] else c ∷ []

-- What the table and the conversion make of it
unfoldable read_key : ℕ → ℕ
read_key s = if bit_and s 0x80 == 0 then lower (get_or keyboard_scan_set_one s 0) else 0

unfoldable agree_below : ℕ → Bool
agree_below zero = true
agree_below (suc n) = (read_key n == key_in rows n) && agree_below n

get_or-beyond : (xs : List ℕ) (i : ℕ) → length xs ≤ i → get_or xs i 0 ≡ 0
get_or-beyond [] i le = refl
get_or-beyond (x ∷ xs) zero le = absurd (omega arith)
get_or-beyond (x ∷ xs) (suc i) le = get_or-beyond xs i (omega arith)

char_at :
    (s : ℕ) → s ≢ 82 → classic_keyboard_scancode_to_char s ≡ done (get_or keyboard_scan_set_one s 0)
unfolding classic_keyboard_scancode_to_char
char_at s ne = elim (Bool-cases (ltb 82 s)) [
  | inl large ↦ rw large (ap done (sym (get_or-beyond keyboard_scan_set_one s (ground arith))))
  | inr small ↦
      let lt : s < 82 = ground arith in rw (small, get_elem?-eq-get_or keyboard_scan_set_one s 0 lt)
]

char_of : (s : ℕ) → s ≢ 82 → (c : ℕ) × (classic_keyboard_scancode_to_char s ≡ done c)
char_of s ne = (get_or keyboard_scan_set_one s 0, char_at s ne)

never :
    (s c : ℕ) (keyboard : Option KeyboardBuffer)
    → classic_keyboard_scancode_to_char s ≡ done c
    → clasic_keyboard_handle_interrupt s keyboard ≢ fault
unfolding clasic_keyboard_handle_interrupt
never s c keyboard r e = elim (Bool-cases (bit_and s 0x80 == 0)) [
  | inr released ↦ let t = rw released at e in cc
  | inl pressed ↦ elim (Bool-cases (c == 0)) [
    | inl nothing ↦ let t = rw (pressed, r, nothing) at e in cc
    | inr char ↦ let t = rw (pressed, r, char) at e in cc
  ]
]

-- `clasic_keyboard_handle_interrupt` reads behind the end of its table for scancode 82, and for no
-- other.
pub clasic_keyboard_handle_interrupt-fault :
    (s : ℕ) (keyboard : Option KeyboardBuffer)
    → (clasic_keyboard_handle_interrupt s keyboard ≡ fault) ↔ (s ≡ 82)
unfolding clasic_keyboard_handle_interrupt classic_keyboard_scancode_to_char
clasic_keyboard_handle_interrupt-fault s keyboard = (only s, λ e. rw e refl)
  where
    only : (s : ℕ) → clasic_keyboard_handle_interrupt s keyboard ≡ fault → s ≡ 82
    only s e = elim (Bool-cases (s == 82)) [
      | inl same ↦ (==_iff s 82).0 same
      | inr other ↦ let (c, r) = char_of s (λ z. ground arith) in absurd (never s c keyboard r e)
    ]
