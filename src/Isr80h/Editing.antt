-- ===== src/Isr80h/Editing.antt =====
-- isr80h/process.c: the line as a list of characters that keys extend and shorten.
use os_kernel_application_si.Base.{
  ℕ, zero, suc, ◌+◌, ◌-◌, ◌≤◌, ◌<◌, ◌≡◌, refl, sym, ap, ◌∙◌, inl, inr, ltb, lt→ltb, ltb→lt, ◌==◌,
  if◌then◌else◌, arith, Bool-cases, List, [], ◌∷◌, ◌++◌, Option, none, some, length, length-set,
  length-append, length-take, set, take, Run, done, out_of_fuel, and_then_done, subst,
}
use os_kernel_application_si.Terminal.Screen.{IsScreen, terminal_writechar-IsScreen}
use os_kernel_application_si.Isr80h.{is_end, Line, put_key, echo, collect}

-- Editing a line of at most `room` characters: the line, once it is full or ended.
unfoldable pub edit : ℕ → List ℕ → List ℕ → Option (List ℕ)
edit room xs [] = if ltb (length xs) room then none else some xs
edit room xs (c ∷ keys) =
    let ended = xs ++ (c ∷ []) in
    let more = edit room ended keys in
    let typed = if is_end c then some ended else more in
    let back = edit room (take (length xs - 1) xs) keys in
    let nothing = edit room xs keys in
    if ltb (length xs) room
    then if c == 0 then nothing else if c == 0x08 then back else typed
    else some xs

-- The buffer holds the characters of `xs`, with room for the 0 behind them.
pub record Holds (max : ℕ) (xs : List ℕ) (l : Line) : Type 0 where
  pub size : length l.kbuf ≡ max
  pub count : l.count ≡ length xs
  pub fits : length xs < max
  pub chars : take (length xs) l.kbuf ≡ xs
  pub screen : IsScreen l.terminal

take-set :
    (xs : List ℕ) (i c : ℕ) → i < length xs → take (suc i) (set xs i c) ≡ take i xs ++ (c ∷ [])
take-set [] i c h = absurd (omega arith)
take-set (x ∷ xs) zero c h = refl
take-set (x ∷ xs) (suc i) c h = ap (λ r. x ∷ r) (take-set xs i c (omega arith))

pub take-set_ge : (xs : List ℕ) (i n c : ℕ) → n ≤ i → take n (set xs i c) ≡ take n xs
take-set_ge xs i zero c h = refl
take-set_ge [] i (suc n) c h = refl
take-set_ge (x ∷ xs) zero (suc n) c h = absurd (omega arith)
take-set_ge (x ∷ xs) (suc i) (suc n) c h = ap (λ r. x ∷ r) (take-set_ge xs i n c (omega arith))

take-take : (xs : List ℕ) (m n : ℕ) → m ≤ n → take m (take n xs) ≡ take m xs
take-take xs zero n h = refl
take-take xs (suc m) zero h = absurd (omega arith)
take-take [] (suc m) (suc n) h = refl
take-take (x ∷ xs) (suc m) (suc n) h = ap (λ r. x ∷ r) (take-take xs m n (omega arith))

-- A line against what it should hold
pub data Edited (max : ℕ) (o : Option (List ℕ)) (r : Run Line) : Type 0 where
  -- the keys do not end it
  waits : o ≡ none → r ≡ out_of_fuel → Edited max o r
  ends : (ys : List ℕ) (l : Line) → o ≡ some ys → r ≡ done l → Holds max ys l → Edited max o r

module _ (max : ℕ) where
  pub record Echoed (xs keys : List ℕ) (r : Run Line) : Type 0 where
    pub after : Line
    pub run : r ≡ done after
    pub holds : Holds max xs after
    pub left : after.keys ≡ keys

  pub echo-Echoed : (xs : List ℕ) (c : ℕ) (l : Line) → Holds max xs l → Echoed xs l.keys (echo c l)
  unfolding echo
  echo-Echoed xs c l is =
      let (t, r, is') = terminal_writechar-IsScreen c 15 l.terminal is.screen in
      rw r (record {
        after = record l { terminal = t };
        run = refl;
        holds = record {
          size = is.size;
          count = is.count;
          fits = is.fits;
          chars = is.chars;
          screen = is';
        };
        left = refl;
      })

  pub put_key-Echoed :
      (xs : List ℕ) (c : ℕ) (l : Line)
      → Holds max xs l
      → suc (length xs) < max
      → Echoed (xs ++ (c ∷ [])) l.keys (put_key c l)
  unfolding put_key
  put_key-Echoed xs c l is room =
      let inside : l.count < length l.kbuf = omega (arith, is.size, is.count, room) in
      let longer : length (xs ++ (c ∷ [])) ≡ suc (length xs) =
        length-append xs (c ∷ []) ∙ omega arith in
      rw (lt→ltb l.count (length l.kbuf) inside) (record {
        after = record l { kbuf = set l.kbuf l.count c; count = l.count + 1 };
        run = refl;
        holds = record {
          size = length-set l.kbuf l.count c ∙ is.size;
          count = omega (arith, is.count, longer);
          fits = omega (arith, longer, room);
          chars =
              ap (λ n. take n (set l.kbuf l.count c)) longer
              ∙ ap (λ i. take (suc i) (set l.kbuf l.count c)) (sym is.count)
              ∙ take-set l.kbuf l.count c inside
              ∙ ap (λ i. take i l.kbuf ++ (c ∷ [])) is.count
              ∙ ap (λ r. r ++ (c ∷ [])) is.chars;
          screen = is.screen;
        };
        left = refl;
      })

  shorter :
      (xs : List ℕ) (l : Line)
      → Holds max xs l
      → Holds max (take (length xs - 1) xs) (record l { count = l.count - 1 })
  shorter xs l is =
      let len : length (take (length xs - 1) xs) ≡ length xs - 1 =
        length-take (length xs - 1) xs ∙ omega arith in
      record {
        size = is.size;
        count = omega (arith, is.count, len);
        fits = omega (arith, is.fits, len);
        chars =
            ap (λ n. take n l.kbuf) len
            ∙ sym (take-take l.kbuf (length xs - 1) (length xs) (omega arith))
            ∙ ap (take (length xs - 1)) is.chars;
        screen = is.screen;
      }

  pub with_keys :
      (xs : List ℕ) (l : Line) (keys : List ℕ)
      → Holds max xs l
      → Holds max xs (record l { keys = keys })
  with_keys xs l keys is = record {
    size = is.size;
    count = is.count;
    fits = is.fits;
    chars = is.chars;
    screen = is.screen;
  }

  take_nothing : (xs : List ℕ) → length xs ≡ 0 → take (length xs - 1) xs ≡ xs
  take_nothing [] h = refl
  take_nothing (x ∷ xs) h = absurd (omega arith)

  pub moved : (o : Option (List ℕ)) (r r' : Run Line) → r ≡ r' → Edited max o r' → Edited max o r
  moved o r r' e is = subst (Edited max o) (sym e) is

  -- The second loop edits the line.
  pub collect-Edited :
      (keys xs : List ℕ) (l : Line)
      → Holds max xs l
      → Edited max (edit (max - 1) xs keys) (collect max keys l)
  unfolding edit collect
  collect-Edited [] xs l is = elim (Bool-cases (ltb (length xs) (max - 1))) [
    | inl room ↦
        let room' = ap (λ n. ltb n (max - 1)) is.count ∙ room in rw (room, room') (waits refl refl)
    | inr full ↦
        let full' = ap (λ n. ltb n (max - 1)) is.count ∙ full in
        rw (full, full') (ends xs (record l { keys = [] }) refl refl (with_keys xs l [] is))
  ]
  collect-Edited (c ∷ keys) xs l is = elim (Bool-cases (ltb (length xs) (max - 1))) [
    | inr full ↦
        let full' = ap (λ n. ltb n (max - 1)) is.count ∙ full in
        rw (edit, collect, full, full')
          (ends xs (record l { keys = c ∷ keys }) refl refl (with_keys xs l (c ∷ keys) is))
    | inl room ↦
        let room' = ap (λ n. ltb n (max - 1)) is.count ∙ room in
        elim (Bool-cases (c == 0)) [
          | inl woken ↦ rw (edit, collect, room, room', woken) (collect-Edited keys xs l is)
          | inr key ↦ elim (Bool-cases (c == 0x08)) [
            | inl back ↦
                rw (edit, collect, room, room', key, back)
                  (elim (Bool-cases (ltb 0 l.count)) [
                    | inl more ↦
                        let e =
                          echo-Echoed (take (length xs - 1) xs) 0x08
                            (record l { count = l.count - 1 }) (shorter xs l is) in
                        rw more (
                          moved _ _ _ (and_then_done _ e.run refl)
                            (collect-Edited keys (take (length xs - 1) xs) e.after e.holds))
                    | inr empty ↦
                        let same = take_nothing xs (ground (arith, is.count)) in
                        rw (empty, same) (collect-Edited keys xs l is)
                  ])
            | inr char ↦
                rw (edit, collect, room, room', key, char)
                  (let e = echo-Echoed xs (if c == 13 then 10 else c) l is in
                    let p =
                      put_key-Echoed xs c e.after e.holds
                        (let lt = ltb→lt (length xs) (max - 1) room in omega (arith, lt)) in
                    let run = and_then_done (put_key c) e.run p.run in
                    elim (Bool-cases (is_end c)) [
                      | inl last ↦ rw last (
                          ends (xs ++ (c ∷ [])) (record p.after { keys = keys }) refl
                            (and_then_done _ run refl) (with_keys _ p.after keys p.holds))
                      | inr more ↦ rw more (
                          moved _ _ _ (and_then_done _ run refl)
                            (collect-Edited keys (xs ++ (c ∷ [])) p.after p.holds))
                    ])
          ]
        ]
  ]
