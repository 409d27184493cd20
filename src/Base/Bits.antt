-- ===== src/Base/Bits.antt =====
-- The binary operations, digit by digit, and the masks of a page.
use Prim.Native.Nat.{
  ℕ, zero, suc, ◌+◌, ◌*◌, ◌/◌, ◌%◌, ◌^◌, ◌≤◌, ◌<◌, min, max, bit_and, bit_or, bitwise, digits,
  bit_and-bitwise, bit_or-bitwise,
}
use mathlib.Core.Path.{◌≡◌, refl, ◌∙◌, ap, sym}
use native.Mathlib.Omega.{arith}

module _ (z : ℕ → ℕ) (f : ℕ → ℕ → ℕ) (end : (b : ℕ) → z b ≡ z (b / 2) * 2 + f 0 (b % 2)) where
  -- Any count of digits that covers the first number gives the same result.
  enough_digits : (n m a b : ℕ) → a ≤ n → a ≤ m → digits z f n a b ≡ digits z f m a b
  enough_digits zero zero a b p q = refl
  enough_digits zero (suc m) zero b p q = refl
  enough_digits zero (suc m) (suc a) b p q = absurd (omega arith)
  enough_digits (suc n) zero zero b p q = refl
  enough_digits (suc n) zero (suc a) b p q = absurd (omega arith)
  enough_digits (suc n) (suc m) zero b p q = refl
  enough_digits (suc n) (suc m) (suc a) b p q =
      ap (λ r. r * 2 + f (suc a % 2) (b % 2))
        (enough_digits n m (suc a / 2) (b / 2) (omega arith) (omega arith))

  bitwise-halves : (a b : ℕ) → bitwise z f a b ≡ bitwise z f (a / 2) (b / 2) * 2 + f (a % 2) (b % 2)
  bitwise-halves zero b = end b
  bitwise-halves (suc a) b =
      ap (λ r. r * 2 + f (suc a % 2) (b % 2))
        (enough_digits a (suc a / 2) (suc a / 2) (b / 2) (omega arith) (omega arith))

pub bit_and-halves : (a b : ℕ) → bit_and a b ≡ bit_and (a / 2) (b / 2) * 2 + min (a % 2) (b % 2)
bit_and-halves a b =
    rw (bit_and-bitwise a b, bit_and-bitwise (a / 2) (b / 2))
      (bitwise-halves (λ b. zero) min (λ b. omega arith) a b)

pub bit_or-halves : (a b : ℕ) → bit_or a b ≡ bit_or (a / 2) (b / 2) * 2 + max (a % 2) (b % 2)
bit_or-halves a b =
    rw (bit_or-bitwise a b, bit_or-bitwise (a / 2) (b / 2))
      (bitwise-halves (λ b. b) max (λ b. omega arith) a b)

-- `a << k`, `x >> k`, and a mask of `k` ones
abbrev pub shl : ℕ → ℕ → ℕ
shl zero a = a
shl (suc k) a = shl k a * 2

abbrev pub shr : ℕ → ℕ → ℕ
shr zero x = x
shr (suc k) x = shr k (x / 2)

abbrev pub ones : ℕ → ℕ
ones zero = 0
ones (suc k) = ones k * 2 + 1

bit_or-zero : (n a : ℕ) → a ≤ n → bit_or a 0 ≡ a
bit_or-zero zero zero h = refl
bit_or-zero zero (suc a) h = absurd (omega arith)
bit_or-zero (suc n) a h = omega (arith, bit_or-halves a 0, bit_or-zero n (a / 2) (omega arith))

bit_and-zero : (n a : ℕ) → a ≤ n → bit_and a 0 ≡ 0
bit_and-zero zero zero h = refl
bit_and-zero zero (suc a) h = absurd (omega arith)
bit_and-zero (suc n) a h = omega (arith, bit_and-halves a 0, bit_and-zero n (a / 2) (omega arith))

pub bit_or-shl : (k a b : ℕ) → b < shl k 1 → bit_or (shl k a) b ≡ shl k a + b
bit_or-shl zero a zero h = omega (arith, bit_or-zero a a (omega arith))
bit_or-shl zero a (suc b) h = absurd (omega arith)
bit_or-shl (suc k) a b h =
    let half : shl k a * 2 / 2 ≡ shl k a = omega arith in
    bit_or-halves (shl k a * 2) b ∙ rw (half, bit_or-shl k a (b / 2) (omega arith)) (omega arith)

pub bit_and-shl : (k x m : ℕ) → bit_and x (shl k m) ≡ shl k (bit_and (shr k x) m)
bit_and-shl zero x m = refl
bit_and-shl (suc k) x m =
    let half : shl k m * 2 / 2 ≡ shl k m = omega arith in
    bit_and-halves x (shl k m * 2) ∙ rw (half, bit_and-shl k (x / 2) m) (omega arith)

-- The mask keeps the low digits and drops the others.
pub bit_and-ones : (k x : ℕ) → bit_and x (ones k) + shl k (shr k x) ≡ x
bit_and-ones zero x = omega (arith, bit_and-zero x x (omega arith))
bit_and-ones (suc k) x =
    let half : (ones k * 2 + 1) / 2 ≡ ones k = omega arith in
    rw (bit_and-halves x (ones k * 2 + 1), half) (omega (arith, bit_and-ones k (x / 2)))

pub bit_or-flags : (p f : ℕ) → p % 4096 ≡ 0 → f < 4096 → bit_or p f ≡ p + f
bit_or-flags p f h lt =
    let e : p ≡ shl 12 (p / 4096) = omega arith in rw e (bit_or-shl 12 (p / 4096) f (omega arith))

pub bit_and-page : (x : ℕ) → x < 2 ^ 32 → bit_and x 0xfffff000 ≡ x / 4096 * 4096
bit_and-page x lt = bit_and-shl 12 x 0xfffff ∙ omega (arith, bit_and-ones 20 (shr 12 x))

pub bit_and-flags : (x : ℕ) → bit_and x 0xfff ≡ x % 4096
bit_and-flags x = omega (arith, bit_and-ones 12 x)

bit_or-low :
    (k a x b : ℕ)
    → x < shl k 1
    → b < shl k 1
    → (bit_or (shl k a + x) b ≡ shl k a + bit_or x b) × (bit_or x b < shl k 1)
bit_or-low zero a zero zero h g =
    let e : a + 0 ≡ a = omega arith in
    (ap (λ y. bit_or y 0) e ∙ omega (arith, bit_or-zero a a (omega arith)), omega arith)
bit_or-low zero a zero (suc b) h g = absurd (omega arith)
bit_or-low zero a (suc x) b h g = absurd (omega arith)
bit_or-low (suc k) a x b h g =
    let half : (shl k a * 2 + x) / 2 ≡ shl k a + x / 2 = omega arith in
    let (e, lt) = bit_or-low k a (x / 2) (b / 2) (omega arith) (omega arith) in
    (
      bit_or-halves (shl k a * 2 + x) b ∙ rw (half, e) (omega (arith, bit_or-halves x b)),
      omega (arith, bit_or-halves x b, lt),
    )

-- Two sets of flags on an aligned address
pub bit_or-flags_twice :
    (p f g : ℕ)
    → p % 4096 ≡ 0
    → f < 4096
    → g < 4096
    → (d : ℕ) × (bit_or (bit_or p f) g ≡ p + d) × (d < 4096)
bit_or-flags_twice p f g h lf lg =
    let e : p ≡ shl 12 (p / 4096) = omega arith in
    let (r, lt) = bit_or-low 12 (p / 4096) f g (omega (arith, lf)) (omega (arith, lg)) in
    (
      bit_or f g,
      rw (bit_or-flags p f h lf)
          (ap (λ q. bit_or (q + f) g) e ∙ r ∙ ap (λ q. q + bit_or f g) (sym e)),
      omega (arith, lt),
    )
