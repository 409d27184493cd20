-- ===== src/Base/Outcome.antt =====
-- How a run of C code ends: with a value, with an access outside an object, or with its fuel spent.
use mathlib.Core.Path.{◌≡◌}

pub data Run {ℓ} (A : Type ℓ) : Type ℓ where
  done : A → Run A
  fault : Run A
  out_of_fuel : Run A

module _ {ℓ κ} {A : Type ℓ} {B : Type κ} where
  abbrev pub and_then : Run A → (A → Run B) → Run B
  and_then (done a) k = k a
  and_then fault k = fault
  and_then out_of_fuel k = out_of_fuel

  abbrev pub map_run : (A → B) → Run A → Run B
  map_run f (done a) = done (f a)
  map_run f fault = fault
  map_run f out_of_fuel = out_of_fuel

pub done-injective {ℓ} : {A : Type ℓ} (a b : A) → done a ≡ done b → a ≡ b
done-injective a b e = cc

module _ {ℓ κ} {A : Type ℓ} {B : Type κ} where
  pub and_then_done :
      {r : Run A} {a : A} (k : A → Run B) {q : Run B} → r ≡ done a → k a ≡ q → and_then r k ≡ q
  and_then_done k e e' = rw e e'

  pub map_run_done :
      {r : Run A} {a : A} (f : A → B) {b : B} → r ≡ done a → f a ≡ b → map_run f r ≡ done b
  map_run_done f e e' = rw (e, e')
