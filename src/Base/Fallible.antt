-- ===== src/Base/Fallible.antt =====
-- Results of fallible code: Rust's `Result`, with a constructor for a panic.
use mathlib.Core.Option.{Option, none, some}
use mathlib.Core.Bool.{Bool, true, false}

-- `no_fuel` is no behaviour of the code: the fuel of a modelled loop ran out.
pub data Result (E A : Type 0) : Type 0 where
  ok : A → Result E A
  err : E → Result E A
  panic : Result E A
  no_fuel : Result E A

module _ {E : Type 0} where
  infixl 5 ◌>>=◌ ◌>>◌
  abbrev pub ◌>>=◌ : {A B : Type 0} → Result E A → (A → Result E B) → Result E B
  ok a >>= f = f a
  err e >>= f = err e
  panic >>= f = panic
  no_fuel >>= f = no_fuel

  abbrev pub ◌>>◌ : {B : Type 0} → Result E (Unit {0}) → Result E B → Result E B
  m >> k = m >>= λ _. k

  -- `assert!`.
  abbrev pub assert : Bool → Result E (Unit {0})
  assert true = ok tt
  assert false = panic

  -- A read of a slice or a map at a place that must be there.
  abbrev pub expect : {A : Type 0} → Option A → Result E A
  expect (some a) = ok a
  expect none = panic

module _ {E F : Type 0} {A : Type 0} where
  -- `r.map_err(f)`.
  abbrev pub map_err : (E → F) → Result E A → Result F A
  map_err f (ok a) = ok a
  map_err f (err e) = err (f e)
  map_err f panic = panic
  map_err f no_fuel = no_fuel

  -- `r.unwrap()`.
  abbrev pub unwrap : Result E A → Result F A
  unwrap (ok a) = ok a
  unwrap (err e) = panic
  unwrap panic = panic
  unwrap no_fuel = no_fuel
