-- ===== src/Stateful.antt =====
-- Operations that change a state and may fail: what they leave changed stays so where they fail.
use abdb.Base.{Result, ok, err, panic, no_fuel}

abbrev pub State : Type 0 → Type 0 → Type 0 → Type 0
State E S A = S → Result E A × S

module _ {E S : Type 0} where
  abbrev pub bind_step : {A B : Type 0} → Result E A × S → (A → State E S B) → Result E B × S
  bind_step (ok a, s) f = f a s
  bind_step (err e, s) f = (err e, s)
  bind_step (panic, s) f = (panic, s)
  bind_step (no_fuel, s) f = (no_fuel, s)

  infixl 5 ◌>>=◌ ◌>>◌
  abbrev pub ◌>>=◌ : {A B : Type 0} → State E S A → (A → State E S B) → State E S B
  ◌>>=◌ m f s = bind_step (m s) f

  abbrev pub ◌>>◌ : {B : Type 0} → State E S (Unit {0}) → State E S B → State E S B
  m >> k = m >>= λ _. k

  abbrev pub pure : {A : Type 0} → A → State E S A
  pure a s = (ok a, s)

  abbrev pub raise : {A : Type 0} → E → State E S A
  raise e s = (err e, s)

  abbrev pub modify : (S → S) → State E S (Unit {0})
  modify f s = (ok tt, f s)
