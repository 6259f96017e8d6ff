-- ===== src/Base/Runs.antt =====
-- Code whose behaviour the source language may leave undefined: a fault is an access out of bounds,
-- a signed overflow, a reference to an object that is not there, or a failed assertion. A loop is
-- `out_of_fuel` where the rounds given to it are too few.
use mathlib.Core.Path.{◌≡◌, refl}
use mathlib.Core.Bool.{Bool, true, false}

pub data Run {ℓ} (A : Type ℓ) : Type ℓ where
  ok : A → Run A
  fault : Run A
  out_of_fuel : Run A

infixl 5 ◌>>=◌ ◌>>◌
abbrev pub ◌>>=◌ {ℓ κ} : {A : Type ℓ} {B : Type κ} → Run A → (A → Run B) → Run B
ok a >>= f = f a
fault >>= f = fault
out_of_fuel >>= f = out_of_fuel

abbrev pub ◌>>◌ {ℓ} : {B : Type ℓ} → Run (Unit {0}) → Run B → Run B
m >> k = m >>= λ _. k

-- Goes on where the access is defined.
abbrev pub require : Bool → Run (Unit {0})
require true = ok tt
require false = fault

-- A bind that returns.
pub >>=-returns {ℓ κ} :
    {A : Type ℓ} {B : Type κ} (r : Run A) (f : A → Run B) {b : B}
    → (r >>= f) ≡ ok b
    → (a : A) × (r ≡ ok a) × (f a ≡ ok b)
>>=-returns (ok a) f h = (a, refl, h)
>>=-returns fault f h = absurd (cc)
>>=-returns out_of_fuel f h = absurd (cc)
