-- ===== src/Base/Bits.antt =====
-- One bit above a number that it does not overlap.
use Prim.Native.Nat.{
  ℕ, zero, suc, ◌+◌, ◌-◌, ◌*◌, ◌/◌, ◌^◌, ◌≤◌, ◌<◌, min, max, digits, bit_and, bit_or,
  bit_and-bitwise, bit_or-bitwise,
}
use mathlib.Core.Path.{◌≡◌, refl, ◌∙◌}
use native.Mathlib.Omega.{arith}

abbrev power : ℕ → ℕ
power zero = 1
power (suc k) = 2 * power k

power-positive : (k : ℕ) → 1 ≤ power k
power-positive zero = omega arith
power-positive (suc k) = omega (arith, power-positive k)

abbrev masked : ℕ → ℕ → ℕ → ℕ
masked n a b = digits (λ b. zero) min n a b

abbrev joined : ℕ → ℕ → ℕ → ℕ
joined n a b = digits (λ b. b) max n a b

half-mask : (p : ℕ) → 1 ≤ p → (3 * (2 * p) - 1) / 2 ≡ 3 * p - 1
half-mask p h = omega arith

half-power : (p : ℕ) → 2 * p / 2 ≡ p
half-power p = omega arith

masked-zero : (n b : ℕ) → masked n 0 b ≡ 0
masked-zero zero b = refl
masked-zero (suc n) b = refl

joined-zero : (n b : ℕ) → joined n 0 b ≡ b
joined-zero zero b = refl
joined-zero (suc n) b = refl

-- The mask has a one at the place above `k`, none at `k`, and ones below.
masked-low : (k n a : ℕ) → a ≤ n → a < power k → masked n a (3 * power k - 1) ≡ a
masked-low k n zero h lt = masked-zero n (3 * power k - 1)
masked-low k zero (suc a) h lt = elim h [ ]
masked-low zero (suc n) (suc a) h lt = absurd (omega arith)
masked-low (suc k) (suc n) (suc a) h lt =
    rw (half-mask (power k) (power-positive k))
      (omega (arith, masked-low k n (suc a / 2) (omega arith) (omega arith), power-positive k))

masked-bit :
    (k n a : ℕ) → a ≤ n → power k ≤ a → a < 2 * power k → masked n a (3 * power k - 1) + power k ≡ a
masked-bit k n zero h le lt = absurd (omega (arith, power-positive k))
masked-bit k zero (suc a) h le lt = elim h [ ]
masked-bit zero (suc n) (suc zero) h le lt = omega (arith, masked-zero n 1)
masked-bit zero (suc n) (suc (suc a)) h le lt = absurd (omega arith)
masked-bit (suc k) (suc n) (suc a) h le lt = rw (half-mask (power k) (power-positive k)) (
    omega (
      arith,
      masked-bit k n (suc a / 2) (omega arith) (omega arith) (omega arith),
      power-positive k,
    ))

joined-bit : (k n a : ℕ) → a ≤ n → a < power k → joined n a (power k) ≡ a + power k
joined-bit k n zero h lt = omega (arith, joined-zero n (power k))
joined-bit k zero (suc a) h lt = elim h [ ]
joined-bit zero (suc n) (suc a) h lt = absurd (omega arith)
joined-bit (suc k) (suc n) (suc a) h lt =
    rw (half-power (power k))
      (omega (arith, joined-bit k n (suc a / 2) (omega arith) (omega arith)))

-- The bit 2^30 on a number below it, set and cleared.
pub bit_or-waiters_bit : (a : ℕ) → a < 2 ^ 30 → bit_or a (2 ^ 30) ≡ a + 2 ^ 30
bit_or-waiters_bit a h = bit_or-bitwise a (2 ^ 30) ∙ joined-bit 30 a a (omega arith) h

pub bit_and-mask_low : (a : ℕ) → a < 2 ^ 30 → bit_and a (2 ^ 32 - 1 - 2 ^ 30) ≡ a
bit_and-mask_low a h = bit_and-bitwise a (2 ^ 32 - 1 - 2 ^ 30) ∙ masked-low 30 a a (omega arith) h

pub bit_and-mask_bit : (a : ℕ) → a < 2 ^ 30 → bit_and (a + 2 ^ 30) (2 ^ 32 - 1 - 2 ^ 30) ≡ a
bit_and-mask_bit a h = omega (
  arith,
  bit_and-bitwise (a + 2 ^ 30) (2 ^ 32 - 1 - 2 ^ 30) ∙ refl,
  masked-bit 30 (a + 2 ^ 30) (a + 2 ^ 30) (omega arith) (omega arith) (omega arith),
)
