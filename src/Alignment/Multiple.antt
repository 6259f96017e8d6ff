-- ===== src/Alignment/Multiple.antt =====
-- What `AlignUp` and `AlignDown` compute for an alignment that is a power of two.
use Prim.Native.Nat.{min, digits, bit_and, bit_and-bitwise}
use dd_framework.Base.{
  ℕ, zero, suc, ◌+◌, ◌-◌, ◌*◌, ◌/◌, ◌%◌, ◌^◌, ◌≤◌, ◌<◌, ◌≡◌, refl, sym, ◌∙◌, ap, arith, add64,
  sub64,
}
use native.Mathlib.Nat.{mul_comm, mul_assoc, pow-suc, one-le-pow, pow-le-pow_right}
use mathlib.Core.Path.{ap₂}
use dd_framework.Alignment.{align_up, align_down, complement64}

abbrev power : ℕ → ℕ
power zero = 1
power (suc k) = 2 * power k

power-positive : (k : ℕ) → 1 ≤ power k
power-positive zero = omega arith
power-positive (suc k) = omega (arith, power-positive k)

abbrev masked : ℕ → ℕ → ℕ → ℕ
masked n a b = digits (λ b. zero) min n a b

-- `r` is the greatest multiple of `p` up to `a`.
pub record Rounds (p a r : ℕ) : Type 0 where
  pub quotient : ℕ
  pub multiple : r ≡ quotient * p
  pub below : r ≤ a
  pub near : a < r + p

masked-zero : (n b : ℕ) → masked n 0 b ≡ 0
masked-zero zero b = refl
masked-zero (suc n) b = refl

-- A mask of ones keeps what lies below it.
masked-ones : (j n a : ℕ) → a ≤ n → a < power j → masked n a (power j - 1) ≡ a
masked-ones j n zero h lt = masked-zero n (power j - 1)
masked-ones j zero (suc a) h lt = elim h [ ]
masked-ones zero (suc n) (suc a) h lt = absurd (omega arith)
masked-ones (suc j) (suc n) (suc a) h lt =
    let half : (2 * power j - 1) / 2 ≡ power j - 1 = omega arith in
    rw half
      (omega (arith, masked-ones j n (suc a / 2) (omega arith) (omega arith), power-positive j))

half-difference : (p q : ℕ) → (2 * p - 2 * q) / 2 ≡ p - q
half-difference p q = omega arith

abbrev raise : ℕ → ℕ → ℕ
raise zero j = j
raise (suc k) j = suc (raise k j)

even-difference : (p q : ℕ) → (2 * p - 2 * q) % 2 ≡ 0
even-difference p q = omega arith

Rounds-double :
    (p a m r b : ℕ)
    → b % 2 ≡ 0
    → Rounds p (a / 2) m
    → r ≡ m * 2 + min (a % 2) (b % 2)
    → Rounds (2 * p) a r
Rounds-double p a m r b even half e = record {
  quotient = half.quotient;
  multiple = omega (
    arith,
    half.multiple,
    mul_comm half.quotient (2 * p),
    mul_comm half.quotient p,
    ap (λ (t : ℕ). t * p) even,
    mul_assoc 2 p half.quotient,
  );
  below = omega (arith, half.below);
  near = omega (arith, half.near);
}

-- A mask of ones above the place `k`.
masked-high :
    (k j n a : ℕ)
    → a ≤ n
    → a < power (raise k j)
    → Rounds (power k) a (masked n a (power (raise k j) - power k))
masked-high k j n zero h lt = record {
  quotient = 0;
  multiple = omega (arith, masked-zero n (power (raise k j) - power k));
  below = omega (arith, masked-zero n (power (raise k j) - power k));
  near = omega (arith, masked-zero n (power (raise k j) - power k), power-positive k);
}
masked-high k j zero (suc a) h lt = elim h [ ]
masked-high zero j (suc n) (suc a) h lt = record {
  quotient = suc a;
  multiple = omega (arith, masked-ones j (suc n) (suc a) h lt);
  below = omega (arith, masked-ones j (suc n) (suc a) h lt);
  near = omega (arith, masked-ones j (suc n) (suc a) h lt);
}
masked-high (suc k) j (suc n) (suc a) h lt =
    let ih = masked-high k j n (suc a / 2) (omega arith) (omega arith) in
    Rounds-double (power k) (suc a) (masked n (suc a / 2) (power (raise k j) - power k)) _ _
      (even-difference (power (raise k j)) (power k)) ih
      (rw (half-difference (power (raise k j)) (power k)))

power-pow : (k : ℕ) → power k ≡ 2 ^ k
power-pow zero = refl
power-pow (suc k) = omega (arith, power-pow k, pow-suc 2 k)

raise-add : (k j : ℕ) → raise k j ≡ k + j
raise-add zero j = omega arith
raise-add (suc k) j = omega (arith, raise-add k j)

raise-pow : (k : ℕ) → k < 64 → power (raise k (64 - k)) ≡ 2 ^ 64
raise-pow k h =
    let e : raise k (64 - k) ≡ 64 = omega (arith, raise-add k (64 - k)) in rw e (power-pow 64)

complement-mask : (p : ℕ) → 1 ≤ p → p ≤ 2 ^ 64 → complement64 (sub64 p 1) ≡ 2 ^ 64 - p
complement-mask p h le = omega arith

-- The mask of either function rounds down.
masked-complement :
    (k a : ℕ) → k < 64 → a < 2 ^ 64 → Rounds (2 ^ k) a (bit_and a (complement64 (sub64 (2 ^ k) 1)))
masked-complement k a h lt =
    let mask : complement64 (sub64 (2 ^ k) 1) ≡ power (raise k (64 - k)) - power k =
      complement-mask (2 ^ k) (one-le-pow k 2 (omega arith))
        (pow-le-pow_right (omega arith) {i = k} {j = 64} (omega arith))
      ∙ ap₂ (λ (x y : ℕ). x - y) (sym (raise-pow k h)) (sym (power-pow k)) in
    let rounded = masked-high k (64 - k) a a (omega arith) (omega (arith, raise-pow k h)) in
    rw (mask, bit_and-bitwise a (power (raise k (64 - k)) - power k), ← power-pow k) rounded

-- `AlignDown` to a power of two is the greatest multiple of it that is not above the value.
pub align_down_lem :
    (k value : ℕ) → k < 64 → value < 2 ^ 64 → Rounds (2 ^ k) value (align_down value (2 ^ k))
unfolding align_down
align_down_lem k value h lt = masked-complement k value h lt

-- `r` is the least multiple of `p` from `a` on.
pub record RoundsUp (p a r : ℕ) : Type 0 where
  pub quotient : ℕ
  pub multiple : r ≡ quotient * p
  pub above : a ≤ r
  pub near : r < a + p

-- `AlignUp` to a power of two is the least multiple of it that is not below the value, where the
-- value plus the alignment is at most 2^64.
pub align_up_lem :
    (k value : ℕ)
    → k < 64
    → value + 2 ^ k ≤ 2 ^ 64
    → RoundsUp (2 ^ k) value (align_up value (2 ^ k))
unfolding align_up
align_up_lem k value h le =
    let positive = one-le-pow k 2 (omega arith) in
    let sum : add64 value (sub64 (2 ^ k) 1) ≡ value + 2 ^ k - 1 = omega arith in
    let down = masked-complement k (value + 2 ^ k - 1) h (omega arith) in
    let up : RoundsUp (2 ^ k) value (bit_and (value + 2 ^ k - 1) (complement64 (sub64 (2 ^ k) 1))) =
      record {
        quotient = down.quotient;
        multiple = down.multiple;
        above = omega (arith, down.near);
        near = omega (arith, down.below);
      } in
    rw sum up
