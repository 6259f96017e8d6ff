-- ===== src/Base/Digits.antt =====
-- The binary digits of conjunctions, disjunctions and complements.
use Prim.Native.Nat.{
  ℕ, zero, suc, ◌-◌, ◌*◌, ◌/◌, ◌%◌, ◌^◌, ◌≤◌, ◌<◌, min, max, digits, bit_and, bit_or,
  bit_and-bitwise, bit_or-bitwise,
}
use mathlib.Core.Path.{◌≡◌, refl, ◌∙◌, sym, ap}
use mathlib.Core.Bool.{Bool, false, not, ◌&&◌, ◌||◌}
use native.Mathlib.Omega.{arith}
use native.Mathlib.Nat.{pow-suc}
use dd_framework.Base.Tests.{◌==◌, if◌then◌else◌}

-- The digit at a place.
abbrev pub digit : ℕ → ℕ → Bool
digit zero a = a % 2 == 1
digit (suc k) a = digit k (a / 2)

abbrev masked : ℕ → ℕ → ℕ → ℕ
masked n a b = digits (λ b. zero) min n a b

abbrev joined : ℕ → ℕ → ℕ → ℕ
joined n a b = digits (λ b. b) max n a b

pub digit-zero : (k : ℕ) → digit k 0 ≡ false
digit-zero zero = refl
digit-zero (suc k) = digit-zero k

digit-masked : (k n a b : ℕ) → a ≤ n → digit k (masked n a b) ≡ (digit k a && digit k b)
digit-masked k zero zero b h = simp (digit-zero)
digit-masked k (suc n) zero b h = simp (digit-zero)
digit-masked k zero (suc a) b h = elim h [ ]
digit-masked zero (suc n) (suc a) b h = ground arith
digit-masked (suc k) (suc n) (suc a) b h =
    let half : masked (suc n) (suc a) b / 2 ≡ masked n (suc a / 2) (b / 2) = omega arith in
    rw half (digit-masked k n (suc a / 2) (b / 2) (omega arith))

digit-joined : (k n a b : ℕ) → a ≤ n → digit k (joined n a b) ≡ (digit k a || digit k b)
digit-joined k zero zero b h = simp (digit-zero)
digit-joined k (suc n) zero b h = simp (digit-zero)
digit-joined k zero (suc a) b h = elim h [ ]
digit-joined zero (suc n) (suc a) b h = ground arith
digit-joined (suc k) (suc n) (suc a) b h =
    let half : joined (suc n) (suc a) b / 2 ≡ joined n (suc a / 2) (b / 2) = omega arith in
    rw half (digit-joined k n (suc a / 2) (b / 2) (omega arith))

abbrev power : ℕ → ℕ
power zero = 1
power (suc k) = 2 * power k

digit-complement : (k w a : ℕ) → k < w → a < power w → digit k (power w - 1 - a) ≡ not (digit k a)
digit-complement k zero a h lt = elim h [ ]
digit-complement zero (suc w) a h lt =
    let e : (2 * power w - 1 - a) % 2 ≡ 1 - a % 2 = omega arith in rw e (ground arith)
digit-complement (suc k) (suc w) a h lt =
    let e : (2 * power w - 1 - a) / 2 ≡ power w - 1 - a / 2 = omega arith in
    rw e (digit-complement k w (a / 2) (omega arith) (omega arith))

digit-power : (k n : ℕ) → digit k (power n) ≡ k == n
digit-power zero zero = refl
digit-power zero (suc n) = let e : 2 * power n % 2 ≡ 0 = omega arith in rw e (ground arith)
digit-power (suc k) zero = simp (digit-zero) (ground arith)
digit-power (suc k) (suc n) =
    let e : 2 * power n / 2 ≡ power n = omega arith in rw e (digit-power k n ∙ ground arith)

joined-lt : (w n a b : ℕ) → a ≤ n → a < power w → b < power w → joined n a b < power w
joined-lt w zero zero b h la lb = lb
joined-lt w (suc n) zero b h la lb = lb
joined-lt w zero (suc a) b h la lb = elim h [ ]
joined-lt zero (suc n) (suc a) b h la lb = absurd (omega arith)
joined-lt (suc w) (suc n) (suc a) b h la lb =
    omega (arith, joined-lt w n (suc a / 2) (b / 2) (omega arith) (omega arith) (omega arith))

masked-le : (n a b : ℕ) → a ≤ n → masked n a b ≤ a
masked-le zero zero b h = omega arith
masked-le (suc n) zero b h = omega arith
masked-le zero (suc a) b h = elim h [ ]
masked-le (suc n) (suc a) b h = omega (arith, masked-le n (suc a / 2) (b / 2) (omega arith))

masked-zero_right : (n a : ℕ) → masked n a 0 ≡ 0
masked-zero_right zero a = refl
masked-zero_right (suc n) zero = refl
masked-zero_right (suc n) (suc a) = omega (arith, masked-zero_right n (suc a / 2))

-- A power of two picks out its digit.
masked-power : (k n a : ℕ) → a ≤ n → masked n a (power k) ≡ (if digit k a then power k else 0)
masked-power k zero zero h = simp (digit-zero)
masked-power k (suc n) zero h = simp (digit-zero)
masked-power k zero (suc a) h = elim h [ ]
masked-power zero (suc n) (suc a) h = ground (arith, masked-zero_right n (suc a / 2))
masked-power (suc k) (suc n) (suc a) h =
    let half : 2 * power k / 2 ≡ power k = omega arith in
    let ih = masked-power k n (suc a / 2) (omega arith) in
    let parity : 2 * power k % 2 ≡ 0 = omega arith in rw (half, ih, parity) (ground arith)

power-pow : (k : ℕ) → power k ≡ 2 ^ k
power-pow zero = refl
power-pow (suc k) = omega (arith, power-pow k, pow-suc 2 k)

pub digit-bit_and : (k a b : ℕ) → digit k (bit_and a b) ≡ (digit k a && digit k b)
digit-bit_and k a b = rw (bit_and-bitwise a b) (digit-masked k a a b (omega arith))

pub digit-bit_or : (k a b : ℕ) → digit k (bit_or a b) ≡ (digit k a || digit k b)
digit-bit_or k a b = rw (bit_or-bitwise a b) (digit-joined k a a b (omega arith))

pub digit-not : (k a : ℕ) → k < 64 → a < 2 ^ 64 → digit k (2 ^ 64 - 1 - a) ≡ not (digit k a)
digit-not k a h lt = digit-complement k 64 a h lt

pub digit-pow : (k n : ℕ) → digit k (2 ^ n) ≡ k == n
digit-pow k n = ap (digit k) (sym (power-pow n)) ∙ digit-power k n

pub bit_or-lt : (a b : ℕ) → a < 2 ^ 64 → b < 2 ^ 64 → bit_or a b < 2 ^ 64
bit_or-lt a b la lb = rw (bit_or-bitwise a b) (joined-lt 64 a a b (omega arith) la lb)

pub bit_and-le : (a b : ℕ) → bit_and a b ≤ a
bit_and-le a b = rw (bit_and-bitwise a b) (masked-le a a b (omega arith))

pub bit_and-pow : (k a : ℕ) → bit_and a (2 ^ k) ≡ (if digit k a then 2 ^ k else 0)
bit_and-pow k a = rw (bit_and-bitwise a (2 ^ k), ← power-pow k) (masked-power k a a (omega arith))
