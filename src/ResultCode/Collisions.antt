-- ===== src/ResultCode/Collisions.antt =====
-- Which of the result codes of util_result.hpp can be told apart.
use Prim.Native.Nat.{bit_and, bit_and-bitwise, digits, min}
use dd_framework.Base.{ℕ, zero, suc, ◌+◌, ◌/◌, ◌≡◌, ◌≤◌, ◌%◌, ◌*◌, refl, ◌∙◌, arith}
use dd_framework.ResultCode.{description_bits, declare_result}

-- `a & mask`, with `n` binary digits of `a` to go.
abbrev masked : ℕ → ℕ → ℕ → ℕ
masked n a mask = digits (λ b. zero) min n a mask

masked-0 : (n a : ℕ) → a ≤ n → masked n a 0 ≡ 0
masked-0 zero a h = refl
masked-0 (suc n) zero h = refl
masked-0 (suc n) (suc a) h = omega (arith, masked-0 n (suc a / 2) (omega arith))

masked-1 : (n a : ℕ) → a ≤ n → masked n a 1 ≡ a % 2
masked-1 zero zero h = refl
masked-1 zero (suc a) h = elim h [ ]
masked-1 (suc n) zero h = refl
masked-1 (suc n) (suc a) h = omega (arith, masked-0 n (suc a / 2) (omega arith))

masked-3 : (n a : ℕ) → a ≤ n → masked n a 3 ≡ a % 4
masked-3 zero zero h = refl
masked-3 zero (suc a) h = elim h [ ]
masked-3 (suc n) zero h = refl
masked-3 (suc n) (suc a) h = omega (arith, masked-1 n (suc a / 2) (omega arith))

masked-6 : (n a : ℕ) → a ≤ n → masked n a 6 ≡ 2 * (a / 2 % 4)
masked-6 zero zero h = refl
masked-6 zero (suc a) h = elim h [ ]
masked-6 (suc n) zero h = refl
masked-6 (suc n) (suc a) h = omega (arith, masked-3 n (suc a / 2) (omega arith))

masked-13 : (n a : ℕ) → a ≤ n → masked n a 13 ≡ 4 * (a / 4 % 4) + a % 2
masked-13 zero zero h = refl
masked-13 zero (suc a) h = elim h [ ]
masked-13 (suc n) zero h = refl
masked-13 (suc n) (suc a) h = omega (arith, masked-6 n (suc a / 2) (omega arith))

description_kept : (d : ℕ) → bit_and d description_bits ≡ 4 * (d / 4 % 4) + d % 2
description_kept d = bit_and-bitwise d 13 ∙ masked-13 d d (omega arith)

-- Two results of one module have the same code when their descriptions agree in the digits 1, 4 and 8.
declare_result-collide :
    (module_num description other : ℕ)
    → description % 2 ≡ other % 2
    → description / 4 % 4 ≡ other / 4 % 4
    → declare_result module_num description ≡ declare_result module_num other
declare_result-collide module_num description other low high =
    let e : bit_and description description_bits ≡ bit_and other description_bits =
      omega (arith, description_kept description, description_kept other) in
    rw e refl
