-- ===== src/Alignment.antt =====
-- libraries/lib_dd/include/dd/util/util_alignment.hpp, for addresses and sizes of 64 bits.
pub mod Multiple
mod Tests
use Prim.Native.Nat.{bit_and}
use dd_framework.Base.{ℕ, ◌-◌, ◌^◌, add64, sub64}

-- `~value` of a `size_t`.
abbrev pub complement64 : ℕ → ℕ
complement64 value = 2 ^ 64 - 1 - value

unfoldable pub align_up : ℕ → ℕ → ℕ
align_up value align =
    let alignment = sub64 align 1 in bit_and (add64 value alignment) (complement64 alignment)

unfoldable pub align_down : ℕ → ℕ → ℕ
align_down value align = let alignment = sub64 align 1 in bit_and value (complement64 alignment)
