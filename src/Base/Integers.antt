-- ===== src/Base/Integers.antt =====
-- Signed machine integers and their conversions.
use Prim.Native.Nat.{ℕ, ◌+◌, ◌-◌, ◌%◌, ◌^◌}
use dd_framework.Base.Tests.{ltb, if◌then◌else◌}

-- What a 16-bit or 32-bit signed field holds. `negsuc n` is -(n + 1).
pub data Signed : Type 0 where
  pos : ℕ → Signed
  negsuc : ℕ → Signed

-- The conversions to `u16`, `u32` and `size_t`.
abbrev pub to_u16 : Signed → ℕ
to_u16 (pos n) = n % 2 ^ 16
to_u16 (negsuc n) = 2 ^ 16 - 1 - n % 2 ^ 16

abbrev pub to_u32 : Signed → ℕ
to_u32 (pos n) = n % 2 ^ 32
to_u32 (negsuc n) = 2 ^ 32 - 1 - n % 2 ^ 32

abbrev pub to_u64 : Signed → ℕ
to_u64 (pos n) = n % 2 ^ 64
to_u64 (negsuc n) = 2 ^ 64 - 1 - n % 2 ^ 64

-- Sums and differences of addresses and sizes of 64 bits.
abbrev pub add64 : ℕ → ℕ → ℕ
add64 a b = (a + b) % 2 ^ 64

abbrev pub sub64 : ℕ → ℕ → ℕ
sub64 a b = (a + 2 ^ 64 - b) % 2 ^ 64

-- The conversion of an unsigned value below 2^16 to `s16`.
abbrev pub to_s16 : ℕ → Signed
to_s16 n = if ltb n (2 ^ 15) then pos n else negsuc (2 ^ 16 - 1 - n)

-- The conversion of an unsigned value below 2^32 to `s32`.
abbrev pub to_s32 : ℕ → Signed
to_s32 n = if ltb n (2 ^ 31) then pos n else negsuc (2 ^ 32 - 1 - n)
