-- ===== src/TString.antt =====
-- libraries/lib_dd/include/dd/util/util_tstring.hpp. A string is what the memory holds from its
-- address on; each loop runs `max_size` rounds at most, and one more test.
pub mod Texts
mod Tests
use dd_framework.Base.{ℕ, zero, suc, ◌+◌, Bool, true, false, not, ◌==◌, if◌then◌else◌, update}

-- The loop of `TStringLength`, with the rounds that are left.
unfoldable pub length_loop : (ℕ → ℕ) → ℕ → ℕ → ℕ
length_loop string zero len = len
length_loop string (suc left) len =
    let rest = length_loop string left (suc len) in if not (string len == 0) then rest else len

unfoldable pub tstring_length : (ℕ → ℕ) → ℕ → ℕ
tstring_length string max_size = length_loop string max_size 0

-- The destination and the length.
unfoldable pub copy_loop : (ℕ → ℕ) → (ℕ → ℕ) → ℕ → ℕ → (ℕ → ℕ) × ℕ
copy_loop dst src zero len = (dst, len)
copy_loop dst src (suc left) len =
    let rest = copy_loop (update dst len (src len)) src left (suc len) in
    if not (src len == 0) then rest else (dst, len)

unfoldable pub tstring_copy : (ℕ → ℕ) → (ℕ → ℕ) → ℕ → (ℕ → ℕ) × ℕ
tstring_copy dst src max_size =
    let (copied, len) = copy_loop dst src max_size 0 in (update copied len 0, len)

-- The loop of `TStringCompare`, which goes on while the strings agree and have not ended.
unfoldable pub compare_loop : (ℕ → ℕ) → (ℕ → ℕ) → ℕ → ℕ → Bool
compare_loop lhs rhs zero len = true
compare_loop lhs rhs (suc left) len =
    let rest = compare_loop lhs rhs left (suc len) in
    if not (lhs len == rhs len) then false else if lhs len == 0 then true else rest

unfoldable pub tstring_compare : (ℕ → ℕ) → (ℕ → ℕ) → ℕ → Bool
tstring_compare lhs rhs max_size = compare_loop lhs rhs max_size 0
