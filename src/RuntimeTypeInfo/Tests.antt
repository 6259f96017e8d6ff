-- ===== src/RuntimeTypeInfo/Tests.antt =====
-- The classes 10 and 20 derive from 1; an object of the class 20 passes as one of the class 10.
use dd_framework.Base.{ℕ, ◌≡◌, refl, true, ok, ◌==◌, if◌then◌else◌}
use dd_framework.RuntimeTypeInfo.{check_loop, check_runtime_type_info}

abbrev bases : ℕ → ℕ
bases c = if c == 1 then 0 else 1

sibling-test : check_runtime_type_info bases 8 10 20 ≡ ok true
unfolding check_runtime_type_info check_loop
sibling-test = refl
