-- ===== src/RuntimeTypeInfo.antt =====
-- libraries/lib_dd/include/dd/util/util_runtimetypeinfo.hpp: each class has a `RuntimeTypeInfo`, named
-- by its address, whose `m_next` is its base class's, and null for a root class.
pub mod Always
mod Tests
use dd_framework.Base.{
  ℕ, zero, suc, Bool, true, false, not, ◌==◌, if◌then◌else◌, Run, ok, out_of_fuel,
}

-- The loop of `CheckRuntimeTypeInfo`.
unfoldable pub check_loop : (ℕ → ℕ) → ℕ → ℕ → ℕ → Run Bool
check_loop next zero class_info target = out_of_fuel
check_loop next (suc rounds) class_info target =
    let base = next class_info in
    let rest = check_loop next rounds base target in
    if not (class_info == target)
    then ok true
    else if not (base == 0)
    then rest
    else ok (base == target)

-- `class_info` is the derived class's own, and `target` that of the object's class.
unfoldable pub check_runtime_type_info : (ℕ → ℕ) → ℕ → ℕ → ℕ → Run Bool
check_runtime_type_info next rounds class_info target = check_loop next rounds class_info target
