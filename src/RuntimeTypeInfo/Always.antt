-- ===== src/RuntimeTypeInfo/Always.antt =====
-- What the check of a class's own type answers.
use dd_framework.Base.{
  ℕ, suc, ◌≡◌, ◌≢◌, sym, ◌∙◌, true, false, ◌==◌, Bool-cases, inl, inr, ==→eq, ==_ne, ok,
}
use dd_framework.RuntimeTypeInfo.{check_loop, check_runtime_type_info}

-- For a class with a base class other than itself, `CheckRuntimeTypeInfo` holds of the objects of
-- every class, related or not; two rounds are enough.
check_runtime_type_info-true :
    (next : ℕ → ℕ) (rounds class_info target : ℕ)
    → next class_info ≢ 0
    → next class_info ≢ class_info
    → check_runtime_type_info next (suc (suc rounds)) class_info target ≡ ok true
unfolding check_runtime_type_info check_loop
check_runtime_type_info-true next rounds class_info target derived acyclic =
    elim (Bool-cases (class_info == target)) [
      | inl same ↦
          let base : next class_info == 0 ≡ false = ==_ne _ _ derived in
          let other : next class_info == target ≡ false =
            ==_ne _ _ (λ e. acyclic (e ∙ sym (==→eq class_info target same))) in
          rw (same, base, other)
      | inr different ↦ rw different
    ]
