-- ===== src/TString/Tests.antt =====
-- Runs of `TStringCompare`.
use dd_framework.Base.{ℕ, zero, suc, ◌≡◌, refl, true, ◌↔◌}
use dd_framework.TString.{tstring_compare, compare_loop}
use dd_framework.TString.Texts.{text, tstring_compare-text}

-- "ab" and "ab", with different memory behind the end.
abbrev short : ℕ → ℕ
short zero = 97
short (suc zero) = 98
short (suc (suc n)) = 0

abbrev longer : ℕ → ℕ
longer zero = 97
longer (suc zero) = 98
longer (suc (suc zero)) = 0
longer (suc (suc (suc n))) = 99

tstring_compare-text_example :
    (tstring_compare short longer 8 ≡ true) ↔ (text short 8 ≡ text longer 8)
tstring_compare-text_example = tstring_compare-text short longer 8

compare-test : tstring_compare short longer 8 ≡ true
unfolding tstring_compare compare_loop
compare-test = refl
