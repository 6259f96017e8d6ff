-- ===== src/TString/Texts.antt =====
-- What `TStringCompare` compares: the texts that the two strings hold.
use dd_framework.Base.{
  ℕ, zero, suc, ◌≡◌, refl, sym, ap, ◌∙◌, true, false, List, [], ◌∷◌, ◌↔◌, ◌==◌, if◌then◌else◌,
  Bool-cases, inl, inr, arith, ==→eq,
}
use mathlib.Core.Path.{ap₂}
use dd_framework.TString.{compare_loop, tstring_compare}

-- The characters from `len` on, up to the end of the string or `left` of them.
pub text_from : (ℕ → ℕ) → ℕ → ℕ → List ℕ
text_from string zero len = []
text_from string (suc left) len =
    if string len == 0 then [] else string len ∷ text_from string left (suc len)

abbrev pub text : (ℕ → ℕ) → ℕ → List ℕ
text string max_size = text_from string max_size 0

abbrev heads : ℕ → List ℕ → ℕ
heads other [] = other
heads other (x ∷ xs) = x

abbrev tails : List ℕ → List ℕ
tails [] = []
tails (x ∷ xs) = xs

text_from-head :
    (string : ℕ → ℕ) (left len : ℕ) → heads 0 (text_from string (suc left) len) ≡ string len
unfolding text_from
text_from-head string left len = elim (Bool-cases (string len == 0)) [
  | inl ended ↦ rw ended (sym (==→eq (string len) 0 ended))
  | inr more ↦ rw more refl
]

compare_loop-text :
    (lhs rhs : ℕ → ℕ) (left len : ℕ)
    → (compare_loop lhs rhs left len ≡ true) ↔ (text_from lhs left len ≡ text_from rhs left len)
unfolding compare_loop text_from
compare_loop-text lhs rhs zero len = ((λ e. refl), λ e. refl)
compare_loop-text lhs rhs (suc left) len =
    let ih = compare_loop-text lhs rhs left (suc len) in
    elim (Bool-cases (lhs len == rhs len)) [
      | inl same ↦
          let q = ==→eq (lhs len) (rhs len) same in
          elim (Bool-cases (lhs len == 0)) [
            | inl ended ↦
                let ended' : rhs len == 0 ≡ true = ground arith in
                rw (same, ended, ended') ((λ e. refl), λ e. refl)
            | inr more ↦
                let more' : rhs len == 0 ≡ false = ground arith in
                rw (same, more, more')
                  ((λ e. ap₂ (λ (c : ℕ) (cs : List ℕ). c ∷ cs) q (ih.0 e)), λ e. ih.1 (ap tails e))
          ]
      | inr other ↦ (
        (λ e. absurd (ground (arith, other, e))),
        λ (e : text_from lhs (suc left) len ≡ text_from rhs (suc left) len).
            let q : lhs len ≡ rhs len =
              sym (text_from-head lhs left len) ∙ ap (heads 0) e ∙ text_from-head rhs left len in
            absurd (ground arith),
      )
    ]

-- `TStringCompare` is true exactly where the two strings hold the same text, each taken up to its
-- end or to `max_size` characters.
pub tstring_compare-text :
    (lhs rhs : ℕ → ℕ) (max_size : ℕ)
    → (tstring_compare lhs rhs max_size ≡ true) ↔ (text lhs max_size ≡ text rhs max_size)
unfolding tstring_compare
tstring_compare-text lhs rhs max_size = compare_loop-text lhs rhs max_size 0
