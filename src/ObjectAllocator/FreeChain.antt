-- ===== src/ObjectAllocator/FreeChain.antt =====
-- The free list of util_fixedobjectallocator.hpp and util_heapobjectallocator.hpp as a sequence of
-- addresses.
use dd_framework.Base.{
  ℕ, zero, suc, ◌+◌, ◌<◌, ◌≤◌, ◌≡◌, ◌≢◌, refl, sym, ap, ◌∙◌, dec_lt, subst, List, [], ◌∷◌, arith,
  ==_refl, update,
}
use dd_framework.IntrusiveList.Chain.{NotIn, Distinct}
use dd_framework.ObjectAllocator.{link_loop}

-- From `p` the links lead through the objects of the list to `last`.
abbrev pub Segment : (ℕ → ℕ) → ℕ → List ℕ → ℕ → Type 0
Segment next p [] last = p ≡ last
Segment next p (x ∷ xs) last = (p ≡ x) × (x ≢ 0) × Segment next (next x) xs last

-- `first`, `first + 1` and so on, `n` of them.
abbrev pub range : ℕ → ℕ → List ℕ
range first zero = []
range first (suc n) = first ∷ range (first + 1) n

abbrev pub AllWithin : ℕ → ℕ → List ℕ → Type 0
AllWithin base count [] = Unit {0}
AllWithin base count (x ∷ xs) = (base ≤ x) × (x < base + count) × AllWithin base count xs

pub range-NotIn : (x first n : ℕ) → x < first → NotIn x (range first n)
range-NotIn x first zero h = tt
range-NotIn x first (suc n) h = (ground arith, range-NotIn x (first + 1) n (omega arith))

pub range-Distinct : (first n : ℕ) → Distinct (range first n)
range-Distinct first zero = tt
range-Distinct first (suc n) =
    (range-NotIn first (first + 1) n (omega arith), range-Distinct (first + 1) n)

pub range-AllWithin :
    (base count n first : ℕ)
    → base ≤ first
    → first + n ≤ base + count
    → AllWithin base count (range first n)
range-AllWithin base count zero first l h = tt
range-AllWithin base count (suc n) first l h =
    (l, omega arith, range-AllWithin base count n (first + 1) (omega arith) (omega arith))

-- A write to an object that is not on the segment.
pub Segment-update :
    (next : ℕ → ℕ) (x v last : ℕ) (xs : List ℕ) (p : ℕ)
    → Segment next p xs last
    → NotIn x xs
    → Segment (update next x v) p xs last
Segment-update next x v last [] p s n = s
Segment-update next x v last (y ∷ ys) p s n = (
  s.0,
  s.1,
  subst (λ q. Segment (update next x v) q ys last) (ground (arith, n.0))
      (Segment-update next x v last ys (next y) s.2 n.1),
)

link_loop_below :
    (base a : ℕ) (next : ℕ → ℕ) (n : ℕ) → base ≤ a → a < base + n → link_loop base n next a ≡ a + 1
unfolding link_loop
link_loop_below base a next zero l h = ground arith
link_loop_below base a next (suc n) l h = elim (dec_lt a (base + n)) [
  | yes below ↦ ground (arith, link_loop_below base a next n l below)
  | no m ↦ (let e : a ≡ base + n = omega (arith, m) in rw (e, ==_refl (base + n)) refl)
]

link_loop_above :
    (base a : ℕ) (next : ℕ → ℕ) (n : ℕ) → base + n ≤ a → link_loop base n next a ≡ next a
unfolding link_loop
link_loop_above base a next zero h = refl
link_loop_above base a next (suc n) h = ground (arith, link_loop_above base a next n (omega arith))

-- The loop links the objects of the array in order; the last link is what it was.
pub link_loop-Segment :
    (base n : ℕ) (next : ℕ → ℕ) (k first : ℕ)
    → base ≢ 0
    → base ≤ first
    → first + k ≡ base + n
    → Segment (link_loop base n next) first (range first (suc k)) (next (base + n))
link_loop-Segment base n next zero first nz l e =
    (refl, ground arith, link_loop_above base first next n (omega arith) ∙ ap next (omega arith))
link_loop-Segment base n next (suc k) first nz l e = (
  refl,
  ground arith,
  subst (λ q. Segment (link_loop base n next) q (range (first + 1) (suc k)) (next (base + n)))
      (sym (link_loop_below base first next n l (omega arith)))
      (link_loop-Segment base n next k (first + 1) nz (omega arith) (omega arith)),
)
