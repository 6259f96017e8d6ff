-- ===== src/TreeNode/Gaps.antt =====
-- A row of siblings with one node taken out of it.
use dd_framework.Base.{ℕ, ◌≡◌, ◌≢◌, refl, sym, ◌∙◌, List, [], ◌∷◌, ◌++◌}
use dd_framework.IntrusiveList.Chain.{NotIn, Distinct, NotIn-append}
use dd_framework.TreeNode.{Tree}
use dd_framework.TreeNode.Children.{Row, last_of}
use dd_framework.TreeNode.Append.{last-member}

-- Node `x` is gone, `u` was the one before it, and `b` has a new back pointer.
pub record Out (t t' : Tree) (u x b : ℕ) : Type 0 where
  pub next : (c : ℕ) → c ≢ u → c ≢ x → t'.sibling_next c ≡ t.sibling_next c
  pub prev : (c : ℕ) → c ≢ b → c ≢ x → t'.sibling_prev c ≡ t.sibling_prev c
  pub parent : (c : ℕ) → c ≢ x → t'.parent c ≡ t.parent c

pub apart-at : (c x : ℕ) (xs ys : List ℕ) → NotIn c (xs ++ x ∷ ys) → c ≢ x
apart-at c x [] ys n = n.0
apart-at c x (z ∷ zs) ys n = apart-at c x zs ys n.1

pub last-behind : (w y : ℕ) (xs ys : List ℕ) → last_of w (xs ++ y ∷ ys) ≡ last_of y ys
last-behind w y [] ys = refl
last-behind w y (z ∷ zs) ys = last-behind z y zs ys

pub last-nil : (w : ℕ) (xs : List ℕ) → last_of w (xs ++ []) ≡ last_of w xs
last-nil w [] = refl
last-nil w (z ∷ zs) = last-nil z zs

pub Distinct-before : (x : ℕ) (zs ys : List ℕ) → Distinct (zs ++ x ∷ ys) → NotIn x zs
Distinct-before x [] ys d = tt
Distinct-before x (z ∷ zs) ys d =
    ((λ e. apart-at z x zs ys d.0 (sym e)), Distinct-before x zs ys d.1)

pub Distinct-before_second : (x y : ℕ) (zs ys : List ℕ) → Distinct (zs ++ x ∷ y ∷ ys) → NotIn y zs
Distinct-before_second x y [] ys d = tt
Distinct-before_second x y (z ∷ zs) ys d = (
  (λ e. (NotIn-append z zs (x ∷ y ∷ ys) d.0).1.1.0 (sym e)),
  Distinct-before_second x y zs ys d.1,
)

pub Distinct-behind : (zs ys : List ℕ) → Distinct (zs ++ ys) → Distinct ys
Distinct-behind [] ys d = d
Distinct-behind (z ∷ zs) ys d = Distinct-behind zs ys d.1

pub last-apart : (w : ℕ) (xs ys : List ℕ) → Distinct (w ∷ xs ++ ys) → NotIn (last_of w xs) ys
last-apart w [] ys d = d.0
last-apart w (z ∷ zs) ys d = last-apart z zs ys d.1

pub Row-at :
    (t : Tree) (p w x : ℕ) (xs ys : List ℕ)
    → Row t p w (xs ++ x ∷ ys)
    → (t.sibling_next (last_of w xs) ≡ x)
      × (t.sibling_prev x ≡ last_of w xs)
      × (t.parent (last_of w xs) ≡ p)
      × Row t p x ys
Row-at t p w x [] ys r = r
Row-at t p w x (z ∷ zs) ys r = Row-at t p z x zs ys r.3

module _ (t t' : Tree) (p x : ℕ) (ys : List ℕ) where
  -- The row up to the node before `x`, and then what stands behind it.
  pub Row-Out :
      (b w : ℕ) (xs : List ℕ)
      → Out t t' (last_of w xs) x b
      → Row t' p (last_of w xs) ys
      → Row t p w (xs ++ x ∷ ys)
      → NotIn b xs
      → Distinct (w ∷ xs ++ x ∷ ys)
      → Row t' p w (xs ++ ys)
  Row-Out b w [] o base r nb d = base
  Row-Out b w (z ∷ zs) o base r nb d =
      let before = (NotIn-append w (z ∷ zs) (x ∷ ys) d.0).0 in
      (
        o.next w (last-member w z zs before) (apart-at w x (z ∷ zs) ys d.0) ∙ r.0,
        o.prev z (λ e. nb.0 (sym e)) (apart-at z x zs ys d.1.0) ∙ r.1,
        o.parent w (apart-at w x (z ∷ zs) ys d.0) ∙ r.2,
        Row-Out b z zs o base r.3 nb.1 d.1,
      )

  -- The row behind `x` has its nodes' pointers.
  pub Row-behind :
      (u b y : ℕ) (zs : List ℕ)
      → Out t t' u x b
      → Row t p y zs
      → NotIn u (y ∷ zs)
      → NotIn x (y ∷ zs)
      → NotIn b zs
      → Row t' p y zs
  Row-behind u b y [] o r nu nx nb =
      (o.next y (λ e. nu.0 (sym e)) (λ e. nx.0 (sym e)) ∙ r.0, o.parent y (λ e. nx.0 (sym e)) ∙ r.1)
  Row-behind u b y (z ∷ zs) o r nu nx nb = (
    o.next y (λ e. nu.0 (sym e)) (λ e. nx.0 (sym e)) ∙ r.0,
    o.prev z (λ e. nb.0 (sym e)) (λ e. nx.1.0 (sym e)) ∙ r.1,
    o.parent y (λ e. nx.0 (sym e)) ∙ r.2,
    Row-behind u b z zs o r.3 nu.1 nx.1 nb.1,
  )
