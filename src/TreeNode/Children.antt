-- ===== src/TreeNode/Children.antt =====
-- The children of a node as a sequence.
use dd_framework.Base.{
  ℕ, ◌≡◌, refl, fun_ext, List, [], ◌∷◌, arith, update, ==_ne, ==_ne, ok, ℕ_discrete,
}
use dd_framework.IntrusiveList.Chain.{NotIn, Distinct}
use dd_framework.TreeNode.{Tree, null, detach_sub_tree}

-- From `x` the forward pointers lead through `xs` to null, and back, and all have the same parent.
abbrev pub Row : Tree → ℕ → ℕ → List ℕ → Type 0
Row t p x [] = (t.sibling_next x ≡ null) × (t.parent x ≡ p)
Row t p x (y ∷ ys) =
    (t.sibling_next x ≡ y) × (t.sibling_prev y ≡ x) × (t.parent x ≡ p) × Row t p y ys

abbrev pub last_of : ℕ → List ℕ → ℕ
last_of x [] = x
last_of x (y ∷ ys) = last_of y ys

-- The first child's back pointer names the last child.
abbrev pub IsChildren : Tree → ℕ → List ℕ → Type 0
IsChildren t p [] = t.child p ≡ null
IsChildren t p (x ∷ xs) =
    (t.child p ≡ x)
    × (t.sibling_prev x ≡ last_of x xs)
    × Row t p x xs
    × NotIn null (x ∷ xs)
    × Distinct (x ∷ xs)

-- A node that is in no tree, with or without children of its own.
abbrev pub Detached : Tree → ℕ → Type 0
Detached t x = (t.parent x ≡ null) × (t.sibling_next x ≡ null) × (t.sibling_prev x ≡ null)

update-same : (f : ℕ → ℕ) (i v : ℕ) → f i ≡ v → update f i v ≡ f
update-same f i v e = fun_ext λ j. elim (ℕ_discrete j i) [
  | yes same ↦ ground (arith, e)
  | no other ↦ rw (==_ne j i other) refl
]

-- `DetachSubTree` of a node in no tree changes nothing.
pub detach-Detached : (t : Tree) (x : ℕ) → Detached t x → detach_sub_tree t x ≡ ok t
unfolding detach_sub_tree
detach-Detached t x d =
    rw (d.0, d.2, d.1, d.0, update-same t.sibling_prev x null d.2, update-same t.parent x null d.0)
      refl
