-- ===== src/TreeNode/Detach.antt =====
-- `DetachSubTree` of a child.
use dd_framework.Base.{ℕ, ◌≡◌, ◌≢◌, refl, sym, List, [], ◌∷◌, ==_refl, ==_ne, ok}
use dd_framework.TreeNode.{Tree, null, detach_sub_tree, set_child, set_parent, set_next, set_prev}
use dd_framework.TreeNode.Children.{IsChildren, Detached}
use dd_framework.TreeNode.Append.{Row-frame}

-- The last two writes: the node names no parent and no sibling before it.
abbrev pub released : Tree → ℕ → Tree
released t x = set_parent (set_prev t x null) x null

-- The first of several children leaves: the second one takes its place, with its back pointer.
pub detach-first :
    (t : Tree) (p x y : ℕ) (ys : List ℕ)
    → IsChildren t p (x ∷ y ∷ ys)
    → p ≢ null
    → (t' : Tree) × (detach_sub_tree t x ≡ ok t') × IsChildren t' p (y ∷ ys) × Detached t' x
unfolding detach_sub_tree
detach-first t p x y ys c np =
    let t' = released (set_next (set_prev (set_child t p y) y (t.sibling_prev x)) x null) x in
    let ne : y ≢ x = λ e. c.4.0.0 (sym e) in
    (
      t',
      rw (c.2.2, ==_ne p null np, c.0, ==_refl x, c.2.0, ==_ne y null (λ e. c.3.1.0 (sym e))) refl,
      (
        rw (==_refl p) refl,
        rw (==_ne y x ne, ==_refl y) c.1,
        Row-frame t t' p x y (λ d h. rw (==_ne d x h) refl)
            (λ d h k. rw (==_ne d x k, ==_ne d y h) refl) (λ d h. rw (==_ne d x h) refl) y ys c.2.3
            c.4.0 c.4.1.0,
        c.3.1,
        c.4.1,
      ),
      (rw (==_refl x) refl, rw (==_refl x) refl, rw (==_refl x) refl),
    )

-- The only child leaves.
pub detach-only :
    (t : Tree) (p x : ℕ)
    → IsChildren t p (x ∷ [])
    → p ≢ null
    → (t' : Tree) × (detach_sub_tree t x ≡ ok t') × IsChildren t' p [] × Detached t' x
unfolding detach_sub_tree
detach-only t p x c np = (
  released (set_child t p null) x,
  rw (c.2.1, ==_ne p null np, c.0, ==_refl x, c.2.0) refl,
  rw (==_refl p) refl,
  (rw (==_refl x) refl, c.2.0, rw (==_refl x) refl),
)
