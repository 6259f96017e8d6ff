-- ===== src/TreeNode/Further.antt =====
-- `DetachSubTree` of a child that is not the first one.
use dd_framework.Base.{ℕ, ◌≡◌, ◌≢◌, refl, sym, ◌∙◌, List, [], ◌∷◌, ◌++◌, ==_refl, ==_ne, ok}
use dd_framework.IntrusiveList.Chain.{NotIn, NotIn-append}
use dd_framework.IntrusiveList.Ring.{NotIn-remove, Distinct-remove}
use dd_framework.TreeNode.{Tree, null, detach_sub_tree, set_next, set_prev}
use dd_framework.TreeNode.Children.{last_of, IsChildren, Detached}
use dd_framework.TreeNode.Append.{last-member}
use dd_framework.TreeNode.Gaps.{
  Out, apart-at, last-behind, last-nil, Distinct-before, Distinct-before_second, Distinct-behind,
  last-apart, Row-at, Row-Out, Row-behind,
}
use dd_framework.TreeNode.Detach.{released, detach-first, detach-only}

-- The last of several children leaves: the one before it is the last.
detach-last :
    (t : Tree) (p w x : ℕ) (xs : List ℕ)
    → IsChildren t p (w ∷ xs ++ x ∷ [])
    → p ≢ null
    → (t' : Tree) × (detach_sub_tree t x ≡ ok t') × IsChildren t' p (w ∷ xs ++ []) × Detached t' x
unfolding detach_sub_tree
detach-last t p w x xs c np =
    let u = last_of w xs in
    let at = Row-at t p w x xs [] c.2 in
    let t' = released (set_prev (set_next t u null) w u) x in
    let nw = apart-at w x xs [] c.4.0 in
    let xu : x ≢ u = last-member x w xs (Distinct-before x (w ∷ xs) [] c.4) in
    let some_before : null ≢ u =
      last-member null w xs (NotIn-append null (w ∷ xs) (x ∷ []) c.3).0 in
    (
      t',
      rw
          (
            at.3.1,
            ==_ne p null np,
            c.0,
            ==_ne w x nw,
            at.1,
            ==_ne u null (λ e. some_before (sym e)),
            ==_ne x u xu,
            at.3.0,
            at.3.1,
            ==_ne p null np,
            c.0,
            ==_ne w null (λ e. c.3.0 (sym e)),
            at.1,
          )
          refl,
      (
        c.0,
        rw (==_ne w x nw, ==_refl w) (sym (last-nil w xs)),
        Row-Out t t' p x [] w w xs
            (record {
              next = λ d h k. rw (==_ne d u h) refl;
              prev = λ d h k. rw (==_ne d x k, ==_ne d w h) refl;
              parent = λ d h. rw (==_ne d x h) refl;
            })
            (rw (==_refl u) refl, rw (==_ne u x (λ e. xu (sym e))) at.2) c.2
            (NotIn-append w xs (x ∷ []) c.4.0).0 c.4,
        NotIn-remove null x [] (w ∷ xs) c.3,
        Distinct-remove x [] (w ∷ xs) c.4,
      ),
      (rw (==_refl x) refl, rw (==_ne x u xu) at.3.0, rw (==_refl x) refl),
    )

-- A child between two others leaves: they become neighbours.
detach-middle :
    (t : Tree) (p w x y : ℕ) (xs ys : List ℕ)
    → IsChildren t p (w ∷ xs ++ x ∷ y ∷ ys)
    → p ≢ null
    → (t' : Tree) × (detach_sub_tree t x ≡ ok t')
      × IsChildren t' p (w ∷ xs ++ y ∷ ys)
      × Detached t' x
unfolding detach_sub_tree
detach-middle t p w x y xs ys c np =
    let u = last_of w xs in
    let at = Row-at t p w x xs (y ∷ ys) c.2 in
    let t' = released (set_next (set_prev (set_next t u y) y u) x null) x in
    let nw = apart-at w x xs (y ∷ ys) c.4.0 in
    let xu : x ≢ u = last-member x w xs (Distinct-before x (w ∷ xs) (y ∷ ys) c.4) in
    let some_before : null ≢ u =
      last-member null w xs (NotIn-append null (w ∷ xs) (x ∷ y ∷ ys) c.3).0 in
    let rest = Distinct-behind (w ∷ xs) (x ∷ y ∷ ys) c.4 in
    let yu : NotIn u (y ∷ ys) = (last-apart w xs (x ∷ y ∷ ys) c.4).1 in
    let wy = (NotIn-append w xs (x ∷ y ∷ ys) c.4.0).1.1.0 in
    let ny = (NotIn-append null (w ∷ xs) (x ∷ y ∷ ys) c.3).1.1.0 in
    let o : Out t t' u x y = record {
      next = λ d h k. rw (==_ne d x k, ==_ne d u h) refl;
      prev = λ d h k. rw (==_ne d x k, ==_ne d y h) refl;
      parent = λ d h. rw (==_ne d x h) refl;
    } in
    (
      t',
      rw
          (
            at.3.2,
            ==_ne p null np,
            c.0,
            ==_ne w x nw,
            at.1,
            ==_ne u null (λ e. some_before (sym e)),
            ==_ne x u xu,
            at.3.0,
            ==_ne y null (λ e. ny (sym e)),
            at.1,
          )
          refl,
      (
        c.0,
        rw (==_ne w x nw, ==_ne w y wy)
            (c.1 ∙ last-behind w x xs (y ∷ ys) ∙ sym (last-behind w y xs ys)),
        Row-Out t t' p x (y ∷ ys) y w xs o
            (
              rw (==_ne u x (λ e. xu (sym e)), ==_refl u) refl,
              rw (==_ne y x (λ e. rest.0.0 (sym e)), ==_refl y) refl,
              rw (==_ne u x (λ e. xu (sym e))) at.2,
              Row-behind t t' p x ys u y y ys o at.3.3 yu rest.0 rest.1.0,
            )
            c.2 (Distinct-before_second x y (w ∷ xs) ys c.4).1 c.4,
        NotIn-remove null x (y ∷ ys) (w ∷ xs) c.3,
        Distinct-remove x (y ∷ ys) (w ∷ xs) c.4,
      ),
      (rw (==_refl x) refl, rw (==_refl x) refl, rw (==_refl x) refl),
    )

-- `DetachSubTree` of any child of a node takes it out of the children, which keep their order, and
-- leaves it in no tree.
pub detach-IsChildren :
    (t : Tree) (p x : ℕ) (xs ys : List ℕ)
    → IsChildren t p (xs ++ x ∷ ys)
    → p ≢ null
    → (t' : Tree) × (detach_sub_tree t x ≡ ok t') × IsChildren t' p (xs ++ ys) × Detached t' x
detach-IsChildren t p x [] [] c np = detach-only t p x c np
detach-IsChildren t p x [] (y ∷ ys) c np = detach-first t p x y ys c np
detach-IsChildren t p x (w ∷ xs) [] c np = detach-last t p w x xs c np
detach-IsChildren t p x (w ∷ xs) (y ∷ ys) c np = detach-middle t p w x y xs ys c np
