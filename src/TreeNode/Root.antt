-- ===== src/TreeNode/Root.antt =====
-- `FindRoot`, and what `ClearChildrenRecursive` clears.
use dd_framework.Base.{
  ℕ, zero, suc, ◌+◌, ◌<◌, ◌≤◌, ◌≡◌, ◌≢◌, refl, sym, subst, ◌∙◌, List, [], ◌∷◌, arith, ==_refl,
  ==_ne, ok,
}
use dd_framework.IntrusiveList.Chain.{NotIn}
use dd_framework.IntrusiveList.Ring.{length}
use dd_framework.IntrusiveList.Drain.{tail, tail-NotIn}
use dd_framework.TreeNode.{Tree, null, find_root, clear, clear_children_recursive, clear_loop}
use dd_framework.TreeNode.Children.{Row, last_of, IsChildren}

-- The parents from `x` upwards.
abbrev pub Rises : Tree → ℕ → List ℕ → Type 0
Rises t x [] = t.parent x ≡ null
Rises t x (y ∷ ys) = (t.parent x ≡ y) × (y ≢ null) × Rises t y ys

-- From a node with the parents `ys` upwards, `FindRoot` returns the last of them, or the node itself
-- where it has none; more rounds than there are parents are enough.
pub find_root-Rises :
    (t : Tree) (x : ℕ) (ys : List ℕ) (n : ℕ)
    → Rises t x ys
    → length ys < n
    → find_root n t x ≡ ok (last_of x ys)
unfolding find_root
find_root-Rises t x ys zero r h = elim h [ ]
find_root-Rises t x [] (suc n) r h = rw r refl
find_root-Rises t x (y ∷ ys) (suc n) r h =
    rw (r.0, ==_ne y null r.1) (find_root-Rises t y ys n r.2 (omega arith))

-- The siblings from the iterator on.
abbrev pub Walk : Tree → ℕ → List ℕ → Type 0
Walk t it [] = it ≡ null
Walk t it (z ∷ zs) = (it ≡ z) × (z ≢ null) × Walk t (t.sibling_next z) zs

-- Every node but `x` is as it was.
pub record Kept (t t' : Tree) (x : ℕ) : Type 0 where
  pub parent : (c : ℕ) → c ≢ x → t'.parent c ≡ t.parent c
  pub child : (c : ℕ) → c ≢ x → t'.child c ≡ t.child c
  pub sibling_next : (c : ℕ) → c ≢ x → t'.sibling_next c ≡ t.sibling_next c
  pub sibling_prev : (c : ℕ) → c ≢ x → t'.sibling_prev c ≡ t.sibling_prev c

clear-Kept : (t : Tree) (x : ℕ) → Kept t (clear t x) x
unfolding clear
clear-Kept t x = record {
  parent = λ c h. rw (==_ne c x h) refl;
  child = λ c h. rw (==_ne c x h) refl;
  sibling_next = λ c h. rw (==_ne c x h) refl;
  sibling_prev = λ c h. rw (==_ne c x h) refl;
}

-- Nothing is cleared below a node without children.
clear_children-leaf :
    (n : ℕ) (t : Tree) (x : ℕ)
    → t.child x ≡ null
    → clear_children_recursive (suc (suc n)) t x ≡ ok t
unfolding clear_children_recursive
clear_children-leaf n t x e = ground (arith, e)

-- One round of the loop clears the first child, which has no children.
clear_loop-round :
    (m : ℕ) (t : Tree) (p x it : ℕ)
    → t.child p ≡ x
    → x ≢ null
    → clear_children_recursive m t x ≡ ok t
    → it ≢ null
    → clear_loop (suc m) t p it ≡ clear_loop m (clear t x) p (t.sibling_next it)
unfolding clear_children_recursive
clear_loop-round m t p x it ec nz run some = ground (arith, some, ec, nz, run)

cleared-child : (t : Tree) (x : ℕ) → (clear t x).child x ≡ null
unfolding clear
cleared-child t x = rw (==_refl x) refl

Walk-clear :
    (t : Tree) (x it : ℕ) (zs : List ℕ) → NotIn x zs → Walk t it zs → Walk (clear t x) it zs
Walk-clear t x it [] out w = w
Walk-clear t x it (z ∷ zs) out w = (
  w.0,
  w.1,
  subst (λ c. Walk (clear t x) c zs) (sym ((clear-Kept t x).sibling_next z (λ e. out.0 (sym e))))
      (Walk-clear t x (t.sibling_next z) zs out.1 w.2),
)

Kept-trans : (t u v : Tree) (x : ℕ) → Kept t u x → Kept u v x → Kept t v x
Kept-trans t u v x a b = record {
  parent = λ c h. b.parent c h ∙ a.parent c h;
  child = λ c h. b.child c h ∙ a.child c h;
  sibling_next = λ c h. b.sibling_next c h ∙ a.sibling_next c h;
  sibling_prev = λ c h. b.sibling_prev c h ∙ a.sibling_prev c h;
}

clear_loop-Kept :
    (zs : List ℕ) (n : ℕ) (t : Tree) (p x it : ℕ)
    → t.child p ≡ x
    → x ≢ null
    → t.child x ≡ null
    → p ≢ x
    → Walk t it zs
    → NotIn x (tail zs)
    → length zs + 2 ≤ n
    → (t' : Tree) × (clear_loop n t p it ≡ ok t') × Kept t t' x
unfolding clear_children_recursive
clear_loop-Kept zs zero t p x it ec nz leaf ne w out h = absurd (omega arith)
clear_loop-Kept [] (suc n) t p x it ec nz leaf ne w out h = (
  t,
  rw w refl,
  record {
    parent = λ c k. refl;
    child = λ c k. refl;
    sibling_next = λ c k. refl;
    sibling_prev = λ c k. refl;
  },
)
clear_loop-Kept (z ∷ zs) (suc zero) t p x it ec nz leaf ne w out h = absurd (omega arith)
clear_loop-Kept (z ∷ zs) (suc (suc zero)) t p x it ec nz leaf ne w out h = absurd (omega arith)
clear_loop-Kept (z ∷ zs) (suc (suc (suc n))) t p x it ec nz leaf ne w out h =
    let (t', run, kept) =
      clear_loop-Kept zs (suc (suc n)) (clear t x) p x (t.sibling_next it)
        ((clear-Kept t x).child p ne ∙ ec) nz (cleared-child t x) ne
        (rw w.0 (Walk-clear t x (t.sibling_next z) zs out w.2)) (tail-NotIn x zs out)
        (omega arith) in
    (
      t',
      clear_loop-round (suc (suc n)) t p x it ec nz (clear_children-leaf n t x leaf)
            (λ e. w.1 (sym w.0 ∙ e))
          ∙ run,
      Kept-trans t (clear t x) t' x (clear-Kept t x) kept,
    )

Row-Walk :
    (t : Tree) (p x : ℕ) (xs : List ℕ) → Row t p x xs → NotIn null xs → Walk t (t.sibling_next x) xs
Row-Walk t p x [] r some = r.0
Row-Walk t p x (y ∷ ys) r some = (r.0, (λ e. some.0 (sym e)), Row-Walk t p y ys r.3 some.1)

-- A node whose first child has no children, with enough rounds for its children: of all nodes below it,
-- `ClearChildrenRecursive` clears the first child alone, and every other child keeps its pointers.
clear_children_recursive-Kept :
    (n : ℕ) (t : Tree) (p x : ℕ) (xs : List ℕ)
    → IsChildren t p (x ∷ xs)
    → t.child x ≡ null
    → p ≢ x
    → length xs + 3 ≤ n
    → (t' : Tree) × (clear_children_recursive (suc n) t p ≡ ok t') × Kept t t' x
unfolding clear_children_recursive
clear_children_recursive-Kept n t p x xs c leaf ne h =
    clear_loop-Kept (x ∷ xs) n t p x (t.child p) c.0 (λ e. c.3.0 (sym e)) leaf ne
      (c.0, (λ e. c.3.0 (sym e)), Row-Walk t p x xs c.2 c.3.1) c.4.0 (omega arith)
