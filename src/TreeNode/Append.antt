-- ===== src/TreeNode/Append.antt =====
-- `PushBackChild` and `PushFrontChild` of a node in no tree.
use dd_framework.Base.{ℕ, ◌≡◌, ◌≢◌, refl, sym, ◌∙◌, List, [], ◌∷◌, ◌++◌, ==_refl, ==_ne, ok}
use dd_framework.IntrusiveList.Chain.{NotIn, Distinct, append-NotIn}
use dd_framework.IntrusiveList.Ring.{Distinct-append_one}
use dd_framework.TreeNode.{
  Tree, null, push_back_child, push_front_child, link_only, link_first, set_prev, set_next,
  set_parent,
}
use dd_framework.TreeNode.Children.{Row, last_of, IsChildren, Detached, detach-Detached}

-- What the writes of `PushBackChild` leave, where `z` is the last child and `first` the first one.
record Linked (t t' : Tree) (p first z new : ℕ) : Type 0 where
  next_end : t'.sibling_next z ≡ new
  next_new : t'.sibling_next new ≡ null
  next : (c : ℕ) → c ≢ z → t'.sibling_next c ≡ t.sibling_next c
  prev_first : t'.sibling_prev first ≡ new
  prev_new : new ≢ first → t'.sibling_prev new ≡ z
  prev : (c : ℕ) → c ≢ first → c ≢ new → t'.sibling_prev c ≡ t.sibling_prev c
  parent_new : t'.parent new ≡ p
  parent : (c : ℕ) → c ≢ new → t'.parent c ≡ t.parent c

pub last-member : (c x : ℕ) (xs : List ℕ) → NotIn c (x ∷ xs) → c ≢ last_of x xs
last-member c x [] n = n.0
last-member c x (y ∷ ys) n = last-member c y ys n.1

pub last-append : (x new : ℕ) (xs : List ℕ) → last_of x (xs ++ new ∷ []) ≡ new
last-append x new [] = refl
last-append x new (y ∷ ys) = last-append y new ys

last-parent : (t : Tree) (p x : ℕ) (xs : List ℕ) → Row t p x xs → t.parent (last_of x xs) ≡ p
last-parent t p x [] r = r.1
last-parent t p x (y ∷ ys) r = last-parent t p y ys r.3

module _ (t t' : Tree) (p first new : ℕ) where
  Row-append :
      (x : ℕ) (xs : List ℕ)
      → Linked t t' p first (last_of x xs) new
      → Row t p x xs
      → NotIn first xs
      → NotIn new (x ∷ xs)
      → new ≢ first
      → Distinct (x ∷ xs)
      → Row t' p x (xs ++ new ∷ [])
  Row-append x [] k r nf nn ne d =
      (k.next_end, k.prev_new ne, k.parent x (λ e. nn.0 (sym e)) ∙ r.1, (k.next_new, k.parent_new))
  Row-append x (y ∷ ys) k r nf nn ne d = (
    k.next x (last-member x y ys d.0) ∙ r.0,
    k.prev y (λ e. nf.0 (sym e)) (λ e. nn.1.0 (sym e)) ∙ r.1,
    k.parent x (λ e. nn.0 (sym e)) ∙ r.2,
    Row-append y ys k r.3 nf.1 nn.1 ne d.1,
  )

-- The four writes behind the last child `z`.
abbrev written : Tree → ℕ → ℕ → ℕ → Tree
written t first z new =
    set_prev (set_parent (set_prev (set_next t z new) new z) new (t.parent z)) first new

written-Linked :
    (t : Tree) (p first z new : ℕ)
    → t.parent z ≡ p
    → t.sibling_next new ≡ null
    → new ≢ z
    → Linked t (written t first z new) p first z new
written-Linked t p first z new ep en ne = record {
  next_end = rw (==_refl z) refl;
  next_new = rw (==_ne new z ne) en;
  next = λ c h. rw (==_ne c z h) refl;
  prev_first = rw (==_refl first) refl;
  prev_new = λ h. rw (==_ne new first h, ==_refl new) refl;
  prev = λ c h k. rw (==_ne c first h, ==_ne c new k) refl;
  parent_new = rw (==_refl new) ep;
  parent = λ c h. rw (==_ne c new h) refl;
}

-- A node in no tree, which is not null and not among the children, becomes the last child.
pub push_back_child-IsChildren :
    (t : Tree) (p new : ℕ) (xs : List ℕ)
    → IsChildren t p xs
    → Detached t new
    → new ≢ null
    → NotIn new xs
    → (t' : Tree) × (push_back_child t p new ≡ ok t') × IsChildren t' p (xs ++ new ∷ [])
unfolding push_back_child
push_back_child-IsChildren t p new [] c d nz out = (
  link_only t p new,
  rw (detach-Detached t new d, c) refl,
  (
    rw (==_refl p) refl,
    rw (==_refl new) refl,
    (d.1, rw (==_refl new) refl),
    ((λ e. nz (sym e)), tt),
    (tt, tt),
  ),
)
push_back_child-IsChildren t p new (x ∷ xs) c d nz out =
    let z = last_of x xs in
    let some_end = last-member null x xs c.3 in
    let k = written-Linked t p x z new (last-parent t p x xs c.2) d.1 (last-member new x xs out) in
    (
      written t x z new,
      rw
          (
            detach-Detached t new d,
            c.0,
            ==_ne x null (λ e. c.3.0 (sym e)),
            c.1,
            ==_ne z null (λ e. some_end (sym e)),
          )
          refl,
      (
        c.0,
        k.prev_first ∙ sym (last-append x new xs),
        Row-append t (written t x z new) p x new x xs k c.2 c.4.0 out out.0 c.4,
        append-NotIn null (x ∷ xs) (new ∷ []) c.3 ((λ e. nz (sym e)), tt),
        Distinct-append_one new (x ∷ xs) c.4 out,
      ),
    )

-- The row is as it was where the pointers of its nodes are, but for the first node's back pointer.
pub Row-frame :
    (t t' : Tree) (p new first : ℕ)
    → ((c : ℕ) → c ≢ new → t'.sibling_next c ≡ t.sibling_next c)
    → ((c : ℕ) → c ≢ first → c ≢ new → t'.sibling_prev c ≡ t.sibling_prev c)
    → ((c : ℕ) → c ≢ new → t'.parent c ≡ t.parent c)
    → (x : ℕ) (xs : List ℕ) → Row t p x xs
    → NotIn new (x ∷ xs)
    → NotIn first xs
    → Row t' p x xs
Row-frame t t' p new first next prev parent x [] r nn nf =
    (next x (λ e. nn.0 (sym e)) ∙ r.0, parent x (λ e. nn.0 (sym e)) ∙ r.1)
Row-frame t t' p new first next prev parent x (y ∷ ys) r nn nf = (
  next x (λ e. nn.0 (sym e)) ∙ r.0,
  prev y (λ e. nf.0 (sym e)) (λ e. nn.1.0 (sym e)) ∙ r.1,
  parent x (λ e. nn.0 (sym e)) ∙ r.2,
  Row-frame t t' p new first next prev parent y ys r.3 nn.1 nf.1,
)

-- A node in no tree, which is not null and not among the children, becomes the first child.
pub push_front_child-IsChildren :
    (t : Tree) (p new : ℕ) (xs : List ℕ)
    → IsChildren t p xs
    → Detached t new
    → new ≢ null
    → NotIn new xs
    → (t' : Tree) × (push_front_child t p new ≡ ok t') × IsChildren t' p (new ∷ xs)
unfolding push_front_child
push_front_child-IsChildren t p new [] c d nz out = (
  link_only t p new,
  rw (detach-Detached t new d, c) refl,
  (
    rw (==_refl p) refl,
    rw (==_refl new) refl,
    (d.1, rw (==_refl new) refl),
    ((λ e. nz (sym e)), tt),
    (tt, tt),
  ),
)
push_front_child-IsChildren t p new (x ∷ xs) c d nz out = (
  link_first t p new,
  rw (detach-Detached t new d, c.0, ==_ne x null (λ e. c.3.0 (sym e))) refl,
  (
    rw (==_refl p) refl,
    rw (c.0, ==_ne new x out.0, ==_refl new) c.1,
    (
      rw (==_refl new) c.0,
      rw (c.0, ==_refl x) refl,
      rw (==_refl new) refl,
      Row-frame t (link_first t p new) p new x (λ e h. rw (==_ne e new h) refl)
          (λ e h k. rw (c.0, ==_ne e x h, ==_ne e new k) refl) (λ e h. rw (==_ne e new h) refl) x xs
          c.2 out c.4.0,
    ),
    ((λ e. nz (sym e)), c.3),
    (out, c.4),
  ),
)
