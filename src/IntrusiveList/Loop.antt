-- ===== src/IntrusiveList/Loop.antt =====
-- Range-based loops over the lists of util_intrusivelist.hpp.
use dd_framework.Base.{
  ℕ, zero, suc, ◌<◌, ◌≡◌, ◌≢◌, ◌∙◌, sym, ap, subst, List, [], ◌∷◌, some, if_pos, if_neg, arith,
}
use dd_framework.IntrusiveList.{Nodes, begin, end, visit}
use dd_framework.IntrusiveList.Chain.{NotIn, Chain}
use dd_framework.IntrusiveList.Ring.{Ring, length}

module _ {A : Type 0} (s : Nodes A) where
  -- From the iterator `it` the loop up to `last` has the nodes of the list before it, in this order.
  abbrev pub Remaining : A → A → List A → Type 0
  Remaining last it [] = it ≡ last
  Remaining last it (y ∷ ys) = (it ≢ last) × (s.prev it ≡ y) × Remaining last (s.next it) ys

  prev-next : (x b : A) (ys : List A) → Chain s x ys b → s.prev (s.next x) ≡ x
  prev-next x b [] p = rw p.0 p.1
  prev-next x b (y ∷ ys) p = rw p.0 p.1

  -- The loop stands on `x`.
  Remaining-suffix :
      (root first : A) (ys : List A) (x : A)
      → s.next root ≡ first
      → root ≢ first
      → Chain s x ys root
      → NotIn first ys
      → Remaining first (s.next x) (x ∷ ys)
  Remaining-suffix root first [] x f rf p out =
      ((λ q. rf (sym p.0 ∙ q)), prev-next x root [] p, ap s.next p.0 ∙ f)
  Remaining-suffix root first (y ∷ ys) x f rf p out = (
    (λ q. out.0 (sym (sym p.0 ∙ q))),
    prev-next x root (y ∷ ys) p,
    rw p.0 (Remaining-suffix root first ys y f rf p.2 out.1),
  )

  pub Ring-Remaining :
      (root : A) (xs : List A) → Ring s root xs → Remaining (end s root) (begin s root) xs
  Ring-Remaining root [] r = ap s.next r.path.0
  Ring-Remaining root (x ∷ xs) r =
      subst (λ y. Remaining y (s.next y) (x ∷ xs)) (sym r.path.0)
        (Remaining-suffix root x xs x r.path.0 r.root_out.0 r.path.2 r.distinct.0)

module _ {A : Type 0} (eq : Discrete A) (s : Nodes A) where
  visit-Remaining :
      (last : A) (xs : List A) (n : ℕ) (it : A)
      → Remaining s last it xs
      → length xs < n
      → visit eq s n it last ≡ some xs
  unfolding visit
  visit-Remaining last xs zero it r h = elim h [ ]
  visit-Remaining last [] (suc n) it r h = rw (if_pos (eq it last) r)
  visit-Remaining last (x ∷ xs) (suc n) it r h =
      rw (if_neg (eq it last) r.0, visit-Remaining last xs n (s.next it) r.2 (omega arith))
        (ap (λ y. some (y ∷ xs)) r.1)

  -- A loop from `begin` to `end` of a well-formed list stands on its nodes in order, and then ends;
  -- more rounds than the list has nodes are enough.
  pub visit-Ring :
      (root : A) (xs : List A) (n : ℕ)
      → Ring s root xs
      → length xs < n
      → visit eq s n (begin s root) (end s root) ≡ some xs
  visit-Ring root xs n r h =
      visit-Remaining (end s root) xs n (begin s root) (Ring-Remaining s root xs r) h
