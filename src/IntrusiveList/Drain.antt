-- ===== src/IntrusiveList/Drain.antt =====
-- What a loop over a list stands on when each round takes the list's first node away.
use dd_framework.Base.{◌≡◌, ◌≢◌, List, [], ◌∷◌, arith}
use dd_framework.IntrusiveList.{Nodes, begin, deref}
use dd_framework.IntrusiveList.Chain.{NotIn}
use dd_framework.IntrusiveList.Ring.{Ring}

abbrev pub tail {ℓ} : {A : Type ℓ} → List A → List A
tail [] = []
tail (x ∷ xs) = xs

pub tail-NotIn : {A : Type 0} (a : A) (xs : List A) → NotIn a xs → NotIn a (tail xs)
tail-NotIn a [] out = tt
tail-NotIn a (x ∷ xs) out = out.1

module _ {A : Type 0} (s : Nodes A) (root : A) where
  -- The first round of a loop stands on the first node.
  pub begin-deref : (x : A) (xs : List A) → Ring s root (x ∷ xs) → deref s (begin s root) ≡ x
  begin-deref x [] r = ground (arith, r.path)
  begin-deref x (y ∷ ys) r = ground (arith, r.path)

  pub begin-deref_empty : Ring s root [] → deref s (begin s root) ≡ root
  begin-deref_empty r = ground (arith, r.path)

  -- The iterator is not at an end that is outside of the nodes behind the first one.
  pub begin-ne :
      (last : A) (xs : List A)
      → Ring s root xs
      → last ≢ root
      → NotIn last (tail xs)
      → begin s root ≢ last
  begin-ne last [] r ne out = ground (arith, r.path)
  begin-ne last (x ∷ []) r ne out = ground (arith, r.path)
  begin-ne last (x ∷ y ∷ ys) r ne out = ground (arith, r.path, out.0)

  -- With the first node away, the iterator is the new list's first link.
  pub begin-shift :
      (s' : Nodes A) (x : A) (xs : List A)
      → Ring s root (x ∷ xs)
      → Ring s' root xs
      → begin s root ≡ s'.next root
  begin-shift s' x [] r r' = ground (arith, r.path, r'.path)
  begin-shift s' x (y ∷ ys) r r' = ground (arith, r.path, r'.path)
