-- ===== src/IntrusiveList/Ring.antt =====
-- The lists of util_intrusivelist.hpp as sequences of nodes.
use dd_framework.Base.{ℕ, suc, ◌≡◌, ◌≢◌, sym, subst, List, [], ◌∷◌, ◌++◌}
use dd_framework.IntrusiveList.{Nodes}
use dd_framework.IntrusiveList.Chain.{NotIn, Distinct, Chain, append-NotIn}

module _ {A : Type 0} where
  abbrev pub length : List A → ℕ
  length [] = 0
  length (x ∷ xs) = suc (length xs)

  -- The root's list holds the nodes `xs`, in this order.
  pub record Ring (s : Nodes A) (root : A) (xs : List A) : Type 0 where
    pub path : Chain s root xs root
    pub root_out : NotIn root xs
    pub distinct : Distinct xs

  -- A node in no list.
  abbrev pub Alone : Nodes A → A → Type 0
  Alone s x = (s.prev x ≡ x) × (s.next x ≡ x)

  abbrev pub AllOut : List A → List A → Type 0
  AllOut [] zs = Unit {0}
  AllOut (x ∷ xs) zs = NotIn x zs × AllOut xs zs

  pub prev-NotIn :
      (s : Nodes A) (b : A) (zs xs : List A) (a : A)
      → Chain s a xs b
      → NotIn a zs
      → AllOut xs zs
      → NotIn (s.prev b) zs
  prev-NotIn s b zs [] a p n o = subst (λ c. NotIn c zs) (sym p.1) n
  prev-NotIn s b zs (x ∷ xs) a p n o = prev-NotIn s b zs xs x p.2 o.0 o.1

  pub next-NotIn :
      (s : Nodes A) (x b : A) (zs ys : List A)
      → Chain s x ys b
      → NotIn b zs
      → AllOut ys zs
      → NotIn (s.next x) zs
  next-NotIn s x b zs [] p n o = subst (λ c. NotIn c zs) (sym p.0) n
  next-NotIn s x b zs (y ∷ ys) p n o = subst (λ c. NotIn c zs) (sym p.0) o.0

  pub AllOut-append : (xs ys zs : List A) → AllOut (xs ++ ys) zs → AllOut xs zs × AllOut ys zs
  AllOut-append [] ys zs o = (tt, o)
  AllOut-append (x ∷ xs) ys zs o = let (l, r) = AllOut-append xs ys zs o.1 in ((o.0, l), r)

  pub Distinct-append_one :
      (x : A) (xs : List A) → Distinct xs → NotIn x xs → Distinct (xs ++ x ∷ [])
  Distinct-append_one x [] d n = (tt, tt)
  Distinct-append_one x (y ∷ ys) d n =
      (append-NotIn y ys (x ∷ []) d.0 ((λ e. n.0 (sym e)), tt), Distinct-append_one x ys d.1 n.1)

  pub NotIn-remove : (c x : A) (ys xs : List A) → NotIn c (xs ++ x ∷ ys) → NotIn c (xs ++ ys)
  NotIn-remove c x ys [] n = n.1
  NotIn-remove c x ys (z ∷ zs) n = (n.0, NotIn-remove c x ys zs n.1)

  pub NotIn-insert :
      (c n : A) (ys xs : List A) → NotIn c (xs ++ ys) → c ≢ n → NotIn c (xs ++ n ∷ ys)
  NotIn-insert c n ys [] h ne = (ne, h)
  NotIn-insert c n ys (z ∷ zs) h ne = (h.0, NotIn-insert c n ys zs h.1 ne)

  pub Distinct-insert :
      (n : A) (ys xs : List A) → Distinct (xs ++ ys) → NotIn n (xs ++ ys) → Distinct (xs ++ n ∷ ys)
  Distinct-insert n ys [] d h = (h, d)
  Distinct-insert n ys (z ∷ zs) d h =
      (NotIn-insert z n ys zs d.0 (λ e. h.0 (sym e)), Distinct-insert n ys zs d.1 h.1)

  pub Distinct-remove : (x : A) (ys xs : List A) → Distinct (xs ++ x ∷ ys) → Distinct (xs ++ ys)
  Distinct-remove x ys [] d = d.1
  Distinct-remove x ys (z ∷ zs) d = (NotIn-remove z x ys zs d.0, Distinct-remove x ys zs d.1)
