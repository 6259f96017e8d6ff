-- ===== src/IntrusiveList/Chain.antt =====
-- Chains of nodes in the store of util_intrusivelist.hpp, linked in both directions.
use dd_framework.Base.{◌≡◌, ◌≢◌, ◌∙◌, sym, subst, List, [], ◌∷◌, ◌++◌, arith}
use dd_framework.IntrusiveList.{Nodes, link_next, unlink}

module _ {A : Type 0} where
  abbrev pub NotIn : A → List A → Type 0
  NotIn a [] = Unit {0}
  NotIn a (x ∷ xs) = (a ≢ x) × NotIn a xs

  abbrev pub Distinct : List A → Type 0
  Distinct [] = Unit {0}
  Distinct (x ∷ xs) = NotIn x xs × Distinct xs

  -- From `a` the links lead through the nodes of the list to `b`, and back.
  abbrev pub Chain : Nodes A → A → List A → A → Type 0
  Chain s a [] b = (s.next a ≡ b) × (s.prev b ≡ a)
  Chain s a (x ∷ xs) b = (s.next a ≡ x) × (s.prev x ≡ a) × Chain s x xs b

  -- The last node before the end is on the chain.
  pub ne-prev :
      (s : Nodes A) (c a x : A) (xs : List A) (b : A)
      → Chain s a (x ∷ xs) b
      → NotIn c (x ∷ xs)
      → c ≢ s.prev b
  ne-prev s c a x [] b p out = ground arith
  ne-prev s c a x (y ∷ ys) b p out = ne-prev s c x y ys b p.2 out.1

  -- So is the node behind a node on the chain, or it is the end.
  pub ne-next :
      (s : Nodes A) (c x : A) (ys : List A) (b : A)
      → Chain s x ys b
      → NotIn c ys
      → c ≢ b
      → c ≢ s.next x
  ne-next s c x [] b p out ne = ground arith
  ne-next s c x (y ∷ ys) b p out ne = ground arith

  pub Chain-prefix :
      (s : Nodes A) (x b : A) (ys xs : List A) (a : A) → Chain s a (xs ++ x ∷ ys) b → Chain s a xs x
  Chain-prefix s x b ys [] a p = (p.0, p.1)
  Chain-prefix s x b ys (z ∷ zs) a p = (p.0, p.1, Chain-prefix s x b ys zs z p.2)

  pub Chain-suffix :
      (s : Nodes A) (x b : A) (ys xs : List A) (a : A) → Chain s a (xs ++ x ∷ ys) b → Chain s x ys b
  Chain-suffix s x b ys [] a p = p.2
  Chain-suffix s x b ys (z ∷ zs) a p = Chain-suffix s x b ys zs z p.2

  pub NotIn-append : (c : A) (xs ys : List A) → NotIn c (xs ++ ys) → NotIn c xs × NotIn c ys
  NotIn-append c [] ys n = (tt, n)
  NotIn-append c (x ∷ xs) ys n = let (l, r) = NotIn-append c xs ys n.1 in ((n.0, l), r)

  pub append-NotIn : (c : A) (xs ys : List A) → NotIn c xs → NotIn c ys → NotIn c (xs ++ ys)
  append-NotIn c [] ys l r = r
  append-NotIn c (x ∷ xs) ys l r = (l.0, append-NotIn c xs ys l.1 r)

  -- Two stores whose `next` differs at most at `p` and `x`, and whose `prev` at most at `q` and `x`.
  pub record Apart (s s' : Nodes A) (p q x : A) : Type 0 where
    pub next : (c : A) → c ≢ p → c ≢ x → s'.next c ≡ s.next c
    pub prev : (c : A) → c ≢ q → c ≢ x → s'.prev c ≡ s.prev c

  pub Chain-frame :
      (s s' : Nodes A) (p q x b : A)
      → Apart s s' p q x
      → b ≢ q
      → b ≢ x
      → (xs : List A) (a : A) → Chain s a xs b
      → NotIn p (a ∷ xs)
      → NotIn x (a ∷ xs)
      → NotIn q xs
      → Chain s' a xs b
  Chain-frame s s' p q x b d bq bx [] a h np nx nq =
      (ground (arith, d.next a), ground (arith, d.prev b))
  Chain-frame s s' p q x b d bq bx (y ∷ ys) a h np nx nq = (
    ground (arith, d.next a),
    ground (arith, d.prev y),
    Chain-frame s s' p q x b d bq bx ys y h.2 np.1 nx.1 nq.1,
  )

module _ {A : Type 0} (eq : Discrete A) where
  -- `LinkNext` before the node `b` puts a node that is linked to itself at the end of the chain.
  pub link_next-Chain :
      (s : Nodes A) (new b : A) (xs : List A) (a : A)
      → Chain s a xs b
      → NotIn a xs
      → Distinct xs
      → NotIn b xs
      → NotIn new xs
      → new ≢ a
      → new ≢ b
      → s.prev new ≡ new
      → Chain (link_next eq s b new) a (xs ++ new ∷ []) b
  unfolding link_next
  link_next-Chain s new b [] a p na d nb nn ne nf e = ground arith
  link_next-Chain s new b (x ∷ xs) a p na d nb nn ne nf e = (
    ground (arith, ne-prev s a a x xs b p na),
    ground arith,
    link_next-Chain s new b xs x p.2 d.0 d.1 nb.1 nn.1 nn.0 nf e,
  )

  pub unlink-Apart : (s : Nodes A) (x : A) → Apart s (unlink eq s x) (s.prev x) (s.next x) x
  unfolding unlink
  unlink-Apart s x = record { next = λ c n m. ground arith; prev = λ c n m. ground arith }

  -- `Unlink` of a node takes it out of the chain, and links it to itself.
  pub unlink-Chain :
      (s : Nodes A) (x b : A) (ys : List A) (xs : List A) (a : A)
      → Chain s a (xs ++ x ∷ ys) b
      → NotIn a (xs ++ x ∷ ys)
      → NotIn b (xs ++ x ∷ ys)
      → Distinct (xs ++ x ∷ ys)
      → Chain (unlink eq s x) a (xs ++ ys) b
  unfolding unlink
  unlink-Chain s x b [] [] a p na nb d = ground arith
  unlink-Chain s x b (y ∷ ys) [] a p na nb d = (
    ground arith,
    ground arith,
    Chain-frame s (unlink eq s x) (s.prev x) (s.next x) x b (unlink-Apart s x) (ground arith)
        (ground arith) ys y p.2.2 (subst (λ c. NotIn c (y ∷ ys)) (sym p.1) na.1) d.0
        (subst (λ c. NotIn c ys) (sym p.2.0) d.1.0),
  )
  unlink-Chain s x b ys (z ∷ zs) a p na nb d = (
    (unlink-Apart s x).next a
          (ne-prev s a a z zs x (Chain-prefix s x b ys (z ∷ zs) a p)
            (NotIn-append a (z ∷ zs) (x ∷ ys) na).0)
          (NotIn-append a (z ∷ zs) (x ∷ ys) na).1.0
        ∙ p.0,
    (unlink-Apart s x).prev z
          (ne-next s z x ys b (Chain-suffix s x b ys (z ∷ zs) a p)
            (NotIn-append z zs (x ∷ ys) d.0).1.1 (λ e. nb.0 (sym e)))
          (NotIn-append z zs (x ∷ ys) d.0).1.0
        ∙ p.1,
    unlink-Chain s x b ys zs z p.2 d.0 nb.1 d.1,
  )
