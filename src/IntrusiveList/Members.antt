-- ===== src/IntrusiveList/Members.antt =====
-- The nodes of a list of util_intrusivelist.hpp and their neighbours.
use dd_framework.Base.{◌≡◌, ◌≢◌, refl, sym, ap, ◌∙◌, List, [], ◌∷◌, ◌++◌, ◌⊎◌, inl, inr, arith}
use dd_framework.IntrusiveList.{Nodes, construct}
use dd_framework.IntrusiveList.Chain.{NotIn, Chain, Chain-frame}
use dd_framework.IntrusiveList.Ring.{Ring, Alone}

module _ {A : Type 0} where
  abbrev pub In : A → List A → Type 0
  In l [] = ⊥
  In l (x ∷ xs) = (l ≡ x) ⊎ In l xs

  pub In-append : (l : A) (ys xs : List A) → In l xs → In l (xs ++ ys)
  In-append l ys [] i = absurd i
  In-append l ys (x ∷ xs) (inl e) = inl e
  In-append l ys (x ∷ xs) (inr i) = inr (In-append l ys xs i)

  pub In-middle : (l : A) (ys xs : List A) → In l (xs ++ l ∷ ys)
  In-middle l ys [] = inl refl
  In-middle l ys (x ∷ xs) = inr (In-middle l ys xs)

  pub In-NotIn : (l c : A) (xs : List A) → In l xs → NotIn c xs → c ≢ l
  In-NotIn l c [] i n = absurd i
  In-NotIn l c (x ∷ xs) (inl e) n = λ q. n.0 (q ∙ e)
  In-NotIn l c (x ∷ xs) (inr i) n = In-NotIn l c xs i n.1

  module _ (s : Nodes A) where
    Chain-prev_next :
        (b l : A) (xs : List A) (a : A) → Chain s a xs b → In l (a ∷ xs) → s.prev (s.next l) ≡ l
    Chain-prev_next b l [] a p (inl e) = rw (e, p.0) p.1
    Chain-prev_next b l [] a p (inr i) = absurd i
    Chain-prev_next b l (x ∷ xs) a p (inl e) = rw (e, p.0) p.1
    Chain-prev_next b l (x ∷ xs) a p (inr i) = Chain-prev_next b l xs x p.2 i

    Chain-next_prev :
        (b l : A) (xs : List A) (a : A) → Chain s a xs b → In l (b ∷ xs) → s.next (s.prev l) ≡ l
    Chain-next_prev b l [] a p (inl e) = rw (e, p.1) p.0
    Chain-next_prev b l [] a p (inr i) = absurd i
    Chain-next_prev b l (x ∷ xs) a p (inl e) = Chain-next_prev b l xs x p.2 (inl e)
    Chain-next_prev b l (x ∷ xs) a p (inr (inl e)) = rw (e, p.1) p.0
    Chain-next_prev b l (x ∷ xs) a p (inr (inr i)) = Chain-next_prev b l xs x p.2 (inr i)

    Chain-next_In :
        (b l : A) (xs : List A) (a : A) → Chain s a xs b → In l (a ∷ xs) → In (s.next l) (b ∷ xs)
    Chain-next_In b l [] a p (inl e) = inl (ap s.next e ∙ p.0)
    Chain-next_In b l [] a p (inr i) = absurd i
    Chain-next_In b l (x ∷ xs) a p (inl e) = inr (inl (ap s.next e ∙ p.0))
    Chain-next_In b l (x ∷ xs) a p (inr i) = elim (Chain-next_In b l xs x p.2 i) [
      | inl e ↦ inl e
      | inr j ↦ inr (inr j)
    ]

    Chain-prev_In :
        (b l : A) (xs : List A) (a : A) → Chain s a xs b → In l (b ∷ xs) → In (s.prev l) (a ∷ xs)
    Chain-prev_In b l [] a p (inl e) = inl (ap s.prev e ∙ p.1)
    Chain-prev_In b l [] a p (inr i) = absurd i
    Chain-prev_In b l (x ∷ xs) a p (inl e) = inr (Chain-prev_In b l xs x p.2 (inl e))
    Chain-prev_In b l (x ∷ xs) a p (inr (inl e)) = inl (ap s.prev e ∙ p.1)
    Chain-prev_In b l (x ∷ xs) a p (inr (inr i)) = inr (Chain-prev_In b l xs x p.2 (inr i))

    -- The node before the end of a chain.
    pub Chain-last : (b : A) (xs : List A) (a : A) → Chain s a xs b → In (s.prev b) (a ∷ xs)
    Chain-last b xs a p = Chain-prev_In b b xs a p (inl refl)

    -- The neighbours of a node, or of the root.
    pub record Between (l : A) : Type 0 where
      pub prev_next : s.prev (s.next l) ≡ l
      pub next_prev : s.next (s.prev l) ≡ l

    pub Ring-Between :
        (root l new : A) (xs : List A)
        → Ring s root xs
        → In l (root ∷ xs)
        → NotIn new (root ∷ xs)
        → Between l × (new ≢ l) × (new ≢ s.next l) × (new ≢ s.prev l)
    Ring-Between root l new xs r i out = (
      record {
        prev_next = Chain-prev_next root l xs root r.path i;
        next_prev = Chain-next_prev root l xs root r.path i;
      },
      In-NotIn l new (root ∷ xs) i out,
      In-NotIn (s.next l) new (root ∷ xs) (Chain-next_In root l xs root r.path i) out,
      In-NotIn (s.prev l) new (root ∷ xs) (Chain-prev_In root l xs root r.path i) out,
    )

-- The constructor of a node outside of a list leaves the list as it is.
module _ {A : Type 0} (eq : Discrete A) (s : Nodes A) (new root : A) (xs : List A) where
  pub construct-Ring : Ring s root xs → NotIn new (root ∷ xs) → Ring (construct eq s new) root xs
  unfolding construct
  construct-Ring r out = record {
    path =
        Chain-frame s (construct eq s new) new new new root
          (record { next = λ c n m. ground arith; prev = λ c n m. ground arith })
          (λ e. out.0 (sym e)) (λ e. out.0 (sym e)) xs root r.path out out out.1;
    root_out = r.root_out;
    distinct = r.distinct;
  }

  pub construct-Alone : Alone (construct eq s new) new
  unfolding construct
  construct-Alone = ground arith
