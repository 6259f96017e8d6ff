-- ===== src/IntrusiveList/PushFront.antt =====
-- `PushFront` of util_intrusivelist.hpp on a list as a sequence.
use dd_framework.Base.{◌≡◌, ◌≢◌, sym, List, [], ◌∷◌, ◌++◌, arith}
use dd_framework.IntrusiveList.{Nodes, link_prev, push_front}
use dd_framework.IntrusiveList.Chain.{
  NotIn, Distinct, Chain, ne-prev, Chain-prefix, Chain-suffix, NotIn-append,
}
use dd_framework.IntrusiveList.Ring.{Ring, NotIn-insert, Distinct-insert}

module _ {A : Type 0} (eq : Discrete A) (s : Nodes A) where
  -- Before the end of a chain, `LinkPrev` inserts in front of the last node.
  link_prev-Chain :
      (root new last : A) (xs : List A) (a : A)
      → Chain s a (xs ++ last ∷ []) root
      → NotIn a (xs ++ last ∷ [])
      → NotIn root (xs ++ last ∷ [])
      → Distinct (xs ++ last ∷ [])
      → NotIn new (xs ++ last ∷ [])
      → new ≢ a
      → new ≢ root
      → s.prev new ≡ new
      → Chain (link_prev eq s root new) a (xs ++ new ∷ last ∷ []) root
  unfolding link_prev
  link_prev-Chain root new last [] a p na nr d nn ne nf e =
      (ground arith, ground arith, (ground arith, ground arith, (ground arith, ground arith)))
  link_prev-Chain root new last (z ∷ zs) a p na nr d nn ne nf e = (
    ground (
      arith,
      ne-prev s a a z zs last (Chain-prefix s last root [] (z ∷ zs) a p)
          (NotIn-append a (z ∷ zs) (last ∷ []) na).0,
      (Chain-suffix s last root [] (z ∷ zs) a p).1,
    ),
    ground (
      arith,
      (NotIn-append z zs (last ∷ []) d.0).1.0,
      (Chain-suffix s last root [] (z ∷ zs) a p).1,
    ),
    link_prev-Chain root new last zs z p.2 d.0 nr.1 d.1 nn.1 nn.0 nf e,
  )

module _ {A : Type 0} (eq : Discrete A) (s : Nodes A) (root : A) where
  -- `PushFront` of a node that is not in the list, nor its root, and whose back link is to itself,
  -- puts it before the last node of a list that is not empty.
  push_front-Ring :
      (node last : A) (xs : List A)
      → Ring s root (xs ++ last ∷ [])
      → NotIn node (xs ++ last ∷ [])
      → node ≢ root
      → s.prev node ≡ node
      → Ring (push_front eq s root node) root (xs ++ node ∷ last ∷ [])
  unfolding push_front
  push_front-Ring node last xs r n ne e = record {
    path =
        link_prev-Chain eq s root node last xs root r.path r.root_out r.root_out r.distinct n ne ne
          e;
    root_out = NotIn-insert root node (last ∷ []) xs r.root_out (λ q. ne (sym q));
    distinct = Distinct-insert node (last ∷ []) xs r.distinct n;
  }
