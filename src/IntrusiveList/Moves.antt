-- ===== src/IntrusiveList/Moves.antt =====
-- `PushBack`, `Remove` and the `Pop` methods of util_intrusivelist.hpp on a list as a sequence, and
-- what they leave alone.
use mathlib.Core.List.{append-nil}
use dd_framework.Base.{
  fun_ext, ◌≡◌, ◌≢◌, ◌↔◌, refl, ◌∙◌, sym, subst, true, List, [], ◌∷◌, ◌++◌, arith,
}
use dd_framework.IntrusiveList.{
  Nodes, link_next, unlink, is_empty, push_back, pop_front, pop_back, remove,
}
use dd_framework.IntrusiveList.Chain.{
  NotIn, Chain-prefix, Chain-suffix, NotIn-append, append-NotIn, Apart, Chain-frame,
  link_next-Chain, unlink-Apart, unlink-Chain,
}
use dd_framework.IntrusiveList.Ring.{
  Ring, Alone, AllOut, prev-NotIn, next-NotIn, AllOut-append, Distinct-append_one, NotIn-remove,
  Distinct-remove,
}

module _ {A : Type 0} (eq : Discrete A) (s : Nodes A) where
  link_next-Apart :
      (this new : A) → s.prev new ≡ new → Apart s (link_next eq s this new) (s.prev this) this new
  unfolding link_next
  link_next-Apart this new e = record { next = λ c n m. ground arith; prev = λ c n m. ground arith }

module _ {A : Type 0} (eq : Discrete A) (s : Nodes A) (root : A) where
  -- `PushBack` of a node that is not in the list, nor its root, and whose back link is to itself,
  -- puts the node at the end.
  pub push_back-Ring :
      (node : A) (xs : List A)
      → Ring s root xs
      → NotIn node xs
      → node ≢ root
      → s.prev node ≡ node
      → Ring (push_back eq s root node) root (xs ++ node ∷ [])
  unfolding push_back
  push_back-Ring node xs r n ne e = record {
    path = link_next-Chain eq s node root xs root r.path r.root_out r.distinct r.root_out n ne ne e;
    root_out = append-NotIn root xs (node ∷ []) r.root_out ((λ q. ne (sym q)), tt);
    distinct = Distinct-append_one node xs r.distinct n;
  }

  -- `Remove` takes a node of a well-formed list out of it, keeps the order of the others, and
  -- leaves the node linked to itself.
  pub remove-Ring :
      (x : A) (xs ys : List A)
      → Ring s root (xs ++ x ∷ ys)
      → Ring (remove eq s x) root (xs ++ ys) × Alone (remove eq s x) x
  unfolding remove
  remove-Ring x xs ys r = (
    record {
      path = unlink-Chain eq s x root ys xs root r.path r.root_out r.root_out r.distinct;
      root_out = NotIn-remove root x ys xs r.root_out;
      distinct = Distinct-remove x ys xs r.distinct;
    },
    (unfold unlink in ground arith, unfold unlink in ground arith),
  )

  -- `PopFront` of a list with nodes returns the first one, linked to itself, and leaves the others
  -- in order.
  pub pop_front-Ring :
      (x : A) (xs : List A)
      → Ring s root (x ∷ xs)
      → ((pop_front eq s root).1 ≡ x)
        × Ring (pop_front eq s root).0 root xs
        × Alone (pop_front eq s root).0 x
  unfolding pop_front remove
  pop_front-Ring x xs r =
      let (after, alone) = remove-Ring x [] xs r in
      let e : s.next root ≡ x = r.path.0 in (e, rw e after, rw e alone)

  pub pop_back-Ring :
      (x : A) (xs : List A)
      → Ring s root (xs ++ x ∷ [])
      → ((pop_back eq s root).1 ≡ x)
        × Ring (pop_back eq s root).0 root xs
        × Alone (pop_back eq s root).0 x
  unfolding pop_back remove
  pop_back-Ring x xs r =
      let (after, alone) = remove-Ring x xs [] r in
      let e : s.prev root ≡ x = (Chain-suffix s x root [] xs root r.path).1 in
      (e, rw e (subst (Ring (unlink eq s x) root) (append-nil xs) after), rw e alone)

  pub is_empty-Ring : (xs : List A) → Ring s root xs → (is_empty eq s root ≡ true) ↔ (xs ≡ [])
  unfolding is_empty
  is_empty-Ring [] r = ((λ _. refl), λ _. ground (arith, r.path))
  is_empty-Ring (x ∷ xs) r = ((λ e. ground (arith, r.path.0, r.root_out.0)), λ e. cc)

  -- The lists of other roots are as they were when a node moves to the end of this one.
  pub push_back-frame :
      (node : A) (xs : List A) (other : A) (ys : List A)
      → Ring s root xs
      → s.prev node ≡ node
      → Ring s other ys
      → AllOut (node ∷ root ∷ xs) (other ∷ ys)
      → Ring (push_back eq s root node) other ys
  unfolding push_back
  push_back-frame node xs other ys r e q out = record {
    path =
        Chain-frame s (link_next eq s root node) (s.prev root) root node other
          (link_next-Apart eq s root node e) (λ h. out.1.0.0 (sym h)) (λ h. out.0.0 (sym h)) ys
          other q.path (prev-NotIn s root (other ∷ ys) xs root r.path out.1.0 out.1.1) out.0
          out.1.0.1;
    root_out = q.root_out;
    distinct = q.distinct;
  }

  -- So they are when a node leaves this one.
  pub remove-frame :
      (x : A) (xs zs : List A) (other : A) (ys : List A)
      → Ring s root (xs ++ x ∷ zs)
      → Ring s other ys
      → AllOut (root ∷ xs ++ x ∷ zs) (other ∷ ys)
      → Ring (remove eq s x) other ys
  unfolding remove
  remove-frame x xs zs other ys r q out = record {
    path =
        Chain-frame s (unlink eq s x) (s.prev x) (s.next x) x other (unlink-Apart eq s x)
          (λ h. behind.0 (sym h)) (λ h. parts.1.0.0 (sym h)) ys other q.path
          (prev-NotIn s x (other ∷ ys) xs root (Chain-prefix s x root zs xs root r.path) out.0
            parts.0)
          parts.1.0 behind.1;
    root_out = q.root_out;
    distinct = q.distinct;
  }
    where
      parts : AllOut xs (other ∷ ys) × AllOut (x ∷ zs) (other ∷ ys)
      parts = AllOut-append xs (x ∷ zs) (other ∷ ys) out.1

      behind : NotIn (s.next x) (other ∷ ys)
      behind =
          next-NotIn s x root (other ∷ ys) zs (Chain-suffix s x root zs xs root r.path) out.0
            parts.1.1

  AllOut-flip_one : (x : A) (xs : List A) → NotIn x xs → AllOut xs (x ∷ [])
  AllOut-flip_one x [] n = tt
  AllOut-flip_one x (y ∷ ys) n = (((λ e. n.0 (sym e)), tt), AllOut-flip_one x ys n.1)

  -- A node in no list stays so when another node moves to the end of this one, or leaves it.
  pub push_back-Alone :
      (node : A) (xs : List A) (x : A)
      → Ring s root xs
      → s.prev node ≡ node
      → x ≢ node
      → NotIn x (root ∷ xs)
      → Alone s x
      → Alone (push_back eq s root node) x
  unfolding push_back
  push_back-Alone node xs x r e ne out a =
      let last =
        prev-NotIn s root (x ∷ []) xs root r.path ((λ h. out.0 (sym h)), tt)
          (AllOut-flip_one x xs out.1) in
      let d = link_next-Apart eq s root node e in
      (d.prev x out.0 ne ∙ a.0, d.next x (λ h. last.0 (sym h)) ne ∙ a.1)

  pub remove-Alone :
      (n : A) (xs zs : List A) (x : A)
      → Ring s root (xs ++ n ∷ zs)
      → NotIn x (root ∷ xs ++ n ∷ zs)
      → Alone s x
      → Alone (remove eq s n) x
  unfolding remove
  remove-Alone n xs zs x r out a =
      let parts = NotIn-append x xs (n ∷ zs) out.1 in
      let before =
        prev-NotIn s n (x ∷ []) xs root (Chain-prefix s n root zs xs root r.path)
          ((λ h. out.0 (sym h)), tt) (AllOut-flip_one x xs parts.0) in
      let behind =
        next-NotIn s n root (x ∷ []) zs (Chain-suffix s n root zs xs root r.path)
          ((λ h. out.0 (sym h)), tt) (AllOut-flip_one x zs parts.1.1) in
      let d = unlink-Apart eq s n in
      (
        d.prev x (λ h. behind.0 (sym h)) parts.1.0 ∙ a.0,
        d.next x (λ h. before.0 (sym h)) parts.1.0 ∙ a.1,
      )

module _ {A : Type 0} (eq : Discrete A) where
  -- `Unlink` of a node in no list changes nothing.
  pub unlink-Alone : (s : Nodes A) (x : A) → Alone s x → unlink eq s x ≡ s
  unfolding unlink
  unlink-Alone s x a =
      let prev_same : (unlink eq s x).prev ≡ s.prev = fun_ext (λ c. ground arith) in
      let next_same : (unlink eq s x).next ≡ s.next = fun_ext (λ c. ground arith) in
      λ i. record { prev = prev_same i; next = next_same i }
