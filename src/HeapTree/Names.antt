-- ===== src/HeapTree/Names.antt =====
-- The search by name against a search of a list.
use dd_framework.Base.{
  ℕ, ◌≡◌, refl, Bool, List, [], ◌∷◌, ◌++◌, Option, none, some, if◌then◌else◌, Bool-cases, inl, inr,
}
use dd_framework.HeapTree.{
  Heap, Heaps, heap, no_heaps, heaps, span, or_else, find_heap_by_name_impl, find_below,
  find_heap_by_name,
}

mutual
  -- The heaps below a heap: each child before its own children.
  pub below : Heap → List Heap
  below (heap s cs) = below_all cs

  pub below_all : Heaps → List Heap
  below_all no_heaps = []
  below_all (heaps c cs) = c ∷ below c ++ below_all cs

module _ (strcmp_eq : List ℕ → List ℕ → Bool) where
  abbrev pub first_named : List ℕ → List Heap → Option Heap
  first_named n [] = none
  first_named n (h ∷ hs) = if strcmp_eq (span h).name n then some h else first_named n hs

  first_named-append :
      (n : List ℕ) (hs ks : List Heap)
      → first_named n (hs ++ ks) ≡ or_else (first_named n hs) (first_named n ks)
  first_named-append n [] ks = refl
  first_named-append n (h ∷ hs) ks = elim (Bool-cases (strcmp_eq (span h).name n)) [
    | inl e ↦ rw e
    | inr e ↦ rw e (first_named-append n hs ks)
  ]

  mutual
    unfolding below below_all find_heap_by_name_impl find_below

    impl-first :
        (n : List ℕ) (cs : Heaps)
        → find_heap_by_name_impl strcmp_eq cs n ≡ first_named n (below_all cs)
    impl-first n no_heaps = refl
    impl-first n (heaps c cs) = elim (Bool-cases (strcmp_eq (span c).name n)) [
      | inl e ↦ rw e
      | inr e ↦
          rw (
            e,
            find_below-first n c,
            impl-first n cs,
            first_named-append n (below c) (below_all cs),
          )
    ]

    find_below-first : (n : List ℕ) (h : Heap) → find_below strcmp_eq h n ≡ first_named n (below h)
    find_below-first n (heap s cs) = impl-first n cs

  -- `FindHeapByName` returns the first heap of the name in the list of all heaps below the root, each
  -- before its children, with the root at the end, where `strcmp` does not mind the order of its
  -- arguments.
  pub find_heap_by_name-first :
      ((a b : List ℕ) → strcmp_eq a b ≡ strcmp_eq b a)
      → (root : Heap) (n : List ℕ)
      → find_heap_by_name strcmp_eq root n ≡ first_named n (below root ++ root ∷ [])
  unfolding find_heap_by_name below
  find_heap_by_name-first symmetric (heap s cs) n =
      rw (impl-first n cs, first_named-append n (below_all cs) (heap s cs ∷ []), symmetric n s.name)
