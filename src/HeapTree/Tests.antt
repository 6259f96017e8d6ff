-- ===== src/HeapTree/Tests.antt =====
-- A root with two children, the second of which has a child.
use dd_framework.Base.{ℕ, ◌≡◌, refl, Bool, true, false, List, [], ◌∷◌, ◌++◌, some, arith, leb, ◌&&◌}
use dd_framework.HeapTree.{
  Span, Heap, heap, no_heaps, heaps, is_address_in_heap, has_children, find_heap_from_address,
  find_heap_by_name, find_below,
}
use dd_framework.HeapTree.Innermost.{
  Under, IsNested, IsInnermost, Disjoint, find_heap_from_address_lem,
}
use dd_framework.HeapTree.Names.{below, first_named, find_heap_by_name-first}

abbrev spanned : ℕ → ℕ → ℕ → Span
spanned name start end = record { name = name ∷ []; start_address = start; end_address = end }

abbrev inner : Heap
inner = heap (spanned 4 620 700) no_heaps

abbrev left : Heap
left = heap (spanned 2 100 500) no_heaps

abbrev right : Heap
right = heap (spanned 3 600 900) (heaps inner no_heaps)

abbrev root : Heap
root = heap (spanned 1 0 1000) (heaps left (heaps right no_heaps))

abbrev same_text : List ℕ → List ℕ → Bool
same_text (a ∷ as_rest) (b ∷ bs) = leb a b && leb b a
same_text _ _ = false

left-apart : Disjoint left right
left-apart address h = ground (arith, h)

root-IsNested : IsNested root
unfolding IsNested
root-IsNested = (
  omega arith,
  omega arith,
  (left-apart, tt),
  tt,
  (omega arith, omega arith, tt, (omega arith, omega arith, tt, tt, tt), tt),
)

find_heap_from_address_lem_example :
    (r : Heap) × (find_heap_from_address root 650 ≡ some r)
    × IsInnermost root r 650
    × ((q : Heap) → Under q root → is_address_in_heap q 650 ≡ true → Under r q)
find_heap_from_address_lem_example = find_heap_from_address_lem root 650 root-IsNested refl

inner-test : find_heap_from_address root 650 ≡ some inner
unfolding find_heap_from_address
inner-test = refl

-- An address between the children belongs to the root.
root-test : find_heap_from_address root 550 ≡ some root
unfolding find_heap_from_address
root-test = refl

same_text-symmetric : (a b : List ℕ) → same_text a b ≡ same_text b a
same_text-symmetric [] [] = refl
same_text-symmetric [] (b ∷ bs) = refl
same_text-symmetric (a ∷ as_rest) [] = refl
same_text-symmetric (a ∷ as_rest) (b ∷ bs) = ground arith

find_heap_by_name-first_example :
    find_heap_by_name same_text root (3 ∷ [])
    ≡ first_named same_text (3 ∷ []) (below root ++ root ∷ [])
find_heap_by_name-first_example =
    find_heap_by_name-first same_text same_text-symmetric root (3 ∷ [])

name-test : find_heap_by_name same_text root (4 ∷ []) ≡ some inner
unfolding find_heap_by_name find_below
name-test = refl

has_children-test : has_children left ≡ true
has_children-test = refl
