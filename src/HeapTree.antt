-- ===== src/HeapTree.antt =====
-- The tree of heaps: `FindHeapFromAddress` and `IsAddressInHeap` of
-- libraries/lib_dd/include/dd/mem/mem_heap.hpp, and the search by name of
-- source/mem/mem_heapmanager.cpp. A heap has the sequence of its children.
pub mod Innermost
pub mod Names
mod Tests
use dd_framework.Base.{
  ℕ, ◌-◌, Bool, true, false, not, ◌&&◌, List, [], ◌∷◌, Option, none, some, ltb, leb, if◌then◌else◌,
}

-- What a search looks at: the name and the two addresses.
pub record Span : Type 0 where
  pub name : List ℕ
  pub start_address : ℕ
  pub end_address : ℕ

mutual
  pub data Heap : Type 0 where
    heap : Span → Heaps → Heap

  -- The list of child heaps.
  pub data Heaps : Type 0 where
    no_heaps : Heaps
    heaps : Heap → Heaps → Heaps

abbrev pub span : Heap → Span
span (heap s children) = s

abbrev pub children : Heap → Heaps
children (heap s cs) = cs

abbrev pub is_address_in_heap : Heap → ℕ → Bool
is_address_in_heap h address =
    leb (span h).start_address address && ltb address (span h).end_address

-- `HasChldren`.
abbrev pub has_children : Heap → Bool
has_children (heap s no_heaps) = true
has_children (heap s (heaps c cs)) = false

unfoldable mutual
  pub find_heap_from_address : Heap → ℕ → Option Heap
  find_heap_from_address (heap s cs) address =
      let found = search_children (heap s cs) cs address in
      if not (is_address_in_heap (heap s cs) address) then none else found

  -- The loop over the children of `this`.
  pub search_children : Heap → Heaps → ℕ → Option Heap
  search_children this no_heaps address = some this
  search_children this (heaps child cs) address =
      let inner = find_heap_from_address child address in
      let rest = search_children this cs address in
      if is_address_in_heap child address then inner else rest

abbrev pub or_else : Option Heap → Option Heap → Option Heap
or_else none rest = rest
or_else (some h) rest = some h

-- `strcmp` is 0: a parameter.
module _ (strcmp_eq : List ℕ → List ℕ → Bool) where
  unfoldable mutual
    -- The loop of `FindHeapByNameImpl` over the children of its argument.
    pub find_heap_by_name_impl : Heaps → List ℕ → Option Heap
    find_heap_by_name_impl no_heaps heap_name = none
    find_heap_by_name_impl (heaps child cs) heap_name =
        let candidate = find_below child heap_name in
        let rest = find_heap_by_name_impl cs heap_name in
        if strcmp_eq (span child).name heap_name then some child else or_else candidate rest

    pub find_below : Heap → List ℕ → Option Heap
    find_below (heap s cs) heap_name = find_heap_by_name_impl cs heap_name

  unfoldable pub find_heap_by_name : Heap → List ℕ → Option Heap
  find_heap_by_name root heap_name =
      or_else (find_heap_by_name_impl (children root) heap_name)
        (if strcmp_eq heap_name (span root).name then some root else none)
