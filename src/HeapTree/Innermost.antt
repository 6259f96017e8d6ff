-- ===== src/HeapTree/Innermost.antt =====
-- What `FindHeapFromAddress` finds.
use dd_framework.Base.{
  ℕ, ◌≤◌, ◌≡◌, refl, sym, subst, ◌∙◌, true, false, ◌&&◌, some, ltb, leb, Bool-cases, ◌⊎◌, inl, inr,
  arith,
}
use mathlib.Core.Bool.{false≢true}
use dd_framework.HeapTree.{
  Span, Heap, Heaps, heap, no_heaps, heaps, span, children, is_address_in_heap,
  find_heap_from_address, search_children,
}

mutual
  -- `r` is the heap, or a heap below it.
  pub Under : Heap → Heap → Type 0
  Under r (heap s cs) = (r ≡ heap s cs) ⊎ UnderAny r cs

  pub UnderAny : Heap → Heaps → Type 0
  UnderAny r no_heaps = ⊥
  UnderAny r (heaps c cs) = Under r c ⊎ UnderAny r cs

abbrev pub NoneHolds : ℕ → Heaps → Type 0
NoneHolds address no_heaps = Unit {0}
NoneHolds address (heaps c cs) = (is_address_in_heap c address ≡ false) × NoneHolds address cs

-- Two ranges have no address in common.
abbrev pub Disjoint : Heap → Heap → Type 0
Disjoint c d =
    (address : ℕ) → is_address_in_heap c address ≡ true → is_address_in_heap d address ≡ false

abbrev pub DisjointAll : Heap → Heaps → Type 0
DisjointAll c no_heaps = Unit {0}
DisjointAll c (heaps d ds) = Disjoint c d × DisjointAll c ds

-- The ranges of all child heaps lie in their parent's, and those of two children of one heap are
-- disjoint.
unfoldable mutual
  pub IsNested : Heap → Type 0
  IsNested (heap s cs) = NestedIn s cs

  pub NestedIn : Span → Heaps → Type 0
  NestedIn s no_heaps = Unit {0}
  NestedIn s (heaps c cs) =
      (s.start_address ≤ (span c).start_address)
      × ((span c).end_address ≤ s.end_address)
      × DisjointAll c cs
      × IsNested c
      × NestedIn s cs

-- The heap found: it holds the address, and none of its children does.
pub record IsInnermost (t r : Heap) (address : ℕ) : Type 0 where
  pub under : Under r t
  pub holds : is_address_in_heap r address ≡ true
  pub none_below : NoneHolds address (children r)

mutual
  unfolding Under UnderAny find_heap_from_address search_children

  found-IsInnermost :
      (t : Heap) (address : ℕ)
      → is_address_in_heap t address ≡ true
      → (r : Heap) × (find_heap_from_address t address ≡ some r) × IsInnermost t r address
  found-IsInnermost (heap s cs) address inside = elim (search-IsInnermost (heap s cs) cs address) [
    | inl none_holds ↦ (
      heap s cs,
      rw inside none_holds.1,
      record { under = inl refl; holds = inside; none_below = none_holds.0 },
    )
    | inr found ↦ (
      found.0,
      rw inside found.1,
      record { under = inr found.2; holds = found.3; none_below = found.4 },
    )
  ]

  search-IsInnermost :
      (this : Heap) (cs : Heaps) (address : ℕ)
      → (NoneHolds address cs × (search_children this cs address ≡ some this))
        ⊎ ((r : Heap) × (search_children this cs address ≡ some r)
            × UnderAny r cs
            × (is_address_in_heap r address ≡ true)
            × NoneHolds address (children r))
  search-IsInnermost this no_heaps address = inl (tt, refl)
  search-IsInnermost this (heaps c cs) address = elim (Bool-cases (is_address_in_heap c address)) [
    | inl e ↦
        let (r, found, inner) = found-IsInnermost c address e in
        inr (r, rw e found, inl inner.under, inner.holds, inner.none_below)
    | inr e ↦ elim (search-IsInnermost this cs address) [
      | inl none_holds ↦ inl ((e, none_holds.0), rw e none_holds.1)
      | inr found ↦ inr (found.0, rw e found.1, inr found.2, found.3, found.4)
    ]
  ]

-- A heap of a nested tree holds what the heaps below it hold.
mutual
  unfolding Under UnderAny IsNested NestedIn

  nested-holds :
      (t r : Heap) (address : ℕ)
      → IsNested t
      → Under r t
      → is_address_in_heap r address ≡ true
      → is_address_in_heap t address ≡ true
  nested-holds (heap s cs) r address nested (inl e) h = rw (← e) h
  nested-holds (heap s cs) r address nested (inr u) h = nested_any-holds s cs r address nested u h

  nested_any-holds :
      (s : Span) (cs : Heaps) (r : Heap) (address : ℕ)
      → NestedIn s cs
      → UnderAny r cs
      → is_address_in_heap r address ≡ true
      → leb s.start_address address && ltb address s.end_address ≡ true
  nested_any-holds s no_heaps r address nested u h = absurd u
  nested_any-holds s (heaps c cs) r address nested (inl u) h =
      let in_child = nested-holds c r address nested.3 u h in
      ground (arith, in_child, nested.0, nested.1)
  nested_any-holds s (heaps c cs) r address nested (inr u) h =
      nested_any-holds s cs r address nested.4 u h

disjoint-Under :
    (c : Heap) (s : Span) (ds : Heaps) (r : Heap) (address : ℕ)
    → NestedIn s ds
    → DisjointAll c ds
    → UnderAny r ds
    → is_address_in_heap r address ≡ true
    → is_address_in_heap c address ≡ true
    → ⊥
unfolding UnderAny NestedIn
disjoint-Under c s no_heaps r address nested apart u h i = u
disjoint-Under c s (heaps d ds) r address nested apart (inl u) h i =
    let no : is_address_in_heap d address ≡ false = apart.0 address i in
    let yes_in : is_address_in_heap d address ≡ true = nested-holds d r address nested.3 u h in
    false≢true (sym no ∙ yes_in)
disjoint-Under c s (heaps d ds) r address nested apart (inr u) h i =
    disjoint-Under c s ds r address nested.4 apart.1 u h i

mutual
  unfolding Under UnderAny IsNested NestedIn find_heap_from_address search_children

  least :
      (t r q : Heap) (address : ℕ)
      → IsNested t
      → find_heap_from_address t address ≡ some r
      → Under q t
      → is_address_in_heap q address ≡ true
      → Under r q
  least (heap s cs) r q address nested found u h =
      let inside = nested-holds (heap s cs) q address nested u h in
      elim u [
        | inl e ↦
            let (r', found', inner) = found-IsInnermost (heap s cs) address inside in
            let same : r' ≡ r = cc (found', found) in
            subst (λ x. Under r x) (sym e) (subst (λ x. Under x (heap s cs)) same inner.under)
        | inr v ↦ least_any s (heap s cs) cs r q address nested (rw inside at found) v h
      ]

  least_any :
      (s : Span) (this : Heap) (cs : Heaps) (r q : Heap) (address : ℕ)
      → NestedIn s cs
      → search_children this cs address ≡ some r
      → UnderAny q cs
      → is_address_in_heap q address ≡ true
      → Under r q
  least_any s this no_heaps r q address nested found u h = absurd u
  least_any s this (heaps c cs) r q address nested found u h =
      elim (Bool-cases (is_address_in_heap c address)) [
        | inl e ↦ elim u [
          | inl v ↦ least c r q address nested.3 (rw e at found) v h
          | inr v ↦ absurd (disjoint-Under c s cs q address nested.4 nested.2 v h e)
        ]
        | inr e ↦ elim u [
          | inl v ↦ absurd (false≢true (sym e ∙ nested-holds c q address nested.3 v h))
          | inr v ↦ least_any s this cs r q address nested.4 (rw e at found) v h
        ]
      ]

-- In a tree of heaps whose children lie apart inside of their parents, `FindHeapFromAddress` of an address of the tree's range returns a heap
-- of the tree that holds the address and has no child that does; and it lies below, or is, each
-- heap of the tree that holds the address.
pub find_heap_from_address_lem :
    (t : Heap) (address : ℕ)
    → IsNested t
    → is_address_in_heap t address ≡ true
    → (r : Heap) × (find_heap_from_address t address ≡ some r)
      × IsInnermost t r address
      × ((q : Heap) → Under q t → is_address_in_heap q address ≡ true → Under r q)
find_heap_from_address_lem t address nested inside =
    let (r, found, inner) = found-IsInnermost t address inside in
    (r, found, inner, λ q u h. least t r q address nested found u h)
