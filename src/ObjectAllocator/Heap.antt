-- ===== src/ObjectAllocator/Heap.antt =====
-- `HeapObjectAllocator` of util_heapobjectallocator.hpp.
use dd_framework.Base.{
  ℕ, zero, suc, ◌+◌, ◌-◌, ◌<◌, ◌≡◌, ◌≢◌, refl, subst, sym, ap, ◌∙◌, List, [], ◌∷◌, arith, true,
  ==_ne,
}
use dd_framework.ObjectAllocator.{Allocator, link_loop, heap_initialize, heap_allocate}
use dd_framework.ObjectAllocator.FreeChain.{Segment, range, link_loop-Segment}

-- `n` calls of `Allocate`.
abbrev pub allocate_all : ℕ → Allocator → Allocator × List ℕ
allocate_all zero a = (a, [])
allocate_all (suc n) a =
    let (a1, x) = heap_allocate a in let (a2, xs) = allocate_all n a1 in (a2, x ∷ xs)

length : List ℕ → ℕ
length [] = 0
length (x ∷ xs) = suc (length xs)

allocate_all-Segment :
    (a : Allocator) (xs : List ℕ) (last : ℕ)
    → Segment a.next a.free_list xs last
    → allocate_all (length xs) a ≡ (record a { free_list = last }, xs)
unfolding heap_allocate length
allocate_all-Segment a [] last s = rw s refl
allocate_all-Segment a (x ∷ xs) last s =
    rw (s.0, ==_ne x 0 s.1, allocate_all-Segment (record a { free_list = a.next x }) xs last s.2)
      refl

length-range : (n first : ℕ) → length (range first n) ≡ n
unfolding length
length-range zero first = refl
length-range (suc n) first = rw (length-range n (first + 1)) refl

-- What `Initialize` makes of memory whose words are those of `a`.
abbrev linked : Allocator → ℕ → ℕ → Allocator
linked a allocation n = record { free_list = allocation; next = link_loop allocation n a.next }

initialized :
    (a : Allocator) (allocation n : ℕ)
    → allocation ≢ 0
    → heap_initialize a allocation (suc n) ≡ (linked a allocation n, true)
unfolding heap_initialize
initialized a allocation n nz =
    let e : suc n - 1 ≡ n = omega arith in
    rw (==_ne (suc n) 0 (omega arith), ==_ne allocation 0 nz, e) refl

all_allocated :
    (a : Allocator) (allocation n : ℕ)
    → allocation ≢ 0
    → allocate_all (suc n) (linked a allocation n) ≡ (
      record (linked a allocation n) { free_list = a.next (allocation + n) },
      range allocation (suc n),
    )
all_allocated a allocation n nz =
    subst
      (λ k. allocate_all k (linked a allocation n) ≡ (
        record (linked a allocation n) { free_list = a.next (allocation + n) },
        range allocation (suc n),
      ))
      (length-range (suc n) allocation)
      (allocate_all-Segment (linked a allocation n) (range allocation (suc n))
        (a.next (allocation + n))
        (link_loop-Segment allocation n a.next n allocation nz (omega arith) refl))

-- After `Initialize` with memory and at least one element, as many calls of `Allocate` hand out the
-- objects in the order of their addresses. The head of the free list is then the word that the last
-- object's memory held before `Initialize`.
heap_initialize-allocate_all :
    (a : Allocator) (allocation element_count : ℕ)
    → allocation ≢ 0
    → 0 < element_count
    → let (a1, made) = heap_initialize a allocation element_count in
      let (a2, objects) = allocate_all element_count a1 in
      (made ≡ true)
      × (objects ≡ range allocation element_count)
      × (a2.free_list ≡ a.next (allocation + (element_count - 1)))
unfolding heap_initialize
heap_initialize-allocate_all a allocation zero nz h = elim h [ ]
heap_initialize-allocate_all a allocation (suc n) nz h =
    subst
      (λ r.
        (r.1 ≡ true)
        × ((allocate_all (suc n) r.0).1 ≡ range allocation (suc n))
        × ((allocate_all (suc n) r.0).0.free_list ≡ a.next (allocation + (suc n - 1))))
      (sym (initialized a allocation n nz))
      (
        refl,
        ap (λ r. r.1) (all_allocated a allocation n nz),
        (ap (λ r. r.0.free_list) (all_allocated a allocation n nz) ∙ ap a.next (omega arith)),
      )
