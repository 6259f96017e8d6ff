-- ===== src/ExpHeap/Faults.antt =====
-- Ranges with no free block before them.
use dd_framework.Base.{
  ℕ, ◌+◌, ◌^◌, ◌<◌, ◌≡◌, refl, true, false, not, ◌&&◌, List, [], ◌∷◌, ◌++◌, leb, ◌==◌, Bool-cases,
  inl, inr, arith, ℕ_discrete, add64, sub64, ok, fault,
}
use dd_framework.IntrusiveList as Lists
use dd_framework.IntrusiveList.Ring.{Ring, AllOut, length}
use dd_framework.IntrusiveList.Moves.{remove-frame}
use dd_framework.ExpHeap.State.{Memory, ExpHeap, header_size, is_address_in_heap, unlink_block}
use dd_framework.ExpHeap.Blocks.{find_neighbours, coalesce_back, coalesce_front, add_free_block}
use dd_framework.ExpHeap.Allocate.{free}
use dd_framework.ExpHeap.Lost.{Behind, AllInside}
use dd_framework.ExpHeap.Freed.{start_of, end_of}
use dd_framework.ExpHeap.Never.{free_blocks-Ring}

abbrev head_or_null : List ℕ → ℕ
head_or_null [] = 0
head_or_null (x ∷ xs) = x

find_neighbours-none :
    (start : ℕ) (xs : List ℕ)
    → Behind start xs
    → find_neighbours start xs 0 0 ≡ (0, head_or_null xs)
unfolding find_neighbours
find_neighbours-none start [] behind = refl
find_neighbours-none start (x ∷ xs) behind = let e : leb start x ≡ true = ground arith in rw e

coalesce_back-returns :
    (h : ExpHeap) (m : Memory) (end : ℕ) (xs : List ℕ)
    → AllInside h xs
    → (r : Memory × ℕ) × (coalesce_back h m (head_or_null xs) end ≡ ok r)
unfolding coalesce_back
coalesce_back-returns h m end [] inside = ((m, end), refl)
coalesce_back-returns h m end (x ∷ xs) inside = elim (Bool-cases (not (x == 0) && end == x)) [
  | inl e ↦
      let m1 = unlink_block m x in
      ((m1, add64 (add64 x (m1.blocks x).block_size) header_size), rw (e, inside.0))
  | inr e ↦ ((m, end), rw e)
]

module _ (h : ExpHeap) (rounds : ℕ) (xs : List ℕ) (enough : length xs < rounds)
    (inside : AllInside h xs) (null_out : is_address_in_heap h 0 ≡ false) where
  add_free_block-fault :
      (m : Memory) (start end : ℕ)
      → Ring m.nodes h.free_block_list xs
      → Behind start xs
      → add_free_block h m rounds start end ≡ fault
  unfolding add_free_block coalesce_front
  add_free_block-fault m start end ring behind =
      let blocks = free_blocks-Ring h m rounds xs ring enough in
      let found = find_neighbours-none start xs behind in
      let back = coalesce_back-returns h m end xs inside in rw (blocks, found, back.1, null_out)

  -- `Free` of an allocated block that has no free block before it reads the header of the null
  -- block: so where the free list is empty, and so for the first block of a heap.
  free-fault :
      (m : Memory) (us vs : List ℕ) (block : ℕ)
      → Ring m.nodes h.free_block_list xs
      → Ring m.nodes h.allocated_block_list (us ++ block ∷ vs)
      → AllOut (h.allocated_block_list ∷ us ++ block ∷ vs) (h.free_block_list ∷ xs)
      → is_address_in_heap h block ≡ true
      → block + header_size < 2 ^ 64
      → Behind (start_of m block) xs
      → free h m rounds (block + header_size) ≡ fault
  unfolding free Lists.remove
  free-fault m us vs block ring allocated apart block_inside fits behind =
      let m1 = unlink_block m block in
      let ring1 =
        remove-frame ℕ_discrete m.nodes h.allocated_block_list block us vs h.free_block_list xs
          allocated ring apart in
      let header : sub64 (block + header_size) header_size ≡ block = omega arith in
      rw (
        header,
        block_inside,
        add_free_block-fault m1 (start_of m block) (end_of m block) ring1 behind,
      )
