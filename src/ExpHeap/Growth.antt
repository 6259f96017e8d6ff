-- ===== src/ExpHeap/Growth.antt =====
-- `AdjustAllocation` to a larger size.
use dd_framework.Base.{
  ℕ, ◌+◌, ◌^◌, ◌<◌, ◌≡◌, refl, true, false, List, [], ◌∷◌, ltb, ◌==◌, Bool-cases, inl, inr, arith,
  ==→eq, lt→ltb, add64, sub64, ok, fault,
}
use dd_framework.Alignment.{align_up}
use dd_framework.IntrusiveList.Chain.{NotIn}
use dd_framework.IntrusiveList.Ring.{Ring, length}
use dd_framework.IntrusiveList.Members.{In}
use dd_framework.ExpHeap.State.{
  Memory, ExpHeap, header_size, minimum_granularity, is_address_in_heap,
}
use dd_framework.ExpHeap.Adjust.{block_at, grow, adjust_allocation}
use dd_framework.ExpHeap.Never.{free_blocks-Ring}

block_at-In : (h : ExpHeap) (z : ℕ) (xs : List ℕ) → In z xs → block_at h z xs ≡ z
unfolding block_at
block_at-In h z [] i = absurd i
block_at-In h z (x ∷ xs) i = elim (Bool-cases (x == z)) [
  | inl e ↦ rw e (==→eq x z e)
  | inr e ↦ rw e (elim i [ inl q ↦ absurd (ground arith) | inr j ↦ block_at-In h z xs j ])
]

block_at-NotIn :
    (h : ExpHeap) (z : ℕ) (xs : List ℕ) → NotIn z xs → block_at h z xs ≡ h.free_block_list
unfolding block_at
block_at-NotIn h z [] n = refl
block_at-NotIn h z (x ∷ xs) n =
    let e : x == z ≡ false = ground (arith, n.0) in rw e (block_at-NotIn h z xs n.1)

module _ (h : ExpHeap) (m : Memory) (rounds : ℕ) (xs : List ℕ)
    (ring : Ring m.nodes h.free_block_list xs) (enough : length xs < rounds) (block new_size : ℕ)
    (block_inside : is_address_in_heap h block ≡ true)
    (larger : (m.blocks block).block_size < align_up new_size minimum_granularity)
    (fits : block + header_size + (m.blocks block).block_size < 2 ^ 64) where
  abbrev behind : ℕ
  behind = block + header_size + (m.blocks block).block_size

  grows :
      adjust_allocation h m rounds (block + header_size) new_size
      ≡ grow h m rounds
          (block + header_size)
          (m.blocks block)
          (align_up new_size minimum_granularity)
  unfolding adjust_allocation
  grows =
      let header : sub64 (block + header_size) header_size ≡ block = omega arith in
      let size = (m.blocks block).block_size in
      let size' = align_up new_size minimum_granularity in
      let other : size == size' ≡ false = ground arith in
      let not_less : ltb size' size ≡ false = ground arith in
      rw (header, block_inside, other, not_less)

  -- `AdjustAllocation` to a larger size changes nothing and returns the old size where a free block
  -- follows that is large enough, and reads the header of the list's root where none follows.
  adjust_allocation-refuses :
      (is_address_in_heap h h.free_block_list ≡ false)
      → (In behind xs
          → is_address_in_heap h behind ≡ true
          → (m.blocks behind).block_size + header_size + (m.blocks block).block_size < 2 ^ 64
          → align_up new_size minimum_granularity
            < (m.blocks behind).block_size + header_size + (m.blocks block).block_size
          → adjust_allocation h m rounds (block + header_size) new_size
            ≡ ok (m, (m.blocks block).block_size))
        × (NotIn behind xs → adjust_allocation h m rounds (block + header_size) new_size ≡ fault)
  unfolding grow
  adjust_allocation-refuses root_out =
      let end : add64 (block + header_size) (m.blocks block).block_size ≡ behind = omega arith in
      let blocks = free_blocks-Ring h m rounds xs ring enough in
      (
        (λ member inside small room.
            let sum : ltb (align_up new_size minimum_granularity) (
                  add64 (add64 (m.blocks behind).block_size header_size)
                    (m.blocks block).block_size)
                ≡ true =
              lt→ltb _ _ (omega arith) in
            rw (grows, blocks, end, block_at-In h behind xs member, inside, sum)),
        λ out. rw (grows, blocks, end, block_at-NotIn h behind xs out, root_out),
      )
