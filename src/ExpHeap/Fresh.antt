-- ===== src/ExpHeap/Fresh.antt =====
-- A heap that has just been created.
use dd_framework.Base.{
  ℕ, ◌+◌, ◌^◌, ◌≤◌, ◌<◌, ◌≡◌, ◌≢◌, refl, sym, true, false, [], ◌∷◌, Option, ◌==◌, Bool-cases, inl,
  inr, ==_ne, arith, ℕ_discrete, add64, ok,
}
use dd_framework.IntrusiveList.Ring.{Ring}
use dd_framework.IntrusiveList.{Nodes, is_empty, construct, push_back}
use dd_framework.IntrusiveList.Moves.{push_back-Ring, push_back-frame}
use dd_framework.IntrusiveList.Members.{construct-Ring, construct-Alone}
use dd_framework.ExpHeap.State.{
  Memory, ExpHeap, header_size, minimum_granularity, is_address_in_heap,
}
use dd_framework.ExpHeap.Create.{
  Layout, construct_heap, construct_lists, construct_first_block, create_in_memory,
}
use dd_framework.ExpHeap.Adjust.{trim, adjust_heap}

-- The lists stand at different places in the heap's object.
pub record IsLayout (l : Layout) : Type 0 where
  pub free_in : l.free_offset < l.object_size
  pub allocated_in : l.allocated_offset < l.object_size
  pub lists_apart : l.free_offset ≢ l.allocated_offset

construct-Empty : (s : Nodes ℕ) (root : ℕ) → Ring (construct ℕ_discrete s root) root []
construct-Empty s root =
    let alone = construct-Alone ℕ_discrete s root root [] in
    record { path = (alone.1, alone.0); root_out = tt; distinct = tt }

-- Two lists and a block, constructed in a store.
fresh-lists :
    (s : Nodes ℕ) (f a b : ℕ)
    → f ≢ a
    → f ≢ b
    → a ≢ b
    → let s3 = construct ℕ_discrete (construct ℕ_discrete (construct ℕ_discrete s f) a) b in
      Ring (push_back ℕ_discrete s3 f b) f (b ∷ []) × Ring (push_back ℕ_discrete s3 f b) a []
fresh-lists s f a b fa fb ab =
    let s1 = construct ℕ_discrete s f in
    let s2 = construct ℕ_discrete s1 a in
    let s3 = construct ℕ_discrete s2 b in
    let f1 = construct-Empty s f in
    let f2 = construct-Ring ℕ_discrete s1 a f [] f1 ((λ e. fa (sym e)), tt) in
    let f3 = construct-Ring ℕ_discrete s2 b f [] f2 ((λ e. fb (sym e)), tt) in
    let a2 = construct-Empty s1 a in
    let a3 = construct-Ring ℕ_discrete s2 b a [] a2 ((λ e. ab (sym e)), tt) in
    let alone = construct-Alone ℕ_discrete s2 b f [] in
    (
      push_back-Ring ℕ_discrete s3 f b [] f3 tt (λ e. fb (sym e)) alone.0,
      push_back-frame ℕ_discrete s3 f b [] a [] f3 alone.0 a3
          (((λ e. ab (sym e)), tt), ((fa, tt), tt)),
    )

module _ (l : Layout) (m : Memory) (address size : ℕ) (layout : IsLayout l)
    (large : l.object_size + header_size + minimum_granularity ≤ size)
    (fits : address + size + l.object_size < 2 ^ 64) where
  abbrev pub heap : ExpHeap
  heap = construct_heap l address size

  -- A new heap has one free block, behind its object, and no allocated one. Its range ends one
  -- object's size behind the memory that it was given.
  pub create_in_memory_lem :
      let r = create_in_memory l m address size in
      (r.1 ≡ heap)
      × (heap.start_address ≡ address + l.object_size)
      × (heap.end_address ≡ address + size + l.object_size)
      × Ring r.0.nodes heap.free_block_list ((address + l.object_size) ∷ [])
      × Ring r.0.nodes heap.allocated_block_list []
      × ((r.0.blocks (address + l.object_size)).block_size + l.object_size + header_size ≡ size)
  unfolding create_in_memory construct_heap construct_first_block construct_lists
  create_in_memory_lem =
      let free : add64 address l.free_offset ≡ address + l.free_offset =
        omega (arith, layout.free_in) in
      let allocated : add64 address l.allocated_offset ≡ address + l.allocated_offset =
        omega (arith, layout.allocated_in) in
      let start : add64 address l.object_size ≡ address + l.object_size = omega arith in
      let lists =
        fresh-lists m.nodes (address + l.free_offset) (address + l.allocated_offset)
          (address + l.object_size) (λ e. layout.lists_apart (omega arith))
          (omega (arith, layout.free_in)) (omega (arith, layout.allocated_in)) in
      (
        refl,
        start,
        omega arith,
        rw (start, free, allocated) lists.0,
        rw (start, free, allocated) lists.1,
        ground (arith, start),
      )

  -- The root of the free list lies before the range.
  pub free_list-outside : is_address_in_heap heap heap.free_block_list ≡ false
  unfolding construct_heap
  free_list-outside =
      let free : add64 address l.free_offset ≡ address + l.free_offset =
        omega (arith, layout.free_in) in
      let start : add64 address l.object_size ≡ address + l.object_size = omega arith in
      rw (free, start) (ground (arith, layout.free_in))

  -- For a heap that `TryCreate` has built in memory that is large enough and below 2^64:
  -- `AdjustHeap` does not trim it, whatever its parent is, although all of it is free.
  pub adjust_heap-fresh :
      (parent : Option ExpHeap) (rounds : ℕ)
      → let m' = (create_in_memory l m address size).0 in
        adjust_heap parent heap m' rounds ≡ ok (heap, m', heap.end_address, 0)
  unfolding adjust_heap trim
  adjust_heap-fresh parent rounds =
      let m' = (create_in_memory l m address size).0 in
      let first = address + l.object_size in
      let facts = create_in_memory_lem in
      let ring = facts.3 in
      let last : m'.nodes.prev heap.free_block_list ≡ first = ring.path.2.1 in
      let inside : is_address_in_heap heap first ≡ true = ground (arith, facts.1, facts.2) in
      let short : add64 first (add64 header_size (m'.blocks first).block_size) == heap.end_address
          ≡ false =
        ==_ne _ _ (λ e. absurd (omega (arith, e, facts.2, facts.5, layout.free_in))) in
      elim (Bool-cases (is_empty ℕ_discrete m'.nodes heap.free_block_list)) [
        | inl e ↦ rw e
        | inr e ↦ rw (e, last, inside, short)
      ]
