-- ===== src/ExpHeap/Tests.antt =====
-- Two heaps: free blocks on both sides of an allocated one, and an allocated block alone.
use dd_framework.Base.{
  ℕ, ◌≡◌, refl, true, false, List, [], ◌∷◌, none, some, ◌==◌, ℕ_discrete, if◌then◌else◌, pos, arith,
  ok, fault,
}
use dd_framework.Alignment.{align_up}
use dd_framework.IntrusiveList.{Nodes, visit}
use dd_framework.IntrusiveList.Ring.{Ring}
use dd_framework.ExpHeap.State.{Block, Memory, ExpHeap, free_blocks, free_magic}
use dd_framework.ExpHeap.Allocate.{
  find_block, free, try_allocate, enforce_alignment, get_maximum_allocatable_size,
  get_total_free_size, sum_sizes, largest, aligned_size, best_fit_loop, first_fit,
}
use dd_framework.ExpHeap.Adjust.{adjust_heap}
use dd_framework.ExpHeap.Create.{Layout, construct_heap, create_in_memory}
use dd_framework.ExpHeap.Never.{try_allocate-null, any_fits}
use dd_framework.ExpHeap.Freed.{IsRange, free_lem, rest_of}
use dd_framework.ExpHeap.Fresh.{adjust_heap-fresh}

abbrev heap : ExpHeap
heap = record {
  start_address = 1000;
  end_address = 5000;
  free_block_list = 10;
  allocated_block_list = 20;
  child_list = 30;
  best_fit = true;
}

abbrev no_nodes : Nodes ℕ
no_nodes = record { prev = λ a. a; next = λ a. a }

abbrev blocks : ℕ → Block
blocks a =
    if a == 2000
    then record { alloc_magic = free_magic; alignment = 0; block_size = 1000 }
    else record { alloc_magic = free_magic; alignment = 0; block_size = 468 }

abbrev successor : ℕ → ℕ
successor a =
    if a == 10
    then 1000
    else if a == 1000
    then 2000
    else if a == 2000
    then 10
    else if a == 20
    then 1500
    else if a == 1500
    then 20
    else a

abbrev predecessor : ℕ → ℕ
predecessor a =
    if a == 10
    then 2000
    else if a == 1000
    then 10
    else if a == 2000
    then 1000
    else if a == 20
    then 1500
    else if a == 1500
    then 20
    else a

-- The free blocks at 1000 and 2000, and the allocated one at 1500.
abbrev memory : Memory
memory = record {
  nodes = record { prev = predecessor; next = successor };
  blocks = blocks;
  child_nodes = no_nodes;
}

abbrev frees : List ℕ
frees = 1000 ∷ 2000 ∷ []

free-Ring : Ring memory.nodes 10 (1000 ∷ 2000 ∷ [])
free-Ring = record { path = omega arith; root_out = omega arith; distinct = omega arith }

allocated-Ring : Ring memory.nodes 20 (1500 ∷ [])
allocated-Ring = record { path = omega arith; root_out = omega arith; distinct = omega arith }

abbrev single : ℕ → ℕ
single a = if a == 20 then 1500 else if a == 1500 then 20 else a

-- The allocated block alone.
abbrev full : Memory
full = record {
  nodes = record { prev = single; next = single };
  blocks = blocks;
  child_nodes = no_nodes;
}

try_allocate-null_example :
    (any_fits memory (align_up 100 4) (enforce_alignment (pos 8)) frees ≡ true
      → try_allocate heap memory 3 100 (pos 8) ≡ ok (memory, 0))
    × (frees ≡ [] → try_allocate heap memory 3 100 (pos 8) ≡ ok (memory, 0))
    × ((frees ≡ [] → ⊥)
        → any_fits memory (align_up 100 4) (enforce_alignment (pos 8)) frees ≡ false
        → try_allocate heap memory 3 100 (pos 8) ≡ fault)
try_allocate-null_example =
    try_allocate-null heap memory 3 frees free-Ring (omega arith) refl (omega arith) 100 (pos 8)

free-IsRange : IsRange heap memory [] (2000 ∷ []) 1000 1500 2000
free-IsRange = record {
  ring = free-Ring;
  below = tt;
  before = omega arith;
  behind = omega arith;
  ordered = omega arith;
  block_inside = refl;
  inside = (refl, tt);
  outside = omega arith;
}

free_lem_example :
    (m' : Memory) × (free heap memory 3 1532 ≡ ok m')
    × Ring m'.nodes 10 (rest_of memory 1000 1500 2000 [] (2000 ∷ []))
    × Ring m'.nodes 20 []
free_lem_example =
    free_lem heap memory 3 [] (2000 ∷ []) [] [] 1000 1500 free-IsRange (omega arith) allocated-Ring
      (omega arith) (omega arith) (omega arith) refl (omega arith)

both_lost : rest_of memory 1000 1500 2000 [] (2000 ∷ []) ≡ []
both_lost = refl

abbrev layout : Layout
layout = record {
  object_size = 128;
  free_offset = 32;
  allocated_offset = 48;
  child_offset = 64;
  mode_held = λ a. false;
}

adjust_heap-fresh_example :
    let m' = (create_in_memory layout full 65536 4096).0 in
    let h = construct_heap layout 65536 4096 in
    adjust_heap none h m' 1 ≡ ok (h, m', h.end_address, 0)
adjust_heap-fresh_example =
    adjust_heap-fresh layout full 65536 4096
      (record { free_in = omega arith; allocated_in = omega arith; lists_apart = omega arith })
      (omega arith) (omega arith) none 1

total-test : get_total_free_size heap memory 3 ≡ ok 1468
unfolding get_total_free_size sum_sizes free_blocks visit ℕ_discrete
total-test = refl

maximum-test : get_maximum_allocatable_size heap memory 3 (pos 8) ≡ ok 1000
unfolding get_maximum_allocatable_size largest aligned_size align_up free_blocks visit ℕ_discrete
maximum-test = refl

-- A block that is large enough is found, in either mode.
found-test :
    (find_block heap memory 400 8 frees ≡ (some 1000, 1032))
    × (find_block (record heap { best_fit = false }) memory 500 8 frees ≡ (some 2000, 2032))
unfolding find_block best_fit_loop first_fit align_up
found-test = (refl, refl)
