-- ===== src/ExpHeap/Allocate.antt =====
-- `TryAllocate`, `Free` and the queries of source/mem/mem_expheap.cpp.
use dd_framework.Base.{
  ℕ, ◌-◌, ◌^◌, Bool, ◌&&◌, List, [], ◌∷◌, Option, none, some, ltb, leb, ◌==◌, if◌then◌else◌, Signed,
  pos, negsuc, to_u64, add64, sub64, ℕ_discrete, Run, ok, ◌>>=◌,
}
use dd_framework.Alignment.{align_up}
use dd_framework.IntrusiveList as Lists
use dd_framework.ExpHeap.State.{
  Memory, ExpHeap, header_size, minimum_alignment, minimum_granularity, read_block, unlink_block,
  free_blocks,
}
use dd_framework.ExpHeap.Blocks.{add_free_block, add_used_block}

-- The test on the signed alignment.
unfoldable pub enforce_alignment : Signed → ℕ
enforce_alignment (pos n) = if ltb n minimum_alignment then minimum_alignment else n
enforce_alignment (negsuc n) = minimum_alignment

abbrev pub allocation_start : ℕ → ℕ → ℕ
allocation_start block alignment = align_up (add64 block header_size) alignment

abbrev pub fits : Memory → ℕ → ℕ → ℕ → Bool
fits m size alignment block =
    leb (sub64 (add64 (allocation_start block alignment) size) block) (m.blocks block).block_size

-- The block at which the loop ends, if not at the end of the list, and the address.
unfoldable pub first_fit : Memory → ℕ → ℕ → List ℕ → ℕ → Option ℕ × ℕ
first_fit m size alignment [] address = (none, address)
first_fit m size alignment (block ∷ blocks) address =
    let rest = first_fit m size alignment blocks (allocation_start block alignment) in
    if fits m size alignment block then (some block, allocation_start block alignment) else rest

-- What the best fit loop has found.
pub record Smaller : Type 0 where
  pub smaller_size : ℕ
  pub smaller_block : Option ℕ
  pub smaller_address : ℕ

unfoldable pub best_fit_loop : Memory → ℕ → ℕ → List ℕ → Smaller → Option ℕ × ℕ
best_fit_loop m size alignment [] best = (best.smaller_block, best.smaller_address)
best_fit_loop m size alignment (block ∷ blocks) best =
    let better = ltb (m.blocks block).block_size best.smaller_size && fits m size alignment block in
    let best' : Smaller =
      if better
      then record {
        smaller_size = (m.blocks block).block_size;
        smaller_block = some block;
        smaller_address = allocation_start block alignment;
      }
      else best in
    let rest = best_fit_loop m size alignment blocks best' in
    if better && (m.blocks block).block_size == size
    then (some block, allocation_start block alignment)
    else rest

unfoldable pub find_block : ExpHeap → Memory → ℕ → ℕ → List ℕ → Option ℕ × ℕ
find_block h m size alignment blocks =
    let nothing : Smaller = record {
      smaller_size = 2 ^ 64 - 1;
      smaller_block = none;
      smaller_address = 0;
    } in
    if h.best_fit
    then best_fit_loop m size alignment blocks nothing
    else first_fit m size alignment blocks 0

-- What follows the search: with no block found the iterator stands on the root.
unfoldable pub convert_block : ExpHeap → Memory → ℕ → Option ℕ × ℕ → Run (Memory × ℕ)
convert_block h m size (some block, address) = ok (m, 0)
convert_block h m size (none, address) = do
  m' ← add_used_block h m h.free_block_list address size
  ok (m', address)

unfoldable pub try_allocate : ExpHeap → Memory → ℕ → ℕ → Signed → Run (Memory × ℕ)
try_allocate h m rounds size alignment =
    let size' = align_up size minimum_granularity in
    let searched = free_blocks h m rounds >>= λ blocks.
    convert_block h m size' (find_block h m size' (enforce_alignment alignment) blocks) in
    if Lists.is_empty ℕ_discrete m.nodes h.free_block_list then ok (m, 0) else searched

unfoldable pub free : ExpHeap → Memory → ℕ → ℕ → Run Memory
free h m rounds address = do
  let address_of_block = sub64 address header_size
  let m1 = unlink_block m address_of_block
  block ← read_block h m1 address_of_block
  let start = sub64 address_of_block block.alignment
  let end = add64 address block.block_size
  (m2, added) ← add_free_block h m1 rounds start end
  ok m2

unfoldable pub sum_sizes : Memory → List ℕ → ℕ → ℕ
sum_sizes m [] free_size = free_size
sum_sizes m (block ∷ blocks) free_size =
    sum_sizes m blocks (add64 free_size (m.blocks block).block_size)

unfoldable pub get_total_free_size : ExpHeap → Memory → ℕ → Run ℕ
get_total_free_size h m rounds = do blocks ← free_blocks h m rounds; ok (sum_sizes m blocks 0)

-- The size of a block less what the alignment of its start takes.
unfoldable pub aligned_size : Memory → ℕ → ℕ → ℕ
aligned_size m alignment block =
    let start_address = add64 block header_size in
    let end_address = add64 start_address (m.blocks block).block_size in
    sub64 end_address (align_up start_address alignment)

unfoldable pub largest : Memory → ℕ → List ℕ → ℕ → ℕ
largest m alignment [] max_free_size = max_free_size
largest m alignment (block ∷ blocks) max_free_size =
    let block_size = aligned_size m alignment block in
    largest m alignment blocks (if ltb max_free_size block_size then block_size else max_free_size)

unfoldable pub get_maximum_allocatable_size : ExpHeap → Memory → ℕ → Signed → Run ℕ
get_maximum_allocatable_size h m rounds alignment = do
  blocks ← free_blocks h m rounds
  ok (largest m (to_u64 alignment) blocks 0)

unfoldable pub get_allocation_size : ExpHeap → Memory → ℕ → Run ℕ
get_allocation_size h m address = do
  block ← read_block h m (sub64 address header_size)
  ok block.block_size
