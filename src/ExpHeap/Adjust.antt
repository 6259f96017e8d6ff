-- ===== src/ExpHeap/Adjust.antt =====
-- `AdjustAllocation` and `AdjustHeap` of source/mem/mem_expheap.cpp.
use dd_framework.Base.{
  ℕ, List, [], ◌∷◌, Option, none, some, ltb, leb, ◌==◌, if◌then◌else◌, add64, sub64, ℕ_discrete,
  Run, ok, ◌>>=◌,
}
use dd_framework.Alignment.{align_up}
use dd_framework.IntrusiveList as Lists
use dd_framework.ExpHeap.State.{
  Block, Memory, ExpHeap, header_size, minimum_granularity, free_magic, read_block, write_block,
  unlink_block, construct_block, push_back_block, free_blocks,
}
use dd_framework.ExpHeap.Blocks.{add_free_block}

-- The loop over the free list: the block that begins at the address, or else the root.
unfoldable pub block_at : ExpHeap → ℕ → List ℕ → ℕ
block_at h end_address [] = h.free_block_list
block_at h end_address (block ∷ blocks) =
    let rest = block_at h end_address blocks in if block == end_address then block else rest

unfoldable pub shrink : ExpHeap → Memory → ℕ → ℕ → Block → ℕ → Run (Memory × ℕ)
shrink h m rounds address block new_size = do
  (m1, added) ← add_free_block h m rounds (add64 address new_size) (add64 address block.block_size)
  let header = sub64 address header_size
  ok (write_block m1 header (record (m1.blocks header) { block_size = new_size }), new_size)

-- The block behind is cut or taken whole.
unfoldable pub take_block_after : ExpHeap → Memory → ℕ → ℕ → ℕ → ℕ → Memory
take_block_after h m address new_size block_after after_size =
    let header = sub64 address header_size in
    let m1 = unlink_block m block_after in
    let new_end_address = add64 block_after after_size in
    let behind = add64 (add64 address new_size) header_size in
    let new_free_size = sub64 new_end_address behind in
    let cut = leb header_size new_free_size in
    let new_free = if cut then sub64 behind new_free_size else behind in
    let adjusted = record (m1.blocks header) { block_size = sub64 new_free address } in
    let m2 = write_block m1 header adjusted in
    let free_block : Block = record {
      alloc_magic = free_magic;
      alignment = 0;
      block_size = new_free_size;
    } in
    let m3 = write_block (construct_block m2 new_free) new_free free_block in
    if cut then push_back_block m3 h.free_block_list new_free else m2

unfoldable pub grow : ExpHeap → Memory → ℕ → ℕ → Block → ℕ → Run (Memory × ℕ)
grow h m rounds address block new_size = do
  blocks ← free_blocks h m rounds
  let block_after = block_at h (add64 address block.block_size) blocks
  after ← read_block h m block_after
  let after_size = add64 after.block_size header_size
  if ltb new_size (add64 after_size block.block_size)
      then ok (m, block.block_size)
      else ok (take_block_after h m address new_size block_after after_size, new_size)

unfoldable pub adjust_allocation : ExpHeap → Memory → ℕ → ℕ → ℕ → Run (Memory × ℕ)
adjust_allocation h m rounds address new_size = do
  block ← read_block h m (sub64 address header_size)
  let new_size' = align_up new_size minimum_granularity
  if block.block_size == new_size'
      then ok (m, new_size')
      else if ltb new_size' block.block_size
      then shrink h m rounds address block new_size'
      else grow h m rounds address block new_size'

-- The call of the parent heap, if there is one.
unfoldable pub adjust_parent : Option ExpHeap → Memory → ℕ → ℕ → ℕ → Run Memory
adjust_parent none m rounds address trimmed = ok m
adjust_parent (some parent) m rounds address trimmed = do
  (m1, size) ← adjust_allocation parent m rounds address trimmed
  ok m1

-- The last block, header included, if it ends where the heap does.
unfoldable pub trim : Option ExpHeap → ExpHeap → Memory → ℕ → ℕ → ℕ → Run (ExpHeap × Memory × ℕ × ℕ)
trim parent h m rounds last_block trimmed_size =
    let new_end_address = sub64 h.end_address trimmed_size in
    let trimmed =
      adjust_parent parent (unlink_block m last_block) rounds h.start_address trimmed_size >>= λ m1.
      ok (record h { end_address = new_end_address }, m1, new_end_address, trimmed_size) in
    if add64 last_block trimmed_size == h.end_address then trimmed else ok (h, m, h.end_address, 0)

-- What is trimmed off the end of the heap: an address and a size.
unfoldable pub adjust_heap : Option ExpHeap → ExpHeap → Memory → ℕ → Run (ExpHeap × Memory × ℕ × ℕ)
adjust_heap parent h m rounds =
    let last_block = m.nodes.prev h.free_block_list in
    let trimmed = read_block h m last_block >>= λ block.
    trim parent h m rounds last_block (add64 header_size block.block_size) in
    if Lists.is_empty ℕ_discrete m.nodes h.free_block_list
    then ok (h, m, h.end_address, 0)
    else trimmed
