-- ===== src/ExpHeap/Blocks.antt =====
-- `AddFreeBlock` and `AddUsedBlock` of mem_expheap.hpp.
use dd_framework.Base.{
  ℕ, ◌+◌, ◌-◌, ◌%◌, ◌^◌, Bool, true, false, not, ◌&&◌, List, [], ◌∷◌, ltb, leb, ◌==◌, if◌then◌else◌,
  add64, sub64, ℕ_discrete, Run, ok, ◌>>=◌,
}
use dd_framework.IntrusiveList as Lists
use dd_framework.ExpHeap.State.{
  Block, Memory, ExpHeap, header_size, minimum_granularity, free_magic, alloc_magic_used,
  read_block, write_block, unlink_block, construct_block, push_back_block, free_blocks,
}

-- The loop of `AddFreeBlock`: the blocks before and after, from the ones found so far.
unfoldable pub find_neighbours : ℕ → List ℕ → ℕ → ℕ → ℕ × ℕ
find_neighbours new_start [] prev_block next_block = (prev_block, next_block)
find_neighbours new_start (block ∷ blocks) prev_block next_block =
    if leb new_start block
    then (prev_block, block)
    else find_neighbours new_start blocks block block

-- The memory, and the end of the range.
unfoldable pub coalesce_back : ExpHeap → Memory → ℕ → ℕ → Run (Memory × ℕ)
coalesce_back h m next_block new_end =
    let m1 = unlink_block m next_block in
    let unlinked = read_block h m1 next_block >>= λ block.
    ok (m1, add64 (add64 next_block block.block_size) header_size) in
    if not (next_block == 0) && new_end == next_block then unlinked else ok (m, new_end)

-- The memory, the start of the range and the node to link at.
unfoldable pub coalesce_front : ExpHeap → Memory → ℕ → ℕ → Run (Memory × ℕ × ℕ)
coalesce_front h m prev_block new_start = do
  block ← read_block h m prev_block
  if new_start == add64 (add64 prev_block block.block_size) header_size
      then ok (unlink_block m prev_block, prev_block, m.nodes.prev prev_block)
      else ok (m, new_start, prev_block)

-- The new header, and its two links.
unfoldable pub link_free_block : Memory → ℕ → ℕ → ℕ → Memory
link_free_block m link_node new_block new_size =
    let m1 = construct_block m new_block in
    let m2 = write_block m1 new_block (record (m1.blocks new_block) {
      alloc_magic = free_magic;
      block_size = new_size - header_size;
    }) in
    let n1 = Lists.link_prev ℕ_discrete m2.nodes (m2.nodes.next link_node) new_block in
    record m2 { nodes = Lists.link_next ℕ_discrete n1 link_node new_block }

unfoldable pub add_free_block : ExpHeap → Memory → ℕ → ℕ → ℕ → Run (Memory × Bool)
add_free_block h m rounds start end = do
  blocks ← free_blocks h m rounds
  let (prev_block, next_block) = find_neighbours start blocks 0 0
  (m1, new_end) ← coalesce_back h m next_block end
  (m2, new_start, link_node) ← coalesce_front h m1 prev_block start
  let new_size = sub64 new_end new_start
  if ltb new_size header_size
      then ok (m2, false)
      else ok (link_free_block m2 link_node new_start new_size, true)

-- A free block of a size, pushed onto the free list.
unfoldable pub push_free_block : ExpHeap → Memory → ℕ → ℕ → Memory
push_free_block h m address total_size =
    let m1 = construct_block m address in
    let block : Block = record {
      alloc_magic = free_magic;
      alignment = 0;
      block_size = total_size - header_size;
    } in
    push_back_block (write_block m1 address block) h.free_block_list address

unfoldable pub add_used_block : ExpHeap → Memory → ℕ → ℕ → ℕ → Run Memory
add_used_block h m free_block allocation_address size = do
  let m1 = unlink_block m free_block
  block ← read_block h m1 free_block
  let new_free_address = add64 allocation_address size
  let new_free_end_address = add64 free_block block.block_size
  let new_free_total_size = sub64 new_free_end_address new_free_address
  let orig_start_address = sub64 free_block block.alignment
  let used_start_address = sub64 allocation_address header_size
  let used_alignment = sub64 used_start_address orig_start_address
  let front = ltb (header_size + minimum_granularity) used_alignment
  let m2 = if front then push_free_block h m1 orig_start_address used_alignment else m1
  let back = ltb (header_size + minimum_granularity) new_free_total_size
  let m3 = if back then push_free_block h m2 orig_start_address new_free_total_size else m2
  let used : Block = record {
    alloc_magic = alloc_magic_used;
    alignment = (if front then 0 else used_alignment) % 2 ^ 8;
    block_size = add64 size (if back then 0 else new_free_total_size);
  }
  let m4 = write_block (construct_block m3 used_start_address) used_start_address used
  ok (push_back_block m4 h.allocated_block_list used_start_address)
