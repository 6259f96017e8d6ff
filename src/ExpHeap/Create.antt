-- ===== src/ExpHeap/Create.antt =====
-- The two `TryCreate` of `ExpHeap`, and the constructors that they call.
use dd_framework.Base.{
  ℕ, ◌+◌, Bool, ◌||◌, Option, none, some, ltb, ◌==◌, if◌then◌else◌, Signed, pos, add64, sub64,
  ℕ_discrete, Run, ok, ◌>>=◌,
}
use dd_framework.IntrusiveList as Lists
use dd_framework.ExpHeap.State.{
  Memory, ExpHeap, header_size, minimum_granularity, free_magic, write_block, construct_block,
  push_back_block,
}
use dd_framework.ExpHeap.Allocate.{get_maximum_allocatable_size, try_allocate}

-- What depends on the compiler: `sizeof(ExpHeap)`, where its lists stand in it, and the mode of
-- allocation, which the constructor leaves as the memory holds it.
pub record Layout : Type 0 where
  pub object_size : ℕ
  pub free_offset : ℕ
  pub allocated_offset : ℕ
  pub child_offset : ℕ
  pub mode_held : ℕ → Bool

abbrev pub too_small : Layout → ℕ → Bool
too_small l size = ltb size (l.object_size + header_size + minimum_granularity)

-- The constructors of `Heap` and `ExpHeap`: the heap starts behind its object.
unfoldable pub construct_heap : Layout → ℕ → ℕ → ExpHeap
construct_heap l address size =
    let start_address = add64 address l.object_size in
    record {
      start_address = start_address;
      end_address = add64 start_address size;
      free_block_list = add64 address l.free_offset;
      allocated_block_list = add64 address l.allocated_offset;
      child_list = add64 address l.child_offset;
      best_fit = l.mode_held address;
    }

unfoldable pub construct_lists : ExpHeap → ℕ → Memory → Memory
construct_lists h address m =
    record (construct_block (construct_block m h.free_block_list) h.allocated_block_list) {
      child_nodes =
          Lists.construct ℕ_discrete (Lists.construct ℕ_discrete m.child_nodes address)
            h.child_list;
    }

-- The free block that spans the new heap.
unfoldable pub construct_first_block : Layout → ExpHeap → ℕ → ℕ → Memory → Memory
construct_first_block l h address size m =
    let first_block = add64 address l.object_size in
    let m1 = construct_block m first_block in
    let block = record (m1.blocks first_block) {
      alloc_magic = free_magic;
      block_size = sub64 size (l.object_size + header_size);
    } in
    push_back_block (write_block m1 first_block block) h.free_block_list first_block

unfoldable pub create_in_memory : Layout → Memory → ℕ → ℕ → Memory × ExpHeap
create_in_memory l m address size =
    let h = construct_heap l address size in
    (construct_first_block l h address size (construct_lists h address m), h)

-- `TryCreate` in memory that the caller has.
unfoldable pub try_create_at : Layout → Memory → ℕ → ℕ → Memory × Option ExpHeap
try_create_at l m address size =
    if address == 0 || too_small l size
    then (m, none)
    else let (m1, h) = create_in_memory l m address size in (m1, some h)

-- With memory of the parent: the heap is constructed there, and becomes its last child.
unfoldable pub create_child : Layout → ExpHeap → ℕ → Memory × ℕ → Memory × Option ExpHeap
create_child l parent size (m, address) =
    let (m1, h) = create_in_memory l m address size in
    let child_nodes = Lists.push_back ℕ_discrete m1.child_nodes parent.child_list address in
    if address == 0 then (m, none) else (record m1 { child_nodes = child_nodes }, some h)

unfoldable pub create_of_size :
    Layout → ExpHeap → Memory → ℕ → ℕ → Signed → Run (Memory × Option ExpHeap)
create_of_size l parent m rounds size alignment =
    let created =
      try_allocate parent m rounds size alignment >>= λ a. ok (create_child l parent size a) in
    if too_small l size then ok (m, none) else created

-- `TryCreate` in a parent heap, or else in the heap of the current thread.
unfoldable pub try_create :
    Layout → Option ExpHeap → ExpHeap → Memory → ℕ → ℕ → Signed → Run (Memory × Option ExpHeap)
try_create l parent_heap current m rounds size alignment = do
  let parent : ExpHeap = elim parent_heap [ none ↦ current | some p ↦ p ]
  let maximum = get_maximum_allocatable_size parent m rounds (pos minimum_granularity)
  size' ← if size == 0 then maximum else ok size
  create_of_size l parent m rounds size' alignment
