-- ===== src/HeapManager/Arena.antt =====
-- What the root heap is after `InitializeHeapManager`, and what `new` gets of it.
use dd_framework.Base.{
  ℕ, ◌+◌, ◌^◌, ◌≤◌, ◌<◌, ◌≡◌, refl, Bool, true, false, some, ◌==◌, arith, ok, ◌↔◌, ==_ne,
}
use dd_framework.Alignment.{align_up}
use dd_framework.ExpHeap.State.{
  Memory, ExpHeap, header_size, minimum_granularity, is_address_in_heap,
}
use dd_framework.ExpHeap.Allocate.{fits as fits_in}
use dd_framework.ExpHeap.Create.{Layout, construct_heap, create_in_memory, try_create_at, too_small}
use dd_framework.ExpHeap.Fresh.{IsLayout, create_in_memory_lem}
use dd_framework.HeapManager.{Manager, initialize_heap_manager, is_address_from_any_heap}

-- The arena, and the manager with a root heap in it.
abbrev pub arena_size : ℕ → ℕ → ℕ
arena_size granularity size = align_up size granularity

module _ (l : Layout) (virtual_alloc : ℕ → ℕ) (granularity size : ℕ) where
  abbrev pub arena : ℕ
  arena = virtual_alloc (arena_size granularity size)

  abbrev pub root : ExpHeap
  root = construct_heap l arena (arena_size granularity size)

  abbrev pub initialized : Manager
  initialized = record {
    memory = arena;
    memory_size = arena_size granularity size;
    root_heap = some root;
    is_initialized = true;
  }

module _ (l : Layout) (virtual_alloc : ℕ → ℕ) (granularity : ℕ) (manager : Manager) (m : Memory)
    (size : ℕ) (layout : IsLayout l) (given : 0 < virtual_alloc (align_up size granularity))
    (large : l.object_size + header_size + minimum_granularity ≤ align_up size granularity)
    (fits : virtual_alloc (align_up size granularity) + align_up size granularity + l.object_size
      < 2 ^ 64) where
  initialize-returns :
      initialize_heap_manager l virtual_alloc granularity manager m size
      ≡ ok (
        (initialized l virtual_alloc granularity size),
        (create_in_memory l m
            (arena l virtual_alloc granularity size)
            (arena_size granularity size)).0,
      )
  unfolding initialize_heap_manager try_create_at create_in_memory
  initialize-returns =
      let not_null : (arena l virtual_alloc granularity size) == 0 ≡ false =
        ==_ne _ _ (λ e. absurd (omega arith)) in
      let large_enough : too_small l (arena_size granularity size) ≡ false = ground arith in
      rw (not_null, large_enough) refl

  -- `InitializeHeapManager` returns where the system gives memory that is large enough and lies low
  -- enough in the address space. After it, `IsAddressFromAnyHeap` holds from behind the root heap's
  -- object on, up to the size of that object behind the end of the arena, and nowhere else.
  initialize-range :
      (m' : Memory) × (initialize_heap_manager l virtual_alloc granularity manager m size
        ≡ ok ((initialized l virtual_alloc granularity size), m'))
      × ((address : ℕ)
          → (b : Bool) × (is_address_from_any_heap
                (initialized l virtual_alloc granularity size)
                address
              ≡ ok b)
            × ((b ≡ true) ↔ (
                ((arena l virtual_alloc granularity size) + l.object_size ≤ address)
                × (address
                    < (arena l virtual_alloc granularity size)
                      + (arena_size granularity size)
                      + l.object_size))))
  unfolding is_address_from_any_heap
  initialize-range =
      let facts =
        create_in_memory_lem l m (arena l virtual_alloc granularity size)
          (arena_size granularity size) layout large fits in
      (
        (create_in_memory l m (arena l virtual_alloc granularity size)
            (arena_size granularity size)).0,
        initialize-returns,
        λ address. (
          is_address_in_heap (root l virtual_alloc granularity size) address,
          refl,
          ((λ e. ground (arith, facts.1, facts.2)), λ e. ground (arith, facts.1, facts.2)),
        ),
      )
