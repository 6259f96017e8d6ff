-- ===== src/ObjectAllocator.antt =====
-- util_fixedobjectallocator.hpp and util_heapobjectallocator.hpp (libraries/lib_dd/include/dd/util/):
-- allocators of equal objects. A free object's first word links to the next free object. Addresses
-- count objects, so that object `i` of an array at `base` is `base + i`; the null pointer is 0.
pub mod FreeChain
pub mod Stack
pub mod Heap
mod Tests
use dd_framework.Base.{
  ℕ, zero, suc, ◌+◌, ◌-◌, Bool, true, false, ltb, ◌==◌, if◌then◌else◌, ◌&&◌, ◌||◌, update, Run, ok,
  ◌>>◌, require,
}

-- The head of the free list, and the first word of each object.
pub record Allocator : Type 0 where
  pub free_list : ℕ
  pub next : ℕ → ℕ

-- `list_array[i].next = list_array + i + 1`, for the first `n` objects.
unfoldable pub link_loop : ℕ → ℕ → (ℕ → ℕ) → ℕ → ℕ
link_loop base zero next = next
link_loop base (suc i) next = update (link_loop base i next) (base + i) (base + i + 1)

-- `FixedObjectAllocator`: the array is zeroed before the loop.
unfoldable pub fixed_construct : ℕ → ℕ → Allocator
fixed_construct base count = record { free_list = base; next = link_loop base (count - 1) (λ a. 0) }

-- The allocator afterwards, and the object or null. Its constructor writes no link.
unfoldable pub fixed_allocate : Allocator → Allocator × ℕ
fixed_allocate a =
    if a.free_list == 0 then (a, 0) else (record a { free_list = a.next a.free_list }, a.free_list)

-- A failed `DD_ASSERT` is a fault, as in a `DD_DEBUG` build.
unfoldable pub fixed_free : ℕ → ℕ → Allocator → ℕ → Run Allocator
fixed_free base count a object = do
  require (ltb base object && ltb object (base + count))
  ok (record { free_list = object; next = update a.next object a.free_list })

-- `HeapObjectAllocator::Initialize` over the memory at `allocation`, whose words are `next` before.
unfoldable pub heap_initialize : Allocator → ℕ → ℕ → Allocator × Bool
heap_initialize a allocation element_count =
    if element_count == 0 || allocation == 0 then (a, false) else (
      record { free_list = allocation; next = link_loop allocation (element_count - 1) a.next },
      true,
    )

unfoldable pub heap_allocate : Allocator → Allocator × ℕ
heap_allocate a =
    if a.free_list == 0 then (a, 0) else (record a { free_list = a.next a.free_list }, a.free_list)

unfoldable pub heap_free : Allocator → ℕ → Allocator
heap_free a object = record { free_list = object; next = update a.next object a.free_list }
