-- ===== src/HeapManager.antt =====
-- libraries/lib_dd/source/mem/mem_heapmanager.cpp, and the functions behind `new` and `delete` of
-- include/dd/mem/mem_new.hpp. The operating system and the C library allocate by a parameter.
pub mod Arena
mod Tests
use dd_framework.Base.{
  ℕ, Bool, true, false, not, Option, none, some, ◌==◌, if◌then◌else◌, Signed, to_s32, Run, ok,
  fault, ◌>>=◌, ◌>>◌, require,
}
use dd_framework.Alignment.{align_up}
use dd_framework.ExpHeap.State.{Memory, ExpHeap, is_address_in_heap}
use dd_framework.ExpHeap.Allocate.{try_allocate, free}
use dd_framework.ExpHeap.Create.{Layout, try_create_at}

-- `HeapManager` and the variables beside it.
pub record Manager : Type 0 where
  pub memory : ℕ
  pub memory_size : ℕ
  pub root_heap : Option ExpHeap
  pub is_initialized : Bool

-- `virtual_alloc` is the address that the system returns for a size.
unfoldable pub initialize_heap_manager :
    Layout → (ℕ → ℕ) → ℕ → Manager → Memory → ℕ → Run (Manager × Memory)
initialize_heap_manager l virtual_alloc allocation_granularity manager m size = do
  let memory_size = align_up size allocation_granularity
  let memory = virtual_alloc memory_size
  require (not (memory == 0))
  let created = try_create_at l m memory memory_size
  let manager' : Manager = record {
    memory = memory;
    memory_size = memory_size;
    root_heap = created.1;
    is_initialized = true;
  }
  ok (manager', created.0)

-- `virtual_free` is whether the system takes the memory back.
unfoldable pub finalize_heap_manager : (ℕ → Bool) → Manager → Run Manager
finalize_heap_manager virtual_free manager = do
  require (elim manager.root_heap [ none ↦ false | some h ↦ true ])
  require (virtual_free manager.memory)
  ok (record manager { memory = 0; memory_size = 0 })

-- The heap of the calling thread, if it is one of the program's.
unfoldable pub get_current_thread_heap : Manager → Option (Option ExpHeap) → Option ExpHeap
get_current_thread_heap manager none = manager.root_heap
get_current_thread_heap manager (some thread_heap) = thread_heap

unfoldable pub is_address_from_any_heap : Manager → ℕ → Run Bool
is_address_from_any_heap manager address = elim manager.root_heap [
  | none ↦ fault
  | some root ↦ ok (is_address_in_heap root address)
]

abbrev pub default_new_alignment : ℕ
default_new_alignment = 8

-- `NewImpl` with a heap, which may be null; `aligned_malloc` is the C library's.
unfoldable pub new_impl :
    (ℕ → ℕ → ℕ)
    → Manager
    → Option (Option ExpHeap)
    → Memory
    → ℕ
    → ℕ
    → ℕ
    → Option ExpHeap
    → Run (Memory × ℕ)
new_impl aligned_malloc manager thread m rounds size alignment heap =
    let chosen : Option ExpHeap = elim heap [
      | none ↦ get_current_thread_heap manager thread
      | some h ↦ some h
    ] in
    if not manager.is_initialized
    then ok (m, aligned_malloc size alignment)
    else elim chosen [ none ↦ ok (m, 0) | some h ↦ try_allocate h m rounds size (to_s32 alignment) ]

-- `DeleteImpl`; `aligned_free` takes the memory back in the C library.
unfoldable pub delete_impl :
    (Memory → ℕ → Memory) → Manager → Option (Option ExpHeap) → Memory → ℕ → ℕ → Run Memory
delete_impl aligned_free manager thread m rounds address =
    let current = get_current_thread_heap manager thread in
    if not manager.is_initialized
    then ok (aligned_free m address)
    else elim current [ none ↦ ok m | some h ↦ free h m rounds address ]
