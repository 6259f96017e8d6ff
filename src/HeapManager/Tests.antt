-- ===== src/HeapManager/Tests.antt =====
-- An arena of two granules.
use dd_framework.Base.{ℕ, ◌≡◌, refl, true, false, none, ok, fault}
use dd_framework.ExpHeap.State.{Memory}
use dd_framework.ExpHeap.Create.{Layout}
use dd_framework.HeapManager.{Manager, finalize_heap_manager, new_impl, delete_impl}

abbrev layout : Layout
layout = record {
  object_size = 128;
  free_offset = 32;
  allocated_offset = 48;
  child_offset = 64;
  mode_held = λ a. false;
}

abbrev memory : Memory
memory = record {
  nodes = record { prev = λ a. a; next = λ a. a };
  blocks = λ a. record { alloc_magic = 0; alignment = 0; block_size = 0 };
  child_nodes = record { prev = λ a. a; next = λ a. a };
}

abbrev before : Manager
before = record { memory = 0; memory_size = 0; root_heap = none; is_initialized = false }

abbrev arena_at : ℕ → ℕ
arena_at size = 65536

malloc-test : new_impl (λ s a. 4096) before none memory 1 64 8 none ≡ ok (memory, 4096)
unfolding new_impl
malloc-test = refl

delete-test : delete_impl (λ m a. m) before none memory 1 4096 ≡ ok memory
unfolding delete_impl
delete-test = refl

finalize-test : finalize_heap_manager (λ a. true) before ≡ fault
unfolding finalize_heap_manager
finalize-test = refl
