-- ===== src/Scheduler/Create.antt =====
-- `CreateThreadImpl` of ukern_scheduler.cpp on the handle table and the storage of fibers.
use Prim.Native.Nat.{bit_and}
use dd_framework.Base.{◌≤◌, ◌≡◌, ◌≢◌, refl, ap, ◌∙◌, Bool, true, none, ok, ==_ne}
use dd_framework.HandleTable.{max_handles}
use dd_framework.HandleTable.Lookup.{reserve_handle_full}
use dd_framework.IntrusiveList.Ring.{Ring}
use dd_framework.ObjectAllocator.{Allocator, fixed_allocate}
use dd_framework.ResultCode.{result_handle_exhaustion}
use dd_framework.Scheduler.State.{Scheduler}
use dd_framework.Scheduler.Threads.{
  CreateThread, create_in_storage, create_thread_locked, create_thread_impl, priority_in_range,
  construct_fiber,
}
use dd_framework.Scheduler.Waits.{core_bit}

-- The arguments pass the tests of `CreateThreadImpl`.
pub record IsAccepted (s : Scheduler) (c : CreateThread) : Type 0 where
  pub has_function : c.thread_func ≢ 0
  pub has_stack : c.stack_size ≢ 0
  pub priority_ok : priority_in_range c.priority ≡ true
  pub core_ok : bit_and (core_bit c.core_id) s.core_mask ≢ 0

accepted :
    (s : Scheduler) (c : CreateThread) (created : Bool)
    → IsAccepted s c
    → create_thread_impl s c created ≡ create_thread_locked s c created
unfolding create_thread_impl
accepted s c created a =
    rw
      (
        ==_ne c.thread_func 0 a.has_function,
        ==_ne c.stack_size 0 a.has_stack,
        a.priority_ok,
        ==_ne (bit_and (core_bit c.core_id) s.core_mask) 0 a.core_ok,
      )
      refl

allocated :
    (a : Allocator)
    → a.free_list ≢ 0
    → fixed_allocate a ≡ (record a { free_list = a.next a.free_list }, a.free_list)
unfolding fixed_allocate
allocated a nz = rw (==_ne a.free_list 0 nz) refl

-- After the storage is taken and constructed.
abbrev with_storage : Scheduler → Scheduler
with_storage s =
    let f = s.fiber_allocator.free_list in
    record s {
      fiber_allocator = record s.fiber_allocator { free_list = s.fiber_allocator.next f };
      nodes = construct_fiber s.nodes f;
    }

-- With accepted arguments and storage but no handle left, the call fails and leaves the handle
-- table as it was, and the storage that it took is not free any more.
create_thread_impl_exhausted :
    (s : Scheduler) (c : CreateThread) (created : Bool)
    → IsAccepted s c
    → s.fiber_allocator.free_list ≢ 0
    → max_handles ≤ s.handle_table.active_handles
    → (s' : Scheduler) × (create_thread_impl s c created ≡ ok (s', result_handle_exhaustion, none))
      × (s'.handle_table ≡ s.handle_table)
      × (s'.fiber_allocator.free_list ≡ s.fiber_allocator.next s.fiber_allocator.free_list)
unfolding create_thread_locked
create_thread_impl_exhausted s c created a nz full = (
  with_storage s,
  accepted s c created a
      ∙ ap (create_in_storage s c created) (allocated s.fiber_allocator nz)
      ∙ rw
          (
            ==_ne s.fiber_allocator.free_list 0 nz,
            reserve_handle_full s.handle_table s.fiber_allocator.free_list full,
          )
          refl,
  refl,
  refl,
)
