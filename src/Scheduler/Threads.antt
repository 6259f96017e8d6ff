-- ===== src/Scheduler/Threads.antt =====
-- ukern_scheduler.cpp: the life of a thread, and its priority, core mask and activity. The current
-- fiber is an argument. What an operation does after it switches to the scheduler's fiber is
-- `resume_result`.
use Prim.Native.Nat.{bit_and}
use dd_framework.Base.{
  ℕ, zero, suc, ◌+◌, Bool, true, false, not, ◌||◌, Run, ok, ◌>>=◌, ◌>>◌, require, Option, none,
  some, leb, ◌==◌, if◌then◌else◌, Signed, pos, negsuc,
}
use dd_framework.IntrusiveList
use dd_framework.IntrusiveList.{Nodes}
use dd_framework.HandleTable.{get_object_by_handle, reserve_handle}
use dd_framework.ObjectAllocator.{Allocator, fixed_allocate}
use dd_framework.ResultCode.{
  result_success, result_invalid_thread_function_pointer, result_invalid_stack_size,
  result_invalid_priority, result_invalid_core_id, result_thread_storage_exhaustion,
  result_handle_exhaustion, result_invalid_handle, result_same_priority, result_same_core_mask,
  result_same_activity_level,
}
use dd_framework.Scheduler.State.{
  Scheduler, Fiber, FiberState, Ref, Ref-discrete, scheduler_list_node, wait_list_node,
  wait_list_root, scheduled, running, exiting, waiting, suspended, suspended_list, set_fiber,
  activity_suspended,
}
use dd_framework.Scheduler.Lists.{unlink_scheduler, push_scheduler, add_to_scheduler_unsafe}
use dd_framework.Scheduler.Waits.{is_scheduled, core_bit}

-- How an operation leaves its critical section: it returns a result, or switches to the scheduler
-- with the result that it holds so far.
pub data Outcome : Type 0 where
  returned : ℕ → Outcome
  switched : ℕ → Outcome

-- `if (result == ResultSuccess) { result = current_fiber->last_result; }` once the fiber runs again.
unfoldable pub resume_result : Scheduler → ℕ → ℕ → ℕ
resume_result s current_fiber result =
    if result == result_success then (s.fibers current_fiber).last_result else result

unfoldable pub get_fiber_by_handle : Scheduler → ℕ → Run ℕ
get_fiber_by_handle s handle = get_object_by_handle s.handle_table handle

-- `-2 <= priority && priority <= 2`.
abbrev pub priority_in_range : Signed → Bool
priority_in_range (pos p) = leb p 2
priority_in_range (negsuc n) = leb n 1

-- `priority + WindowsToUKernPriorityOffset`.
abbrev pub offset_priority : Signed → Signed
offset_priority (pos p) = pos (p + 2)
offset_priority (negsuc zero) = pos 1
offset_priority (negsuc (suc zero)) = pos 0
offset_priority (negsuc (suc (suc n))) = negsuc n

abbrev pub signed_eq : Signed → Signed → Bool
signed_eq (pos a) (pos b) = a == b
signed_eq (pos a) (negsuc b) = false
signed_eq (negsuc a) (pos b) = false
signed_eq (negsuc a) (negsuc b) = a == b

-- The nodes that the constructor of `FiberLocalStorage` links to themselves.
abbrev pub construct_fiber : Nodes Ref → ℕ → Nodes Ref
construct_fiber nodes f =
    IntrusiveList.construct Ref-discrete
      (IntrusiveList.construct Ref-discrete
        (IntrusiveList.construct Ref-discrete nodes (scheduler_list_node f)) (wait_list_node f))
      (wait_list_root f)

pub record CreateThread : Type 0 where
  pub thread_func : ℕ
  pub arg : ℕ
  pub stack_size : ℕ
  pub priority : Signed
  pub core_id : ℕ

abbrev pub new_fiber : Fiber → CreateThread → ℕ → Fiber
new_fiber b c handle = record b {
  ukern_fiber_handle = handle;
  priority = offset_priority c.priority;
  stack_size = c.stack_size;
  core_mask = core_bit c.core_id;
  user_arg = c.arg;
  user_function = c.thread_func;
  fiber_state = suspended;
  activity_level = activity_suspended;
}

-- With the allocator as `Allocate` leaves it and the storage that it returns. `created` says whether
-- `CreateFiber` of the system succeeds. The storage's other fields are what its memory held.
abbrev pub create_in_storage :
    Scheduler → CreateThread → Bool → Allocator × ℕ → Run (Scheduler × ℕ × Option ℕ)
create_in_storage s c created allocated =
    let fiber_local = allocated.1 in
    if fiber_local == 0 then ok (s, result_thread_storage_exhaustion, none) else do
      let s1 = record s {
        fiber_allocator = allocated.0;
        nodes = construct_fiber s.nodes fiber_local;
      }
      (table, reserved) ← reserve_handle s1.handle_table fiber_local
      elim reserved [
        | none ↦ ok (s1, result_handle_exhaustion, none)
        | some handle ↦ do
          let s2 = record (set_fiber s1 fiber_local (new_fiber (s1.fibers fiber_local) c handle)) {
            handle_table = table;
          }
          require created
          ok (push_scheduler s2 suspended_list fiber_local, result_success, some handle)
      ]

-- From the lock on.
unfoldable pub create_thread_locked :
    Scheduler → CreateThread → Bool → Run (Scheduler × ℕ × Option ℕ)
create_thread_locked s c created = create_in_storage s c created (fixed_allocate s.fiber_allocator)

unfoldable pub create_thread_impl : Scheduler → CreateThread → Bool → Run (Scheduler × ℕ × Option ℕ)
unfolding create_thread_locked
create_thread_impl s c created =
    if c.thread_func == 0
    then ok (s, result_invalid_thread_function_pointer, none)
    else if c.stack_size == 0
    then ok (s, result_invalid_stack_size, none)
    else if not (priority_in_range c.priority)
    then ok (s, result_invalid_priority, none)
    else if bit_and (core_bit c.core_id) s.core_mask == 0
    then ok (s, result_invalid_core_id, none)
    else create_thread_locked s c created

unfoldable pub exit_fiber_impl : Scheduler → ℕ → Scheduler
exit_fiber_impl s current_fiber =
    set_fiber s current_fiber (record (s.fibers current_fiber) { fiber_state = exiting })

unfoldable pub sleep_thread_impl : Scheduler → ℕ → ℕ → Scheduler
sleep_thread_impl s current_fiber absolute_timeout =
    if absolute_timeout == 0
    then s
    else set_fiber s current_fiber (record (s.fibers current_fiber) { timeout = absolute_timeout })

-- One round of `ExitThreadImpl`: whether it goes on sleeping.
unfoldable pub exit_thread_round : Scheduler → ℕ → ℕ → Run (Scheduler × Bool)
unfolding sleep_thread_impl get_fiber_by_handle
exit_thread_round s current_fiber handle = do
  exit_fiber ← get_fiber_by_handle s handle
  ok (if exit_fiber == 0 then (s, false) else (sleep_thread_impl s current_fiber 0, true))

-- "Reschedule if necessary".
abbrev pub reschedule : Scheduler → ℕ → Scheduler
reschedule s f = add_to_scheduler_unsafe (unlink_scheduler s f) f

unfoldable pub set_priority_impl : Scheduler → ℕ → Signed → Run (Scheduler × ℕ)
unfolding get_fiber_by_handle
set_priority_impl s handle priority =
    if priority_in_range priority then ok (s, result_invalid_priority) else do
      f ← get_fiber_by_handle s handle
      if f == 0
          then ok (s, result_invalid_handle)
          else if signed_eq (s.fibers f).priority priority
          then ok (s, result_same_priority)
          else (let s1 = set_fiber s f (record (s.fibers f) { priority = priority }) in
              ok (
                if is_scheduled (s.fibers f).fiber_state then reschedule s1 f else s1,
                result_success,
              ))

unfoldable pub set_core_mask_impl : Scheduler → ℕ → ℕ → Run (Scheduler × ℕ)
unfolding get_fiber_by_handle
set_core_mask_impl s handle core_mask = do
  f ← get_fiber_by_handle s handle
  if f == 0
      then ok (s, result_invalid_handle)
      else if (s.fibers f).core_mask == core_mask
      then ok (s, result_same_core_mask)
      else (let s1 = set_fiber s f (record (s.fibers f) { core_mask = core_mask }) in
          ok
            (if is_scheduled (s.fibers f).fiber_state then reschedule s1 f else s1, result_success))

abbrev pub is_suspended : FiberState → Bool
is_suspended suspended = true
is_suspended scheduled = false
is_suspended running = false
is_suspended exiting = false
is_suspended waiting = false

unfoldable pub set_activity_impl : Scheduler → ℕ → ℕ → Run (Scheduler × ℕ)
unfolding get_fiber_by_handle
set_activity_impl s handle activity_level = do
  f ← get_fiber_by_handle s handle
  if f == 0
      then ok (s, result_invalid_handle)
      else if (s.fibers f).activity_level == activity_level
      then ok (s, result_same_activity_level)
      else (let s1 = set_fiber s f (record (s.fibers f) { activity_level = activity_level }) in
          let state = (s.fibers f).fiber_state in
          ok (
            if is_scheduled state || is_suspended state then reschedule s1 f else s1,
            result_success,
          ))
