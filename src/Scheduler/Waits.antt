-- ===== src/Scheduler/Waits.antt =====
-- ukern_waitableobject.hpp and ukern_fiberlocalstorage.cpp: how a wait ends. `n` bounds the rounds of
-- each loop. A failed `DD_ASSERT` is a fault, as in a `DD_DEBUG` build.
use Prim.Native.Nat.{bit_and, bit_or}
use dd_framework.Base.{
  ℕ, ◌-◌, ◌^◌, Bool, true, false, not, ◌&&◌, Run, ok, fault, ◌>>=◌, ◌>>◌, require, ltb, ◌==◌,
  if◌then◌else◌,
}
use dd_framework.IntrusiveList
use dd_framework.HandleTable.{get_object_by_handle}
use dd_framework.ResultCode.{result_success, result_timeout}
use dd_framework.Scheduler.State.{
  Scheduler, Fiber, FiberState, Waitable, Ref-discrete, wait_list_node, no_object, lock_arbiter,
  key_arbiter, wait_address_arbiter, scheduled, suspended_list, set_fiber, set_word,
  has_child_waiters_bit, running, exiting, waiting, suspended,
}
use dd_framework.Scheduler.Lists.{
  unlink_scheduler, push_scheduler, unlink_wait, push_wait, wait_list_empty,
  add_to_scheduler_unsafe, transfer_wait_list, pop_waiter,
}

-- Reads and writes through a pointer to user memory.
abbrev pub load : Scheduler → ℕ → Run ℕ
load s a = if a == 0 then fault else ok (s.words a)

abbrev pub store : Scheduler → ℕ → ℕ → Run Scheduler
store s a v = if a == 0 then fault else ok (set_word s a v)

-- `v & ~HasChildWaitersBit`.
abbrev pub clear_waiters_bit : ℕ → ℕ
clear_waiters_bit v = bit_and v (2 ^ 32 - 1 - has_child_waiters_bit)

unfoldable pub end_fiber_wait_impl : Scheduler → ℕ → ℕ → Scheduler
end_fiber_wait_impl s wait_fiber wait_result =
    add_to_scheduler_unsafe
      (set_fiber (unlink_scheduler s wait_fiber) wait_fiber
        (record (s.fibers wait_fiber) { fiber_state = scheduled; last_result = wait_result }))
      wait_fiber

-- `EndWait`, dispatched on the fiber's object; all classes override it alike.
unfoldable pub end_wait : Scheduler → ℕ → ℕ → Run Scheduler
end_wait s f result = elim (s.fibers f).waitable_object [
  | no_object ↦ fault
  | lock_arbiter ↦ ok (end_fiber_wait_impl s f result)
  | key_arbiter ↦ ok (end_fiber_wait_impl s f result)
  | wait_address_arbiter ↦ ok (end_fiber_wait_impl s f result)
]

-- `FiberLocalStorage::ReleaseLockWaitListUnsafe`.
unfoldable pub release_lock_wait_list_unsafe : ℕ → Scheduler → ℕ → Run Scheduler
release_lock_wait_list_unsafe n s f = do
  require (not (wait_list_empty s f))
  (s1, next_owner) ← pop_waiter s f
  let b = s1.fibers next_owner
  s2 ←
      store s1 b.lock_address
        (if wait_list_empty s1 f then b.wait_tag else bit_or b.wait_tag has_child_waiters_bit)
  s3 ←
      transfer_wait_list n (set_fiber s2 next_owner (record b { lock_address = 0; wait_tag = 0 })) f
        next_owner
  s4 ← end_wait s3 next_owner result_success
  ok (set_fiber s4 next_owner (record (s4.fibers next_owner) { waitable_object = no_object }))

-- The end of `KeyArbiter::CancelWait`, from "Try to take the lock back".
unfoldable pub retake_lock : Scheduler → ℕ → ℕ → Run Scheduler
retake_lock s f result = do
  let b = s.fibers f
  prev_tag ← load s b.lock_address
  s1 ←
      store s b.lock_address
        (if prev_tag == 0 then b.wait_tag else bit_or b.wait_tag has_child_waiters_bit)
  if prev_tag == 0 then ok (end_fiber_wait_impl s1 f result) else do
    lock_fiber ← get_object_by_handle s1.handle_table (clear_waiters_bit prev_tag)
    require (not (lock_fiber == 0))
    ok (
        push_scheduler (unlink_scheduler (push_wait s1 lock_fiber f) lock_fiber) suspended_list
          lock_fiber)

-- `KeyArbiter::CancelWait`.
unfoldable pub cancel_key_wait : ℕ → Scheduler → ℕ → ℕ → Run Scheduler
cancel_key_wait n s f result =
    if not (wait_list_empty s f)
    then (do
      (s1, next_cv_parent) ← pop_waiter s f
      s2 ← transfer_wait_list n s1 f next_cv_parent
      retake_lock s2 f result)
    else if IntrusiveList.is_linked Ref-discrete s.nodes (wait_list_node f)
    then retake_lock (unlink_wait s f) f result
    else ok (end_fiber_wait_impl s f result)

-- `CancelWait`, dispatched on the fiber's object.
unfoldable pub cancel_wait : ℕ → Scheduler → ℕ → ℕ → Run Scheduler
cancel_wait n s f result = elim (s.fibers f).waitable_object [
  | no_object ↦ fault
  | lock_arbiter ↦ fault
  | key_arbiter ↦ cancel_key_wait n s f result
  | wait_address_arbiter ↦ ok (end_fiber_wait_impl s f result)
]

-- `1 << core_number` as an `int`, converted to 64 bits, for the core numbers below 32.
abbrev pub core_bit : ℕ → ℕ
core_bit core_number = if core_number == 31 then 2 ^ 64 - 2 ^ 31 else 2 ^ core_number

abbrev pub on_core : Fiber → ℕ → Bool
on_core b core_number = not (bit_and b.core_mask (core_bit core_number) == 0)

abbrev pub is_scheduled : FiberState → Bool
is_scheduled scheduled = true
is_scheduled running = false
is_scheduled exiting = false
is_scheduled waiting = false
is_scheduled suspended = false

abbrev pub has_object : Waitable → Bool
has_object no_object = false
has_object lock_arbiter = true
has_object key_arbiter = true
has_object wait_address_arbiter = true

-- `FiberLocalStorage::IsSchedulable`, with what it does to the scheduler.
unfoldable pub is_schedulable : ℕ → Scheduler → ℕ → ℕ → ℕ → Run (Scheduler × Bool)
is_schedulable n s f core_number time =
    let b = s.fibers f in
    if not (is_scheduled b.fiber_state)
    then ok (s, false)
    else if not (on_core b core_number)
    then ok (s, false)
    else if has_object b.waitable_object && ltb b.timeout time
    then (cancel_wait n s f result_timeout >>= λ s'. ok (s', true))
    else if ltb b.timeout time
    then ok (s, true)
    else ok (s, false)
