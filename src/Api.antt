-- ===== src/Api.antt =====
-- source/ukern/ukern_threadapi.cpp and ukern_synchronizationapi.cpp: the calls that a program makes of
-- the scheduler. `current` is the fiber that calls; the clock is `frequency` and `now`.
pub mod Activity
mod Tests
use dd_framework.Base.{
  to_u64, ℕ, Bool, true, false, Run, ok, ◌>>=◌, ◌==◌, if◌then◌else◌, Signed, pos, ltb, ◌-◌, ◌^◌,
  negsuc, Option,
}
use dd_framework.ResultCode.{result_invalid_arbitration_type, result_invalid_signal_type}
use dd_framework.Scheduler.State.{Scheduler, activity_suspended, activity_schedulable}
use dd_framework.Scheduler.Threads.{
  Outcome, returned, CreateThread, create_thread_impl, exit_thread_round, set_priority_impl,
  set_core_mask_impl, set_activity_impl, sleep_thread_impl,
}
use dd_framework.Scheduler.Locks.{
  arbitrate_lock_impl, arbitrate_unlock_impl, wait_key_impl, signal_key_impl,
}
use dd_framework.Scheduler.Addresses.{
  wait_for_address_if_equal_impl, wait_for_address_if_less_than_impl, wake_by_address_impl,
  wake_by_address_increment_equal_impl, wake_by_address_modify_less_than_impl,
}
use dd_framework.TimeSpan.{get_absolute_time_to_wakeup}

-- The conversion of a `u32` to an `s32`.
abbrev pub to_s32 : ℕ → Signed
to_s32 n = if ltb n (2 ^ 31) then pos n else negsuc (2 ^ 32 - 1 - n)

-- `arg` and the other fields as they are; `priority` is a `u32`.
unfoldable pub create_thread : Scheduler → ℕ → ℕ → ℕ → ℕ → ℕ → Bool → Run (Scheduler × ℕ × Option ℕ)
create_thread s thread_func arg stack_size priority core_id created =
    create_thread_impl s
      (record {
        thread_func = thread_func;
        arg = arg;
        stack_size = stack_size;
        priority = to_s32 priority;
        core_id = core_id;
      })
      created

-- One round of `ExitThread`.
abbrev pub exit_thread : Scheduler → ℕ → ℕ → Run (Scheduler × Bool)
exit_thread s current handle = exit_thread_round s current handle

unfoldable pub start_thread : Scheduler → ℕ → Run (Scheduler × ℕ)
start_thread s handle = set_activity_impl s handle activity_schedulable

unfoldable pub resume_thread : Scheduler → ℕ → Run (Scheduler × ℕ)
resume_thread s handle = set_activity_impl s handle activity_schedulable

unfoldable pub suspend_thread : Scheduler → ℕ → Run (Scheduler × ℕ)
suspend_thread s handle = set_activity_impl s handle activity_suspended

unfoldable pub set_thread_priority : Scheduler → ℕ → ℕ → Run (Scheduler × ℕ)
set_thread_priority s handle priority = set_priority_impl s handle (to_s32 priority)

unfoldable pub set_thread_core_mask : Scheduler → ℕ → ℕ → Run (Scheduler × ℕ)
set_thread_core_mask s handle core_mask = set_core_mask_impl s handle core_mask

unfoldable pub sleep : ℕ → ℕ → Scheduler → ℕ → Signed → Run Scheduler
sleep frequency now s current timeout_span = do
  absolute_timeout ← get_absolute_time_to_wakeup frequency now timeout_span
  ok (sleep_thread_impl s current (to_u64 absolute_timeout))

unfoldable pub yield_thread : Scheduler → ℕ → Scheduler
yield_thread s current = sleep_thread_impl s current 0

unfoldable pub arbitrate_lock : Scheduler → ℕ → ℕ → ℕ → ℕ → Run (Scheduler × Outcome)
arbitrate_lock s current handle address tag = arbitrate_lock_impl s current handle address tag

unfoldable pub arbitrate_unlock : ℕ → Scheduler → ℕ → ℕ → Run (Scheduler × ℕ)
arbitrate_unlock n s current address = arbitrate_unlock_impl n s current address

unfoldable pub wait_key : ℕ → ℕ → ℕ → Scheduler → ℕ → ℕ → ℕ → ℕ → Signed → Run (Scheduler × Outcome)
wait_key n frequency now s current address cv_key tag timeout_ns = do
  absolute_timeout ← get_absolute_time_to_wakeup frequency now timeout_ns
  wait_key_impl n s current address cv_key tag (to_u64 absolute_timeout)

unfoldable pub signal_key : ℕ → Scheduler → ℕ → ℕ → Run (Scheduler × ℕ)
signal_key n s cv_key count = signal_key_impl n s cv_key count

-- `ArbitrationType` and `SignalType`.
abbrev pub wait_if_less_than : ℕ
wait_if_less_than = 0

abbrev pub decrement_wait_if_less_than : ℕ
decrement_wait_if_less_than = 1

abbrev pub wait_if_equal : ℕ
wait_if_equal = 2

abbrev pub signal_only : ℕ
signal_only = 0

abbrev pub signal_and_increment_if_equal : ℕ
signal_and_increment_if_equal = 1

abbrev pub signal_and_modify_by_waiter_count_if_equal : ℕ
signal_and_modify_by_waiter_count_if_equal = 2

-- The tests of the arbitration type, with the timeout.
abbrev pub wait_by_type : ℕ → Scheduler → ℕ → ℕ → ℕ → ℕ → Signed → Run (Scheduler × Outcome)
wait_by_type n s current address arbitration_type value absolute_timeout =
    if arbitration_type == wait_if_equal
    then wait_for_address_if_equal_impl n s current address value absolute_timeout
    else if arbitration_type == decrement_wait_if_less_than
    then wait_for_address_if_less_than_impl n s current address value absolute_timeout true
    else if arbitration_type == wait_if_less_than
    then wait_for_address_if_less_than_impl n s current address value absolute_timeout false
    else ok (s, returned result_invalid_arbitration_type)

unfoldable pub wait_on_address :
    ℕ → ℕ → ℕ → Scheduler → ℕ → ℕ → ℕ → ℕ → Signed → Run (Scheduler × Outcome)
wait_on_address n frequency now s current address arbitration_type value timeout_ns = do
  absolute_timeout ← get_absolute_time_to_wakeup frequency now timeout_ns
  wait_by_type n s current address arbitration_type value absolute_timeout

unfoldable pub wake_by_address : ℕ → Scheduler → ℕ → ℕ → ℕ → ℕ → Run (Scheduler × ℕ)
wake_by_address n s address signal_type value count =
    if signal_type == signal_only
    then wake_by_address_impl n s address count
    else if signal_type == signal_and_increment_if_equal
    then wake_by_address_increment_equal_impl n s address value count
    else if signal_type == signal_and_modify_by_waiter_count_if_equal
    then wake_by_address_modify_less_than_impl n s address value count
    else ok (s, result_invalid_signal_type)
