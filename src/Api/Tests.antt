-- ===== src/Api/Tests.antt =====
-- The calls of a program at concrete states of the scheduler.
use dd_framework.Base.{◌≡◌, refl, [], ◌++◌, ok, arith, pos}
use dd_framework.HandleTable.{get_object_by_handle}
use dd_framework.ResultCode.{
  result_success, result_invalid_arbitration_type, result_invalid_signal_type,
}
use dd_framework.Scheduler.State.{Scheduler, normal, suspended_list, suspended}
use dd_framework.Scheduler.Threads.{returned, get_fiber_by_handle}
use dd_framework.Scheduler.Links.{IsLinked}
use dd_framework.Scheduler.Links.Queues.{enter, replace}
use dd_framework.Scheduler.Links.Schedule.{enter_at, queue_at}
use dd_framework.Scheduler.Tests.{
  blank, no_queues, no_waiters, EveryFiber, one_in, one-IsLinked, holds_one, plain,
}
use dd_framework.TimeSpan.{get_tick}
use dd_framework.Api.{suspend_thread, resume_thread, wait_on_address, wake_by_address}
use dd_framework.Api.Activity.{suspend-resume}

names_one : get_fiber_by_handle (one_in normal) 33023 ≡ ok 1
unfolding get_fiber_by_handle get_object_by_handle
names_one = refl

no_such_arbitration :
    wait_on_address 1 10000000 5 blank 1 64 3 0 (pos 100)
    ≡ ok (blank, returned result_invalid_arbitration_type)
unfolding wait_on_address dd_framework.TimeSpan.get_absolute_time_to_wakeup get_tick
no_such_arbitration = refl

no_such_signal : wake_by_address 1 blank 64 3 0 1 ≡ ok (blank, result_invalid_signal_type)
unfolding wake_by_address
no_such_signal = refl

suspend-resume_example :
    let out = replace (enter no_queues normal 1) normal ([] ++ []) in
    (s' s'' : Scheduler) × (suspend_thread (one_in normal) 33023 ≡ ok (s', result_success))
    × IsLinked EveryFiber s'.nodes (enter out suspended_list 1) no_waiters
    × ((s'.fibers 1).fiber_state ≡ suspended)
    × (resume_thread s' 33023 ≡ ok (s'', result_success))
    × IsLinked EveryFiber s''.nodes
        (enter_at
          (replace (enter out suspended_list 1) suspended_list (out suspended_list ++ []))
          (queue_at plain.priority)
          1)
        no_waiters
    × (s''.fibers 1 ≡ plain)
suspend-resume_example =
    suspend-resume (one_in normal) 33023 1 normal [] [] (one-IsLinked normal) tt (holds_one normal)
      names_one (omega arith) refl refl
