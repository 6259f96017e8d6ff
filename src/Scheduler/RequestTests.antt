-- ===== src/Scheduler/RequestTests.antt =====
-- The requests of threads at concrete states of the scheduler.
use Prim.Native.Nat.{bit_or}
use dd_framework.Base.{◌≡◌, refl, [], ◌∷◌, ok, arith, pos, if_pos, if_neg}
use dd_framework.HandleTable.{get_object_by_handle}
use dd_framework.ResultCode.{result_success}
use dd_framework.Scheduler.State.{
  Scheduler, Queue-discrete, normal, wait_list, set_fiber, set_word, has_child_waiters_bit,
}
use dd_framework.Scheduler.Threads.{get_fiber_by_handle, switched}
use dd_framework.Scheduler.Addresses.{enter_address_wait, set_address_wait}
use dd_framework.Scheduler.Visits.{first_at}
use dd_framework.Scheduler.Links.{Queues, IsLinked}
use dd_framework.Scheduler.Links.Queues.{enter, InNone}
use dd_framework.Scheduler.Links.Join.{queues_joined, waiters_joined, enter_address_wait_lem}
use dd_framework.Scheduler.Tests.{
  blank, no_queues, no_waiters, EveryFiber, one_in, one-IsLinked, holds_one,
}

handle_names_one : get_fiber_by_handle (one_in normal) 33023 ≡ ok 1
unfolding get_fiber_by_handle get_object_by_handle
handle_names_one = refl

-- The word at address 8 names fiber 1 as the owner of a lock with waiters.
abbrev locked : Scheduler
locked = set_word blank 8 (bit_or 33023 has_child_waiters_bit)

owner_of_lock : get_fiber_by_handle locked 33023 ≡ ok 1
unfolding get_fiber_by_handle get_object_by_handle
owner_of_lock = refl

two-InNone : InNone (enter no_queues wait_list 1) 2
two-InNone q = elim (Queue-discrete q wait_list) [
  | yes e ↦ rw (if_pos (Queue-discrete q wait_list) e) ((omega arith), tt)
  | no n ↦ rw (if_neg (Queue-discrete q wait_list) n) tt
]

-- Fiber 1 stands in the wait list for address 64, and fiber 2 joins it.
abbrev in_wait_list : Queues
in_wait_list = enter no_queues wait_list 1

only_one : in_wait_list wait_list ≡ 1 ∷ []
only_one = holds_one wait_list

enter_address_wait_lem_example :
    let b = set_address_wait (blank.fibers 2) 64 (pos 9) in
    let parent = first_at (set_fiber (one_in wait_list) 2 b) 64 (in_wait_list wait_list) in
    (s' : Scheduler) × (enter_address_wait 2 (one_in wait_list) 2 64 (pos 9)
      ≡ ok (s', switched result_success))
    × IsLinked EveryFiber s'.nodes
        (queues_joined in_wait_list parent 2)
        (waiters_joined no_waiters parent 2)
enter_address_wait_lem_example =
    enter_address_wait_lem 2 (one_in wait_list) 2 64 (pos 9) (one-IsLinked wait_list) tt
      (rw only_one (tt, tt)) two-InNone (λ g. tt) (rw only_one (omega arith))
