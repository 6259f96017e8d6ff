-- ===== src/Scheduler/UnlockTests.antt =====
-- A lock with waiters at concrete states of the scheduler.
use Prim.Native.Nat.{bit_or}
use dd_framework.Base.{
  ℕ, ◌≡◌, ◌≢◌, refl, [], ◌∷◌, ◌++◌, ok, fault, update, arith, if_pos, if_neg, ℕ_discrete,
}
use dd_framework.ResultCode.{result_success}
use dd_framework.Scheduler.State.{
  Scheduler, Fiber, Queue-discrete, suspended_list, has_child_waiters_bit,
}
use dd_framework.Scheduler.Lists.{push_wait, push_scheduler}
use dd_framework.Scheduler.Locks.{arbitrate_unlock_impl}
use dd_framework.Scheduler.Links.{Waiters, IsLinked}
use dd_framework.Scheduler.Links.Queues.{enter, replace, push-IsLinked}
use dd_framework.Scheduler.Links.Wait.{enter_wait, WaitsNowhere, enter_wait-IsLinked}
use dd_framework.Scheduler.Links.LeaveWait.{replace_wait}
use dd_framework.Scheduler.Links.Join.{lock_wait}
use dd_framework.Scheduler.Links.Schedule.{destination, enter_at}
use dd_framework.Scheduler.Links.Unlock.{woken}
use dd_framework.Scheduler.Links.Crowded.{arbitrate_unlock_impl_lem, arbitrate_unlock_impl-fault}
use dd_framework.Scheduler.Tests.{plain, blank, no_queues, no_waiters, EveryFiber, blank-IsLinked}

-- Every fiber but 1 has asked for the lock at address 8, which is fiber 1's.
abbrev asking : ℕ → Fiber
asking = update (λ f. lock_wait plain 8 5) 1 plain

abbrev base : Scheduler
base = record blank {
  fibers = asking;
  words = update blank.words 8 (bit_or 33023 has_child_waiters_bit);
}

abbrev one_waiter : Waiters
one_waiter = enter_wait no_waiters 1 2

abbrev with_one : Scheduler
with_one = push_scheduler (push_wait base 1 2) suspended_list 2

with_one-IsLinked : IsLinked EveryFiber with_one.nodes (enter no_queues suspended_list 2) one_waiter
with_one-IsLinked =
    push-IsLinked (enter_wait-IsLinked blank-IsLinked 1 2 tt tt (λ g. tt)) suspended_list 2 tt
      (λ q. tt)

arbitrate_unlock_impl_lem_example :
    (s' : Scheduler) × (arbitrate_unlock_impl 1 with_one 1 8 ≡ ok (s', result_success))
    × IsLinked EveryFiber s'.nodes
        (enter_at
          (replace (enter no_queues suspended_list 2) suspended_list ([] ++ []))
          (destination (asking 2))
          2)
        (replace_wait one_waiter 1 [])
    × (s'.words ≡ update with_one.words 8 5)
    × (s'.fibers 2 ≡ woken (asking 2))
    × ((g : ℕ) → g ≢ 2 → s'.fibers g ≡ asking g)
arbitrate_unlock_impl_lem_example =
    arbitrate_unlock_impl_lem 0 with_one 1 8 2 suspended_list [] [] with_one-IsLinked tt tt
      (omega arith) refl (if_pos (ℕ_discrete 1 1) refl (2 ∷ []) [])
      (if_pos (Queue-discrete suspended_list suspended_list) refl (2 ∷ []) []) refl refl

three-WaitsNowhere : WaitsNowhere one_waiter 3
three-WaitsNowhere g = elim (ℕ_discrete g 1) [
  | yes e ↦ rw (if_pos (ℕ_discrete g 1) e) ((omega arith), tt)
  | no n ↦ rw (if_neg (ℕ_discrete g 1) n) tt
]

abbrev with_two : Scheduler
with_two = push_wait (push_wait base 1 2) 1 3

with_two-IsLinked : IsLinked EveryFiber with_two.nodes no_queues (enter_wait one_waiter 1 3)
with_two-IsLinked =
    enter_wait-IsLinked (enter_wait-IsLinked blank-IsLinked 1 2 tt tt (λ g. tt)) 1 3 tt tt
      three-WaitsNowhere

two_wait : enter_wait one_waiter 1 3 1 ≡ 2 ∷ 3 ∷ []
unfolding ℕ_discrete
two_wait = refl

arbitrate_unlock_impl-fault_example : arbitrate_unlock_impl 5 with_two 1 8 ≡ fault
arbitrate_unlock_impl-fault_example =
    arbitrate_unlock_impl-fault 5 with_two 1 8 2 3 [] with_two-IsLinked tt (tt, (tt, tt))
      (omega arith) (omega arith) refl two_wait (omega arith) (omega arith)
