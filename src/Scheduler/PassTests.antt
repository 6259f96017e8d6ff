-- ===== src/Scheduler/PassTests.antt =====
-- The loops of the scheduler at concrete states.
use dd_framework.Base.{ℕ, ◌≡◌, ◌≢◌, ◌<◌, refl, subst, List, [], ◌∷◌, map, some, ok, arith, if_neg}
use dd_framework.IntrusiveList.{push_back}
use dd_framework.IntrusiveList.Ring.{Ring, length}
use dd_framework.IntrusiveList.Moves.{push_back-Ring}
use dd_framework.Scheduler.State.{
  Scheduler, Queue, Ref-discrete, Queue-discrete, root, scheduler_list_node, wait_list_node,
  wait_list_root, high, above_normal, normal, below_normal, low, suspended_list, wait_list, running,
  waiting, set_fiber,
}
use dd_framework.Scheduler.Lists.{unlink_scheduler}
use dd_framework.Scheduler.Main.{pick, scheduler_pass, dispatches}
use dd_framework.Scheduler.Pick.{Ready, NoObjects, pick-first_due}
use dd_framework.Scheduler.Pass.{scheduler_pass-dispatches}
use dd_framework.Scheduler.Tests.{plain, blank, apart_nodes, one_in, one-IsLinked, blank-IsLinked}

one-Ring : (q : Queue) → Ring (one_in q).nodes (root q) (scheduler_list_node 1 ∷ [])
one-Ring q =
    push_back-Ring Ref-discrete apart_nodes (root q) (scheduler_list_node 1) []
      (blank-IsLinked.queue_ring q) tt (λ h. cc) refl

-- Fiber 1 stands in the wait list.
abbrev sleepy : Scheduler
sleepy = record (one_in wait_list) { fibers = λ f. record plain { fiber_state = waiting } }

-- Fiber 2 waits on the list of fiber 1.
abbrev joined : Scheduler
joined = record blank {
  nodes = push_back Ref-discrete apart_nodes (wait_list_root 1) (wait_list_node 2);
}

-- Fiber 1 is in the queue of the normal priority and no other fiber in any.
abbrev only_normal : Queue → List ℕ
only_normal high = []
only_normal above_normal = []
only_normal normal = 1 ∷ []
only_normal below_normal = []
only_normal low = []
only_normal suspended_list = []
only_normal wait_list = []

abbrev busy : Scheduler
busy = one_in normal

other-Ring : (q : Queue) → q ≢ normal → Ring busy.nodes (root q) []
other-Ring q ne =
    subst (λ xs. Ring busy.nodes (root q) (map scheduler_list_node xs))
      (if_neg (Queue-discrete q normal) ne (1 ∷ []) []) ((one-IsLinked normal).queue_ring q)

busy-Ready : Ready 2 busy only_normal
busy-Ready = record { ring = ring; rounds = rounds; no_objects = no_objects; waiters = tt }
  where
    ring : (q : Queue) → Ring busy.nodes (root q) (map scheduler_list_node (only_normal q))
    ring high = other-Ring high (λ h. cc)
    ring above_normal = other-Ring above_normal (λ h. cc)
    ring normal = one-Ring normal
    ring below_normal = other-Ring below_normal (λ h. cc)
    ring low = other-Ring low (λ h. cc)
    ring suspended_list = other-Ring suspended_list (λ h. cc)
    ring wait_list = other-Ring wait_list (λ h. cc)

    rounds : (q : Queue) → length (only_normal q) < 2
    rounds high = omega arith
    rounds above_normal = omega arith
    rounds normal = omega arith
    rounds below_normal = omega arith
    rounds low = omega arith
    rounds suspended_list = omega arith
    rounds wait_list = omega arith

    no_objects :
        (q : Queue) → q ≢ wait_list → q ≢ suspended_list → NoObjects busy.fibers (only_normal q)
    no_objects high n a = tt
    no_objects above_normal n a = tt
    no_objects normal n a = (refl, tt)
    no_objects below_normal n a = tt
    no_objects low n a = tt
    no_objects suspended_list n a = tt
    no_objects wait_list n a = tt

pick-first_due_example : pick 2 busy 0 10 ≡ ok (busy, some 1)
pick-first_due_example = pick-first_due 2 busy only_normal busy-Ready 0 10

scheduler_pass-dispatches_example :
    scheduler_pass 2 busy 0 10
    ≡ ok (
      unlink_scheduler
          (set_fiber busy 1 (record (busy.fibers 1) { fiber_state = running; current_core = 0 }))
          1,
      dispatches 1,
    )
scheduler_pass-dispatches_example =
    scheduler_pass-dispatches 2 busy only_normal busy-Ready 0 10 1 refl (omega arith)
