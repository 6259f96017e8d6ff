-- ===== src/Scheduler/Links.antt =====
-- The lists of the scheduler as sequences of fibers: what the nodes of every queue and of every wait
-- list stand for.
pub mod Maps
pub mod Queues
pub mod Leave
pub mod Schedule
pub mod Resume
pub mod Requests
pub mod Wait
pub mod LeaveWait
pub mod Transfer
pub mod Unlock
pub mod Crowded
pub mod Join
use dd_framework.Base.{ℕ, ◌≢◌, List, map}
use dd_framework.IntrusiveList.{Nodes}
use dd_framework.IntrusiveList.Chain.{NotIn}
use dd_framework.IntrusiveList.Ring.{Ring, Alone, AllOut}
use dd_framework.Scheduler.State.{
  Queue, Ref, root, scheduler_list_node, wait_list_node, wait_list_root,
}

abbrev pub Queues : Type 0
Queues = Queue → List ℕ

-- The fibers that wait on each fiber's own list.
abbrev pub Waiters : Type 0
Waiters = ℕ → List ℕ

-- `live` tells which fibers are constructed. A fiber is in one queue at most, and in one wait list at
-- most; a node in no list is linked to itself.
pub record IsLinked (live : ℕ → Type 0) (nodes : Nodes Ref) (queues : Queues) (waiters : Waiters)
    : Type 0 where
  pub queue_ring : (q : Queue) → Ring nodes (root q) (map scheduler_list_node (queues q))
  pub wait_ring : (f : ℕ) → live f → Ring nodes (wait_list_root f) (map wait_list_node (waiters f))
  pub queues_apart : (p q : Queue) → p ≢ q → AllOut (queues p) (queues q)
  pub waits_apart : (f g : ℕ) → f ≢ g → AllOut (waiters f) (waiters g)
  pub queue_alone :
      (f : ℕ) → live f → ((q : Queue) → NotIn f (queues q)) → Alone nodes (scheduler_list_node f)
  pub wait_alone :
      (f : ℕ) → live f → ((g : ℕ) → NotIn f (waiters g)) → Alone nodes (wait_list_node f)
