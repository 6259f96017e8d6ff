-- ===== src/Scheduler/State.antt =====
-- The state of the scheduler: ukern_fiberlocalstorage.h and the members of `UserScheduler` in
-- ukern_scheduler.hpp. Every list is a ring in one store of nodes. A pointer to a fiber is a number,
-- null is 0; a node inside a fiber, or a list's root, is a `Ref`.
use dd_framework.Base.{ℕ, ◌^◌, update, Run, ok, fault, Signed, ℕ_discrete}
use dd_framework.IntrusiveList.{Nodes}
use dd_framework.HandleTable.{HandleTable}
use dd_framework.ObjectAllocator.{Allocator}

pub data FiberState : Type 0 where
  scheduled running exiting waiting suspended : FiberState

-- The class of the object that `waitable_object` points to.
pub data Waitable : Type 0 where
  no_object lock_arbiter key_arbiter wait_address_arbiter : Waitable

-- The lists of `UserScheduler`.
pub data Queue : Type 0 where
  high above_normal normal below_normal low suspended_list wait_list : Queue

pub data Ref : Type 0 where
  root : Queue → Ref
  scheduler_list_node : ℕ → Ref
  wait_list_node : ℕ → Ref
  wait_list_root : ℕ → Ref

pub Queue-discrete : Discrete Queue
Queue-discrete = hlevel

unfoldable pub Ref-discrete : Discrete Ref
unfolding ℕ_discrete
Ref-discrete = hlevel ℕ_discrete

-- `activity_level` is a `u16`: 0 is `ActivityLevel_Suspended`, 1 `ActivityLevel_Schedulable`.
abbrev pub activity_suspended : ℕ
activity_suspended = 0

abbrev pub activity_schedulable : ℕ
activity_schedulable = 1

abbrev pub has_child_waiters_bit : ℕ
has_child_waiters_bit = 2 ^ 30

abbrev pub max_thread_count : ℕ
max_thread_count = 256

pub record Fiber : Type 0 where
  pub priority : Signed
  pub current_core : ℕ
  pub core_mask : ℕ
  pub stack_size : ℕ
  pub user_arg : ℕ
  pub user_function : ℕ
  pub ukern_fiber_handle : ℕ
  pub activity_level : ℕ
  pub wait_tag : ℕ
  pub lock_address : ℕ
  pub wait_address : ℕ
  pub waitable_object : Waitable
  pub timeout : ℕ
  pub last_result : ℕ
  pub fiber_state : FiberState

-- `words` are the 32-bit words of user memory that locks, keys and wait addresses stand in.
pub record Scheduler : Type 0 where
  pub nodes : Nodes Ref
  pub fibers : ℕ → Fiber
  pub words : ℕ → ℕ
  pub core_mask : ℕ
  pub core_count : ℕ
  pub active_cores : ℕ
  pub runnable_fibers : ℕ
  pub handle_table : HandleTable
  pub fiber_allocator : Allocator

abbrev pub set_fiber : Scheduler → ℕ → Fiber → Scheduler
set_fiber s f b = record s { fibers = update s.fibers f b }

abbrev pub set_word : Scheduler → ℕ → ℕ → Scheduler
set_word s a v = record s { words = update s.words a v }

-- `GetParentReference` for the two kinds of list: the root of a list is no node of a fiber.
abbrev pub scheduler_parent : Ref → Run ℕ
scheduler_parent (scheduler_list_node f) = ok f
scheduler_parent (root q) = fault
scheduler_parent (wait_list_node f) = fault
scheduler_parent (wait_list_root f) = fault

abbrev pub wait_parent : Ref → Run ℕ
wait_parent (wait_list_node f) = ok f
wait_parent (root q) = fault
wait_parent (scheduler_list_node f) = fault
wait_parent (wait_list_root f) = fault
