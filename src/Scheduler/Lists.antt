-- ===== src/Scheduler/Lists.antt =====
-- How the scheduler moves fibers between its lists: the list calls and `AddToSchedulerUnsafe` of
-- ukern_scheduler.hpp.
use dd_framework.Base.{
  ℕ, zero, suc, ◌+◌, ◌%◌, ◌^◌, Bool, Option, none, some, Run, ok, out_of_fuel, ◌>>=◌, Signed, pos,
  negsuc, ◌==◌, if◌then◌else◌,
}
use dd_framework.IntrusiveList
use dd_framework.Scheduler.State.{
  Scheduler, Queue, Ref, Ref-discrete, root, scheduler_list_node, wait_list_node, wait_list_root,
  high, above_normal, normal, below_normal, low, suspended_list, activity_suspended, set_fiber,
  wait_parent, scheduled, suspended,
}

-- `f->scheduler_list_node.Unlink()`.
abbrev pub unlink_scheduler : Scheduler → ℕ → Scheduler
unlink_scheduler s f = record s {
  nodes = IntrusiveList.unlink Ref-discrete s.nodes (scheduler_list_node f);
}

-- `list.PushBack(*f)` for a list of the scheduler.
abbrev pub push_scheduler : Scheduler → Queue → ℕ → Scheduler
push_scheduler s q f = record s {
  nodes = IntrusiveList.push_back Ref-discrete s.nodes (root q) (scheduler_list_node f);
}

-- `f->wait_list_node.Unlink()`.
abbrev pub unlink_wait : Scheduler → ℕ → Scheduler
unlink_wait s f = record s { nodes = IntrusiveList.unlink Ref-discrete s.nodes (wait_list_node f) }

-- `owner->wait_list.PushBack(*f)`.
abbrev pub push_wait : Scheduler → ℕ → ℕ → Scheduler
push_wait s owner f = record s {
  nodes = IntrusiveList.push_back Ref-discrete s.nodes (wait_list_root owner) (wait_list_node f);
}

abbrev pub wait_list_empty : Scheduler → ℕ → Bool
wait_list_empty s f = IntrusiveList.is_empty Ref-discrete s.nodes (wait_list_root f)

-- `THREAD_PRIORITY_*` are -2 to 2, and `WindowsToUKernPriorityOffset` is 2.
abbrev pub priority_queue : Signed → Option Queue
priority_queue (pos p) =
    if p == 2
    then some normal
    else if p == 3
    then some above_normal
    else if p == 1
    then some below_normal
    else if p == 4
    then some high
    else if p == 0
    then some low
    else none
priority_queue (negsuc n) = none

abbrev pub enqueue : Scheduler → Option Queue → ℕ → Scheduler
enqueue s none f = s
enqueue s (some q) f = push_scheduler s q f

-- The wake-up of a sleeping core at the end changes nothing here.
unfoldable pub add_to_scheduler_unsafe : Scheduler → ℕ → Scheduler
add_to_scheduler_unsafe s f =
    if (s.fibers f).activity_level == activity_suspended
    then push_scheduler (set_fiber s f (record (s.fibers f) { fiber_state = suspended }))
        suspended_list f
    else record (set_fiber (enqueue s (priority_queue (s.fibers f).priority) f) f
        (record (s.fibers f) { fiber_state = scheduled })) {
          runnable_fibers = (s.runnable_fibers + 1) % 2 ^ 32;
        }

-- `for (waiting_fiber : list) { unlink its wait node; target->wait_list.PushBack(waiting_fiber); }`
-- from the iterator `it` to `last`, for `n` rounds at most.
unfoldable pub transfer_loop : ℕ → Scheduler → Ref → Ref → ℕ → Run Scheduler
transfer_loop zero s it last target = out_of_fuel
transfer_loop (suc n) s it last target = elim (Ref-discrete it last) [
  | yes _ ↦ ok s
  | no _ ↦ do
    f ← wait_parent (IntrusiveList.deref s.nodes it)
    let s' = push_wait (unlink_wait s f) target f
    transfer_loop n s' (IntrusiveList.advance s'.nodes it) last target
]

-- The same over the whole list of `from`.
unfoldable pub transfer_wait_list : ℕ → Scheduler → ℕ → ℕ → Run Scheduler
unfolding transfer_loop
transfer_wait_list n s from target =
    transfer_loop n s (IntrusiveList.begin s.nodes (wait_list_root from))
      (IntrusiveList.end s.nodes (wait_list_root from)) target

-- `std::addressof(f->wait_list.PopFront())`.
unfoldable pub pop_waiter : Scheduler → ℕ → Run (Scheduler × ℕ)
pop_waiter s f = do
  let popped = IntrusiveList.pop_front Ref-discrete s.nodes (wait_list_root f)
  w ← wait_parent popped.1
  ok (record s { nodes = popped.0 }, w)
