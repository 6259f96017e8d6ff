-- ===== src/Scheduler/Links/Requests.antt =====
-- `SetPriorityImpl`, `SetCoreMaskImpl` and `SetActivityImpl` of ukern_scheduler.cpp on the scheduler's
-- lists as sequences of fibers.
use dd_framework.Base.{ℕ, ◌≡◌, ◌≢◌, refl, List, ◌∷◌, ◌++◌, ==_ne, ok, Signed, true, false, ◌||◌}
use dd_framework.ResultCode.{result_success}
use dd_framework.Scheduler.State.{Scheduler, Queue, set_fiber, scheduled}
use dd_framework.Scheduler.Waits.{is_scheduled}
use dd_framework.Scheduler.Threads.{
  reschedule, get_fiber_by_handle, priority_in_range, signed_eq, set_priority_impl, is_suspended,
  set_activity_impl, set_core_mask_impl,
}
use dd_framework.Scheduler.Links.{Queues, Waiters, IsLinked}
use dd_framework.Scheduler.Links.Queues.{replace}
use dd_framework.Scheduler.Links.Schedule.{destination, enter_at, state_after}
use dd_framework.Scheduler.Links.Resume.{reschedule_lem}

module _ {live : ℕ → Type 0} {queues : Queues} {waiters : Waiters} where
  -- On well-formed lists, a priority outside -2 to 2 that is new to a scheduled fiber which a
  -- handle names is accepted, and moves the fiber to the end of the queue of that value, without
  -- the offset that `CreateThread` adds.
  set_priority_impl_lem :
      (s : Scheduler) (handle f : ℕ) (priority : Signed) (q : Queue) (xs ys : List ℕ)
      → IsLinked live s.nodes queues waiters
      → live f
      → queues q ≡ xs ++ f ∷ ys
      → get_fiber_by_handle s handle ≡ ok f
      → f ≢ 0
      → priority_in_range priority ≡ false
      → signed_eq (s.fibers f).priority priority ≡ false
      → (s.fibers f).fiber_state ≡ scheduled
      → let b = record (s.fibers f) { priority = priority } in
        (s' : Scheduler) × (set_priority_impl s handle priority ≡ ok (s', result_success))
        × IsLinked live s'.nodes (enter_at (replace queues q (xs ++ ys)) (destination b) f) waiters
        × (s'.fibers f ≡ record b { fiber_state = state_after b })
  unfolding set_priority_impl
  set_priority_impl_lem s handle f priority q xs ys l lf at eh nz er ne es =
      let b = record (s.fibers f) { priority = priority } in
      let (linked, self, rest) = reschedule_lem s f b q xs ys l lf at in
      (reschedule (set_fiber s f b) f, rw (er, eh, ==_ne f 0 nz, ne, es) refl, linked, self)

  -- On well-formed lists, a new activity level moves a scheduled or suspended fiber that a handle
  -- names from its queue to the end of the queue where it then belongs, with that queue's state.
  pub set_activity_impl_lem :
      (s : Scheduler) (handle f activity_level : ℕ) (q : Queue) (xs ys : List ℕ)
      → IsLinked live s.nodes queues waiters
      → live f
      → queues q ≡ xs ++ f ∷ ys
      → get_fiber_by_handle s handle ≡ ok f
      → f ≢ 0
      → (s.fibers f).activity_level ≢ activity_level
      → is_scheduled (s.fibers f).fiber_state || is_suspended (s.fibers f).fiber_state ≡ true
      → let b = record (s.fibers f) { activity_level = activity_level } in
        (s' : Scheduler) × (set_activity_impl s handle activity_level ≡ ok (s', result_success))
        × IsLinked live s'.nodes (enter_at (replace queues q (xs ++ ys)) (destination b) f) waiters
        × (s'.fibers f ≡ record b { fiber_state = state_after b })
  unfolding set_activity_impl
  set_activity_impl_lem s handle f activity_level q xs ys l lf at eh nz ne es =
      let b = record (s.fibers f) { activity_level = activity_level } in
      let (linked, self, rest) = reschedule_lem s f b q xs ys l lf at in
      (
        reschedule (set_fiber s f b) f,
        rw (eh, ==_ne f 0 nz, ==_ne (s.fibers f).activity_level activity_level ne, es) refl,
        linked,
        self,
      )

  -- A new core mask moves a scheduled fiber to the end of the list of its priority.
  pub set_core_mask_impl_lem :
      (s : Scheduler) (handle f core_mask : ℕ) (q : Queue) (xs ys : List ℕ)
      → IsLinked live s.nodes queues waiters
      → live f
      → queues q ≡ xs ++ f ∷ ys
      → get_fiber_by_handle s handle ≡ ok f
      → f ≢ 0
      → (s.fibers f).core_mask ≢ core_mask
      → (s.fibers f).fiber_state ≡ scheduled
      → let b = record (s.fibers f) { core_mask = core_mask } in
        (s' : Scheduler) × (set_core_mask_impl s handle core_mask ≡ ok (s', result_success))
        × IsLinked live s'.nodes (enter_at (replace queues q (xs ++ ys)) (destination b) f) waiters
        × (s'.fibers f ≡ record b { fiber_state = state_after b })
  unfolding set_core_mask_impl
  set_core_mask_impl_lem s handle f core_mask q xs ys l lf at eh nz ne es =
      let b = record (s.fibers f) { core_mask = core_mask } in
      let (linked, self, rest) = reschedule_lem s f b q xs ys l lf at in
      (
        reschedule (set_fiber s f b) f,
        rw (eh, ==_ne f 0 nz, ==_ne (s.fibers f).core_mask core_mask ne, es) refl,
        linked,
        self,
      )
