-- ===== src/Api/Activity.antt =====
-- `SuspendThread` and `ResumeThread` of ukern_threadapi.cpp, one after the other.
use dd_framework.Base.{
  ℕ, ◌≡◌, ◌≢◌, refl, sym, ap, subst, ◌∙◌, List, [], ◌∷◌, ◌++◌, ok, true, ◌||◌, inl, inr, none, some,
  Option, ◌==◌, Bool-cases, if_pos, ==_ne, arith,
}
use dd_framework.HandleTable.{get_object_by_handle}
use dd_framework.ResultCode.{result_success}
use dd_framework.Scheduler.State.{
  Scheduler, Fiber, Queue, Queue-discrete, suspended_list, activity_suspended, activity_schedulable,
  scheduled, suspended, set_fiber,
}
use dd_framework.Scheduler.Lists.{priority_queue, enqueue, add_to_scheduler_unsafe}
use dd_framework.Scheduler.Threads.{
  get_fiber_by_handle, reschedule, set_activity_impl, is_suspended,
}
use dd_framework.Scheduler.Waits.{is_scheduled}
use dd_framework.Scheduler.Links.{Queues, Waiters, IsLinked}
use dd_framework.Scheduler.Links.Queues.{enter, replace}
use dd_framework.Scheduler.Links.Schedule.{enter_at, queue_at}
use dd_framework.Scheduler.Links.Resume.{reschedule_lem}
use dd_framework.Api.{suspend_thread, resume_thread}

enqueue-table :
    (s : Scheduler) (q : Option Queue) (f : ℕ) → (enqueue s q f).handle_table ≡ s.handle_table
enqueue-table s none f = refl
enqueue-table s (some q) f = refl

add_to_scheduler_unsafe-table :
    (s : Scheduler) (f : ℕ) → (add_to_scheduler_unsafe s f).handle_table ≡ s.handle_table
unfolding add_to_scheduler_unsafe
add_to_scheduler_unsafe-table s f =
    elim (Bool-cases ((s.fibers f).activity_level == activity_suspended)) [
      | inl e ↦ rw e refl
      | inr e ↦ rw e (enqueue-table s (priority_queue (s.fibers f).priority) f)
    ]

-- The fiber with another activity level, and the scheduler after the call.
abbrev with_level : Scheduler → ℕ → ℕ → Fiber
with_level s f level = record (s.fibers f) { activity_level = level }

abbrev after_level : Scheduler → ℕ → ℕ → Scheduler
after_level s f level = reschedule (set_fiber s f (with_level s f level)) f

after_level-names :
    (s : Scheduler) (f level handle : ℕ)
    → get_fiber_by_handle s handle ≡ ok f
    → get_fiber_by_handle (after_level s f level) handle ≡ ok f
unfolding get_fiber_by_handle
after_level-names s f level handle e =
    ap (λ t. get_object_by_handle t handle) (add_to_scheduler_unsafe-table _ f) ∙ e

set_activity-after_level :
    (s : Scheduler) (f level handle : ℕ)
    → get_fiber_by_handle s handle ≡ ok f
    → f ≢ 0
    → (s.fibers f).activity_level ≢ level
    → is_scheduled (s.fibers f).fiber_state || is_suspended (s.fibers f).fiber_state ≡ true
    → set_activity_impl s handle level ≡ ok (after_level s f level, result_success)
unfolding set_activity_impl
set_activity-after_level s f level handle eh nz ne es =
    rw (eh, ==_ne f 0 nz, ==_ne (s.fibers f).activity_level level ne, es) refl

restored :
    (b : Fiber)
    → b.activity_level ≡ activity_schedulable
    → b.fiber_state ≡ scheduled
    → record b { activity_level = activity_schedulable; fiber_state = scheduled } ≡ b
restored b el es =
    ap {B = Fiber} (λ a. record b { activity_level = a; fiber_state = scheduled }) (sym el)
    ∙ ap {B = Fiber} (λ t. record b { fiber_state = t }) (sym es)

module _ {live : ℕ → Type 0} {queues : Queues} {waiters : Waiters} where
  -- A scheduled fiber that a handle names is suspended and resumed: it leaves its queue for the list of
  -- the suspended fibers, and comes back to the end of the queue of its priority, with all its
  -- fields as they were. The lists stay well formed.
  pub suspend-resume :
      (s : Scheduler) (handle f : ℕ) (q : Queue) (xs ys : List ℕ)
      → IsLinked live s.nodes queues waiters
      → live f
      → queues q ≡ xs ++ f ∷ ys
      → get_fiber_by_handle s handle ≡ ok f
      → f ≢ 0
      → (s.fibers f).activity_level ≡ activity_schedulable
      → (s.fibers f).fiber_state ≡ scheduled
      → let out = replace queues q (xs ++ ys) in
        (s' s'' : Scheduler) × (suspend_thread s handle ≡ ok (s', result_success))
        × IsLinked live s'.nodes (enter out suspended_list f) waiters
        × ((s'.fibers f).fiber_state ≡ suspended)
        × (resume_thread s' handle ≡ ok (s'', result_success))
        × IsLinked live s''.nodes
            (enter_at
              (replace (enter out suspended_list f) suspended_list (out suspended_list ++ []))
              (queue_at (s.fibers f).priority)
              f)
            waiters
        × (s''.fibers f ≡ s.fibers f)
  unfolding suspend_thread resume_thread
  suspend-resume s handle f q xs ys l lf at eh nz el es =
      let out = replace queues q (xs ++ ys) in
      let s' = after_level s f activity_suspended in
      let s'' = after_level s' f activity_schedulable in
      let (linked, self, _) =
        reschedule_lem s f (with_level s f activity_suspended) q xs ys l lf at in
      let (linked', self', _) =
        reschedule_lem s' f (with_level s' f activity_schedulable) suspended_list
          (out suspended_list) [] linked lf
          (if_pos (Queue-discrete suspended_list suspended_list) refl (out suspended_list ++ f ∷ [])
            (out suspended_list)) in
      (
        s',
        s'',
        set_activity-after_level s f activity_suspended handle eh nz (omega (arith, el))
            (rw es refl),
        linked,
        ap {A = Fiber} (λ b. b.fiber_state) self,
        set_activity-after_level s' f activity_schedulable handle
            (after_level-names s f activity_suspended handle eh) nz (rw self (omega arith))
            (rw self refl),
        subst
            (λ b.
              IsLinked live s''.nodes
                (enter_at
                  (replace (enter out suspended_list f) suspended_list (out suspended_list ++ []))
                  (queue_at b.priority) f)
                waiters)
            self linked',
        self'
            ∙ ap {A = Fiber} {B = Fiber}
                (λ b. record b { activity_level = activity_schedulable; fiber_state = scheduled })
                self
            ∙ restored (s.fibers f) el es,
      )
