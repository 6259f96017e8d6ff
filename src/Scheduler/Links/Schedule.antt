-- ===== src/Scheduler/Links/Schedule.antt =====
-- `AddToSchedulerUnsafe` and `EndFiberWaitImpl` on the scheduler's lists as sequences of fibers.
use dd_framework.Base.{
  ℕ, zero, suc, ◌≡◌, ◌≢◌, refl, ap, subst, inl, inr, List, [], ◌∷◌, Signed, pos, negsuc, arith,
  Option, none, some, ◌==◌, if◌then◌else◌, ==_refl, ==_ne, Bool-cases,
}
use dd_framework.Scheduler.State.{
  Scheduler, Fiber, FiberState, Queue, low, below_normal, normal, above_normal, high,
  suspended_list, activity_suspended, scheduled, suspended,
}
use dd_framework.Scheduler.Lists.{add_to_scheduler_unsafe, enqueue, priority_queue}
use dd_framework.Scheduler.Links.{Queues, Waiters, IsLinked}
use dd_framework.Scheduler.Links.Queues.{enter, InNone, push-IsLinked}

-- The queues from the lowest priority, 0, to the highest, 4.
abbrev pub by_level : List Queue
by_level = low ∷ below_normal ∷ normal ∷ above_normal ∷ high ∷ []

abbrev pub nth : List Queue → ℕ → Option Queue
nth [] n = none
nth (q ∷ qs) zero = some q
nth (q ∷ qs) (suc n) = nth qs n

-- The queue of a priority, if it has one.
abbrev pub queue_at : Signed → Option Queue
queue_at (pos p) = nth by_level p
queue_at (negsuc n) = none

-- The tests of `AddToSchedulerUnsafe` find the queue of the priority.
priority_queue-queue_at : (p : Signed) → priority_queue p ≡ queue_at p
priority_queue-queue_at (pos zero) = refl
priority_queue-queue_at (pos (suc zero)) = refl
priority_queue-queue_at (pos (suc (suc zero))) = refl
priority_queue-queue_at (pos (suc (suc (suc zero)))) = refl
priority_queue-queue_at (pos (suc (suc (suc (suc zero))))) = refl
priority_queue-queue_at (pos (suc (suc (suc (suc (suc n)))))) = ground arith
priority_queue-queue_at (negsuc n) = refl

-- Where a fiber belongs that is not running: among the suspended ones, or in the queue of its
-- priority, if it has one.
abbrev pub destination : Fiber → Option Queue
destination b =
    if b.activity_level == activity_suspended then some suspended_list else queue_at b.priority

abbrev pub enter_at : Queues → Option Queue → ℕ → Queues
enter_at queues none f = queues
enter_at queues (some q) f = enter queues q f

abbrev pub state_after : Fiber → FiberState
state_after b = if b.activity_level == activity_suspended then suspended else scheduled

enqueue-fibers : (s : Scheduler) (q : Option Queue) (f : ℕ) → (enqueue s q f).fibers ≡ s.fibers
enqueue-fibers s none f = refl
enqueue-fibers s (some q) f = refl

module _ {live : ℕ → Type 0} {queues : Queues} {waiters : Waiters} where
  enqueue-IsLinked :
      (s : Scheduler) (f : ℕ)
      → IsLinked live s.nodes queues waiters
      → live f
      → InNone queues f
      → (q : Option Queue) → IsLinked live (enqueue s q f).nodes (enter_at queues q f) waiters
  enqueue-IsLinked s f l lf out none = l
  enqueue-IsLinked s f l lf out (some q) = push-IsLinked l q f lf out

  -- On well-formed lists, a constructed fiber in no queue goes to the end of the queue where it
  -- belongs, with the state of that queue; every other list and every other fiber is as it was. A
  -- fiber whose priority has no queue becomes scheduled in no list.
  pub add_to_scheduler_unsafe_lem :
      (s : Scheduler) (f : ℕ)
      → IsLinked live s.nodes queues waiters
      → live f
      → InNone queues f
      → let s' = add_to_scheduler_unsafe s f in
        IsLinked live s'.nodes (enter_at queues (destination (s.fibers f)) f) waiters
        × (s'.fibers f ≡ record (s.fibers f) { fiber_state = state_after (s.fibers f) })
        × ((g : ℕ) → g ≢ f → s'.fibers g ≡ s.fibers g)
  unfolding add_to_scheduler_unsafe
  add_to_scheduler_unsafe_lem s f l lf out =
      elim (Bool-cases ((s.fibers f).activity_level == activity_suspended)) [
        | inl e ↦ rw e (
          push-IsLinked l suspended_list f lf out,
          rw (==_refl f) refl,
          λ g ne. rw (==_ne g f ne) refl,
        )
        | inr e ↦ rw e (
          subst
              (λ q.
                IsLinked live (enqueue s (priority_queue (s.fibers f).priority) f).nodes
                  (enter_at queues q f) waiters)
              (priority_queue-queue_at (s.fibers f).priority)
              (enqueue-IsLinked s f l lf out (priority_queue (s.fibers f).priority)),
          rw (==_refl f) refl,
          λ g ne.
              rw (==_ne g f ne)
                (ap (λ h. h g) (enqueue-fibers s (priority_queue (s.fibers f).priority) f)),
        )
      ]
