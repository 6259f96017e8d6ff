-- ===== src/Scheduler/Links/Resume.antt =====
-- The end of a wait and the start of a run on the scheduler's lists as sequences of fibers.
use dd_framework.Base.{
  ℕ, ◌<◌, ◌≡◌, ◌≢◌, refl, sym, ap, subst, ◌∙◌, List, [], ◌∷◌, ◌++◌, map, arith, if_pos, if_neg,
  ==_refl, ==_ne, ok,
}
use dd_framework.IntrusiveList
use dd_framework.IntrusiveList.Chain.{NotIn, Distinct}
use dd_framework.IntrusiveList.Ring.{AllOut}
use dd_framework.Scheduler.State.{
  Scheduler, Fiber, Queue, Queue-discrete, scheduler_list_node, set_fiber, running, scheduled,
}
use dd_framework.Scheduler.Lists.{add_to_scheduler_unsafe, unlink_scheduler}
use dd_framework.Scheduler.Waits.{end_fiber_wait_impl}
use dd_framework.Scheduler.Threads.{reschedule}
use dd_framework.Scheduler.Main.{dispatch_enter}
use dd_framework.Scheduler.Links.{Queues, Waiters, IsLinked}
use dd_framework.Scheduler.Links.Queues.{replace, InNone}
use dd_framework.Scheduler.Links.Leave.{leave-IsLinked}
use dd_framework.Scheduler.Links.Schedule.{
  destination, enter_at, state_after, add_to_scheduler_unsafe_lem,
}

not_at :
    (x f : ℕ) (ys xs : List ℕ)
    → NotIn (scheduler_list_node x) (map scheduler_list_node (xs ++ f ∷ ys))
    → x ≢ f
not_at x f ys [] n e = n.0 (ap scheduler_list_node e)
not_at x f ys (z ∷ zs) n e = not_at x f ys zs n.1 e

-- A node that occurs once does not occur elsewhere.
once :
    (f : ℕ) (ys xs : List ℕ)
    → Distinct (map scheduler_list_node (xs ++ f ∷ ys))
    → NotIn f (xs ++ ys)
once f [] [] d = tt
once f (y ∷ ys) [] d = ((λ e. d.0.0 (ap scheduler_list_node e)), once f ys [] (d.0.1, d.1.1))
once f ys (x ∷ xs) d = ((λ e. not_at x f ys xs d.0 (sym e)), once f ys xs d.1)

module _ {live : ℕ → Type 0} {queues : Queues} {waiters : Waiters} where
  -- A fiber that leaves its queue is in none.
  leave-InNone :
      (s : Scheduler) (f : ℕ) (q : Queue) (xs ys : List ℕ)
      → IsLinked live s.nodes queues waiters
      → queues q ≡ xs ++ f ∷ ys
      → InNone (replace queues q (xs ++ ys)) f
  leave-InNone s f q xs ys l at p = elim (Queue-discrete p q) [
    | yes e ↦ rw (if_pos (Queue-discrete p q) e) (
        once f ys xs
          (subst (λ zs. Distinct (map scheduler_list_node zs)) at (l.queue_ring q).distinct))
    | no n ↦ rw (if_neg (Queue-discrete p q) n) (other p n)
  ]
    where
      member : (zs ws : List ℕ) → AllOut (zs ++ f ∷ ys) ws → NotIn f ws
      member [] ws o = o.0
      member (z ∷ zs) ws o = member zs ws o.1

      other : (p : Queue) → p ≢ q → NotIn f (queues p)
      other p n =
          member xs (queues p)
            (subst (λ zs. AllOut zs (queues p)) at (l.queues_apart q p (λ e. n (sym e))))

  leave-unlink :
      (s : Scheduler) (f : ℕ) (q : Queue) (xs ys : List ℕ)
      → IsLinked live s.nodes queues waiters
      → queues q ≡ xs ++ f ∷ ys
      → IsLinked live (unlink_scheduler s f).nodes (replace queues q (xs ++ ys)) waiters
  unfolding IntrusiveList.remove
  leave-unlink s f q xs ys l at = leave-IsLinked l q f xs ys at

  -- A fiber that is given other fields and rescheduled goes from its queue to the end of the queue
  -- where it then belongs.
  pub reschedule_lem :
      (s : Scheduler) (f : ℕ) (b : Fiber) (q : Queue) (xs ys : List ℕ)
      → IsLinked live s.nodes queues waiters
      → live f
      → queues q ≡ xs ++ f ∷ ys
      → let s' = reschedule (set_fiber s f b) f in
        IsLinked live s'.nodes (enter_at (replace queues q (xs ++ ys)) (destination b) f) waiters
        × (s'.fibers f ≡ record b { fiber_state = state_after b })
        × ((g : ℕ) → g ≢ f → s'.fibers g ≡ s.fibers g)
  reschedule_lem s f b q xs ys l lf at =
      let left = set_fiber (unlink_scheduler s f) f b in
      let (linked, self, rest) =
        add_to_scheduler_unsafe_lem left f (leave-unlink s f q xs ys l at) lf
          (leave-InNone s f q xs ys l at) in
      let e : left.fibers f ≡ b = rw (==_refl f) refl in
      (
        subst
            (λ c.
              IsLinked live (add_to_scheduler_unsafe left f).nodes
                (enter_at (replace queues q (xs ++ ys)) (destination c) f) waiters)
            e linked,
        self ∙ ap {A = Fiber} {B = Fiber} (λ c. record c { fiber_state = state_after c }) e,
        λ g ne. rest g ne ∙ rw (==_ne g f ne) refl,
      )

  -- On well-formed lists, the end of a wait moves a constructed fiber from the queue that it is in
  -- to the end of the one where it belongs: the suspended list at the level `suspended`, and else the
  -- queue of its priority, from 0, the lowest, to 4, the highest, or no queue at another priority. The
  -- fiber gets the state suspended or scheduled and the result. Every other list and every other
  -- fiber is as it was.
  pub end_fiber_wait_impl_lem :
      (s : Scheduler) (f result : ℕ) (q : Queue) (xs ys : List ℕ)
      → IsLinked live s.nodes queues waiters
      → live f
      → queues q ≡ xs ++ f ∷ ys
      → let s' = end_fiber_wait_impl s f result in
        IsLinked live s'.nodes
          (enter_at (replace queues q (xs ++ ys)) (destination (s.fibers f)) f)
          waiters
        × (s'.fibers f
            ≡ record (s.fibers f) { fiber_state = state_after (s.fibers f); last_result = result })
        × ((g : ℕ) → g ≢ f → s'.fibers g ≡ s.fibers g)
  unfolding end_fiber_wait_impl
  end_fiber_wait_impl_lem s f result =
      reschedule_lem s f (record (s.fibers f) { fiber_state = scheduled; last_result = result })

  -- On well-formed lists, a dispatch to a core that exists takes the fiber off its queue, so that
  -- it is in none, and marks it as running on the core.
  pub dispatch_enter_lem :
      (s : Scheduler) (f core_number : ℕ) (q : Queue) (xs ys : List ℕ)
      → IsLinked live s.nodes queues waiters
      → queues q ≡ xs ++ f ∷ ys
      → core_number < s.core_count
      → (s' : Scheduler) × (dispatch_enter s f core_number ≡ ok s')
        × IsLinked live s'.nodes (replace queues q (xs ++ ys)) waiters
        × ((s'.fibers f).fiber_state ≡ running)
        × ((s'.fibers f).current_core ≡ core_number)
        × InNone (replace queues q (xs ++ ys)) f
  unfolding dispatch_enter
  dispatch_enter_lem s f core_number q xs ys l at h = (
    unlink_scheduler
        (set_fiber s f (record (s.fibers f) { fiber_state = running; current_core = core_number }))
        f,
    ground arith,
    leave-unlink s f q xs ys l at,
    rw (==_refl f) refl,
    rw (==_refl f) refl,
    leave-InNone s f q xs ys l at,
  )
