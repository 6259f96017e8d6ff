-- ===== src/Scheduler/Links/Unlock.antt =====
-- The hand-over of a lock on the scheduler's lists as sequences of fibers.
use dd_framework.Base.{
  ℕ, suc, ◌≡◌, ◌≢◌, refl, ap, subst, ◌∙◌, List, [], ◌∷◌, ◌++◌, arith, inl, inr, ==_refl, ==_ne,
  ◌==◌, ok, Bool-cases, update, none, some, Option, if_pos, ℕ_discrete,
}
use dd_framework.ResultCode.{result_success}
use dd_framework.Scheduler.State.{
  Scheduler, Fiber, Queue, set_fiber, set_word, lock_arbiter, no_object, activity_suspended,
  scheduled,
}
use dd_framework.Scheduler.Lists.{
  unlink_scheduler, unlink_wait, enqueue, add_to_scheduler_unsafe, priority_queue,
}
use dd_framework.Scheduler.Waits.{release_lock_wait_list_unsafe, end_wait, end_fiber_wait_impl}
use dd_framework.Scheduler.Links.{Queues, Waiters, IsLinked}
use dd_framework.Scheduler.Links.Queues.{replace}
use dd_framework.Scheduler.Links.LeaveWait.{replace_wait}
use dd_framework.Scheduler.Links.Schedule.{destination, enter_at, state_after}
use dd_framework.Scheduler.Links.Resume.{end_fiber_wait_impl_lem}
use dd_framework.Scheduler.Links.Transfer.{
  first-leaves, pop_waiter-first, none_waits, some_waits, transfer-none,
}

enqueue-words : (s : Scheduler) (q : Option Queue) (f : ℕ) → (enqueue s q f).words ≡ s.words
enqueue-words s none f = refl
enqueue-words s (some q) f = refl

add_to_scheduler_unsafe-words :
    (s : Scheduler) (f : ℕ) → (add_to_scheduler_unsafe s f).words ≡ s.words
unfolding add_to_scheduler_unsafe
add_to_scheduler_unsafe-words s f =
    elim (Bool-cases ((s.fibers f).activity_level == activity_suspended)) [
      | inl e ↦ rw e refl
      | inr e ↦ rw e (enqueue-words s (priority_queue (s.fibers f).priority) f)
    ]

-- The end of a wait writes no word of user memory.
end_fiber_wait_impl-words :
    (s : Scheduler) (f result : ℕ) → (end_fiber_wait_impl s f result).words ≡ s.words
unfolding end_fiber_wait_impl
end_fiber_wait_impl-words s f result =
    add_to_scheduler_unsafe-words
      (set_fiber (unlink_scheduler s f) f
        (record (s.fibers f) { fiber_state = scheduled; last_result = result }))
      f

end_wait-lock_arbiter :
    (s : Scheduler) (f result : ℕ)
    → (s.fibers f).waitable_object ≡ lock_arbiter
    → end_wait s f result ≡ ok (end_fiber_wait_impl s f result)
unfolding end_wait
end_wait-lock_arbiter s f result e = ground (arith, e)

-- The fiber that the lock is handed to, with its wait over.
abbrev pub woken : Fiber → Fiber
woken b = record b {
  lock_address = 0;
  wait_tag = 0;
  waitable_object = no_object;
  fiber_state = state_after b;
  last_result = result_success;
}

module _ {live : ℕ → Type 0} {queues : Queues} {waiters : Waiters} (s : Scheduler)
    (owner next_owner : ℕ) (l : IsLinked live s.nodes queues waiters) (lo : live owner)
    (na : (s.fibers next_owner).lock_address ≢ 0) where
  -- The state in which the waiter's wait ends, where it was the only one.
  abbrev handed : Scheduler
  handed =
      let b = s.fibers next_owner in
      set_fiber (set_word (unlink_wait s next_owner) b.lock_address b.wait_tag) next_owner
        (record b { lock_address = 0; wait_tag = 0 })

  handed-IsLinked :
      waiters owner ≡ next_owner ∷ []
      → IsLinked live handed.nodes queues (replace_wait waiters owner [])
  handed-IsLinked one = first-leaves s owner next_owner [] l lo one

  handed-fiber :
      handed.fibers next_owner ≡ record (s.fibers next_owner) { lock_address = 0; wait_tag = 0 }
  handed-fiber = rw (==_refl next_owner) refl

  release-one :
      (n : ℕ)
      → waiters owner ≡ next_owner ∷ []
      → (s.fibers next_owner).waitable_object ≡ lock_arbiter
      → let s4 = end_fiber_wait_impl handed next_owner result_success in
        release_lock_wait_list_unsafe (suc n) s owner
        ≡ ok (
            set_fiber s4 next_owner (record (s4.fibers next_owner) { waitable_object = no_object }))
  unfolding release_lock_wait_list_unsafe
  release-one n one arbiter =
      let left = first-leaves s owner next_owner [] l lo one in
      let nobody = if_pos (ℕ_discrete owner owner) refl [] (waiters owner) in
      rw
        (
          some_waits s owner l lo next_owner [] one,
          pop_waiter-first s owner l lo next_owner [] one,
          none_waits (unlink_wait s next_owner) owner left lo nobody,
          ==_ne (s.fibers next_owner).lock_address 0 na,
          transfer-none handed owner (handed-IsLinked one) lo n next_owner nobody,
          end_wait-lock_arbiter handed next_owner result_success
              (ap {A = Fiber} (λ b. b.waitable_object) handed-fiber ∙ arbiter),
        )
        refl

module _ {live : ℕ → Type 0} {queues : Queues} {waiters : Waiters} where
  -- On well-formed lists, a fiber with one waiter gives it the lock: the lock's word becomes the
  -- waiter's tag, and the waiter goes from its queue to the end of the queue where it belongs, with
  -- its wait over. Nothing else changes but the lists of these two fibers.
  pub release_lock_wait_list_unsafe_lem :
      (n : ℕ) (s : Scheduler) (owner next_owner : ℕ) (q : Queue) (xs ys : List ℕ)
      → IsLinked live s.nodes queues waiters
      → live owner
      → live next_owner
      → waiters owner ≡ next_owner ∷ []
      → queues q ≡ xs ++ next_owner ∷ ys
      → (s.fibers next_owner).waitable_object ≡ lock_arbiter
      → (s.fibers next_owner).lock_address ≢ 0
      → let b = s.fibers next_owner in
        (s' : Scheduler) × (release_lock_wait_list_unsafe (suc n) s owner ≡ ok s')
        × IsLinked live s'.nodes
            (enter_at (replace queues q (xs ++ ys)) (destination b) next_owner)
            (replace_wait waiters owner [])
        × (s'.words ≡ update s.words b.lock_address b.wait_tag)
        × (s'.fibers next_owner ≡ woken b)
        × ((g : ℕ) → g ≢ next_owner → s'.fibers g ≡ s.fibers g)
  unfolding release_lock_wait_list_unsafe
  release_lock_wait_list_unsafe_lem n s owner next_owner q xs ys l lo lw one at arbiter na =
      let b = s.fibers next_owner in
      let h = handed s owner next_owner l lo na in
      let s4 = end_fiber_wait_impl h next_owner result_success in
      let (linked, self, rest) =
        end_fiber_wait_impl_lem h next_owner result_success q xs ys
          (handed-IsLinked s owner next_owner l lo na one) lw at in
      let fiber = handed-fiber s owner next_owner l lo na in
      (
        set_fiber s4 next_owner (record (s4.fibers next_owner) { waitable_object = no_object }),
        release-one s owner next_owner l lo na n one arbiter,
        subst
            (λ c.
              IsLinked live s4.nodes
                (enter_at (replace queues q (xs ++ ys)) (destination c) next_owner)
                (replace_wait waiters owner []))
            fiber linked,
        end_fiber_wait_impl-words h next_owner result_success,
        rw (==_refl next_owner) (
            ap {A = Fiber} {B = Fiber} (λ c. record c { waitable_object = no_object })
              (self
                ∙ ap {A = Fiber} {B = Fiber}
                    (λ c. record c { fiber_state = state_after c; last_result = result_success })
                    fiber)),
        λ g ne. rw (==_ne g next_owner ne) (rest g ne ∙ rw (==_ne g next_owner ne) refl),
      )
