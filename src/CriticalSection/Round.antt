-- ===== src/CriticalSection/Round.antt =====
-- From the owner's `Leave` to the waiter's return from `Enter`, and both calls put together.
use dd_framework.Base.{
  ℕ, suc, ◌+◌, ◌^◌, ◌<◌, ◌≡◌, ◌≢◌, refl, sym, ap, subst, ◌∙◌, List, [], ◌∷◌, ◌++◌, ok, update,
  ==_refl, ==_ne, arith, bit_and-mask_low, bit_and-mask_bit, ℕ_discrete, if_pos, true,
}
use dd_framework.ResultCode.{result_success}
use dd_framework.Scheduler.State.{
  Scheduler, Fiber, Queue, Queue-discrete, suspended_list, lock_arbiter,
}
use dd_framework.Scheduler.Waits.{clear_waiters_bit}
use dd_framework.Scheduler.Threads.{resume_result}
use dd_framework.Scheduler.Links.{Queues, Waiters, IsLinked}
use dd_framework.Scheduler.Links.Queues.{enter, replace}
use dd_framework.Scheduler.Links.Wait.{enter_wait}
use dd_framework.Scheduler.Links.LeaveWait.{replace_wait}
use dd_framework.Scheduler.Links.Join.{lock_wait}
use dd_framework.Scheduler.Links.Schedule.{destination, enter_at}
use dd_framework.Scheduler.Links.Unlock.{woken}
use dd_framework.Scheduler.Links.Crowded.{arbitrate_unlock_impl_lem}
use dd_framework.CriticalSection.{step, steps, outside, asleep, inside, tag_of, has_waiters}
use dd_framework.CriticalSection.HandOver.{Contended, fiber_handle, enter-waits}

marked-has_waiters : (v : ℕ) → v < 2 ^ 30 → has_waiters (v + 2 ^ 30) ≡ true
marked-has_waiters v h = ground arith

module _ {live : ℕ → Type 0} {queues : Queues} {waiters : Waiters} where
  -- `Leave` of an owner with one waiter: the section's word becomes the waiter's tag.
  leave-hands_over :
      (n cs : ℕ) (s : Scheduler) (owner next_owner handle : ℕ) (q : Queue) (xs ys : List ℕ)
      → IsLinked live s.nodes queues waiters
      → live owner
      → live next_owner
      → cs ≢ 0
      → handle < 2 ^ 30
      → tag_of s owner ≡ handle
      → s.words cs ≡ handle + 2 ^ 30
      → waiters owner ≡ next_owner ∷ []
      → queues q ≡ xs ++ next_owner ∷ ys
      → (s.fibers next_owner).waitable_object ≡ lock_arbiter
      → (s.fibers next_owner).lock_address ≡ cs
      → let b = s.fibers next_owner in
        (s' : Scheduler) × (steps 2 (suc n) cs s owner inside ≡ ok (s', outside))
        × IsLinked live s'.nodes
            (enter_at (replace queues q (xs ++ ys)) (destination b) next_owner)
            (replace_wait waiters owner [])
        × (s'.words ≡ update s.words cs b.wait_tag)
        × (s'.fibers next_owner ≡ woken b)
  unfolding steps step
  leave-hands_over n cs s owner next_owner handle q xs ys l lo lw nz small et ew one at arbiter ea =
      let cleared : clear_waiters_bit (s.words cs) ≡ handle =
        ap clear_waiters_bit ew ∙ bit_and-mask_bit handle small in
      let (s', run, linked, words, self, rest) =
        arbitrate_unlock_impl_lem n s owner cs next_owner q xs ys l lo lw nz (et ∙ sym cleared) one
          at arbiter ea in
      (s', rw (ew, marked-has_waiters handle small, run) refl, linked, words, self)

-- A fiber that is handed the section gets in when it is dispatched.
woken-enters :
    (n cs : ℕ) (s : Scheduler) (current : ℕ)
    → (s.fibers current).last_result ≡ result_success
    → tag_of s current < 2 ^ 30
    → s.words cs ≡ tag_of s current
    → steps 2 n cs s current (asleep result_success) ≡ ok (s, inside)
unfolding steps step resume_result
woken-enters n cs s current done small ew =
    rw (done, ew, bit_and-mask_low (tag_of s current) small, ==_refl (tag_of s current)) refl

-- Where the owner of a section has no waiter and another fiber, in no list, calls `Enter`: the caller
-- goes to sleep after four steps, the owner's `Leave` returns in two, and the caller, once it is
-- dispatched, gets into the section with its own tag in the word, in two. No other word changes; the
-- caller's wait has taken it to the queue where it belongs, and all lists stay well formed.
pub enter-leave-Contended :
    {live : ℕ → Type 0} {queues : Queues} {waiters : Waiters} {s : Scheduler}
    {cs owner current handle : ℕ} (n : ℕ)
    → Contended live queues waiters s cs owner current handle
    → waiters owner ≡ []
    → (s' s'' : Scheduler) × (steps 4 (suc n) cs s current outside ≡ ok (s', asleep result_success))
      × (steps 2 (suc n) cs s' owner inside ≡ ok (s'', outside))
      × (steps 2 (suc n) cs s'' current (asleep result_success) ≡ ok (s'', inside))
      × IsLinked live s''.nodes
          (enter_at
            (replace
              (enter queues suspended_list current)
              suspended_list
              (queues suspended_list ++ []))
            (destination (s.fibers current))
            current)
          (replace_wait (enter_wait waiters owner current) owner [])
      × (s''.words cs ≡ tag_of s current)
      × ((a : ℕ) → a ≢ cs → s''.words a ≡ s.words a)
enter-leave-Contended {live} {queues} {waiters} {s} {cs} {owner} {current} {handle} n c none =
    let b = lock_wait (s.fibers current) cs (tag_of s current) in
    let (s', run, linked, fibers, words) = enter-waits c (suc n) in
    let self : s'.fibers current ≡ b = ap (λ f. f current) fibers ∙ rw (==_refl current) refl in
    let (s'', run', linked', words', self') =
      leave-hands_over n cs s' owner current handle suspended_list (queues suspended_list) [] linked
        c.live_owner c.live_current c.cs_some (fiber_handle s handle owner c.named c.owner_some).0
        (ap {A = ℕ → Fiber} {B = ℕ} (λ f. (f owner).ukern_fiber_handle) fibers
          ∙ rw (==_ne owner current c.others) c.owner_tag)
        (ap (λ w. w cs) words ∙ rw (==_refl cs) refl)
        (if_pos (ℕ_discrete owner owner) refl (waiters owner ++ current ∷ []) (waiters owner)
          ∙ ap (λ fs. fs ++ current ∷ []) none)
        (if_pos (Queue-discrete suspended_list suspended_list) refl
          (queues suspended_list ++ current ∷ []) (queues suspended_list))
        (ap {A = Fiber} (λ f. f.waitable_object) self)
        (ap {A = Fiber} (λ f. f.lock_address) self) in
    let full : s''.fibers current ≡ woken b = self' ∙ ap woken self in
    let tag : tag_of s'' current ≡ tag_of s current =
      ap {A = Fiber} (λ f. f.ukern_fiber_handle) full in
    let word : s''.words cs ≡ tag_of s current =
      ap (λ w. w cs) words' ∙ rw (==_refl cs) (ap {A = Fiber} (λ f. f.wait_tag) self) in
    (
      s',
      s'',
      run,
      run',
      woken-enters (suc n) cs s'' current (ap {A = Fiber} (λ f. f.last_result) full)
          (subst (λ t. t < 2 ^ 30) (sym tag) c.tag_small) (word ∙ sym tag),
      subst
          (λ f.
            IsLinked live s''.nodes
              (enter_at
                (replace (enter queues suspended_list current) suspended_list
                  (queues suspended_list ++ []))
                (destination f) current)
              (replace_wait (enter_wait waiters owner current) owner []))
          self linked',
      word,
      λ a ne.
          ap (λ w. w a) words' ∙ rw (==_ne a cs ne) (ap (λ w. w a) words ∙ rw (==_ne a cs ne) refl),
    )
