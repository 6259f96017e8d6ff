-- ===== src/CriticalSection/HandOver.antt =====
-- A critical section that another fiber is in: the caller waits in the owner's wait list, and the
-- owner's `Leave` hands the section over.
use Prim.Native.Nat.{bit_or}
use dd_framework.Base.{
  ℕ, ◌+◌, ◌^◌, ◌<◌, ◌≡◌, ◌≢◌, refl, ◌∙◌, ok, true, update, ==_refl, ==_ne, arith,
  bit_or-waiters_bit, bit_and-mask_low,
}
use dd_framework.HandleTable.{get_object_by_handle}
use dd_framework.ResultCode.{result_success}
use dd_framework.Scheduler.State.{Scheduler, suspended_list, set_word, has_child_waiters_bit}
use dd_framework.Scheduler.Threads.{get_fiber_by_handle}
use dd_framework.Scheduler.Links.{Queues, Waiters, IsLinked}
use dd_framework.Scheduler.Links.Queues.{enter, InNone}
use dd_framework.Scheduler.Links.Wait.{enter_wait, WaitsNowhere}
use dd_framework.Scheduler.Links.Join.{lock_wait, arbitrate_lock_impl_lem}
use dd_framework.CriticalSection.{step, steps, outside, asleep, blocking, tag_of, has_waiters}
use dd_framework.CriticalSection.Steps.{steps-then}
use dd_framework.CriticalSection.Free.{low-has_no_waiters}

-- A handle that names a fiber is below 2^30 and not 0.
pub fiber_handle :
    (s : Scheduler) (handle f : ℕ)
    → get_fiber_by_handle s handle ≡ ok f
    → f ≢ 0
    → (handle < 2 ^ 30) × (handle ≢ 0)
unfolding get_fiber_by_handle get_object_by_handle
fiber_handle s handle f e nz = (ground (arith, e), λ z. ground (arith, e, z))

bit-has_waiters : (v : ℕ) → v < 2 ^ 30 → has_waiters (bit_or v has_child_waiters_bit) ≡ true
bit-has_waiters v h = rw (bit_or-waiters_bit v h) (ground arith)

-- The fiber `owner` is in the section that `current`, in no list, asks for.
pub record Contended (live : ℕ → Type 0) (queues : Queues) (waiters : Waiters) (s : Scheduler)
    (cs owner current handle : ℕ) : Type 0 where
  pub linked : IsLinked live s.nodes queues waiters
  pub live_current : live current
  pub live_owner : live owner
  pub in_none : InNone queues current
  pub nowhere : WaitsNowhere waiters current
  pub cs_some : cs ≢ 0
  pub held : s.words cs ≡ handle
  pub named : get_fiber_by_handle s handle ≡ ok owner
  pub owner_some : owner ≢ 0
  pub others : owner ≢ current
  pub owner_tag : tag_of s owner ≡ handle
  pub tag_small : tag_of s current < 2 ^ 30

module _ {live : ℕ → Type 0} {queues : Queues} {waiters : Waiters} {s : Scheduler}
    {cs owner current handle : ℕ}
    (c : Contended live queues waiters s cs owner current handle) where
  -- The state in which the scheduler is called: the waiters bit is set.
  abbrev pub marked : Scheduler
  marked = set_word s cs (bit_or handle has_child_waiters_bit)

  marking_steps : (n : ℕ) → steps 3 n cs s current outside ≡ ok (marked, blocking handle)
  unfolding steps step
  marking_steps n =
      let (small, nz) = fiber_handle s handle owner c.named c.owner_some in
      rw (c.held, ==_ne handle 0 nz, low-has_no_waiters handle small, c.held, ==_refl handle) refl

  -- The call of the scheduler.
  pub blocked :
      (n : ℕ)
      → (s' : Scheduler) × (step n cs marked current (blocking handle)
          ≡ ok (s', asleep result_success))
        × IsLinked live s'.nodes
            (enter queues suspended_list current)
            (enter_wait waiters owner current)
        × (s'.fibers ≡ update s.fibers current (lock_wait (s.fibers current) cs (tag_of s current)))
        × (s'.words ≡ update s.words cs (handle + 2 ^ 30))
  unfolding step get_fiber_by_handle
  blocked n =
      let small = (fiber_handle s handle owner c.named c.owner_some).0 in
      let (s', run, linked, fibers, words) =
        arbitrate_lock_impl_lem marked current handle cs (tag_of s current) owner c.linked
          c.live_current c.live_owner c.in_none c.nowhere c.cs_some c.named c.owner_some c.others
          (rw (==_refl cs) refl) in
      (
        s',
        rw (bit_and-mask_low handle small, run) refl,
        linked,
        fibers,
        words ∙ rw (bit_or-waiters_bit handle small) refl,
      )

  -- Where another fiber holds the section: four steps of `Enter` set the waiters bit in its word and
  -- make the caller the owner's last waiter and the last suspended fiber, with the section's
  -- address and its own tag stored. No other fiber and no other word changes.
  pub enter-waits :
      (n : ℕ)
      → (s' : Scheduler) × (steps 4 n cs s current outside ≡ ok (s', asleep result_success))
        × IsLinked live s'.nodes
            (enter queues suspended_list current)
            (enter_wait waiters owner current)
        × (s'.fibers ≡ update s.fibers current (lock_wait (s.fibers current) cs (tag_of s current)))
        × (s'.words ≡ update s.words cs (handle + 2 ^ 30))
  enter-waits n =
      let (s', run, linked, fibers, words) = blocked n in
      (
        s',
        steps-then 3 n cs s marked current outside (blocking handle) (marking_steps n) ∙ run,
        linked,
        fibers,
        words,
      )
