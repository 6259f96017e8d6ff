-- ===== src/CriticalSection/Races.antt =====
-- Orders of the steps of `Enter` and `Leave` that go wrong: `Leave` tests the word and writes it in two
-- steps, and `Enter` sets the waiters bit of a word that may have changed.
use dd_framework.Base.{ℕ, ◌^◌, ◌<◌, ◌≡◌, ◌≢◌, refl, sym, ◌∙◌, ok, fault, ==_refl, ==_ne}
use dd_framework.HandleTable.{get_object_by_handle}
use dd_framework.ResultCode.{result_success}
use dd_framework.Scheduler.State.{Scheduler, suspended_list, set_word, has_child_waiters_bit}
use dd_framework.Scheduler.Threads.{get_fiber_by_handle}
use dd_framework.Scheduler.Locks.{arbitrate_lock_impl}
use dd_framework.Scheduler.Links.{Queues, Waiters, IsLinked}
use dd_framework.Scheduler.Links.Queues.{enter}
use dd_framework.Scheduler.Links.Wait.{enter_wait}
use dd_framework.CriticalSection.{
  step, steps, outside, acquiring, marking, blocking, asleep, inside, clearing,
}
use dd_framework.CriticalSection.Steps.{steps-then}
use dd_framework.CriticalSection.Free.{low-has_no_waiters}
use dd_framework.CriticalSection.HandOver.{Contended, fiber_handle, marked, blocked}

-- Where a section, at an address that is not null, is held by a handle without the waiters bit: if the owner leaves between a caller's
-- read of the word and its `Or`, then the word is left with the waiters bit alone, and the caller's
-- next round asks the scheduler for the handle 0 and aborts the process.
pub freed-before_mark :
    (n cs : ℕ) (s : Scheduler) (owner current handle : ℕ)
    → cs ≢ 0
    → s.words cs ≡ handle
    → handle ≢ 0
    → handle < 2 ^ 30
    → let freed = set_word s cs 0 in
      (steps 2 n cs s current outside ≡ ok (s, marking handle))
      × (steps 2 n cs s owner inside ≡ ok (freed, outside))
      × (steps 1 n cs freed current (marking handle)
          ≡ ok (set_word freed cs has_child_waiters_bit, acquiring))
      × (steps 3 n cs freed current (marking handle) ≡ fault)
unfolding steps step arbitrate_lock_impl get_fiber_by_handle get_object_by_handle
freed-before_mark n cs s owner current handle some held nz small = (
  rw (held, ==_ne handle 0 nz, low-has_no_waiters handle small) refl,
  rw (held, low-has_no_waiters handle small) refl,
  rw (==_refl cs, ==_ne 0 handle (λ e. nz (sym e))) refl,
  rw (==_refl cs, ==_ne 0 handle (λ e. nz (sym e)), ==_refl cs, ==_ne cs 0 some) refl,
)

module _ {live : ℕ → Type 0} {queues : Queues} {waiters : Waiters} {s : Scheduler}
    {cs owner current handle : ℕ} where
  -- Where another fiber holds the section: if the owner's `Leave` tests the word after the caller has
  -- read it and before the caller sets the waiters bit, then the caller goes to sleep as the owner's
  -- last waiter, and `Leave` clears the word without a look at its waiters: the section is free while
  -- the caller sleeps in the wait list of the fiber that has left it.
  pub wakeup-lost :
      (n : ℕ)
      → Contended live queues waiters s cs owner current handle
      → (s' : Scheduler) × (steps 2 n cs s current outside ≡ ok (s, marking handle))
        × (steps 1 n cs s owner inside ≡ ok (s, clearing))
        × (steps 2 n cs s current (marking handle) ≡ ok (s', asleep result_success))
        × (steps 1 n cs s' owner clearing ≡ ok (set_word s' cs 0, outside))
        × ((set_word s' cs 0).words cs ≡ 0)
        × IsLinked live
            (set_word s' cs 0).nodes
            (enter queues suspended_list current)
            (enter_wait waiters owner current)
  unfolding steps step
  wakeup-lost n c =
      let (small, nz) = fiber_handle s handle owner c.named c.owner_some in
      let (s', run, linked, fibers, words) = blocked c n in
      (
        s',
        rw (c.held, ==_ne handle 0 nz, low-has_no_waiters handle small) refl,
        rw (c.held, low-has_no_waiters handle small) refl,
        rw (c.held, ==_refl handle)
            (steps-then 0 n cs (marked c) (marked c) current (blocking handle) (blocking handle)
                refl
              ∙ run),
        refl,
        rw (==_refl cs) refl,
        linked,
      )
