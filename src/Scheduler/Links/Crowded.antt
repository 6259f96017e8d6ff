-- ===== src/Scheduler/Links/Crowded.antt =====
-- `ArbitrateUnlock` on the scheduler's lists as sequences of fibers: with one waiter, and with more.
use Prim.Native.Nat.{bit_or}
use dd_framework.Base.{
  ℕ, suc, ◌<◌, ◌≡◌, ◌≢◌, refl, sym, ◌∙◌, List, [], ◌∷◌, ◌++◌, ==_refl, ==_ne, ok, fault, update,
  if_pos, ℕ_discrete,
}
use dd_framework.IntrusiveList.Ring.{length}
use dd_framework.ResultCode.{result_success}
use dd_framework.Scheduler.State.{
  Scheduler, Queue, set_fiber, set_word, lock_arbiter, has_child_waiters_bit,
}
use dd_framework.Scheduler.Lists.{unlink_wait}
use dd_framework.Scheduler.Waits.{release_lock_wait_list_unsafe, clear_waiters_bit}
use dd_framework.Scheduler.Locks.{arbitrate_unlock_impl}
use dd_framework.Scheduler.Links.{Queues, Waiters, IsLinked}
use dd_framework.Scheduler.Links.Queues.{replace}
use dd_framework.Scheduler.Links.LeaveWait.{replace_wait}
use dd_framework.Scheduler.Links.Join.{AllLive}
use dd_framework.Scheduler.Links.Schedule.{destination, enter_at}
use dd_framework.Scheduler.Links.Transfer.{
  first-leaves, pop_waiter-first, some_waits, transfer_wait_list-fault,
}
use dd_framework.Scheduler.Links.Unlock.{woken, release_lock_wait_list_unsafe_lem}

module _ {live : ℕ → Type 0} {queues : Queues} {waiters : Waiters} where
  -- With a second waiter, the hand-over runs past the list's root.
  release-fault :
      (n : ℕ) (s : Scheduler) (owner next_owner v : ℕ) (vs : List ℕ)
      → IsLinked live s.nodes queues waiters
      → live owner
      → AllLive live (next_owner ∷ v ∷ vs)
      → owner ≢ next_owner
      → waiters owner ≡ next_owner ∷ v ∷ vs
      → (s.fibers next_owner).lock_address ≢ 0
      → suc (length vs) < n
      → release_lock_wait_list_unsafe n s owner ≡ fault
  unfolding release_lock_wait_list_unsafe
  release-fault n s owner next_owner v vs l lo al ne at na h =
      let b = s.fibers next_owner in
      let left = first-leaves s owner next_owner (v ∷ vs) l lo at in
      let rest = if_pos (ℕ_discrete owner owner) refl (v ∷ vs) (waiters owner) in
      let s2 =
        set_fiber
          (set_word (unlink_wait s next_owner) b.lock_address
            (bit_or b.wait_tag has_child_waiters_bit))
          next_owner (record b { lock_address = 0; wait_tag = 0 }) in
      rw
        (
          some_waits s owner l lo next_owner (v ∷ vs) at,
          pop_waiter-first s owner l lo next_owner (v ∷ vs) at,
          some_waits (unlink_wait s next_owner) owner left lo v vs rest,
          ==_ne b.lock_address 0 na,
          transfer_wait_list-fault owner next_owner ne lo al.0 v vs n s2 left al.1 rest h,
        )
        refl

  -- On well-formed lists of constructed fibers, where the current fiber's handle is the lock's word
  -- without its waiters bit and one fiber waits for the lock: `ArbitrateUnlock` succeeds, the word
  -- becomes the waiter's tag, and the waiter goes from its queue to the end of the queue where it
  -- belongs, with its wait over and success as its result. No other fiber, word or list changes, but
  -- that the current fiber has no waiter any more.
  pub arbitrate_unlock_impl_lem :
      (n : ℕ) (s : Scheduler) (current lock_address next_owner : ℕ) (q : Queue) (xs ys : List ℕ)
      → IsLinked live s.nodes queues waiters
      → live current
      → live next_owner
      → lock_address ≢ 0
      → (s.fibers current).ukern_fiber_handle ≡ clear_waiters_bit (s.words lock_address)
      → waiters current ≡ next_owner ∷ []
      → queues q ≡ xs ++ next_owner ∷ ys
      → (s.fibers next_owner).waitable_object ≡ lock_arbiter
      → (s.fibers next_owner).lock_address ≡ lock_address
      → let b = s.fibers next_owner in
        (s' : Scheduler) × (arbitrate_unlock_impl (suc n) s current lock_address
          ≡ ok (s', result_success))
        × IsLinked live s'.nodes
            (enter_at (replace queues q (xs ++ ys)) (destination b) next_owner)
            (replace_wait waiters current [])
        × (s'.words ≡ update s.words lock_address b.wait_tag)
        × (s'.fibers next_owner ≡ woken b)
        × ((g : ℕ) → g ≢ next_owner → s'.fibers g ≡ s.fibers g)
  unfolding arbitrate_unlock_impl
  arbitrate_unlock_impl_lem n s current lock_address next_owner q xs ys l lc lw na eh one at arbiter
        ea =
      let (s', run, linked, words, self, rest) =
        release_lock_wait_list_unsafe_lem n s current next_owner q xs ys l lc lw one at arbiter
          (λ e. na (sym ea ∙ e)) in
      (
        s',
        rw
            (
              ==_ne lock_address 0 na,
              some_waits s current l lc next_owner [] one,
              eh,
              ==_refl (clear_waiters_bit (s.words lock_address)),
              run,
            )
            refl,
        linked,
        words ∙ rw ea refl,
        self,
        rest,
      )

  -- On well-formed lists of constructed fibers, with two fibers or more that wait for the lock of
  -- the current fiber and a lock address stored in the first one: however many rounds above their
  -- number are given, `ArbitrateUnlock` reads past the root of the wait list.
  pub arbitrate_unlock_impl-fault :
      (n : ℕ) (s : Scheduler) (current lock_address next_owner v : ℕ) (vs : List ℕ)
      → IsLinked live s.nodes queues waiters
      → live current
      → AllLive live (next_owner ∷ v ∷ vs)
      → current ≢ next_owner
      → lock_address ≢ 0
      → (s.fibers current).ukern_fiber_handle ≡ clear_waiters_bit (s.words lock_address)
      → waiters current ≡ next_owner ∷ v ∷ vs
      → (s.fibers next_owner).lock_address ≢ 0
      → suc (length vs) < n
      → arbitrate_unlock_impl n s current lock_address ≡ fault
  unfolding arbitrate_unlock_impl
  arbitrate_unlock_impl-fault n s current lock_address next_owner v vs l lc al ne na eh at nz h =
      rw
        (
          ==_ne lock_address 0 na,
          some_waits s current l lc next_owner (v ∷ vs) at,
          eh,
          ==_refl (clear_waiters_bit (s.words lock_address)),
          release-fault n s current next_owner v vs l lc al ne at nz h,
        )
        refl
