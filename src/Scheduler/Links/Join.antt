-- ===== src/Scheduler/Links/Join.antt =====
-- `ArbitrateLockImpl` and the waits for an address of ukern_scheduler.cpp on the lists as sequences of
-- fibers.
use Prim.Native.Nat.{bit_or}
use dd_framework.Base.{
  ℕ, ◌<◌, ◌≡◌, ◌≢◌, refl, sym, subst, List, [], ◌∷◌, Option, none, some, ok, ◌==◌, ==_ne, ==_refl,
  Signed, inl, inr, Bool-cases, arith, update,
}
use dd_framework.IntrusiveList.Ring.{length}
use dd_framework.IntrusiveList.Moves.{unlink-Alone}
use dd_framework.ResultCode.{result_success}
use dd_framework.Scheduler.State.{
  Scheduler, Fiber, Ref-discrete, scheduler_list_node, has_child_waiters_bit, lock_arbiter, waiting,
  suspended_list, wait_list, set_fiber,
}
use dd_framework.Scheduler.Lists.{push_wait, push_scheduler, unlink_scheduler}
use dd_framework.Scheduler.Threads.{get_fiber_by_handle, switched}
use dd_framework.Scheduler.Locks.{arbitrate_lock_impl}
use dd_framework.Scheduler.Addresses.{enter_address_wait, set_address_wait, join_address}
use dd_framework.Scheduler.Visits.{first_at, find_address-first_at}
use dd_framework.Scheduler.Links.{Queues, Waiters, IsLinked}
use dd_framework.Scheduler.Links.Queues.{enter, InNone, push-IsLinked}
use dd_framework.Scheduler.Links.Wait.{enter_wait, WaitsNowhere, enter_wait-IsLinked}

-- What `ArbitrateLock` stores in the fiber that waits.
abbrev pub lock_wait : Fiber → ℕ → ℕ → Fiber
lock_wait b lock_address tag = record b {
  waitable_object = lock_arbiter;
  lock_address = lock_address;
  wait_tag = tag;
  fiber_state = waiting;
}

module _ {live : ℕ → Type 0} {queues : Queues} {waiters : Waiters} where
  -- A constructed fiber in no list that asks for a lock, where the handle names another constructed
  -- fiber and the lock's word is this handle with the waiters bit, becomes the last waiter of that
  -- fiber and the last of the suspended fibers, with the lock's address and its tag stored. No
  -- other fiber and no word of user memory changes.
  pub arbitrate_lock_impl_lem :
      (s : Scheduler) (current handle lock_address tag owner : ℕ)
      → IsLinked live s.nodes queues waiters
      → live current
      → live owner
      → InNone queues current
      → WaitsNowhere waiters current
      → lock_address ≢ 0
      → get_fiber_by_handle s handle ≡ ok owner
      → owner ≢ 0
      → owner ≢ current
      → s.words lock_address ≡ bit_or handle has_child_waiters_bit
      → (s' : Scheduler) × (arbitrate_lock_impl s current handle lock_address tag
          ≡ ok (s', switched result_success))
        × IsLinked live s'.nodes
            (enter queues suspended_list current)
            (enter_wait waiters owner current)
        × (s'.fibers ≡ update s.fibers current (lock_wait (s.fibers current) lock_address tag))
        × (s'.words ≡ s.words)
  unfolding arbitrate_lock_impl
  arbitrate_lock_impl_lem s current handle lock_address tag owner l lc lo out nowhere na eh nz ne
        ew =
      let s1 = set_fiber s current (lock_wait (s.fibers current) lock_address tag) in
      let s2 = push_wait s1 owner current in
      let joined = enter_wait-IsLinked l owner current lo lc nowhere in
      let alone = joined.queue_alone current lc out in
      let same = unlink-Alone Ref-discrete s2.nodes (scheduler_list_node current) alone in
      (
        push_scheduler (unlink_scheduler s2 current) suspended_list current,
        rw
            (
              ==_ne lock_address 0 na,
              eh,
              ==_ne owner 0 nz,
              ==_ne owner current ne,
              ew,
              ==_refl (bit_or handle has_child_waiters_bit),
            )
            refl,
        push-IsLinked
            (subst (λ nodes. IsLinked live nodes queues (enter_wait waiters owner current))
              (sym same) joined)
            suspended_list current lc out,
        refl,
        refl,
      )

abbrev pub AllLive : (ℕ → Type 0) → List ℕ → Type 0
AllLive live [] = Unit {0}
AllLive live (f ∷ fs) = live f × AllLive live fs

first_at-live :
    (live : ℕ → Type 0) (s : Scheduler) (address p : ℕ) (fs : List ℕ)
    → AllLive live fs
    → first_at s address fs ≡ some p
    → live p
first_at-live live s address p [] a e = cc
first_at-live live s address p (f ∷ fs) a e =
    elim (Bool-cases ((s.fibers f).wait_address == address)) [
      | inl h ↦ subst live (ground (arith, h)) a.0
      | inr h ↦ first_at-live live s address p fs a.1 (ground (arith, h))
    ]

-- Where a fiber stands that starts to wait: behind the fiber that waits on the address already, or
-- else in the scheduler's wait list.
abbrev pub queues_joined : Queues → Option ℕ → ℕ → Queues
queues_joined queues none f = enter queues wait_list f
queues_joined queues (some p) f = queues

abbrev pub waiters_joined : Waiters → Option ℕ → ℕ → Waiters
waiters_joined waiters none f = waiters
waiters_joined waiters (some p) f = enter_wait waiters p f

module _ {live : ℕ → Type 0} {queues : Queues} {waiters : Waiters} where
  join-IsLinked :
      (s : Scheduler) (f : ℕ)
      → IsLinked live s.nodes queues waiters
      → live f
      → InNone queues f
      → WaitsNowhere waiters f
      → (parent : Option ℕ) → ((p : ℕ) → parent ≡ some p → live p)
      → IsLinked live
          (join_address s parent f).nodes
          (queues_joined queues parent f)
          (waiters_joined waiters parent f)
  join-IsLinked s f l lf out nowhere none lp = push-IsLinked l wait_list f lf out
  join-IsLinked s f l lf out nowhere (some p) lp = enter_wait-IsLinked l p f (lp p refl) lf nowhere

  -- On well-formed lists of constructed fibers, a fiber in no list that starts to wait for an
  -- address joins the first fiber of the wait list with this address, or else the wait list itself.
  -- More rounds than the wait list has fibers are enough.
  pub enter_address_wait_lem :
      (n : ℕ) (s : Scheduler) (f wait_address : ℕ) (absolute_timeout : Signed)
      → IsLinked live s.nodes queues waiters
      → live f
      → AllLive live (queues wait_list)
      → InNone queues f
      → WaitsNowhere waiters f
      → length (queues wait_list) < n
      → let b = set_address_wait (s.fibers f) wait_address absolute_timeout in
        let parent = first_at (set_fiber s f b) wait_address (queues wait_list) in
        (s' : Scheduler) × (enter_address_wait n s f wait_address absolute_timeout
          ≡ ok (s', switched result_success))
        × IsLinked live s'.nodes (queues_joined queues parent f) (waiters_joined waiters parent f)
  unfolding enter_address_wait
  enter_address_wait_lem n s f wait_address absolute_timeout l lf al out nowhere h =
      let b = set_address_wait (s.fibers f) wait_address absolute_timeout in
      let s1 = set_fiber s f b in
      let parent = first_at s1 wait_address (queues wait_list) in
      (
        join_address s1 parent f,
        rw (find_address-first_at s1 wait_address (queues wait_list) n (l.queue_ring wait_list) h)
            refl,
        join-IsLinked s1 f l lf out nowhere parent
            (λ p e. first_at-live live s1 wait_address p (queues wait_list) al e),
      )
