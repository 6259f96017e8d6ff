-- ===== src/Scheduler/Links/Transfer.antt =====
-- The loop that gives the waiters of one fiber to another, on the lists as sequences of fibers.
use dd_framework.Base.{
  ℕ, zero, suc, ◌<◌, ◌≡◌, ◌≢◌, refl, sym, ap, subst, ◌∙◌, List, [], ◌∷◌, map, arith, if_pos, if_neg,
  ok, fault, true, false, inl, inr, Bool-cases, ℕ_discrete,
}
use dd_framework.IntrusiveList
use dd_framework.IntrusiveList.Chain.{NotIn}
use dd_framework.IntrusiveList.Ring.{Ring, AllOut, length}
use dd_framework.IntrusiveList.Drain.{
  tail, tail-NotIn, begin-deref, begin-deref_empty, begin-ne, begin-shift,
}
use dd_framework.IntrusiveList.Moves.{is_empty-Ring}
use dd_framework.Scheduler.State.{Scheduler, Ref, Ref-discrete, wait_list_node, wait_list_root}
use dd_framework.Scheduler.Lists.{
  unlink_wait, push_wait, transfer_loop, transfer_wait_list, pop_waiter, wait_list_empty,
}
use dd_framework.Scheduler.Links.{Queues, Waiters, IsLinked}
use dd_framework.Scheduler.Links.Maps.{wait_node_inj, NotIn-map}
use dd_framework.Scheduler.Links.Wait.{enter_wait, WaitsNowhere, enter_wait-IsLinked}
use dd_framework.Scheduler.Links.LeaveWait.{replace_wait, leave_wait-IsLinked}
use dd_framework.Scheduler.Links.Join.{AllLive}

NotIn-unmap : (f : ℕ) (xs : List ℕ) → NotIn (wait_list_node f) (map wait_list_node xs) → NotIn f xs
NotIn-unmap f [] n = tt
NotIn-unmap f (x ∷ xs) n = ((λ e. n.0 (ap wait_list_node e)), NotIn-unmap f xs n.1)

module _ {live : ℕ → Type 0} {queues : Queues} {waiters : Waiters} where
  -- The first waiter leaves the list of `owner`.
  pub first-leaves :
      (s : Scheduler) (owner f : ℕ) (fs : List ℕ)
      → IsLinked live s.nodes queues waiters
      → live owner
      → waiters owner ≡ f ∷ fs
      → IsLinked live (unlink_wait s f).nodes queues (replace_wait waiters owner fs)
  unfolding IntrusiveList.remove
  first-leaves s owner f fs l lo at = leave_wait-IsLinked l owner f lo [] fs at

  first-Ring :
      (s : Scheduler) (owner : ℕ) (fs : List ℕ)
      → IsLinked live s.nodes queues waiters
      → live owner
      → waiters owner ≡ fs
      → Ring s.nodes (wait_list_root owner) (map wait_list_node fs)
  first-Ring s owner fs l lo at =
      subst (λ gs. Ring s.nodes (wait_list_root owner) (map wait_list_node gs)) at
        (l.wait_ring owner lo)

  pub first-WaitsNowhere :
      (s : Scheduler) (owner f : ℕ) (fs : List ℕ)
      → IsLinked live s.nodes queues waiters
      → live owner
      → waiters owner ≡ f ∷ fs
      → WaitsNowhere (replace_wait waiters owner fs) f
  first-WaitsNowhere s owner f fs l lo at g = elim (ℕ_discrete g owner) [
    | yes e ↦
        rw (if_pos (ℕ_discrete g owner) e)
          (NotIn-unmap f fs (first-Ring s owner (f ∷ fs) l lo at).distinct.0)
    | no n ↦
        rw (if_neg (ℕ_discrete g owner) n)
          ((subst (λ gs. AllOut gs (waiters g)) at (l.waits_apart owner g (λ e. n (sym e)))).0)
  ]

-- One round of the loop, on the fiber `f`.
transfer-round :
    (n : ℕ) (s : Scheduler) (it last : Ref) (target f : ℕ)
    → it ≢ last
    → IntrusiveList.deref s.nodes it ≡ wait_list_node f
    → let s' = push_wait (unlink_wait s f) target f in
      transfer_loop (suc n) s it last target ≡ transfer_loop n s' (s'.nodes.next it) last target
unfolding transfer_loop
transfer-round n s it last target f ne e = elim (Ref-discrete it last) [
  | yes same ↦ absurd (ne same)
  | no other ↦ ground (arith, e)
]

transfer-past :
    (n : ℕ) (s : Scheduler) (it last : Ref) (target from : ℕ)
    → it ≢ last
    → IntrusiveList.deref s.nodes it ≡ wait_list_root from
    → transfer_loop (suc n) s it last target ≡ fault
unfolding transfer_loop
transfer-past n s it last target from ne e = elim (Ref-discrete it last) [
  | yes same ↦ absurd (ne same)
  | no other ↦ ground (arith, e)
]

abbrev moved : Waiters → ℕ → ℕ → ℕ → List ℕ → Waiters
moved waiters from target f fs = enter_wait (replace_wait waiters from fs) target f

moved-from :
    (waiters : Waiters) (from target f : ℕ) (fs : List ℕ)
    → from ≢ target
    → moved waiters from target f fs from ≡ fs
moved-from waiters from target f fs ne =
    rw (if_neg (ℕ_discrete from target) ne, if_pos (ℕ_discrete from from) refl) refl

-- A loop that moves every waiter to `target` does not come to its end: when all waiters have gone it
-- stands on the list's root, which belongs to no fiber.
module _ {live : ℕ → Type 0} {queues : Queues} (from target : ℕ) (ne : from ≢ target)
    (lf : live from) (lt : live target) where
  move-IsLinked :
      {waiters : Waiters} (s : Scheduler) (f : ℕ) (fs : List ℕ)
      → IsLinked live s.nodes queues waiters
      → live f
      → waiters from ≡ f ∷ fs
      → IsLinked live
          (push_wait (unlink_wait s f) target f).nodes
          queues
          (moved waiters from target f fs)
  move-IsLinked s f fs l lv at =
      enter_wait-IsLinked (first-leaves s from f fs l lf at) target f lt lv
        (first-WaitsNowhere s from f fs l lf at)

  transfer_loop-fault :
      (fs : List ℕ) (n : ℕ) (s : Scheduler) (v : ℕ) {waiters : Waiters}
      → IsLinked live s.nodes queues waiters
      → AllLive live fs
      → waiters from ≡ fs
      → NotIn v (tail fs)
      → length fs < n
      → transfer_loop n s
          (IntrusiveList.begin s.nodes (wait_list_root from))
          (wait_list_node v)
          target
        ≡ fault
  transfer_loop-fault fs zero s v l al at out h = elim h [ ]
  transfer_loop-fault [] (suc n) s v l al at out h =
      let r = first-Ring s from [] l lf at in
      transfer-past n s (IntrusiveList.begin s.nodes (wait_list_root from)) (wait_list_node v)
        target from (begin-ne s.nodes (wait_list_root from) (wait_list_node v) [] r (λ e. cc) tt)
        (begin-deref_empty s.nodes (wait_list_root from) r)
  transfer_loop-fault (f ∷ fs) (suc n) s v {waiters} l al at out h =
      let r = first-Ring s from (f ∷ fs) l lf at in
      let s' = push_wait (unlink_wait s f) target f in
      let l' = move-IsLinked s f fs l al.0 at in
      let r' = first-Ring s' from fs l' lf (moved-from waiters from target f fs ne) in
      let it = IntrusiveList.begin s.nodes (wait_list_root from) in
      transfer-round n s it (wait_list_node v) target f
        (begin-ne s.nodes (wait_list_root from) (wait_list_node v) (map wait_list_node (f ∷ fs)) r
          (λ e. cc) (NotIn-map wait_list_node wait_node_inj v fs out))
        (begin-deref s.nodes (wait_list_root from) (wait_list_node f) (map wait_list_node fs) r)
      ∙ rw
          (begin-shift s.nodes (wait_list_root from) s'.nodes (wait_list_node f)
            (map wait_list_node fs) r r')
          (transfer_loop-fault fs n s' v l' al.1 (moved-from waiters from target f fs ne)
            (tail-NotIn v fs out) (omega arith))

  -- With a waiter left, "Transfer wait list" runs past the list's root.
  pub transfer_wait_list-fault :
      (f : ℕ) (fs : List ℕ) (n : ℕ) (s : Scheduler) {waiters : Waiters}
      → IsLinked live s.nodes queues waiters
      → AllLive live (f ∷ fs)
      → waiters from ≡ f ∷ fs
      → suc (length fs) < n
      → transfer_wait_list n s from target ≡ fault
  unfolding transfer_wait_list
  transfer_wait_list-fault f fs n s l al at h =
      let r = first-Ring s from (f ∷ fs) l lf at in
      subst
        (λ last.
          transfer_loop n s (IntrusiveList.begin s.nodes (wait_list_root from)) last target ≡ fault)
        (sym r.path.0)
        (transfer_loop-fault (f ∷ fs) n s f l al at (NotIn-unmap f fs r.distinct.0) h)

module _ {live : ℕ → Type 0} {queues : Queues} {waiters : Waiters} (s : Scheduler) (owner : ℕ)
    (l : IsLinked live s.nodes queues waiters) (lo : live owner) where
  pub pop_waiter-first :
      (f : ℕ) (fs : List ℕ) → waiters owner ≡ f ∷ fs → pop_waiter s owner ≡ ok (unlink_wait s f, f)
  unfolding pop_waiter IntrusiveList.pop_front
  pop_waiter-first f fs at = rw (first-Ring s owner (f ∷ fs) l lo at).path.0 refl

  pub none_waits : waiters owner ≡ [] → wait_list_empty s owner ≡ true
  none_waits at =
      (is_empty-Ring Ref-discrete s.nodes (wait_list_root owner) []
          (first-Ring s owner [] l lo at)).1
        refl

  pub some_waits : (f : ℕ) (fs : List ℕ) → waiters owner ≡ f ∷ fs → wait_list_empty s owner ≡ false
  some_waits f fs at = elim (Bool-cases (wait_list_empty s owner)) [
    | inl e ↦
        let h =
          (is_empty-Ring Ref-discrete s.nodes (wait_list_root owner) (map wait_list_node (f ∷ fs))
              (first-Ring s owner (f ∷ fs) l lo at)).0
            e in
        cc
    | inr e ↦ e
  ]

  -- Nobody left: the transfer does nothing, in one round.
  pub transfer-none :
      (n target : ℕ) → waiters owner ≡ [] → transfer_wait_list (suc n) s owner target ≡ ok s
  unfolding transfer_wait_list transfer_loop
  transfer-none n target at = ground (arith, (first-Ring s owner [] l lo at).path)
