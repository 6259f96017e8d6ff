-- ===== src/Scheduler/Links/LeaveWait.antt =====
-- A fiber leaves the wait list that it is in; every other list is as it was.
use dd_framework.Base.{
  ℕ, ◌≡◌, ◌≢◌, sym, ap, subst, ◌∙◌, List, ◌∷◌, ◌++◌, map, ite, if_pos, if_neg, ℕ_discrete,
}
use dd_framework.IntrusiveList.{Nodes, remove}
use dd_framework.IntrusiveList.Chain.{NotIn}
use dd_framework.IntrusiveList.Ring.{Ring, Alone, AllOut}
use dd_framework.IntrusiveList.Moves.{remove-Ring, remove-frame, remove-Alone}
use dd_framework.Scheduler.State.{
  Queue, Ref, Ref-discrete, root, scheduler_list_node, wait_list_node, wait_list_root,
}
use dd_framework.Scheduler.Links.{Queues, Waiters, IsLinked}
use dd_framework.Scheduler.Links.Queues.{InNone}
use dd_framework.Scheduler.Links.Wait.{WaitsNowhere, wait_root_inj, wait_nodes-apart, not_queued}
use dd_framework.Scheduler.Links.Maps.{
  NotIn-map, NotIn-map_other, AllOut-map_other, map-append_at, wait_node_inj, AllOut-shrink,
  AllOut-shrink_right, NotIn-grow,
}

-- The wait lists with `xs` for the list of `owner`.
abbrev pub replace_wait : Waiters → ℕ → List ℕ → Waiters
replace_wait waiters owner xs g = ite (ℕ_discrete g owner) xs (waiters g)

module _ {live : ℕ → Type 0} {nodes : Nodes Ref} {queues : Queues} {waiters : Waiters}
    (l : IsLinked live nodes queues waiters) (owner f : ℕ) (lo : live owner) (xs ys : List ℕ)
    (at : waiters owner ≡ xs ++ f ∷ ys) where
  abbrev after_leave : Nodes Ref
  after_leave = remove Ref-discrete nodes (wait_list_node f)

  abbrev node_list : List ℕ → List Ref
  node_list = map wait_list_node

  nodes_of :
      (zs : List ℕ)
      → zs ≡ xs ++ f ∷ ys
      → node_list zs ≡ node_list xs ++ wait_list_node f ∷ node_list ys
  nodes_of zs e = ap node_list e ∙ map-append_at wait_list_node xs (f ∷ ys)

  leave-Ring : Ring nodes (wait_list_root owner) (node_list xs ++ wait_list_node f ∷ node_list ys)
  leave-Ring =
      subst (Ring nodes (wait_list_root owner)) (nodes_of (waiters owner) at) (l.wait_ring owner lo)

  removed :
      Ring after_leave (wait_list_root owner) (node_list xs ++ node_list ys)
      × Alone after_leave (wait_list_node f)
  removed =
      remove-Ring Ref-discrete nodes (wait_list_root owner) (wait_list_node f) (node_list xs)
        (node_list ys) leave-Ring

  -- A list that holds no node of the wait list is as it was.
  leave-other :
      (r : Ref) (zs : List Ref)
      → Ring nodes r zs
      → NotIn (wait_list_root owner) (r ∷ zs)
      → AllOut (node_list (waiters owner)) (r ∷ zs)
      → Ring after_leave r zs
  leave-other r zs h out apart =
      remove-frame Ref-discrete nodes (wait_list_root owner) (wait_list_node f) (node_list xs)
        (node_list ys) r zs leave-Ring h
        (out, subst (λ ws. AllOut ws (r ∷ zs)) (nodes_of (waiters owner) at) apart)

  -- A node that is in no wait list stays as it was.
  leave-Alone :
      (r : Ref)
      → r ≢ wait_list_root owner
      → NotIn r (node_list (waiters owner))
      → Alone nodes r
      → Alone after_leave r
  leave-Alone r ne out =
      remove-Alone Ref-discrete nodes (wait_list_root owner) (wait_list_node f) (node_list xs)
        (node_list ys) r leave-Ring (ne, subst (NotIn r) (nodes_of (waiters owner) at) out)

  leave_wait-Ring :
      (g : ℕ)
      → live g
      → Ring after_leave (wait_list_root g) (node_list (replace_wait waiters owner (xs ++ ys) g))
  leave_wait-Ring g lg = elim (ℕ_discrete g owner) [
    | yes e ↦ rw (if_pos (ℕ_discrete g owner) e, e, map-append_at wait_list_node xs ys) removed.0
    | no n ↦ rw (if_neg (ℕ_discrete g owner) n) (
        leave-other (wait_list_root g) (node_list (waiters g)) (l.wait_ring g lg)
          (
            (λ h. n (sym (wait_root_inj owner g h))),
            NotIn-map_other wait_list_node (wait_list_root owner) (λ k h. cc) (waiters g),
          )
          (wait_nodes-apart l (waiters owner) (waiters g) g
            (l.waits_apart owner g (λ h. n (sym h)))))
  ]

  leave_wait-queue-Ring :
      (q : Queue) → Ring after_leave (root q) (map scheduler_list_node (queues q))
  leave_wait-queue-Ring q =
      leave-other (root q) (map scheduler_list_node (queues q)) (l.queue_ring q)
        (not_queued l q (wait_list_root owner) (λ h. cc) (λ h e. cc))
        (AllOut-map_other wait_list_node (root q ∷ map scheduler_list_node (queues q))
          (λ h. not_queued l q (wait_list_node h) (λ e. cc) (λ k e. cc)) (waiters owner))

  leave-waits_apart :
      (g h : ℕ)
      → g ≢ h
      → AllOut (replace_wait waiters owner (xs ++ ys) g) (replace_wait waiters owner (xs ++ ys) h)
  leave-waits_apart g h ne = elim (ℕ_discrete g owner) [
    | yes e ↦
        rw (if_pos (ℕ_discrete g owner) e, if_neg (ℕ_discrete h owner) (λ k. ne (e ∙ sym k)))
          (AllOut-shrink f ys (waiters h) xs
            (subst (λ zs. AllOut zs (waiters h)) (ap waiters e ∙ at) (l.waits_apart g h ne)))
    | no n ↦ rw (if_neg (ℕ_discrete g owner) n) (elim (ℕ_discrete h owner) [
      | yes e ↦ rw (if_pos (ℕ_discrete h owner) e) (
          AllOut-shrink_right f ys xs (waiters g)
            (subst (AllOut (waiters g)) (ap waiters e ∙ at) (l.waits_apart g h ne)))
      | no m ↦ rw (if_neg (ℕ_discrete h owner) m) (l.waits_apart g h ne)
    ])
  ]

  -- A fiber that waits nowhere afterwards is the one that left, or waited nowhere before.
  before_leave :
      (g : ℕ)
      → g ≢ f
      → WaitsNowhere (replace_wait waiters owner (xs ++ ys)) g
      → WaitsNowhere waiters g
  before_leave g ne o h = elim (ℕ_discrete h owner) [
    | yes e ↦ subst (NotIn g) (sym (ap waiters e ∙ at)) (
        NotIn-grow g f ys xs ne
          (subst (NotIn g) (if_pos (ℕ_discrete h owner) e (xs ++ ys) (waiters h)) (o h)))
    | no n ↦ subst (NotIn g) (if_neg (ℕ_discrete h owner) n (xs ++ ys) (waiters h)) (o h)
  ]

  leave_wait-Alone :
      (g : ℕ)
      → live g
      → WaitsNowhere (replace_wait waiters owner (xs ++ ys)) g
      → Alone after_leave (wait_list_node g)
  leave_wait-Alone g lg o = elim (ℕ_discrete g f) [
    | yes e ↦ rw e removed.1
    | no n ↦
        let out = before_leave g n o in
        leave-Alone (wait_list_node g) (λ h. cc)
          (NotIn-map wait_list_node wait_node_inj g (waiters owner) (out owner))
          (l.wait_alone g lg out)
  ]

  leave_wait-queue-Alone :
      (g : ℕ) → live g → InNone queues g → Alone after_leave (scheduler_list_node g)
  leave_wait-queue-Alone g lg o =
      leave-Alone (scheduler_list_node g) (λ h. cc)
        (NotIn-map_other wait_list_node (scheduler_list_node g) (λ k h. cc) (waiters owner))
        (l.queue_alone g lg o)

  -- `Unlink` of a fiber's wait node takes it out of its wait list.
  pub leave_wait-IsLinked : IsLinked live after_leave queues (replace_wait waiters owner (xs ++ ys))
  leave_wait-IsLinked = record {
    queue_ring = leave_wait-queue-Ring;
    wait_ring = leave_wait-Ring;
    queues_apart = l.queues_apart;
    waits_apart = leave-waits_apart;
    queue_alone = leave_wait-queue-Alone;
    wait_alone = leave_wait-Alone;
  }
