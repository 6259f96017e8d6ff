-- ===== src/Scheduler/Links/Leave.antt =====
-- A fiber leaves the queue that it is in; every other list is as it was.
use dd_framework.Base.{
  ℕ, ◌≡◌, ◌≢◌, sym, ap, subst, ◌∙◌, List, ◌∷◌, ◌++◌, map, if_pos, if_neg, ℕ_discrete,
}
use dd_framework.IntrusiveList.{Nodes, remove}
use dd_framework.IntrusiveList.Chain.{NotIn}
use dd_framework.IntrusiveList.Ring.{Ring, Alone, AllOut}
use dd_framework.IntrusiveList.Moves.{remove-Ring, remove-frame, remove-Alone}
use dd_framework.Scheduler.State.{
  Queue, Ref, Ref-discrete, Queue-discrete, root, scheduler_list_node, wait_list_node,
  wait_list_root,
}
use dd_framework.Scheduler.Links.{Queues, Waiters, IsLinked}
use dd_framework.Scheduler.Links.Queues.{replace, InNone, queue_nodes-apart, not_waiting}
use dd_framework.Scheduler.Links.Maps.{
  NotIn-map, NotIn-map_other, AllOut-map_other, map-append_at, scheduler_node_inj, root_inj,
  AllOut-shrink, AllOut-shrink_right, NotIn-grow,
}

module _ {live : ℕ → Type 0} {nodes : Nodes Ref} {queues : Queues} {waiters : Waiters}
    (l : IsLinked live nodes queues waiters) (q : Queue) (f : ℕ) (xs ys : List ℕ)
    (at : queues q ≡ xs ++ f ∷ ys) where
  abbrev after_leave : Nodes Ref
  after_leave = remove Ref-discrete nodes (scheduler_list_node f)

  abbrev node_list : List ℕ → List Ref
  node_list = map scheduler_list_node

  leave-Ring : Ring nodes (root q) (node_list xs ++ scheduler_list_node f ∷ node_list ys)
  leave-Ring =
      subst (Ring nodes (root q)) (ap node_list at ∙ map-append_at scheduler_list_node xs (f ∷ ys))
        (l.queue_ring q)

  removed :
      Ring after_leave (root q) (node_list xs ++ node_list ys)
      × Alone after_leave (scheduler_list_node f)
  removed =
      remove-Ring Ref-discrete nodes (root q) (scheduler_list_node f) (node_list xs) (node_list ys)
        leave-Ring

  -- A list that holds no node of the queue is as it was.
  leave-other :
      (r : Ref) (zs : List Ref)
      → Ring nodes r zs
      → NotIn (root q) (r ∷ zs)
      → AllOut (node_list xs ++ scheduler_list_node f ∷ node_list ys) (r ∷ zs)
      → Ring after_leave r zs
  leave-other r zs h out apart =
      remove-frame Ref-discrete nodes (root q) (scheduler_list_node f) (node_list xs) (node_list ys)
        r zs leave-Ring h (out, apart)

  nodes_at :
      (zs : List Ref)
      → AllOut (node_list (queues q)) zs
      → AllOut (node_list xs ++ scheduler_list_node f ∷ node_list ys) zs
  nodes_at zs =
      subst (λ ws. AllOut ws zs) (ap node_list at ∙ map-append_at scheduler_list_node xs (f ∷ ys))

  leave-queue-Ring :
      (p : Queue) → Ring after_leave (root p) (node_list (replace queues q (xs ++ ys) p))
  leave-queue-Ring p = elim (Queue-discrete p q) [
    | yes e ↦
        rw (if_pos (Queue-discrete p q) e, e, map-append_at scheduler_list_node xs ys) removed.0
    | no n ↦ rw (if_neg (Queue-discrete p q) n) (
        leave-other (root p) (node_list (queues p)) (l.queue_ring p)
          (
            (λ h. n (sym (root_inj q p h))),
            NotIn-map_other scheduler_list_node (root q) (λ g h. cc) (queues p),
          )
          (nodes_at (root p ∷ node_list (queues p))
            (queue_nodes-apart l (queues q) (queues p) p (l.queues_apart q p (λ h. n (sym h))))))
  ]

  leave-wait-Ring :
      (g : ℕ) → live g → Ring after_leave (wait_list_root g) (map wait_list_node (waiters g))
  leave-wait-Ring g lg =
      leave-other (wait_list_root g) (map wait_list_node (waiters g)) (l.wait_ring g lg)
        (not_waiting l g (root q) (λ h. cc) (λ h e. cc))
        (nodes_at (wait_list_root g ∷ map wait_list_node (waiters g)) (
          AllOut-map_other scheduler_list_node (wait_list_root g ∷ map wait_list_node (waiters g))
            (λ h. not_waiting l g (scheduler_list_node h) (λ e. cc) (λ k e. cc)) (queues q)))

  leave-queues_apart :
      (p r : Queue) → p ≢ r → AllOut (replace queues q (xs ++ ys) p) (replace queues q (xs ++ ys) r)
  leave-queues_apart p r ne = elim (Queue-discrete p q) [
    | yes e ↦
        rw (if_pos (Queue-discrete p q) e, if_neg (Queue-discrete r q) (λ h. ne (e ∙ sym h)))
          (AllOut-shrink f ys (queues r) xs
            (subst (λ zs. AllOut zs (queues r)) (ap queues e ∙ at) (l.queues_apart p r ne)))
    | no n ↦ rw (if_neg (Queue-discrete p q) n) (elim (Queue-discrete r q) [
      | yes e ↦ rw (if_pos (Queue-discrete r q) e) (
          AllOut-shrink_right f ys xs (queues p)
            (subst (AllOut (queues p)) (ap queues e ∙ at) (l.queues_apart p r ne)))
      | no m ↦ rw (if_neg (Queue-discrete r q) m) (l.queues_apart p r ne)
    ])
  ]

  -- A fiber in no queue afterwards is the one that left, or was in none before.
  before_leave : (g : ℕ) → g ≢ f → InNone (replace queues q (xs ++ ys)) g → InNone queues g
  before_leave g ne o p = elim (Queue-discrete p q) [
    | yes e ↦ subst (NotIn g) (sym (ap queues e ∙ at)) (
        NotIn-grow g f ys xs ne
          (subst (NotIn g) (if_pos (Queue-discrete p q) e (xs ++ ys) (queues p)) (o p)))
    | no n ↦ subst (NotIn g) (if_neg (Queue-discrete p q) n (xs ++ ys) (queues p)) (o p)
  ]

  leave-queue-Alone :
      (g : ℕ)
      → live g
      → InNone (replace queues q (xs ++ ys)) g
      → Alone after_leave (scheduler_list_node g)
  leave-queue-Alone g lg o = elim (ℕ_discrete g f) [
    | yes e ↦ rw e removed.1
    | no n ↦
        let out = before_leave g n o in
        remove-Alone Ref-discrete nodes (root q) (scheduler_list_node f) (node_list xs)
          (node_list ys) (scheduler_list_node g) leave-Ring
          (
            (λ h. cc),
            subst (NotIn (scheduler_list_node g))
                (ap node_list at ∙ map-append_at scheduler_list_node xs (f ∷ ys))
                (NotIn-map scheduler_list_node scheduler_node_inj g (queues q) (out q)),
          )
          (l.queue_alone g lg out)
  ]

  leave-wait-Alone :
      (g : ℕ) → live g → ((h : ℕ) → NotIn g (waiters h)) → Alone after_leave (wait_list_node g)
  leave-wait-Alone g lg o =
      remove-Alone Ref-discrete nodes (root q) (scheduler_list_node f) (node_list xs) (node_list ys)
        (wait_list_node g) leave-Ring
        (
          (λ h. cc),
          subst (NotIn (wait_list_node g))
              (ap node_list at ∙ map-append_at scheduler_list_node xs (f ∷ ys))
              (NotIn-map_other scheduler_list_node (wait_list_node g) (λ k h. cc) (queues q)),
        )
        (l.wait_alone g lg o)

  -- `Unlink` of a fiber's node takes it out of its queue.
  pub leave-IsLinked : IsLinked live after_leave (replace queues q (xs ++ ys)) waiters
  leave-IsLinked = record {
    queue_ring = leave-queue-Ring;
    wait_ring = leave-wait-Ring;
    queues_apart = leave-queues_apart;
    waits_apart = l.waits_apart;
    queue_alone = leave-queue-Alone;
    wait_alone = leave-wait-Alone;
  }
