-- ===== src/Scheduler/Links/Queues.antt =====
-- A fiber enters a queue at its end; every other list is as it was.
use dd_framework.Base.{
  ℕ, ◌≡◌, ◌≢◌, refl, sym, subst, ◌∙◌, List, [], ◌∷◌, ◌++◌, map, ite, if_pos, if_neg,
}
use dd_framework.IntrusiveList.{Nodes, push_back}
use dd_framework.IntrusiveList.Chain.{NotIn}
use dd_framework.IntrusiveList.Ring.{Ring, Alone, AllOut}
use dd_framework.IntrusiveList.Moves.{push_back-Ring, push_back-frame, push_back-Alone}
use dd_framework.Scheduler.State.{
  Queue, Ref, Ref-discrete, Queue-discrete, root, scheduler_list_node, wait_list_node,
  wait_list_root,
}
use dd_framework.Scheduler.Links.{Queues, Waiters, IsLinked}
use dd_framework.Scheduler.Links.Maps.{
  NotIn-map, NotIn-map_other, AllOut-map_other, map-append_one, scheduler_node_inj, root_inj,
  AllOut-snoc, snoc-AllOut, NotIn-of_snoc,
}

-- The queues with `f` at the end of `q`.
abbrev pub enter : Queues → Queue → ℕ → Queues
enter queues q f p = ite (Queue-discrete p q) (queues p ++ f ∷ []) (queues p)

-- The queues with `xs` for `q`.
abbrev pub replace : Queues → Queue → List ℕ → Queues
replace queues q xs p = ite (Queue-discrete p q) xs (queues p)

abbrev pub InNone : Queues → ℕ → Type 0
InNone queues f = (q : Queue) → NotIn f (queues q)

module _ {live : ℕ → Type 0} {nodes : Nodes Ref} {queues : Queues} {waiters : Waiters}
    (l : IsLinked live nodes queues waiters) where
  pub queue_nodes-apart :
      (xs ys : List ℕ) (p : Queue)
      → AllOut xs ys
      → AllOut (map scheduler_list_node xs) (root p ∷ map scheduler_list_node ys)
  queue_nodes-apart [] ys p o = tt
  queue_nodes-apart (x ∷ xs) ys p o = (
    ((λ h. cc), NotIn-map scheduler_list_node scheduler_node_inj x ys o.0),
    queue_nodes-apart xs ys p o.1,
  )

  pub not_waiting :
      (g : ℕ) (r : Ref)
      → r ≢ wait_list_root g
      → ((h : ℕ) → r ≢ wait_list_node h)
      → NotIn r (wait_list_root g ∷ map wait_list_node (waiters g))
  not_waiting g r ne nodes_ne = (ne, NotIn-map_other wait_list_node r nodes_ne (waiters g))

  module _ (q : Queue) (f : ℕ) (lf : live f) (out : InNone queues f) where
    abbrev after_push : Nodes Ref
    after_push = push_back Ref-discrete nodes (root q) (scheduler_list_node f)

    push_self : nodes.prev (scheduler_list_node f) ≡ scheduler_list_node f
    push_self = (l.queue_alone f lf out).0

    push-queue-Ring :
        (p : Queue) → Ring after_push (root p) (map scheduler_list_node (enter queues q f p))
    push-queue-Ring p = elim (Queue-discrete p q) [
      | yes e ↦
          rw (if_pos (Queue-discrete p q) e, map-append_one scheduler_list_node (queues p) f)
            (subst
              (λ r.
                Ring after_push (root r)
                  (map scheduler_list_node (queues r) ++ scheduler_list_node f ∷ []))
              (sym e)
              (push_back-Ring Ref-discrete nodes (root q) (scheduler_list_node f)
                (map scheduler_list_node (queues q)) (l.queue_ring q)
                (NotIn-map scheduler_list_node scheduler_node_inj f (queues q) (out q)) (λ h. cc)
                push_self))
      | no n ↦ rw (if_neg (Queue-discrete p q) n) (
          push_back-frame Ref-discrete nodes (root q) (scheduler_list_node f)
            (map scheduler_list_node (queues q)) (root p) (map scheduler_list_node (queues p))
            (l.queue_ring q) push_self (l.queue_ring p) (apart p n))
    ]
      where
        apart :
            (p : Queue)
            → p ≢ q
            → AllOut
                (scheduler_list_node f ∷ root q ∷ map scheduler_list_node (queues q))
                (root p ∷ map scheduler_list_node (queues p))
        apart p n = (
          ((λ h. cc), NotIn-map scheduler_list_node scheduler_node_inj f (queues p) (out p)),
          (
            (
              (λ h. n (sym (root_inj q p h))),
              NotIn-map_other scheduler_list_node (root q) (λ g h. cc) (queues p),
            ),
            queue_nodes-apart (queues q) (queues p) p (l.queues_apart q p (λ h. n (sym h))),
          ),
        )

    push-wait-Ring :
        (g : ℕ) → live g → Ring after_push (wait_list_root g) (map wait_list_node (waiters g))
    push-wait-Ring g lg =
        push_back-frame Ref-discrete nodes (root q) (scheduler_list_node f)
          (map scheduler_list_node (queues q)) (wait_list_root g) (map wait_list_node (waiters g))
          (l.queue_ring q) push_self (l.wait_ring g lg)
          (
            not_waiting g (scheduler_list_node f) (λ h. cc) (λ h e. cc),
            (
              not_waiting g (root q) (λ h. cc) (λ h e. cc),
              AllOut-map_other scheduler_list_node
                  (wait_list_root g ∷ map wait_list_node (waiters g))
                  (λ h. not_waiting g (scheduler_list_node h) (λ e. cc) (λ k e. cc)) (queues q),
            ),
          )

    push-queues_apart : (p r : Queue) → p ≢ r → AllOut (enter queues q f p) (enter queues q f r)
    push-queues_apart p r ne = elim (Queue-discrete p q) [
      | yes e ↦
          rw (if_pos (Queue-discrete p q) e, if_neg (Queue-discrete r q) (λ h. ne (e ∙ sym h)))
            (snoc-AllOut f (queues r) (queues p) (l.queues_apart p r ne) (out r))
      | no n ↦ rw (if_neg (Queue-discrete p q) n) (elim (Queue-discrete r q) [
        | yes e ↦
            rw (if_pos (Queue-discrete r q) e)
              (AllOut-snoc f (queues p) (queues r) (l.queues_apart p r ne) (out p))
        | no m ↦ rw (if_neg (Queue-discrete r q) m) (l.queues_apart p r ne)
      ])
    ]

    -- A fiber in no queue afterwards was in none before.
    before_enter : (g : ℕ) → InNone (enter queues q f) g → (g ≢ f) × InNone queues g
    before_enter g o = (
      new.0,
      λ p. elim (Queue-discrete p q) [
        | yes e ↦ subst (λ r. NotIn g (queues r)) (sym e) new.1
        | no n ↦
            subst (NotIn g) (if_neg (Queue-discrete p q) n (queues p ++ f ∷ []) (queues p)) (o p)
      ],
    )
      where
        new : (g ≢ f) × NotIn g (queues q)
        new = NotIn-of_snoc g f (queues q) (
            subst (NotIn g) (if_pos (Queue-discrete q q) refl (queues q ++ f ∷ []) (queues q))
              (o q))

    push-queue-Alone :
        (g : ℕ) → live g → InNone (enter queues q f) g → Alone after_push (scheduler_list_node g)
    push-queue-Alone g lg o =
        let (ne, none_before) = before_enter g o in
        push_back-Alone Ref-discrete nodes (root q) (scheduler_list_node f)
          (map scheduler_list_node (queues q)) (scheduler_list_node g) (l.queue_ring q) push_self
          (λ h. ne (scheduler_node_inj g f h))
          ((λ h. cc), NotIn-map scheduler_list_node scheduler_node_inj g (queues q) (none_before q))
          (l.queue_alone g lg none_before)

    push-wait-Alone :
        (g : ℕ) → live g → ((h : ℕ) → NotIn g (waiters h)) → Alone after_push (wait_list_node g)
    push-wait-Alone g lg o =
        push_back-Alone Ref-discrete nodes (root q) (scheduler_list_node f)
          (map scheduler_list_node (queues q)) (wait_list_node g) (l.queue_ring q) push_self
          (λ h. cc)
          ((λ h. cc), NotIn-map_other scheduler_list_node (wait_list_node g) (λ k h. cc) (queues q))
          (l.wait_alone g lg o)

    -- `PushBack` of a fiber that is in no queue puts it at the end of the queue.
    pub push-IsLinked : IsLinked live after_push (enter queues q f) waiters
    push-IsLinked = record {
      queue_ring = push-queue-Ring;
      wait_ring = push-wait-Ring;
      queues_apart = push-queues_apart;
      waits_apart = l.waits_apart;
      queue_alone = push-queue-Alone;
      wait_alone = push-wait-Alone;
    }
