-- ===== src/Scheduler/Links/Wait.antt =====
-- A fiber enters the wait list of another at its end; every other list is as it was.
use dd_framework.Base.{
  ℕ, ◌≡◌, ◌≢◌, refl, sym, subst, ◌∙◌, List, [], ◌∷◌, ◌++◌, map, ite, if_pos, if_neg, ℕ_discrete,
}
use dd_framework.IntrusiveList.{Nodes, push_back}
use dd_framework.IntrusiveList.Chain.{NotIn}
use dd_framework.IntrusiveList.Ring.{Ring, Alone, AllOut}
use dd_framework.IntrusiveList.Moves.{push_back-Ring, push_back-frame, push_back-Alone}
use dd_framework.Scheduler.State.{
  Queue, Ref, Ref-discrete, root, scheduler_list_node, wait_list_node, wait_list_root,
}
use dd_framework.Scheduler.Links.{Queues, Waiters, IsLinked}
use dd_framework.Scheduler.Links.Queues.{InNone, not_waiting}
use dd_framework.Scheduler.Links.Maps.{
  NotIn-map, NotIn-map_other, AllOut-map_other, map-append_one, wait_node_inj, AllOut-snoc,
  snoc-AllOut, NotIn-of_snoc,
}

-- The wait lists with `f` at the end of the list of `owner`.
abbrev pub enter_wait : Waiters → ℕ → ℕ → Waiters
enter_wait waiters owner f g = ite (ℕ_discrete g owner) (waiters g ++ f ∷ []) (waiters g)

abbrev pub WaitsNowhere : Waiters → ℕ → Type 0
WaitsNowhere waiters f = (g : ℕ) → NotIn f (waiters g)

pub wait_root_inj : (f g : ℕ) → wait_list_root f ≡ wait_list_root g → f ≡ g
wait_root_inj f g e = cc

module _ {live : ℕ → Type 0} {nodes : Nodes Ref} {queues : Queues} {waiters : Waiters}
    (l : IsLinked live nodes queues waiters) where
  pub wait_nodes-apart :
      (xs ys : List ℕ) (g : ℕ)
      → AllOut xs ys
      → AllOut (map wait_list_node xs) (wait_list_root g ∷ map wait_list_node ys)
  wait_nodes-apart [] ys g o = tt
  wait_nodes-apart (x ∷ xs) ys g o =
      (((λ h. cc), NotIn-map wait_list_node wait_node_inj x ys o.0), wait_nodes-apart xs ys g o.1)

  pub not_queued :
      (q : Queue) (r : Ref)
      → r ≢ root q
      → ((h : ℕ) → r ≢ scheduler_list_node h)
      → NotIn r (root q ∷ map scheduler_list_node (queues q))
  not_queued q r ne nodes_ne = (ne, NotIn-map_other scheduler_list_node r nodes_ne (queues q))

  module _ (owner f : ℕ) (lo : live owner) (lf : live f) (out : WaitsNowhere waiters f) where
    abbrev after_wait : Nodes Ref
    after_wait = push_back Ref-discrete nodes (wait_list_root owner) (wait_list_node f)

    wait_self : nodes.prev (wait_list_node f) ≡ wait_list_node f
    wait_self = (l.wait_alone f lf out).0

    owner-Ring : Ring nodes (wait_list_root owner) (map wait_list_node (waiters owner))
    owner-Ring = l.wait_ring owner lo

    enter_wait-Ring :
        (g : ℕ)
        → live g
        → Ring after_wait (wait_list_root g) (map wait_list_node (enter_wait waiters owner f g))
    enter_wait-Ring g lg = elim (ℕ_discrete g owner) [
      | yes e ↦
          rw (if_pos (ℕ_discrete g owner) e, map-append_one wait_list_node (waiters g) f)
            (subst
              (λ r.
                Ring after_wait (wait_list_root r)
                  (map wait_list_node (waiters r) ++ wait_list_node f ∷ []))
              (sym e)
              (push_back-Ring Ref-discrete nodes (wait_list_root owner) (wait_list_node f)
                (map wait_list_node (waiters owner)) owner-Ring
                (NotIn-map wait_list_node wait_node_inj f (waiters owner) (out owner)) (λ h. cc)
                wait_self))
      | no n ↦ rw (if_neg (ℕ_discrete g owner) n) (
          push_back-frame Ref-discrete nodes (wait_list_root owner) (wait_list_node f)
            (map wait_list_node (waiters owner)) (wait_list_root g) (map wait_list_node (waiters g))
            owner-Ring wait_self (l.wait_ring g lg) (apart g n))
    ]
      where
        apart :
            (g : ℕ)
            → g ≢ owner
            → AllOut
                (wait_list_node f ∷ wait_list_root owner ∷ map wait_list_node (waiters owner))
                (wait_list_root g ∷ map wait_list_node (waiters g))
        apart g n = (
          ((λ h. cc), NotIn-map wait_list_node wait_node_inj f (waiters g) (out g)),
          (
            (
              (λ h. n (sym (wait_root_inj owner g h))),
              NotIn-map_other wait_list_node (wait_list_root owner) (λ k h. cc) (waiters g),
            ),
            wait_nodes-apart (waiters owner) (waiters g) g (l.waits_apart owner g (λ h. n (sym h))),
          ),
        )

    enter_wait-queue-Ring :
        (q : Queue) → Ring after_wait (root q) (map scheduler_list_node (queues q))
    enter_wait-queue-Ring q =
        push_back-frame Ref-discrete nodes (wait_list_root owner) (wait_list_node f)
          (map wait_list_node (waiters owner)) (root q) (map scheduler_list_node (queues q))
          owner-Ring wait_self (l.queue_ring q)
          (
            not_queued q (wait_list_node f) (λ h. cc) (λ h e. cc),
            (
              not_queued q (wait_list_root owner) (λ h. cc) (λ h e. cc),
              AllOut-map_other wait_list_node (root q ∷ map scheduler_list_node (queues q))
                  (λ h. not_queued q (wait_list_node h) (λ e. cc) (λ k e. cc)) (waiters owner),
            ),
          )

    enter_wait-AllOut :
        (g h : ℕ) → g ≢ h → AllOut (enter_wait waiters owner f g) (enter_wait waiters owner f h)
    enter_wait-AllOut g h ne = elim (ℕ_discrete g owner) [
      | yes e ↦
          rw (if_pos (ℕ_discrete g owner) e, if_neg (ℕ_discrete h owner) (λ k. ne (e ∙ sym k)))
            (snoc-AllOut f (waiters h) (waiters g) (l.waits_apart g h ne) (out h))
      | no n ↦ rw (if_neg (ℕ_discrete g owner) n) (elim (ℕ_discrete h owner) [
        | yes e ↦
            rw (if_pos (ℕ_discrete h owner) e)
              (AllOut-snoc f (waiters g) (waiters h) (l.waits_apart g h ne) (out g))
        | no m ↦ rw (if_neg (ℕ_discrete h owner) m) (l.waits_apart g h ne)
      ])
    ]

    -- A fiber that waits nowhere afterwards waited nowhere before.
    before_wait :
        (g : ℕ) → WaitsNowhere (enter_wait waiters owner f) g → (g ≢ f) × WaitsNowhere waiters g
    before_wait g o = (
      new.0,
      λ h. elim (ℕ_discrete h owner) [
        | yes e ↦ subst (λ k. NotIn g (waiters k)) (sym e) new.1
        | no n ↦
            subst (NotIn g) (if_neg (ℕ_discrete h owner) n (waiters h ++ f ∷ []) (waiters h)) (o h)
      ],
    )
      where
        new : (g ≢ f) × NotIn g (waiters owner)
        new = NotIn-of_snoc g f (waiters owner) (
            subst (NotIn g)
              (if_pos (ℕ_discrete owner owner) refl (waiters owner ++ f ∷ []) (waiters owner))
              (o owner))

    enter_wait-queue-Alone :
        (g : ℕ) → live g → InNone queues g → Alone after_wait (scheduler_list_node g)
    enter_wait-queue-Alone g lg o =
        push_back-Alone Ref-discrete nodes (wait_list_root owner) (wait_list_node f)
          (map wait_list_node (waiters owner)) (scheduler_list_node g) owner-Ring wait_self
          (λ h. cc) (not_waiting l owner (scheduler_list_node g) (λ h. cc) (λ k h. cc))
          (l.queue_alone g lg o)

    enter_wait-Alone :
        (g : ℕ)
        → live g
        → WaitsNowhere (enter_wait waiters owner f) g
        → Alone after_wait (wait_list_node g)
    enter_wait-Alone g lg o =
        let (ne, nowhere) = before_wait g o in
        push_back-Alone Ref-discrete nodes (wait_list_root owner) (wait_list_node f)
          (map wait_list_node (waiters owner)) (wait_list_node g) owner-Ring wait_self
          (λ h. ne (wait_node_inj g f h))
          ((λ h. cc), NotIn-map wait_list_node wait_node_inj g (waiters owner) (nowhere owner))
          (l.wait_alone g lg nowhere)

    -- `PushBack` of a fiber that waits nowhere makes it the last waiter of the owner.
    pub enter_wait-IsLinked : IsLinked live after_wait queues (enter_wait waiters owner f)
    enter_wait-IsLinked = record {
      queue_ring = enter_wait-queue-Ring;
      wait_ring = enter_wait-Ring;
      queues_apart = l.queues_apart;
      waits_apart = enter_wait-AllOut;
      queue_alone = enter_wait-queue-Alone;
      wait_alone = enter_wait-Alone;
    }
