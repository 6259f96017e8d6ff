-- ===== src/Scheduler/NewFiber.antt =====
-- What `CreateThreadImpl` of ukern_scheduler.cpp writes to the storage of a new fiber, and to the list of
-- the suspended ones.
use dd_framework.Base.{
  ℕ, zero, suc, ◌+◌, ◌^◌, ◌∷◌, [], ◌++◌, map, arith, Signed, pos, negsuc, ◌<◌, ◌≡◌, refl, List,
  true, ==_ne,
}
use dd_framework.IntrusiveList.{Nodes, construct, push_back}
use dd_framework.IntrusiveList.Chain.{NotIn}
use dd_framework.IntrusiveList.Ring.{Ring}
use dd_framework.IntrusiveList.Moves.{push_back-Ring}
use dd_framework.IntrusiveList.Members.{construct-Ring}
use dd_framework.Scheduler.Links.Maps.{
  NotIn-map, NotIn-map_other, map-append_one, scheduler_node_inj,
}
use dd_framework.Scheduler.State.{
  Fiber, Ref, Ref-discrete, root, scheduler_list_node, wait_list_node, wait_list_root,
  suspended_list, suspended, activity_suspended,
}
use dd_framework.Scheduler.Threads.{
  CreateThread, priority_in_range, new_fiber, offset_priority, construct_fiber,
}

-- `q` is two above the priority that was asked for.
abbrev pub IsTwoAbove : Signed → ℕ → Type 0
IsTwoAbove (pos p) q = q ≡ p + 2
IsTwoAbove (negsuc n) q = q + suc n ≡ 2

-- What the fields of a new fiber hold.
pub record IsNew (b : Fiber) (c : CreateThread) (handle : ℕ) : Type 0 where
  pub own_handle : b.ukern_fiber_handle ≡ handle
  pub level : ℕ
  pub level_low : level < 5
  pub own_priority : b.priority ≡ pos level
  pub two_above : IsTwoAbove c.priority level
  pub own_stack : b.stack_size ≡ c.stack_size
  pub own_core : c.core_id < 31 → b.core_mask ≡ 2 ^ c.core_id
  pub own_argument : b.user_arg ≡ c.arg
  pub own_function : b.user_function ≡ c.thread_func
  pub is_suspended : b.fiber_state ≡ suspended
  pub is_suspended_level : b.activity_level ≡ activity_suspended

offset_priority-IsTwoAbove :
    (p : Signed)
    → priority_in_range p ≡ true
    → (q : ℕ) × (q < 5) × (offset_priority p ≡ pos q) × IsTwoAbove p q
offset_priority-IsTwoAbove (pos p) h = (p + 2, ground arith, refl, refl)
offset_priority-IsTwoAbove (negsuc zero) h = (1, omega arith, refl, refl)
offset_priority-IsTwoAbove (negsuc (suc zero)) h = (0, omega arith, refl, refl)
offset_priority-IsTwoAbove (negsuc (suc (suc n))) h = absurd (ground arith)

pub new_fiber-IsNew :
    (b : Fiber) (c : CreateThread) (handle : ℕ)
    → priority_in_range c.priority ≡ true
    → IsNew (new_fiber b c handle) c handle
new_fiber-IsNew b c handle h =
    let (q, low, is_q, above) = offset_priority-IsTwoAbove c.priority h in
    record {
      own_handle = refl;
      level = q;
      level_low = low;
      own_priority = is_q;
      two_above = above;
      own_stack = refl;
      own_core = λ l. rw (==_ne c.core_id 31 (λ e. absurd (omega arith))) refl;
      own_argument = refl;
      own_function = refl;
      is_suspended = refl;
      is_suspended_level = refl;
    }

-- The nodes that the constructor links to themselves are in no list, and the fiber joins the end of
-- the suspended ones.
pub construct_fiber-Ring :
    (nodes : Nodes Ref) (f : ℕ) (xs : List ℕ)
    → Ring nodes (root suspended_list) (map scheduler_list_node xs)
    → NotIn f xs
    → Ring
        (push_back Ref-discrete
          (construct_fiber nodes f)
          (root suspended_list)
          (scheduler_list_node f))
        (root suspended_list)
        (map scheduler_list_node (xs ++ f ∷ []))
unfolding construct
construct_fiber-Ring nodes f xs r out =
    let nodes1 = construct Ref-discrete nodes (scheduler_list_node f) in
    let nodes2 = construct Ref-discrete nodes1 (wait_list_node f) in
    let sched_out = NotIn-map scheduler_list_node scheduler_node_inj f xs out in
    let ring1 =
      construct-Ring Ref-discrete nodes (scheduler_list_node f) (root suspended_list)
        (map scheduler_list_node xs) r ((λ e. cc), sched_out) in
    let ring2 =
      construct-Ring Ref-discrete nodes1 (wait_list_node f) (root suspended_list)
        (map scheduler_list_node xs) ring1
        ((λ e. cc), NotIn-map_other scheduler_list_node (wait_list_node f) (λ g e. cc) xs) in
    let ring3 =
      construct-Ring Ref-discrete nodes2 (wait_list_root f) (root suspended_list)
        (map scheduler_list_node xs) ring2
        ((λ e. cc), NotIn-map_other scheduler_list_node (wait_list_root f) (λ g e. cc) xs) in
    rw (map-append_one scheduler_list_node xs f) (
      push_back-Ring Ref-discrete (construct_fiber nodes f) (root suspended_list)
        (scheduler_list_node f) (map scheduler_list_node xs) ring3 sched_out (λ e. cc)
        (ground arith))
