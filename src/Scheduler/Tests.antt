-- ===== src/Scheduler/Tests.antt =====
-- The scheduler at concrete states.
use dd_framework.Base.{ℕ, ◌≡◌, ◌≢◌, refl, [], ◌∷◌, ◌++◌, ok, arith, if_pos, pos}
use dd_framework.IntrusiveList.{Nodes, push_back}
use dd_framework.ResultCode.{result_success}
use dd_framework.Scheduler.State.{
  Scheduler, Fiber, Queue, Ref, Ref-discrete, Queue-discrete, root, scheduler_list_node, normal,
  wait_list, scheduled, running, no_object,
}
use dd_framework.Scheduler.Waits.{end_fiber_wait_impl}
use dd_framework.Scheduler.Main.{dispatch_enter}
use dd_framework.Scheduler.Links.{Queues, Waiters, IsLinked}
use dd_framework.Scheduler.Links.Queues.{enter, replace, InNone, push-IsLinked}
use dd_framework.Scheduler.Links.Schedule.{destination, enter_at, state_after}
use dd_framework.Scheduler.Links.Resume.{end_fiber_wait_impl_lem, dispatch_enter_lem}

-- A fiber of priority `pos 2` for core 0.
abbrev pub plain : Fiber
plain = record {
  priority = pos 2;
  current_core = 0;
  core_mask = 1;
  stack_size = 0;
  user_arg = 0;
  user_function = 0;
  ukern_fiber_handle = 33023;
  activity_level = 1;
  wait_tag = 0;
  lock_address = 0;
  wait_address = 64;
  waitable_object = no_object;
  timeout = 7;
  last_result = 0;
  fiber_state = scheduled;
}

abbrev pub apart_nodes : Nodes Ref
apart_nodes = record { prev = λ x. x; next = λ x. x }

-- The handle 33023 names fiber 1.
abbrev pub blank : Scheduler
blank = record {
  nodes = apart_nodes;
  fibers = λ f. plain;
  words = λ a. 0;
  core_mask = 1;
  core_count = 1;
  active_cores = 1;
  runnable_fibers = 1;
  handle_table = record {
    counters = λ i. pos 1;
    objects = λ i. 1;
    indice_iter = pos 0;
    active_handles = 1;
    counter_value = 2;
  };
  fiber_allocator = record { free_list = 0; next = λ a. 0 };
}

abbrev pub no_queues : Queues
no_queues q = []

abbrev pub no_waiters : Waiters
no_waiters f = []

abbrev pub EveryFiber : ℕ → Type 0
EveryFiber f = Unit {0}

pub blank-IsLinked : IsLinked EveryFiber blank.nodes no_queues no_waiters
blank-IsLinked = record {
  queue_ring = λ q. record { path = (refl, refl); root_out = tt; distinct = tt };
  wait_ring = λ f l. record { path = (refl, refl); root_out = tt; distinct = tt };
  queues_apart = λ p q n. tt;
  waits_apart = λ f g n. tt;
  queue_alone = λ f l o. (refl, refl);
  wait_alone = λ f l o. (refl, refl);
}

-- One fiber stands in the given queue.
abbrev pub one_in : Queue → Scheduler
one_in q = record blank {
  nodes = push_back Ref-discrete apart_nodes (root q) (scheduler_list_node 1);
}

pub one-IsLinked :
    (q : Queue) → IsLinked EveryFiber (one_in q).nodes (enter no_queues q 1) no_waiters
one-IsLinked q = push-IsLinked blank-IsLinked q 1 tt (λ p. tt)

pub holds_one : (q : Queue) → enter no_queues q 1 q ≡ [] ++ 1 ∷ []
holds_one q = if_pos (Queue-discrete q q) refl (1 ∷ []) []

end_fiber_wait_impl_lem_example :
    let s = one_in wait_list in
    let s' = end_fiber_wait_impl s 1 result_success in
    IsLinked EveryFiber s'.nodes
      (enter_at
        (replace (enter no_queues wait_list 1) wait_list ([] ++ []))
        (destination (s.fibers 1))
        1)
      no_waiters
    × (s'.fibers 1 ≡ record (s.fibers 1) {
      fiber_state = state_after (s.fibers 1);
      last_result = result_success;
    })
    × ((g : ℕ) → g ≢ 1 → s'.fibers g ≡ s.fibers g)
end_fiber_wait_impl_lem_example =
    end_fiber_wait_impl_lem (one_in wait_list) 1 result_success wait_list [] []
      (one-IsLinked wait_list) tt (holds_one wait_list)

dispatch_enter_lem_example :
    (s' : Scheduler) × (dispatch_enter (one_in normal) 1 0 ≡ ok s')
    × IsLinked EveryFiber s'.nodes (replace (enter no_queues normal 1) normal ([] ++ [])) no_waiters
    × ((s'.fibers 1).fiber_state ≡ running)
    × ((s'.fibers 1).current_core ≡ 0)
    × InNone (replace (enter no_queues normal 1) normal ([] ++ [])) 1
dispatch_enter_lem_example =
    dispatch_enter_lem (one_in normal) 1 0 normal [] [] (one-IsLinked normal) (holds_one normal)
      (omega arith)
