-- ===== src/Scheduler/Pass.antt =====
-- One pass of `SchedulerFiberMain` of ukern_scheduler.cpp.
use dd_framework.Base.{
  ℕ, ◌+◌, ◌-◌, ◌%◌, ◌^◌, ◌<◌, ◌≡◌, false, ◌&&◌, List, ◌++◌, none, some, arith, ok, ◌==◌, refl,
}
use dd_framework.Scheduler.State.{Scheduler, Queue, wait_list, set_fiber, running}
use dd_framework.Scheduler.Lists.{unlink_scheduler}
use dd_framework.Scheduler.Main.{visit_timeouts, dispatch_enter, dispatches, rests, scheduler_pass}
use dd_framework.Scheduler.Visits.{visit_timeouts_lem, earliest}
use dd_framework.Scheduler.Pick.{
  Ready, first_due, by_priority, pick-first_due, next_wakeup-earliest,
}

module _ (n : ℕ) (s : Scheduler) (queues : Queue → List ℕ) (r : Ready n s queues)
    (core tick : ℕ) where
  visits : visit_timeouts n s core tick ≡ ok s
  visits =
      visit_timeouts_lem s core tick (queues wait_list) n (r.ring wait_list) r.waiters
        (r.rounds wait_list)

  -- Where the lists are well formed, no fiber of the wait list is in the state `scheduled`, no fiber of
  -- the five runnable lists holds a wait object, and the core exists, with more rounds than each list
  -- has fibers: if a fiber is due, the pass takes the first one of the highest priority off its list
  -- and runs it on the core.
  pub scheduler_pass-dispatches :
      (f : ℕ)
      → first_due s core tick (by_priority queues) ≡ some f
      → core < s.core_count
      → scheduler_pass n s core tick
        ≡ ok (
          unlink_scheduler
              (set_fiber s f (record (s.fibers f) { fiber_state = running; current_core = core }))
              f,
          dispatches f,
        )
  unfolding scheduler_pass dispatch_enter
  scheduler_pass-dispatches f e h =
      rw (visits, pick-first_due n s queues r core tick, e) (ground arith)

  abbrev pub at_rest : Scheduler
  at_rest = record s { active_cores = (s.active_cores + (2 ^ 32 - 1)) % 2 ^ 32 }

  Ready-at_rest : Ready n at_rest queues
  Ready-at_rest = record {
    ring = r.ring;
    rounds = r.rounds;
    no_objects = r.no_objects;
    waiters = r.waiters;
  }

  -- Where the lists are well formed, no waiter is in the state `scheduled` and no runnable fiber
  -- holds a wait object: if no fiber is due, and a fiber is counted as runnable or another core is
  -- active, the core gives up its place and rests until the least timeout of the fibers for it.
  scheduler_pass-rests :
      first_due s core tick (by_priority queues) ≡ none
      → (s.runnable_fibers == 0) && (at_rest.active_cores == 0) ≡ false
      → scheduler_pass n s core tick
        ≡ ok (
          at_rest,
          rests (earliest s.fibers core (2 ^ 64 - 1) (queues wait_list ++ by_priority queues)),
        )
  unfolding scheduler_pass
  scheduler_pass-rests e h =
      rw
        (
          visits,
          pick-first_due n s queues r core tick,
          e,
          h,
          next_wakeup-earliest n at_rest queues Ready-at_rest core tick,
        )
        refl
