-- ===== src/CriticalSection/Tests.antt =====
-- A critical section at concrete states of the scheduler.
use dd_framework.Base.{ℕ, ◌≡◌, ◌≢◌, refl, [], ◌++◌, ok, fault, true, arith}
use dd_framework.ResultCode.{result_success}
use dd_framework.Scheduler.State.{Scheduler, set_word, suspended_list, has_child_waiters_bit}
use dd_framework.Scheduler.Links.{IsLinked}
use dd_framework.Scheduler.Links.Queues.{enter, replace}
use dd_framework.Scheduler.Links.Wait.{enter_wait}
use dd_framework.Scheduler.Links.LeaveWait.{replace_wait}
use dd_framework.Scheduler.Links.Schedule.{destination, enter_at}
use dd_framework.Scheduler.Threads.{get_fiber_by_handle}
use dd_framework.HandleTable.{get_object_by_handle}
use dd_framework.Scheduler.Tests.{blank, no_queues, no_waiters, EveryFiber, blank-IsLinked}
use dd_framework.CriticalSection.{
  steps, outside, acquiring, marking, asleep, inside, clearing, is_locked_by_current_thread,
}
use dd_framework.CriticalSection.Free.{enter-leave_free}
use dd_framework.CriticalSection.HandOver.{Contended}
use dd_framework.CriticalSection.Round.{enter-leave-Contended}
use dd_framework.CriticalSection.Races.{freed-before_mark, wakeup-lost}

-- The section at address 8 is fiber 1's, and fiber 2 comes.
abbrev pub held_section : Scheduler
held_section = set_word blank 8 33023

held_section-Contended : Contended EveryFiber no_queues no_waiters held_section 8 1 2 33023
unfolding get_fiber_by_handle get_object_by_handle
held_section-Contended = record {
  linked = blank-IsLinked;
  live_current = tt;
  live_owner = tt;
  in_none = λ q. tt;
  nowhere = λ f. tt;
  cs_some = omega arith;
  held = refl;
  named = refl;
  owner_some = omega arith;
  others = omega arith;
  owner_tag = refl;
  tag_small = omega arith;
}

enter-leave_free_example :
    let held = set_word blank 8 33023 in
    let left = set_word held 8 0 in
    (steps 2 1 8 blank 3 outside ≡ ok (held, inside))
    × (is_locked_by_current_thread 8 held 3 ≡ true)
    × (steps 2 1 8 held 3 inside ≡ ok (left, outside))
    × ((a : ℕ) → left.words a ≡ 0)
enter-leave_free_example = enter-leave_free 1 8 blank 3 refl (omega arith)

enter-leave-Contended_example :
    (s' s'' : Scheduler) × (steps 4 1 8 held_section 2 outside ≡ ok (s', asleep result_success))
    × (steps 2 1 8 s' 1 inside ≡ ok (s'', outside))
    × (steps 2 1 8 s'' 2 (asleep result_success) ≡ ok (s'', inside))
    × IsLinked EveryFiber s''.nodes
        (enter_at
          (replace (enter no_queues suspended_list 2) suspended_list ([] ++ []))
          (destination (held_section.fibers 2))
          2)
        (replace_wait (enter_wait no_waiters 1 2) 1 [])
    × (s''.words 8 ≡ 33023)
    × ((a : ℕ) → a ≢ 8 → s''.words a ≡ held_section.words a)
enter-leave-Contended_example = enter-leave-Contended 0 held_section-Contended refl

freed-before_mark_example :
    let freed = set_word held_section 8 0 in
    (steps 2 1 8 held_section 2 outside ≡ ok (held_section, marking 33023))
    × (steps 2 1 8 held_section 1 inside ≡ ok (freed, outside))
    × (steps 1 1 8 freed 2 (marking 33023) ≡ ok (set_word freed 8 has_child_waiters_bit, acquiring))
    × (steps 3 1 8 freed 2 (marking 33023) ≡ fault)
freed-before_mark_example =
    freed-before_mark 1 8 held_section 1 2 33023 (omega arith) refl (omega arith) (omega arith)

wakeup-lost_example :
    (s' : Scheduler) × (steps 2 1 8 held_section 2 outside ≡ ok (held_section, marking 33023))
    × (steps 1 1 8 held_section 1 inside ≡ ok (held_section, clearing))
    × (steps 2 1 8 held_section 2 (marking 33023) ≡ ok (s', asleep result_success))
    × (steps 1 1 8 s' 1 clearing ≡ ok (set_word s' 8 0, outside))
    × ((set_word s' 8 0).words 8 ≡ 0)
    × IsLinked EveryFiber
        (set_word s' 8 0).nodes
        (enter no_queues suspended_list 2)
        (enter_wait no_waiters 1 2)
wakeup-lost_example = wakeup-lost 1 held_section-Contended
