-- ===== src/ConditionVariable/Tests.antt =====
-- A condition variable at a concrete state of the scheduler.
use dd_framework.Base.{◌≡◌, ◌≢◌, ◌⊎◌, ◌↔◌, refl, true, arith}
use dd_framework.Scheduler.State.{Scheduler, set_word}
use dd_framework.Scheduler.Lists.{wait_list_empty}
use dd_framework.Scheduler.Tests.{blank}
use dd_framework.ConditionVariable.{wait}
use dd_framework.ConditionVariable.Wait.{Refuses, wait-Refuses}

-- Fiber 1 is in the section at address 8 and has no waiters.
abbrev held_section : Scheduler
held_section = set_word blank 8 33023

wait-Refuses_example :
    Refuses held_section (wait 1 8 16 held_section 1)
    ↔ ((wait_list_empty held_section 1 ≡ true) ⊎ (held_section.words 8 ≢ 33023))
wait-Refuses_example = wait-Refuses 1 8 16 held_section 1 (omega arith) (omega arith) refl
