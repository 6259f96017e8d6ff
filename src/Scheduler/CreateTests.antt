-- ===== src/Scheduler/CreateTests.antt =====
-- `CreateThreadImpl` at concrete states.
use dd_framework.Base.{refl, negsuc, arith, ◌==◌, if◌then◌else◌}
use dd_framework.HandleTable.{initialize}
use dd_framework.Scheduler.State.{Scheduler}
use dd_framework.IntrusiveList.Ring.{Ring}
use dd_framework.Scheduler.Threads.{CreateThread}
use dd_framework.Scheduler.Create.{IsAccepted}
use dd_framework.Scheduler.Tests.{blank}

-- A new handle table, and storage at 7 and then at 8.
abbrev fresh : Scheduler
fresh = record blank {
  handle_table = initialize blank.handle_table;
  fiber_allocator = record { free_list = 7; next = λ a. if a == 7 then 8 else 0 };
}

abbrev request : CreateThread
request = record { thread_func = 5; arg = 0; stack_size = 4096; priority = negsuc 0; core_id = 0 }

-- All handles are out.
abbrev full : Scheduler
full = record fresh { handle_table = record blank.handle_table { active_handles = 256 } }

full-IsAccepted : IsAccepted full request
full-IsAccepted = record {
  has_function = omega arith;
  has_stack = omega arith;
  priority_ok = refl;
  core_ok = omega arith;
}
