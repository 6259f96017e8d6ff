-- ===== src/HandleTable/Tests.antt =====
-- Runs of the handle table, and the theorems at concrete inputs.
use dd_framework.Base.{◌+◌, ◌≡◌, refl, [], ◌∷◌, some, arith, ok, pos}
use dd_framework.HandleTable.{HandleTable, max_handles, initialize, reserve_handle, take_slot}
use dd_framework.HandleTable.Invariant.{initialize-IsValid, slots_below}
use dd_framework.HandleTable.History.{
  reserves, frees, run, Returns, Steps, call-MapStep, run-initialize,
}

abbrev blank : HandleTable
blank = record {
  counters = λ i. pos 0;
  objects = λ i. 0;
  indice_iter = pos 0;
  active_handles = 0;
  counter_value = 0;
}

-- The first handle: the last slot, counter 1.
first_handle :
    reserve_handle (initialize blank) 77
    ≡ ok (take_slot (initialize blank) 255 77, some (255 + 32768))
unfolding initialize reserve_handle
first_handle = refl

run-initialize_example :
    Returns (run (initialize blank) (reserves 77 ∷ reserves 78 ∷ frees 33023 ∷ []))
run-initialize_example =
    run-initialize blank (reserves 77 ∷ reserves 78 ∷ frees 33023 ∷ [])
      (ground arith, (ground arith, (ground arith, tt)))

call-MapStep_example : Steps (initialize blank) (slots_below max_handles) (reserves 77)
call-MapStep_example =
    call-MapStep (initialize blank) (slots_below max_handles) (reserves 77)
      (initialize-IsValid blank) (ground arith)
