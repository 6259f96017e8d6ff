-- ===== src/ObjectAllocator/Tests.antt =====
-- The allocators at concrete arrays.
use dd_framework.Base.{◌≡◌, refl, List, [], ◌∷◌, arith, ok}
use dd_framework.ObjectAllocator.{Allocator, fixed_construct}
use dd_framework.ObjectAllocator.FreeChain.{range}
use dd_framework.ObjectAllocator.Stack.{
  IsValid, Op, allocate, release, run, spec_run, fixed_construct-IsValid, run-spec,
}

abbrev script : List Op
script = allocate ∷ allocate ∷ release 11 ∷ allocate ∷ allocate ∷ allocate ∷ []

script_answers : (spec_run (range 10 3) script).1 ≡ 10 ∷ 11 ∷ 0 ∷ 11 ∷ 12 ∷ 0 ∷ []
script_answers = refl

run-spec_example :
    (a' : Allocator) × (run 10 3 (fixed_construct 10 3) script
      ≡ ok (a', (spec_run (range 10 3) script).1))
    × IsValid 10 3 a' (spec_run (range 10 3) script).0
run-spec_example =
    run-spec 10 3 script (fixed_construct 10 3) (range 10 3) fixed_construct-IsValid_made
      (tt, (tt, ((omega arith, omega arith, (ground arith, tt)), (tt, (tt, (tt, tt))))))
  where
    fixed_construct-IsValid_made : IsValid 10 3 (fixed_construct 10 3) (range 10 3)
    fixed_construct-IsValid_made = fixed_construct-IsValid 10 3 (omega arith) (omega arith)

-- Memory that holds 99 in every word.
abbrev dirty : Allocator
dirty = record { free_list = 0; next = λ a. 99 }
