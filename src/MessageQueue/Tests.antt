-- ===== src/MessageQueue/Tests.antt =====
-- The queue at concrete inputs.
use dd_framework.Base.{◌+◌, ◌≡◌, refl, List, [], ◌∷◌, some, none, true, false, arith, ok}
use dd_framework.MessageQueue.{MessageQueue}
use dd_framework.MessageQueue.Fifo.{
  IsValid, Op, sends, receives, sent?, received, contents, run, run-spec_run, spec_run,
}

-- Two places, one message pending at the last place.
abbrev turned : MessageQueue
turned = record {
  message_buffer = λ i. i + 40;
  max_messages = 2;
  pending_messages = 1;
  current_message = 1;
}

abbrev script : List Op
script = sends 5 ∷ sends 6 ∷ receives ∷ receives ∷ receives ∷ []

script_answers :
    (spec_run 2 (41 ∷ []) script).1
    ≡ sent? true ∷ sent? false ∷ received (some 41) ∷ received (some 5) ∷ received none ∷ []
script_answers = refl

run-spec_run_example :
    (q' : MessageQueue) × (run turned script ≡ ok (q', (spec_run 2 (contents turned) script).1))
    × (contents q' ≡ (spec_run 2 (contents turned) script).0)
    × IsValid q'
run-spec_run_example = run-spec_run turned script (omega arith)
