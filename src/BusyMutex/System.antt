-- ===== src/BusyMutex/System.antt =====
-- `n` threads over one `BusyMutex`, interleaved in any order.
use dd_framework.Base.{ℕ, ◌<◌, update}
use dd_framework.BusyMutex.{BusyMutex, Point, initialize, advance, outside}

pub record System : Type 0 where
  pub mutex : BusyMutex
  pub point : ℕ → Point

abbrev pub start_state : System
start_state = record { mutex = initialize; point = λ _. outside }

-- Thread `i` takes its next step.
abbrev pub pick : System → ℕ → System
pick s i = record {
  mutex = (advance s.mutex (s.point i)).0;
  point = update s.point i (advance s.mutex (s.point i)).1;
}

-- From `s`, the threads below `n` get to a state in some number of steps.
pub data Reach (n : ℕ) (s : System) : System → Type 0 where
  start : Reach n s s
  later : {t : System} → Reach n s t → (i : ℕ) → i < n → Reach n s (pick t i)
