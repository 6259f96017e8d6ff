-- ===== src/BusyMutex/Tests.antt =====
-- Runs of two threads, and the theorems applied to them.
use dd_framework.Base.{ℕ, ◌≡◌, refl, false, arith}
use dd_framework.BusyMutex.{advance, owns}
use dd_framework.BusyMutex.System.{System, start_state, pick, Reach, start, later}
use dd_framework.BusyMutex.Exclusion.{mutual_exclusion, IsTurnedAway, locked_for_good}

-- Thread 0 enters and thread 1 comes after it.
abbrev contended : System
contended = pick (pick (pick start_state 0) 0) 1

contended-Reach : Reach 2 start_state contended
contended-Reach = later (later (later start 0 (omega arith)) 0 (omega arith)) 1 (omega arith)

-- Thread 0 is through with `Leave`, and thread 1 has read the word again.
abbrev waited : System
waited = pick (pick (pick contended 0) 0) 1

waited-Reach : Reach 2 contended waited
waited-Reach = later (later (later start 0 (omega arith)) 0 (omega arith)) 1 (omega arith)

contended-IsTurnedAway : IsTurnedAway (contended.point 1)
unfolding advance IsTurnedAway
contended-IsTurnedAway = (record { release_count = 0; lock_count = 1 }, refl, refl)

free_but_apart : waited.mutex.release_count ≡ 1
unfolding advance
free_but_apart = refl

mutual_exclusion_example : ◌≡◌ {A = ℕ} 0 0
unfolding advance owns
mutual_exclusion_example =
    mutual_exclusion (omega arith) contended-Reach 0 0 (omega arith) (omega arith) refl refl

locked_for_good_example : owns (waited.point 1) ≡ false
unfolding advance owns
locked_for_good_example =
    locked_for_good (omega arith) contended-Reach waited-Reach 1 1 (omega arith)
      contended-IsTurnedAway refl
