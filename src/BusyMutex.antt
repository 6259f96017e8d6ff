-- ===== src/BusyMutex.antt =====
-- libraries/lib_dd/include/dd/ukern/ukern_busymutex.hpp: the two 16-bit counters of the mutex, and
-- what one thread does next to them. Each access of a counter is one step.
pub mod Tickets
pub mod System
pub mod Invariant
pub mod Exclusion
mod Tests
use dd_framework.Base.{ℕ, ◌+◌, ◌%◌, ◌^◌, Bool, true, false, ◌==◌, if◌then◌else◌}

-- `m_release_count` and `m_lock_count`.
pub record BusyMutex : Type 0 where
  pub release_count : ℕ
  pub lock_count : ℕ

abbrev pub initialize : BusyMutex
initialize = record { release_count = 0; lock_count = 0 }

-- Where a thread stands: outside, before the test of the loop with the word it read last, in the
-- section that the mutex protects, or in `Leave` with the release count that it read.
pub data Point : Type 0 where
  outside : Point
  testing : BusyMutex → Point
  inside : Point
  leaving : ℕ → Point

-- `InterlockedExchangeAdd(&m_counter, 0x1'0000)`, which returns the word as it was: a carry out of the
-- upper half is lost.
abbrev pub take_ticket : BusyMutex → BusyMutex × Point
take_ticket m = (record m { lock_count = (m.lock_count + 1) % 2 ^ 16 }, testing m)

-- The test of the loop, and the word that its body reads where the loop goes on.
abbrev pub test_counters : BusyMutex → BusyMutex → BusyMutex × Point
test_counters m wait = if wait.release_count == wait.lock_count then (m, inside) else (m, testing m)

-- `++m_release_count` is a read and a write of that half.
abbrev pub write_release : BusyMutex → ℕ → BusyMutex × Point
write_release m read = (record m { release_count = (read + 1) % 2 ^ 16 }, outside)

-- The next step of a thread.
unfoldable pub advance : BusyMutex → Point → BusyMutex × Point
advance m outside = take_ticket m
advance m (testing wait) = test_counters m wait
advance m inside = (m, leaving m.release_count)
advance m (leaving read) = write_release m read

-- A thread owns the mutex from the read that lets it in to the end of `Leave`.
unfoldable pub owns : Point → Bool
owns outside = false
owns (testing wait) = wait.release_count == wait.lock_count
owns inside = true
owns (leaving read) = true

-- A thread that has taken a ticket and not given it back counts one.
unfoldable pub holds_ticket : Point → ℕ
holds_ticket outside = 0
holds_ticket (testing wait) = 1
holds_ticket inside = 1
holds_ticket (leaving read) = 1
