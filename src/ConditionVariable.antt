-- ===== src/ConditionVariable.antt =====
-- libraries/lib_dd/include/dd/ukern/ukern_internalconditionvariable.hpp. `cv` is the address of `m_cv`,
-- and `cs` that of the critical section's handle; the scheduler's results are thrown away.
pub mod Wait
mod Tests
use dd_framework.Base.{
  to_u64, ℕ, ◌-◌, ◌^◌, Run, ok, ◌>>=◌, ◌>>◌, require, ◌==◌, if◌then◌else◌, Signed, negsuc,
}
use dd_framework.Scheduler.State.{Scheduler}
use dd_framework.Scheduler.Waits.{clear_waiters_bit}
use dd_framework.Scheduler.Threads.{Outcome}
use dd_framework.Scheduler.Locks.{wait_key_impl, signal_key_impl}
use dd_framework.CriticalSection.{tag_of}
use dd_framework.TimeSpan.{get_absolute_time_to_wakeup}

-- The assertion and the call, for a timeout in ticks.
abbrev pub wait_until : ℕ → ℕ → ℕ → Scheduler → ℕ → Signed → Run (Scheduler × Outcome)
wait_until n cs cv s current absolute_timeout = do
  require (tag_of s current == clear_waiters_bit (s.words cs))
  wait_key_impl n s current cs cv (tag_of s current) (to_u64 absolute_timeout)

-- The timeout is -1.
unfoldable pub wait : ℕ → ℕ → ℕ → Scheduler → ℕ → Run (Scheduler × Outcome)
wait n cs cv s current = wait_until n cs cv s current (negsuc 0)

unfoldable pub timed_wait : ℕ → ℕ → ℕ → ℕ → ℕ → Scheduler → ℕ → Signed → Run (Scheduler × Outcome)
timed_wait n frequency now cs cv s current timeout_ns = do
  absolute_timeout ← get_absolute_time_to_wakeup frequency now timeout_ns
  wait_until n cs cv s current absolute_timeout

unfoldable pub signal : ℕ → ℕ → Scheduler → ℕ → Run Scheduler
signal n cv s count = if s.words cv == 0 then ok s else signal_key_impl n s cv count >>= λ r. ok r.0

-- The count -1 as a `u32`.
unfoldable pub broadcast : ℕ → ℕ → Scheduler → Run Scheduler
unfolding signal
broadcast n cv s = signal n cv s (2 ^ 32 - 1)
