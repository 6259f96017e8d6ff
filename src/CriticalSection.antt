-- ===== src/CriticalSection.antt =====
-- libraries/lib_dd/include/dd/ukern/ukern_internalcriticalsection.hpp: what one fiber does to enter
-- and to leave, a step for each access of the handle's word and each call of the scheduler. An abort
-- of the process is a fault. `cs` is the address of the section's `m_handle`.
pub mod Steps
pub mod Free
pub mod HandOver
pub mod Round
pub mod Races
pub mod Tests
use Prim.Native.Nat.{bit_or}
use dd_framework.Base.{
  ℕ, zero, suc, ◌/◌, ◌%◌, ◌^◌, Bool, true, false, Run, ok, fault, ◌>>=◌, ◌==◌, if◌then◌else◌,
}
use dd_framework.ResultCode.{result_success}
use dd_framework.Scheduler.State.{Scheduler, set_word, has_child_waiters_bit}
use dd_framework.Scheduler.Waits.{clear_waiters_bit}
use dd_framework.Scheduler.Threads.{Outcome, returned, switched, resume_result}
use dd_framework.Scheduler.Locks.{arbitrate_lock_impl, arbitrate_unlock_impl}

-- Where a fiber stands: outside; before the compare-and-exchange of `Enter`; before the `Or` or the
-- call of the scheduler, with the word that it read; switched out in that call with the result it
-- holds; before the last test of the loop; inside; and in `Leave`, on either branch.
pub data Point : Type 0 where
  outside : Point
  acquiring : Point
  marking : ℕ → Point
  blocking : ℕ → Point
  asleep : ℕ → Point
  checking : Point
  inside : Point
  unlocking : Point
  clearing : Point

-- `((v >> 0x1e) & 1) == 1`.
abbrev pub has_waiters : ℕ → Bool
has_waiters v = v / 2 ^ 30 % 2 == 1

abbrev pub tag_of : Scheduler → ℕ → ℕ
tag_of s current = (s.fibers current).ukern_fiber_handle

-- The compare-and-exchange, with the word as it was.
abbrev pub compare_exchange : Scheduler → ℕ → ℕ → Scheduler × ℕ
compare_exchange s cs tag = (if s.words cs == 0 then set_word s cs tag else s, s.words cs)

abbrev pub after_exchange : Scheduler × ℕ → Scheduler × Point
after_exchange r =
    if r.1 == 0
    then (r.0, inside)
    else if has_waiters r.1
    then (r.0, blocking r.1)
    else (r.0, marking r.1)

-- `InterlockedOr` of the waiters bit: the loop starts again where the word is not the one read.
abbrev pub set_tag_bit : Scheduler → ℕ → ℕ → Scheduler × Point
set_tag_bit s cs other_waiter = (
  set_word s cs (bit_or (s.words cs) has_child_waiters_bit),
  if s.words cs == other_waiter then blocking other_waiter else acquiring,
)

-- How `ArbitrateLockImpl` leaves the fiber.
abbrev pub after_arbitrate : Scheduler × Outcome → Run (Scheduler × Point)
after_arbitrate (s, returned result) = if result == result_success then ok (s, checking) else fault
after_arbitrate (s, switched result) = ok (s, asleep result)

abbrev pub after_sleep : Scheduler → ℕ → Run (Scheduler × Point)
after_sleep s result = if result == result_success then ok (s, checking) else fault

abbrev pub test_owner : Scheduler → ℕ → ℕ → Scheduler × Point
test_owner s current cs =
    (s, if clear_waiters_bit (s.words cs) == tag_of s current then inside else acquiring)

abbrev pub after_unlock : Scheduler × ℕ → Run (Scheduler × Point)
after_unlock r = if r.1 == result_success then ok (r.0, outside) else fault

-- The next step of fiber `current`. A fiber that stands outside begins `Enter`, and one that stands
-- inside begins `Leave`. The step from `asleep` is taken when the fiber is dispatched again. `n` bounds
-- the rounds of the scheduler's loops.
unfoldable pub step : ℕ → ℕ → Scheduler → ℕ → Point → Run (Scheduler × Point)
step n cs s current outside = ok (s, acquiring)
step n cs s current acquiring = ok (after_exchange (compare_exchange s cs (tag_of s current)))
step n cs s current (marking other_waiter) = ok (set_tag_bit s cs other_waiter)
step n cs s current (blocking other_waiter) =
    arbitrate_lock_impl s current (clear_waiters_bit other_waiter) cs (tag_of s current)
    >>= after_arbitrate
step n cs s current (asleep result) = after_sleep s (resume_result s current result)
step n cs s current checking = ok (test_owner s current cs)
step n cs s current inside = ok (s, if has_waiters (s.words cs) then unlocking else clearing)
step n cs s current unlocking = arbitrate_unlock_impl n s current cs >>= after_unlock
step n cs s current clearing = ok (set_word s cs 0, outside)

-- `TryEnter` and `IsLockedByCurrentThread`.
unfoldable pub try_enter : ℕ → Scheduler → ℕ → Scheduler × Bool
try_enter cs s current = let r = compare_exchange s cs (tag_of s current) in (r.0, r.1 == 0)

unfoldable pub is_locked_by_current_thread : ℕ → Scheduler → ℕ → Bool
is_locked_by_current_thread cs s current = clear_waiters_bit (s.words cs) == tag_of s current

-- The steps that follow each other without a step of another fiber: from `p`, `k` of them.
unfoldable pub steps : ℕ → ℕ → ℕ → Scheduler → ℕ → Point → Run (Scheduler × Point)
unfolding step
steps zero n cs s current p = ok (s, p)
steps (suc k) n cs s current p = step n cs s current p >>= λ r. steps k n cs r.0 current r.1
