-- ===== src/TimeSpan.antt =====
-- libraries/lib_dd/include/dd/util/util_timespan.hpp, with the largest tick of
-- source/util/util_timestamp.x64.cpp, and `GetAbsoluteTimeToWakeup` of source/ukern/ukern_scheduler.cpp. A time span is its nanoseconds. The clock is a parameter: the
-- number of ticks `frequency` in a second, and the tick `now`. A signed overflow is a fault, and so is a
-- division by zero.
pub mod Ticks
mod Tests
use dd_framework.Base.{
  ℕ, zero, suc, ◌+◌, ◌-◌, ◌*◌, ◌/◌, ◌%◌, ◌^◌, Bool, true, false, ◌||◌, ltb, leb, ◌==◌,
  if◌then◌else◌, Run, ok, fault, ◌>>=◌, ◌>>◌, require, Signed, pos, negsuc,
}

abbrev pub nanoseconds_per_second : ℕ
nanoseconds_per_second = 10 ^ 9

-- `LLONG_MAX` and `LLONG_MIN`.
abbrev pub max_time : Signed
max_time = pos (2 ^ 63 - 1)

abbrev pub min_time : Signed
min_time = negsuc (2 ^ 63 - 1)

-- A value that an `s64` holds and that is not negative.
abbrev pub in_range : ℕ → Run ℕ
in_range v = require (ltb v (2 ^ 63)) >> ok v

abbrev pub negate : ℕ → Signed
negate zero = pos 0
negate (suc n) = negsuc n

-- The rest and the whole seconds, converted; the rest is rounded up.
abbrev pub ticks_up : ℕ → ℕ → Run ℕ
ticks_up frequency time_ns = do
  scaled ← in_range (time_ns % nanoseconds_per_second * frequency + (nanoseconds_per_second - 1))
  let residual = scaled / nanoseconds_per_second
  product ← in_range (time_ns / nanoseconds_per_second * frequency)
  in_range (residual + product)

-- The two coefficients are taken off a negative span with its sign turned, so that the last test, for
-- a negative result, never holds.
unfoldable pub get_tick : ℕ → Signed → Run Signed
get_tick frequency (pos time_ns) = ticks_up frequency time_ns >>= λ t. ok (pos t)
get_tick frequency (negsuc n) =
    if n == 2 ^ 63 - 1 then ok min_time else (ticks_up frequency (n + 1) >>= λ t. ok (pos t))

-- The size of the span that a tick of this size is, rounded down.
abbrev pub span_of : ℕ → ℕ → Run ℕ
span_of frequency tick = do
  require (ltb 0 frequency)
  scaled ← in_range (tick % frequency * nanoseconds_per_second)
  let residual = scaled / frequency
  quotient ← in_range (tick / frequency * nanoseconds_per_second)
  in_range (residual + quotient)

-- `sMaxTickToTimeSpan`, the largest tick that a span is made of.
unfoldable pub max_tick_to_timespan : ℕ → Run ℕ
max_tick_to_timespan frequency = do
  require (ltb 0 frequency)
  let longest = 2 ^ 63 - 1
  in_range ((longest - longest % frequency) / nanoseconds_per_second * frequency)

unfoldable pub from_tick : ℕ → Signed → Run Signed
unfolding max_tick_to_timespan
from_tick frequency (pos tick) = do
  max_tick ← max_tick_to_timespan frequency
  if ltb max_tick tick then ok max_time else (span_of frequency tick >>= λ t. ok (pos t))
from_tick frequency (negsuc n) = do
  max_tick ← max_tick_to_timespan frequency
  if ltb max_tick (n + 1) then ok min_time else (span_of frequency (n + 1) >>= λ t. ok (negate t))

-- `tick - now`.
abbrev pub ticks_left : Signed → ℕ → Run Signed
ticks_left (pos tick) now =
    if leb now tick then ok (pos (tick - now)) else ok (negsuc (now - tick - 1))
ticks_left (negsuc n) now = require (ltb (n + now) (2 ^ 63)) >> ok (negsuc (n + now))

abbrev pub signed_lt : Signed → Signed → Bool
signed_lt (pos a) (pos b) = ltb a b
signed_lt (pos a) (negsuc b) = false
signed_lt (negsuc a) (pos b) = true
signed_lt (negsuc a) (negsuc b) = ltb b a

abbrev pub is_zero : Signed → Bool
is_zero (pos a) = a == 0
is_zero (negsuc a) = false

unfoldable pub get_time_left_on_target : ℕ → ℕ → Signed → Run Signed
unfolding from_tick
get_time_left_on_target frequency now tick = if is_zero tick then ok (pos 0) else do
  left ← ticks_left tick now
  if is_zero left || signed_lt left tick then ok (pos 0) else from_tick frequency left

-- `tick + now`, its test for a sum that is not positive, and the margin of two ticks.
abbrev pub wakeup_at : ℕ → Signed → Run Signed
wakeup_at now (pos zero) = ok max_time
wakeup_at now (pos (suc t)) = do
  absolute_time ← in_range (suc t + now)
  following ← in_range (absolute_time + 1)
  if leb following 1 then ok max_time else (in_range (absolute_time + 2) >>= λ v. ok (pos v))
wakeup_at now (negsuc n) = ok max_time

unfoldable pub get_absolute_time_to_wakeup : ℕ → ℕ → Signed → Run Signed
unfolding get_tick
get_absolute_time_to_wakeup frequency now timeout_ns =
    get_tick frequency timeout_ns >>= wakeup_at now

-- `GetMillisecondsFromTick` of source/util/util_time.cpp, for a tick that is not negative.
unfoldable pub get_milliseconds_from_tick : ℕ → ℕ → Run ℕ
get_milliseconds_from_tick frequency tick = do
  require (ltb 0 frequency)
  scaled ← in_range (tick % frequency * 1000)
  whole ← in_range (tick / frequency * 1000)
  in_range (scaled / frequency + whole)
