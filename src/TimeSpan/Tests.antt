-- ===== src/TimeSpan/Tests.antt =====
-- Conversions of time spans at concrete values: a clock of 10 MHz.
use dd_framework.Base.{ℕ, ◌+◌, ◌*◌, ◌≤◌, ◌<◌, ◌≡◌, refl, ok, arith, pos, negsuc}
use dd_framework.TimeSpan.{
  nanoseconds_per_second, get_tick, from_tick, get_absolute_time_to_wakeup,
  get_milliseconds_from_tick, max_tick_to_timespan,
}
use dd_framework.TimeSpan.Ticks.{get_tick-ceiling, get_absolute_time_to_wakeup_lem}

a_second_back : from_tick 10000000 (negsuc 9999999) ≡ ok (negsuc 999999999)
unfolding from_tick max_tick_to_timespan
a_second_back = refl

some_milliseconds : get_milliseconds_from_tick 10000000 12345678 ≡ ok 1234
unfolding get_milliseconds_from_tick
some_milliseconds = refl

get_tick-ceiling_example :
    (k : ℕ) × (get_tick 10000000 (pos 150) ≡ ok (pos k))
    × (1500000000 ≤ k * nanoseconds_per_second)
    × (k * nanoseconds_per_second < 1500000000 + nanoseconds_per_second)
get_tick-ceiling_example = get_tick-ceiling 10000000 150 (omega arith) (omega arith)

get_absolute_time_to_wakeup_lem_example :
    (k : ℕ) × (get_absolute_time_to_wakeup 10000000 77 (pos 150) ≡ ok (pos k))
    × (77 * nanoseconds_per_second + 150 * 10000000 ≤ k * nanoseconds_per_second)
    × (k * nanoseconds_per_second < (77 + 3) * nanoseconds_per_second + 150 * 10000000)
get_absolute_time_to_wakeup_lem_example =
    get_absolute_time_to_wakeup_lem 10000000 77 150 (omega arith) (omega arith) (omega arith)
      (omega arith)
