-- ===== src/TimeSpan/Ticks.antt =====
-- What the conversions of util_timespan.hpp and `GetAbsoluteTimeToWakeup` round to.
use dd_framework.Base.{
  ℕ, zero, suc, ◌+◌, ◌-◌, ◌*◌, ◌/◌, ◌%◌, ◌^◌, ◌≤◌, ◌<◌, ◌≡◌, ◌≢◌, refl, subst, ap, ◌>>=◌, ok,
  lt→ltb, ==_ne, arith, pos, negsuc,
}
use dd_framework.TimeSpan.{
  nanoseconds_per_second, get_tick, ticks_up, get_time_left_on_target, get_absolute_time_to_wakeup,
  in_range, wakeup_at,
}

-- The number of ticks of a span, rounded up.
abbrev ceiling : ℕ → ℕ → ℕ
ceiling frequency t = (t * frequency + (nanoseconds_per_second - 1)) / nanoseconds_per_second

spread : (q r f k : ℕ) → (q * k + r) * f ≡ q * f * k + r * f
spread q r f k = grind arith

split-product :
    (t f : ℕ)
    → t * f
      ≡ t / nanoseconds_per_second * f * nanoseconds_per_second + t % nanoseconds_per_second * f
split-product t f =
    subst
      (λ x.
        x * f
        ≡ t / nanoseconds_per_second * f * nanoseconds_per_second + t % nanoseconds_per_second * f)
      (omega arith)
      (spread (t / nanoseconds_per_second) (t % nanoseconds_per_second) f nanoseconds_per_second)

in_range-ok : (v : ℕ) → v < 2 ^ 63 → in_range v ≡ ok v
in_range-ok v h = rw (lt→ltb v (2 ^ 63) h) refl

product_le : (r k f : ℕ) → r ≤ k → r * f ≤ k * f
product_le r k f h =
    let whole : (r + (k - r)) * f ≡ r * f + (k - r) * f = grind arith in
    let same : r + (k - r) ≡ k = omega arith in
    omega (arith, subst (λ x. x * f ≡ r * f + (k - r) * f) same whole)

-- A span whose number of ticks an `s64` holds is converted to it, rounded up; a frequency is an `s32`.
ticks_up-ceiling : (f t : ℕ) → f < 2 ^ 31 → ceiling f t < 2 ^ 63 → ticks_up f t ≡ ok (ceiling f t)
ticks_up-ceiling f t hf h =
    let rest = product_le (t % nanoseconds_per_second) nanoseconds_per_second f (omega arith) in
    let split = split-product t f in
    let parts : (t % nanoseconds_per_second * f + (nanoseconds_per_second - 1))
            / nanoseconds_per_second
          + t / nanoseconds_per_second * f
        ≡ ceiling f t =
      omega (arith, split) in
    rw
      (
        in_range-ok (t % nanoseconds_per_second * f + (nanoseconds_per_second - 1))
            (omega (arith, rest)),
        in_range-ok (t / nanoseconds_per_second * f) (omega (arith, parts)),
        parts,
        in_range-ok (ceiling f t) h,
      )
      refl

-- `GetTick` of a span that is not negative is the span in ticks, rounded up, where an `s64` holds it and
-- the frequency is below 2^31: no fewer ticks than the span lasts, and less than one tick more.
pub get_tick-ceiling :
    (f t : ℕ)
    → f < 2 ^ 31
    → ceiling f t < 2 ^ 63
    → (k : ℕ) × (get_tick f (pos t) ≡ ok (pos k))
      × (t * f ≤ k * nanoseconds_per_second)
      × (k * nanoseconds_per_second < t * f + nanoseconds_per_second)
unfolding get_tick
get_tick-ceiling f t hf h =
    (ceiling f t, rw (ticks_up-ceiling f t hf h) refl, omega arith, omega arith)

-- `GetTick` of a negative span is that of the span without its sign, but for the least one.
pub get_tick-sign : (f n : ℕ) → n ≢ 2 ^ 63 - 1 → get_tick f (negsuc n) ≡ get_tick f (pos (suc n))
unfolding get_tick
get_tick-sign f n h =
    rw (==_ne n (2 ^ 63 - 1) h) (ap (λ m. ticks_up f m >>= λ t. ok (pos t)) (omega arith))

-- Where the present tick is not 0, no time is ever left on a target that is
-- not negative: the difference to the present tick is less than the target, and that test returns 0.
get_time_left_on_target-zero :
    (f now t : ℕ) → 0 < now → get_time_left_on_target f now (pos t) ≡ ok (pos 0)
unfolding get_time_left_on_target
get_time_left_on_target-zero f now t h = ground arith

wakeup_at-later :
    (now c : ℕ) → 0 < c → now + c + 2 < 2 ^ 63 → wakeup_at now (pos c) ≡ ok (pos (c + now + 2))
wakeup_at-later now zero h small = absurd (omega arith)
wakeup_at-later now (suc c) h small = ground arith

-- `GetAbsoluteTimeToWakeup` of a timeout that is not 0 returns a tick that is no earlier than the
-- present tick and the timeout, and less than three ticks later, where an `s64` holds the sum and
-- the frequency is below 2^31 and not 0.
pub get_absolute_time_to_wakeup_lem :
    (f now t : ℕ)
    → 0 < f
    → f < 2 ^ 31
    → 0 < t
    → now + ceiling f t + 2 < 2 ^ 63
    → (k : ℕ) × (get_absolute_time_to_wakeup f now (pos t) ≡ ok (pos k))
      × (now * nanoseconds_per_second + t * f ≤ k * nanoseconds_per_second)
      × (k * nanoseconds_per_second < (now + 3) * nanoseconds_per_second + t * f)
unfolding get_absolute_time_to_wakeup get_tick
get_absolute_time_to_wakeup_lem f now t nz hf ht h =
    let some = product_le 1 t f ht in
    (
      ceiling f t + now + 2,
      rw (ticks_up-ceiling f t hf (omega arith))
          (wakeup_at-later now (ceiling f t) (omega (arith, some)) (omega arith)),
      omega arith,
      omega arith,
    )
