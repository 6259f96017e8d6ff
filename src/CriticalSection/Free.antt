-- ===== src/CriticalSection/Free.antt =====
-- A critical section that no fiber is in.
use dd_framework.Base.{
  ℕ, ◌^◌, ◌<◌, ◌≡◌, ◌↔◌, refl, ok, true, false, bit_and-mask_low, ==_refl, arith, Bool-cases, inl,
  inr, ◌==◌,
}
use dd_framework.Scheduler.State.{Scheduler, set_word}
use dd_framework.CriticalSection.{
  step, steps, outside, inside, tag_of, try_enter, is_locked_by_current_thread, has_waiters,
}

pub low-has_no_waiters : (v : ℕ) → v < 2 ^ 30 → has_waiters v ≡ false
low-has_no_waiters v h = ground arith

-- A fiber that no other disturbs, with a handle below 2^30, enters a free section in two steps and leaves it in two, after which every word of memory is as it was.
pub enter-leave_free :
    (n cs : ℕ) (s : Scheduler) (current : ℕ)
    → s.words cs ≡ 0
    → tag_of s current < 2 ^ 30
    → let held = set_word s cs (tag_of s current) in
      let left = set_word held cs 0 in
      (steps 2 n cs s current outside ≡ ok (held, inside))
      × (is_locked_by_current_thread cs held current ≡ true)
      × (steps 2 n cs held current inside ≡ ok (left, outside))
      × ((a : ℕ) → left.words a ≡ s.words a)
unfolding steps step is_locked_by_current_thread
enter-leave_free n cs s current free small = (
  rw free refl,
  rw (==_refl cs, bit_and-mask_low (tag_of s current) small, ==_refl (tag_of s current)) refl,
  rw (==_refl cs, low-has_no_waiters (tag_of s current) small) refl,
  λ a. ground (arith, free),
)

-- `TryEnter` gets the section exactly where `Enter` gets in without waiting, and with the same effect.
pub try_enter-enter :
    (n cs : ℕ) (s s' : Scheduler) (current : ℕ)
    → (try_enter cs s current ≡ (s', true)) ↔ (steps 2 n cs s current outside ≡ ok (s', inside))
unfolding steps step try_enter
try_enter-enter n cs s s' current = elim (Bool-cases (s.words cs == 0)) [
  | inl free ↦ ((λ e. ground (arith, free, e)), λ e. ground (arith, free, e))
  | inr held ↦ ((λ e. ground (arith, held, e)), λ e. ground (arith, held, e))
]
