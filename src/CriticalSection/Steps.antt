-- ===== src/CriticalSection/Steps.antt =====
-- The last of several steps of a fiber.
use dd_framework.Base.{ℕ, zero, suc, ◌≡◌, refl, ◌∙◌, Run, ok, fault, out_of_fuel, ◌>>=◌}
use dd_framework.Scheduler.State.{Scheduler}
use dd_framework.CriticalSection.{Point, step, steps}

run-ok : {A : Type 0} (m : Run A) → m >>= (λ r. ok r) ≡ m
run-ok (ok a) = refl
run-ok fault = refl
run-ok out_of_fuel = refl

steps-snoc :
    (k n cs : ℕ) (s : Scheduler) (current : ℕ) (p : Point)
    → steps (suc k) n cs s current p ≡ steps k n cs s current p >>= λ r. step n cs r.0 current r.1
unfolding steps
steps-snoc zero n cs s current p = run-ok (step n cs s current p)
steps-snoc (suc k) n cs s current p =
    elim (step n cs s current p)
      as (λ m.
        m >>= (λ r. steps (suc k) n cs r.0 current r.1)
        ≡ m >>= (λ r. steps k n cs r.0 current r.1) >>= λ r. step n cs r.0 current r.1) [
          | ok r ↦ steps-snoc k n cs r.0 current r.1
          | fault ↦ refl
          | out_of_fuel ↦ refl
        ]

-- One more step after `k` that are known.
pub steps-then :
    (k n cs : ℕ) (s s' : Scheduler) (current : ℕ) (p q : Point)
    → steps k n cs s current p ≡ ok (s', q)
    → steps (suc k) n cs s current p ≡ step n cs s' current q
steps-then k n cs s s' current p q e = steps-snoc k n cs s current p ∙ rw e refl
