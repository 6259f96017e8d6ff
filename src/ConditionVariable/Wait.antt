-- ===== src/ConditionVariable/Wait.antt =====
-- When `Wait` refuses the owner of a critical section.
use dd_framework.Base.{
  ℕ, ◌≡◌, ◌≢◌, ◌⊎◌, ◌↔◌, inl, inr, refl, sym, ok, arith, ==_refl, ==_ne, ==→eq, ◌==◌, Bool-cases,
  true, false, >>=-returns, Run,
}
use dd_framework.ResultCode.{
  result_success, result_requires_lock, result_invalid_lock_address_value,
}
use dd_framework.Scheduler.State.{Scheduler}
use dd_framework.Scheduler.Lists.{wait_list_empty}
use dd_framework.Scheduler.Waits.{clear_waiters_bit, release_lock_wait_list_unsafe}
use dd_framework.Scheduler.Threads.{Outcome, returned, switched}
use dd_framework.Scheduler.Locks.{wait_key_impl, find_address}
use dd_framework.CriticalSection.{tag_of}
use dd_framework.ConditionVariable.{wait}

-- The call returns an error at once, with nothing changed.
abbrev pub Refuses : Scheduler → Run (Scheduler × Outcome) → Type 0
Refuses s r = (e : ℕ) × (r ≡ ok (s, returned e)) × (e ≢ result_success)

not_switched :
    (s t : Scheduler) (x e : ℕ)
    → Path (Run (Scheduler × Outcome)) (ok (t, switched x)) (ok (s, returned e))
    → ⊥
not_switched s t x e h = cc

-- For the owner of a section at an address that is not null, and a condition variable at one: `Wait`
-- refuses, with the section held and nothing changed, exactly where no fiber is in the owner's wait
-- list or the section's word has the waiters bit.
pub wait-Refuses :
    (n cs cv : ℕ) (s : Scheduler) (current : ℕ)
    → cs ≢ 0
    → cv ≢ 0
    → clear_waiters_bit (s.words cs) ≡ tag_of s current
    → Refuses s (wait n cs cv s current)
      ↔ ((wait_list_empty s current ≡ true) ⊎ (s.words cs ≢ tag_of s current))
unfolding wait wait_key_impl
wait-Refuses n cs cv s current nc nv own =
    let null : cs == 0 ≡ false = ==_ne cs 0 nc in
    let null' : cv == 0 ≡ false = ==_ne cv 0 nv in
    let tag = tag_of s current in
    elim (Bool-cases (wait_list_empty s current)) [
      | inl nobody ↦ (
        (λ r. inl nobody),
        λ c. (result_requires_lock, rw (own, ==_refl tag, null, null', nobody) refl, omega arith),
      )
      | inr others ↦ elim (Bool-cases (tag == s.words cs)) [
        | inl same ↦
            rw (own, ==_refl tag, null, null', others, same)
              (
                (λ r.
                    let (s1, _, searched) =
                      >>=-returns (release_lock_wait_list_unsafe n s current) _ r.1 in
                    let (parent, _, waits) = >>=-returns (find_address n _ cv) _ searched in
                    absurd (not_switched _ _ _ _ waits)),
                λ c. elim c [
                  | inl e ↦ absurd (cc)
                  | inr e ↦ absurd (e (sym (==→eq tag (s.words cs) same)))
                ],
              )
        | inr marked ↦ (
          (λ r. inr (λ e. absurd (ground (arith, marked, e)))),
          λ c. (
            result_invalid_lock_address_value,
            rw (own, ==_refl tag, null, null', others, marked) refl,
            omega arith,
          ),
        )
      ]
    ]
