-- ===== src/BusyMutex/Tickets.antt =====
-- How many of the first `n` threads hold a ticket.
use dd_framework.Base.{ℕ, zero, suc, ◌+◌, ◌≤◌, ◌<◌, ◌≡◌, refl, update, arith, ℕ_discrete}
use dd_framework.BusyMutex.{Point, outside, testing, inside, leaving, holds_ticket}

unfoldable pub tickets : ℕ → (ℕ → Point) → ℕ
tickets zero points = 0
tickets (suc n) points = holds_ticket (points n) + tickets n points

pub holds_ticket_le : (p : Point) → holds_ticket p ≤ 1
unfolding holds_ticket
holds_ticket_le outside = omega arith
holds_ticket_le (testing w) = omega arith
holds_ticket_le inside = omega arith
holds_ticket_le (leaving r) = omega arith

pub tickets_le : (n : ℕ) (points : ℕ → Point) → tickets n points ≤ n
unfolding tickets
tickets_le zero points = omega arith
tickets_le (suc n) points = omega (arith, holds_ticket_le (points n), tickets_le n points)

pub tickets_none : (n : ℕ) → tickets n (λ _. outside) ≡ 0
unfolding tickets holds_ticket
tickets_none zero = refl
tickets_none (suc n) = omega (arith, tickets_none n)

pub ticket-counted :
    (points : ℕ → Point) (i n : ℕ) → i < n → holds_ticket (points i) ≤ tickets n points
unfolding tickets
ticket-counted points i zero h = absurd (omega arith)
ticket-counted points i (suc n) h = elim (ℕ_discrete i n) [
  | yes same ↦ ground arith
  | no other ↦ ground (arith, ticket-counted points i n (omega arith))
]

-- A thread from `n` on is not among those counted.
tickets-beyond :
    (points : ℕ → Point) (p : Point) (i n : ℕ)
    → n ≤ i
    → tickets n (update points i p) ≡ tickets n points
unfolding tickets
tickets-beyond points p i zero h = refl
tickets-beyond points p i (suc n) h = ground (arith, tickets-beyond points p i n (omega arith))

pub tickets-update :
    (points : ℕ → Point) (p : Point) (i n : ℕ)
    → i < n
    → holds_ticket (points i) + tickets n (update points i p) ≡ holds_ticket p + tickets n points
unfolding tickets
tickets-update points p i zero h = absurd (omega arith)
tickets-update points p i (suc n) h = elim (ℕ_discrete i n) [
  | yes same ↦ ground (arith, tickets-beyond points p i n (omega arith))
  | no other ↦ ground (arith, tickets-update points p i n (omega arith))
]
