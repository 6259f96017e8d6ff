-- ===== src/BusyMutex/Exclusion.antt =====
-- What the mutex guarantees in every reachable state, and what becomes of a thread that has to wait.
use dd_framework.Base.{
  ℕ, ◌+◌, ◌≤◌, ◌<◌, ◌≡◌, refl, ap, subst, ◌∙◌, true, false, ◌==◌, ==_refl, ==_ne, eq→==, arith,
  ℕ_discrete,
}
use dd_framework.BusyMutex.{
  BusyMutex, Point, outside, testing, inside, leaving, advance, owns, holds_ticket,
}
use dd_framework.BusyMutex.Tickets.{tickets, tickets-update}
use dd_framework.BusyMutex.System.{System, start_state, pick, Reach, start, later}
use dd_framework.BusyMutex.Invariant.{max_threads, Inv, no_agreement, start-Inv, Reach-Inv}

-- With at most 65535 threads, from the constructed mutex on, no two threads are in the protected
-- section at once, in `Leave`, or past the read that lets them in.
pub mutual_exclusion :
    {n : ℕ} {s : System}
    → n ≤ max_threads
    → Reach n start_state s
    → (i j : ℕ) → i < n
    → j < n
    → owns (s.point i) ≡ true
    → owns (s.point j) ≡ true
    → i ≡ j
mutual_exclusion {n} few r = (Reach-Inv (start-Inv n few) r).one_owner

-- A thread that found the counters different.
unfoldable pub IsTurnedAway : Point → Type 0
IsTurnedAway p = (w : BusyMutex) × (p ≡ testing w) × (w.release_count == w.lock_count ≡ false)

turned_away-ticket : (p : Point) → IsTurnedAway p → holds_ticket p ≡ 1
unfolding IsTurnedAway holds_ticket
turned_away-ticket p away = ap holds_ticket away.1

-- A turned-away thread's next step turns it away again, since its own ticket keeps the counters apart.
IsTurnedAway-advance :
    {n : ℕ} {m : BusyMutex} {points : ℕ → Point}
    → Inv n m points
    → (i : ℕ) → i < n
    → IsTurnedAway (points i)
    → IsTurnedAway (advance m (points i)).1
unfolding IsTurnedAway advance
IsTurnedAway-advance {m} {points} inv i lt away =
    rw (away.1, away.2) (m, refl, no_agreement inv i lt (turned_away-ticket (points i) away))

IsTurnedAway-pick :
    {n : ℕ} {s : System}
    → Inv n s.mutex s.point
    → (i k : ℕ) → i < n
    → IsTurnedAway (s.point i)
    → IsTurnedAway ((pick s k).point i)
IsTurnedAway-pick {s} inv i k lt away = elim (ℕ_discrete i k) [
  | yes e ↦
      subst (λ k. IsTurnedAway ((pick s k).point i)) e
        (rw (==_refl i) (IsTurnedAway-advance inv i lt away))
  | no ne ↦ rw (==_ne i k ne) away
]

-- A thread that reads different counters once never gets into the section, whatever the threads do
-- afterwards, with at most 65535 threads: the loop compares two new counts and not its ticket.
pub IsTurnedAway-for_good :
    {n : ℕ} {s t : System}
    → n ≤ max_threads
    → Reach n start_state s
    → Reach n s t
    → (i : ℕ) → i < n
    → IsTurnedAway (s.point i)
    → IsTurnedAway (t.point i)
IsTurnedAway-for_good few r start i lt away = away
IsTurnedAway-for_good {n} few r (later r' k _) i lt away =
    IsTurnedAway-pick (Reach-Inv (Reach-Inv (start-Inv n few) r) r') i k lt
      (IsTurnedAway-for_good few r r' i lt away)

-- Beside a ticket that is out, a thread that does not own the mutex does not come to own it.
advance-locked :
    (m : BusyMutex) (p : Point)
    → m.release_count == m.lock_count ≡ false
    → owns p ≡ false
    → owns (advance m p).1 ≡ false
unfolding owns advance
advance-locked m outside apart free = apart
advance-locked m (testing w) apart free = rw free apart
advance-locked m inside apart free = cc
advance-locked m (leaving r) apart free = refl

pick-locked :
    {n : ℕ} {s : System}
    → Inv n s.mutex s.point
    → (i j k : ℕ) → i < n
    → IsTurnedAway (s.point i)
    → owns (s.point j) ≡ false
    → owns ((pick s k).point j) ≡ false
pick-locked {s} inv i j k lt away free = elim (ℕ_discrete j k) [
  | yes e ↦
      subst (λ k. owns ((pick s k).point j) ≡ false) e
        (rw (==_refl j) (
          advance-locked s.mutex (s.point j)
            (no_agreement inv i lt (turned_away-ticket (s.point i) away)) free))
  | no ne ↦ rw (==_ne j k ne) free
]

-- Once some thread has been turned away, no thread but the owner of that moment owns the mutex in any
-- later state, with at most 65535 threads: a second thread that enters in time stops all of them.
pub locked_for_good :
    {n : ℕ} {s t : System}
    → n ≤ max_threads
    → Reach n start_state s
    → Reach n s t
    → (i j : ℕ) → i < n
    → IsTurnedAway (s.point i)
    → owns (s.point j) ≡ false
    → owns (t.point j) ≡ false
locked_for_good few r start i j lt away free = free
locked_for_good {n} few r (later r' k _) i j lt away free =
    pick-locked (Reach-Inv (Reach-Inv (start-Inv n few) r) r') i j k lt
      (IsTurnedAway-for_good few r r' i lt away) (locked_for_good few r r' i j lt away free)

-- What a step of thread `i` leaves it at, and the count of tickets.
module _ (s : System) (i : ℕ) where
  pick-point : {p : Point} → s.point i ≡ p → (pick s i).point i ≡ (advance s.mutex p).1
  pick-point at = rw (==_refl i, at) refl

  pick-tickets :
      {n : ℕ}
      → i < n
      → holds_ticket (s.point i) + tickets n (pick s i).point
        ≡ holds_ticket ((pick s i).point i) + tickets n s.point
  pick-tickets {n} lt =
      rw (==_refl i) (tickets-update s.point (advance s.mutex (s.point i)).1 i n lt)

free-agree :
    {n : ℕ} {m : BusyMutex} {points : ℕ → Point}
    → Inv n m points
    → tickets n points ≡ 0
    → m.release_count == m.lock_count ≡ true
free-agree {m} inv free =
    eq→== m.release_count m.lock_count (omega (arith, inv.outstanding, inv.release_small, free))

-- `Enter` and `Leave` of a thread that no other disturbs.
abbrev pub enter_alone : System → ℕ → System
enter_alone s i = pick (pick s i) i

abbrev pub leave_alone : System → ℕ → System
leave_alone s i = pick (pick s i) i

-- Where no ticket is out, a thread that runs alone is inside after the two steps of `Enter`, and after
-- the two of `Leave` it is outside and again no ticket is out.
enter-leave_alone :
    {n : ℕ} {s : System}
    → n ≤ max_threads
    → Reach n start_state s
    → (i : ℕ) → i < n
    → tickets n s.point ≡ 0
    → s.point i ≡ outside
    → ((enter_alone s i).point i ≡ inside)
      × ((leave_alone (enter_alone s i) i).point i ≡ outside)
      × (tickets n (leave_alone (enter_alone s i) i).point ≡ 0)
unfolding advance holds_ticket
enter-leave_alone {n} {s} few r i lt free at = (
  entered,
  left,
  omega (
    arith,
    free,
    pick-tickets s i lt,
    pick-tickets (pick s i) i lt,
    pick-tickets (enter_alone s i) i lt,
    pick-tickets (pick (enter_alone s i) i) i lt,
    ap holds_ticket at,
    ap holds_ticket left,
  ),
)
  where
    first : (pick s i).point i ≡ testing s.mutex
    first = pick-point s i at

    entered : (enter_alone s i).point i ≡ inside
    entered =
        pick-point (pick s i) i first ∙ rw (free-agree (Reach-Inv (start-Inv n few) r) free) refl

    left : (leave_alone (enter_alone s i) i).point i ≡ outside
    left = pick-point (pick (enter_alone s i) i) i (pick-point (enter_alone s i) i entered)
