-- ===== src/BusyMutex/Invariant.antt =====
-- The counters tell how many threads hold a ticket, and one of those threads at most owns the mutex.
use dd_framework.Base.{
  ℕ, ◌+◌, ◌-◌, ◌%◌, ◌^◌, ◌≤◌, ◌<◌, ◌≡◌, ◌≢◌, ◌⊎◌, inl, inr, refl, sym, ap, ◌∙◌, true, false, ◌==◌,
  update, ==→eq, Bool-cases, arith, ℕ_discrete,
}
use dd_framework.BusyMutex.{
  BusyMutex, Point, outside, testing, inside, leaving, advance, owns, holds_ticket,
}
use dd_framework.BusyMutex.Tickets.{
  tickets, tickets_le, tickets_none, ticket-counted, tickets-update,
}
use dd_framework.BusyMutex.System.{System, start_state, Reach, start, later}

abbrev pub max_threads : ℕ
max_threads = 2 ^ 16 - 1

pub record Inv (n : ℕ) (m : BusyMutex) (points : ℕ → Point) : Type 0 where
  pub few : n ≤ max_threads
  pub release_small : m.release_count < 2 ^ 16
  pub outstanding : m.lock_count ≡ (m.release_count + tickets n points) % 2 ^ 16
  pub one_owner :
      (i j : ℕ) → i < n → j < n → owns (points i) ≡ true → owns (points j) ≡ true → i ≡ j
  pub read_kept : (i r : ℕ) → i < n → points i ≡ leaving r → r ≡ m.release_count

pub owner-ticket : (p : Point) → owns p ≡ true → holds_ticket p ≡ 1
unfolding owns holds_ticket
owner-ticket outside h = cc
owner-ticket (testing w) h = refl
owner-ticket inside h = refl
owner-ticket (leaving r) h = refl

module _ {n : ℕ} {m : BusyMutex} {points : ℕ → Point} (inv : Inv n m points) where
  -- The two counters agree exactly where no thread holds a ticket.
  pub agree-free : m.release_count ≡ m.lock_count → tickets n points ≡ 0
  agree-free h = omega (arith, inv.few, inv.release_small, inv.outstanding, tickets_le n points)

  pub no_agreement :
      (i : ℕ) → i < n → holds_ticket (points i) ≡ 1 → m.release_count == m.lock_count ≡ false
  no_agreement i lt h = elim (Bool-cases (m.release_count == m.lock_count)) [
    | inl same ↦ absurd (omega (arith, agree-free (==→eq _ _ same), ticket-counted points i n lt))
    | inr differ ↦ differ
  ]

  no_other_owner :
      (i j : ℕ) (p : Point)
      → i < n
      → j < n
      → (owns p ≡ true → (owns (points i) ≡ true) ⊎ (tickets n points ≡ 0))
      → owns p ≡ true
      → owns (points j) ≡ true
      → i ≡ j
  no_other_owner i j p lt jn from op oj = elim (from op) [
    | inl oi ↦ inv.one_owner i j lt jn oi oj
    | inr none_held ↦
        absurd (omega (arith, owner-ticket (points j) oj, ticket-counted points j n jn))
  ]

  -- A thread gets to own the mutex only where it was the owner, or no thread holds a ticket.
  owner-update :
      (i : ℕ) (p : Point)
      → i < n
      → (owns p ≡ true → (owns (points i) ≡ true) ⊎ (tickets n points ≡ 0))
      → (j k : ℕ) → j < n
      → k < n
      → owns (update points i p j) ≡ true
      → owns (update points i p k) ≡ true
      → j ≡ k
  owner-update i p lt from j k jn kn = elim (ℕ_discrete j i) [
    | yes e ↦ elim (ℕ_discrete k i) [
      | yes d ↦ λ oj ok. omega arith
      | no d ↦ λ oj ok. e ∙ no_other_owner i k p lt kn from (ground arith) (ground arith)
    ]
    | no e ↦ elim (ℕ_discrete k i) [
      | yes d ↦ λ oj ok. sym (d ∙ no_other_owner i j p lt jn from (ground arith) (ground arith))
      | no d ↦ λ oj ok. inv.one_owner j k jn kn (ground arith) (ground arith)
    ]
  ]

  -- The mutex is not written: thread `i` goes on to a point that holds the ticket it held.
  pub keep-Inv :
      (i : ℕ) (p : Point)
      → i < n
      → holds_ticket p ≡ holds_ticket (points i)
      → (owns p ≡ true → owns (points i) ≡ true)
      → ((r : ℕ) → p ≡ leaving r → r ≡ m.release_count)
      → Inv n m (update points i p)
  keep-Inv i p lt same own kept = record {
    few = inv.few;
    release_small = inv.release_small;
    outstanding = omega (arith, inv.outstanding, tickets-update points p i n lt);
    one_owner = owner-update i p lt (λ h. inl (own h));
    read_kept = λ j r jn. elim (ℕ_discrete j i) [
      | yes e ↦ λ h. kept r (ground arith)
      | no e ↦ λ h. inv.read_kept j r jn (ground arith)
    ];
  }

  -- A ticket is taken: it lets the thread in where no other ticket is out.
  enter-Inv :
      (i : ℕ)
      → i < n
      → points i ≡ outside
      → Inv n (record m { lock_count = (m.lock_count + 1) % 2 ^ 16 }) (update points i (testing m))
  unfolding owns holds_ticket
  enter-Inv i lt at = record {
    few = inv.few;
    release_small = inv.release_small;
    outstanding =
        omega
          (arith, inv.outstanding, tickets-update points (testing m) i n lt, ap holds_ticket at);
    one_owner = owner-update i (testing m) lt (λ h. inr (agree-free (==→eq _ _ h)));
    read_kept = λ j r jn. elim (ℕ_discrete j i) [
      | yes e ↦ λ h. ground arith
      | no e ↦ λ h. inv.read_kept j r jn (ground arith)
    ];
  }

  -- The owner gives its ticket back.
  release-Inv :
      (i r : ℕ)
      → i < n
      → points i ≡ leaving r
      → Inv n (record m { release_count = (r + 1) % 2 ^ 16 }) (update points i outside)
  unfolding owns holds_ticket
  release-Inv i r lt at = record {
    few = inv.few;
    release_small = omega arith;
    outstanding = omega (
      arith,
      inv.outstanding,
      tickets-update points outside i n lt,
      ap holds_ticket at,
      inv.read_kept i r lt at,
      inv.release_small,
    );
    one_owner = owner-update i outside lt (λ h. cc);
    read_kept = λ j q jn. elim (ℕ_discrete j i) [
      | yes e ↦ λ h. ground arith
      | no e ↦ λ h. absurd (e (inv.one_owner j i jn lt (ap owns (other h e)) (ap owns at)))
    ];
  }
    where
      other : {j q : ℕ} → update points i outside j ≡ leaving q → j ≢ i → points j ≡ leaving q
      other h e = ground arith

  advance-Inv :
      (i : ℕ) (p : Point)
      → i < n
      → points i ≡ p
      → Inv n (advance m p).0 (update points i (advance m p).1)
  unfolding advance owns holds_ticket
  advance-Inv i outside lt at = enter-Inv i lt at
  advance-Inv i (testing w) lt at = elim (Bool-cases (w.release_count == w.lock_count)) [
    | inl same ↦
        rw same
          (keep-Inv i inside lt (sym (ap holds_ticket at)) (λ h. ap owns at ∙ same) (λ r h. cc))
    | inr differ ↦ rw differ (
        keep-Inv i (testing m) lt (sym (ap holds_ticket at))
          (λ h. let d = no_agreement i lt (ap holds_ticket at) in cc) (λ r h. cc))
  ]
  advance-Inv i inside lt at =
      keep-Inv i (leaving m.release_count) lt (sym (ap holds_ticket at)) (λ h. ap owns at)
        (λ r h. ground arith)
  advance-Inv i (leaving r) lt at = release-Inv i r lt at

pub start-Inv : (n : ℕ) → n ≤ max_threads → Inv n start_state.mutex start_state.point
unfolding owns
start-Inv n h = record {
  few = h;
  release_small = omega arith;
  outstanding = omega (arith, tickets_none n);
  one_owner = λ i j a b c d. cc;
  read_kept = λ i r a b. cc;
}

-- Every state that threads reach from a state with the invariant has it.
pub Reach-Inv : {n : ℕ} {s t : System} → Inv n s.mutex s.point → Reach n s t → Inv n t.mutex t.point
Reach-Inv inv start = inv
Reach-Inv {n} inv (later {t} r i lt) = advance-Inv (Reach-Inv inv r) i (t.point i) lt refl
