-- ===== src/RawInput/Keys.antt =====
-- The operations on sets of keys, key by key.
use Prim.Native.Nat.{bit_and, bit_or}
use dd_framework.Base.{
  ℕ, ◌/◌, ◌%◌, ◌^◌, ◌≤◌, ◌<◌, ◌≡◌, refl, Bool, true, false, not, ◌&&◌, ◌||◌, ltb, ◌==◌, update,
  Bool-cases, inl, inr, arith, ==→eq, ==_refl, digit, digit-bit_and, digit-bit_or, digit-not,
  digit-pow, bit_or-lt, bit_and-le, bit_and-pow, Run, ok,
}
use native.Mathlib.Nat.{pow-le-pow_right, one-le-pow}
use dd_framework.RawInput.{
  KeyState, key_or, key_and, key_not, word_not, key_pos, key_index, get_key_state, set_key_state,
  clear_key_state,
}

abbrev pub contains : KeyState → ℕ → Bool
contains s vk = digit (vk % 64) (s (key_index vk))

-- The words are words of 64 bits.
abbrev pub Bounded : KeyState → Type 0
Bounded s = (i : ℕ) → s i < 2 ^ 64

-- A key whose place in its word is below 31.
abbrev pub IsPlain : ℕ → Type 0
IsPlain vk = vk % 64 < 31

pos-small : (n : ℕ) → n < 31 → 2 ^ n ≤ 2 ^ 30
pos-small n h = pow-le-pow_right {n = 2} (omega arith) {i = n} {j = 30} (omega arith)

key_pos-plain : (vk : ℕ) → IsPlain vk → key_pos vk ≡ ok (2 ^ (vk % 64))
key_pos-plain vk h = let e : ltb (vk % 64) 31 ≡ true = ground arith in rw e

pub get_key_state-contains :
    (s : KeyState) (vk : ℕ) → IsPlain vk → get_key_state s vk ≡ ok (contains s vk)
unfolding get_key_state
get_key_state-contains s vk h =
    let positive = one-le-pow (vk % 64) 2 (omega arith) in
    rw (key_pos-plain vk h, bit_and-pow (vk % 64) (s (key_index vk)))
      (elim (Bool-cases (contains s vk)) [
        | inl e ↦ rw e (ground arith)
        | inr e ↦ rw e (ground arith)
      ])

same_key : (k v : ℕ) → (k == v) ≡ ((v / 64 == k / 64) && (v % 64 == k % 64))
same_key k v = ground arith

-- What a set of keys has become.
pub record Becomes (r : Run KeyState) (f : ℕ → Bool) : Type 0 where
  pub state : KeyState
  pub returns : r ≡ ok state
  pub keys : (v : ℕ) → contains state v ≡ f v
  pub bounded : Bounded state

or_swap : (a b : Bool) → (a || b) ≡ (b || a)
or_swap true true = refl
or_swap true false = refl
or_swap false true = refl
or_swap false false = refl

and_swap : (a b : Bool) → (a && not b) ≡ (not b && a)
and_swap true true = refl
and_swap true false = refl
and_swap false true = refl
and_swap false false = refl

update-Bounded : (s : KeyState) (i w : ℕ) → Bounded s → w < 2 ^ 64 → Bounded (update s i w)
update-Bounded s i w b lt j = elim (Bool-cases (j == i)) [ inl e ↦ rw e lt | inr e ↦ rw e (b j) ]

pub set_key_state-Becomes :
    (s : KeyState) (k : ℕ)
    → IsPlain k
    → Bounded s
    → Becomes (set_key_state s k) (λ v. (k == v) || contains s v)
unfolding set_key_state
set_key_state-Becomes s k h b =
    let pos = 2 ^ (k % 64) in
    record {
      state = update s (key_index k) (bit_or (s (key_index k)) pos);
      returns = rw (key_pos-plain k h);
      keys = λ v. rw (same_key k v) (elim (Bool-cases (v / 64 == k / 64)) [
        | inl e ↦
            let q = ==→eq (v / 64) (k / 64) e in
            rw
              (
                q,
                ==_refl (k / 64),
                digit-bit_or (v % 64) (s (k / 64)) pos,
                digit-pow (v % 64) (k % 64),
              )
              (or_swap (digit (v % 64) (s (k / 64))) (v % 64 == k % 64))
        | inr e ↦ rw e
      ]);
      bounded =
          update-Bounded s (key_index k) (bit_or (s (key_index k)) pos) b (
            bit_or-lt (s (key_index k)) pos (b (key_index k))
              (omega (arith, pos-small (k % 64) h)));
    }

pub clear_key_state-Becomes :
    (s : KeyState) (k : ℕ)
    → IsPlain k
    → Bounded s
    → Becomes (clear_key_state s k) (λ v. not (k == v) && contains s v)
unfolding clear_key_state
clear_key_state-Becomes s k h b =
    let pos = 2 ^ (k % 64) in
    let kept = bit_and (s (key_index k)) (word_not pos) in
    record {
      state = update s (key_index k) kept;
      returns = rw (key_pos-plain k h);
      keys = λ v. rw (same_key k v) (elim (Bool-cases (v / 64 == k / 64)) [
        | inl e ↦
            let q = ==→eq (v / 64) (k / 64) e in
            rw
              (
                q,
                ==_refl (k / 64),
                digit-bit_and (v % 64) (s (k / 64)) (word_not pos),
                digit-not (v % 64) pos (omega arith) (omega (arith, pos-small (k % 64) h)),
                digit-pow (v % 64) (k % 64),
              )
              (and_swap (digit (v % 64) (s (k / 64))) (v % 64 == k % 64))
        | inr e ↦ rw e
      ]);
      bounded =
          update-Bounded s (key_index k) kept b
            (omega (arith, bit_and-le (s (key_index k)) (word_not pos), b (key_index k)));
    }

pub contains-or :
    (a b : KeyState) (v : ℕ) → contains (key_or a b) v ≡ (contains a v || contains b v)
contains-or a b v = digit-bit_or (v % 64) (a (v / 64)) (b (v / 64))

pub contains-and_not :
    (a b : KeyState) (v : ℕ)
    → Bounded b
    → contains (key_and a (key_not b)) v ≡ (contains a v && not (contains b v))
contains-and_not a b v h = rw (
  digit-bit_and (v % 64) (a (v / 64)) (word_not (b (v / 64))),
  digit-not (v % 64) (b (v / 64)) (omega arith) (h (v / 64)),
)
