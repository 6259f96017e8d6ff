-- ===== src/ObjectAllocator/Stack.antt =====
-- `FixedObjectAllocator` of util_fixedobjectallocator.hpp as a stack of free objects.
use dd_framework.Base.{
  ℕ, zero, suc, ◌+◌, ◌-◌, ◌<◌, ◌≡◌, ◌≢◌, refl, subst, List, [], ◌∷◌, arith, update, Run, ok, fault,
  ◌>>=◌, ==_refl, ==_ne,
}
use dd_framework.IntrusiveList.Chain.{NotIn, Distinct}
use dd_framework.ObjectAllocator.{Allocator, link_loop, fixed_construct, fixed_allocate, fixed_free}
use dd_framework.ObjectAllocator.FreeChain.{
  Segment, range, AllWithin, range-Distinct, range-AllWithin, Segment-update, link_loop-Segment,
}

-- The free objects of an allocator over `count` objects at `base`, the next to be handed out first.
pub record IsValid (base count : ℕ) (a : Allocator) (free : List ℕ) : Type 0 where
  pub chain : Segment a.next a.free_list free 0
  pub distinct : Distinct free
  pub within : AllWithin base count free

-- A new allocator over at least one object, not at the null address, has all objects of its array
-- free, in the order of their addresses.
pub fixed_construct-IsValid :
    (base count : ℕ)
    → base ≢ 0
    → 0 < count
    → IsValid base count (fixed_construct base count) (range base count)
unfolding fixed_construct
fixed_construct-IsValid base zero nz h = elim h [ ]
fixed_construct-IsValid base (suc n) nz h = record {
  chain =
      let e : n ≡ suc n - 1 = omega arith in
      subst (λ k. Segment (link_loop base k (λ _. 0)) base (range base (suc n)) 0) e
        (link_loop-Segment base n (λ _. 0) n base nz (omega arith) refl);
  distinct = range-Distinct base (suc n);
  within = range-AllWithin base (suc n) (suc n) base (omega arith) (omega arith);
}

pub data Op : Type 0 where
  allocate : Op
  release : ℕ → Op

-- The specification: a stack, whose empty `allocate` answers null.
abbrev pub spec : List ℕ → Op → List ℕ × ℕ
spec [] allocate = ([], 0)
spec (x ∷ free) allocate = (free, x)
spec free (release x) = (x ∷ free, 0)

abbrev pub step : ℕ → ℕ → Allocator → Op → Run (Allocator × ℕ)
step base count a allocate = ok (fixed_allocate a)
step base count a (release x) = fixed_free base count a x >>= λ a'. ok (a', 0)

-- A caller returns an object that it holds, and not the first of the array.
abbrev pub Permitted : ℕ → ℕ → List ℕ → Op → Type 0
Permitted base count free allocate = Unit {0}
Permitted base count free (release x) = (base < x) × (x < base + count) × NotIn x free

abbrev pub AllPermitted : ℕ → ℕ → List ℕ → List Op → Type 0
AllPermitted base count free [] = Unit {0}
AllPermitted base count free (op ∷ ops) =
    Permitted base count free op × AllPermitted base count (spec free op).0 ops

abbrev pub spec_run : List ℕ → List Op → List ℕ × List ℕ
spec_run free [] = (free, [])
spec_run free (op ∷ ops) =
    let rest = spec_run (spec free op).0 ops in (rest.0, (spec free op).1 ∷ rest.1)

abbrev pub run : ℕ → ℕ → Allocator → List Op → Run (Allocator × List ℕ)
run base count a [] = ok (a, [])
run base count a (op ∷ ops) = do
  (a1, answer) ← step base count a op
  (a2, answers) ← run base count a1 ops
  ok (a2, answer ∷ answers)

-- Each operation answers as the stack does and leaves the allocator valid, with the stack as its free
-- objects.
pub step-spec :
    (base count : ℕ) (a : Allocator) (free : List ℕ) (op : Op)
    → IsValid base count a free
    → Permitted base count free op
    → (a' : Allocator) × (step base count a op ≡ ok (a', (spec free op).1))
      × IsValid base count a' (spec free op).0
unfolding fixed_allocate fixed_free
step-spec base count a [] allocate v p = (a, rw v.chain refl, v)
step-spec base count a (x ∷ free) allocate v p = (
  record a { free_list = a.next a.free_list },
  rw (v.chain.0, ==_ne x 0 v.chain.1) refl,
  record { chain = rw v.chain.0 v.chain.2; distinct = v.distinct.1; within = v.within.2 },
)
step-spec base count a free (release x) v p = (
  record { free_list = x; next = update a.next x a.free_list },
  ground (arith, p.0, p.1),
  record {
    chain = (
      refl,
      ground (arith, p.0),
      rw (==_refl x) (Segment-update a.next x a.free_list 0 free a.free_list v.chain p.2),
    );
    distinct = (p.2, v.distinct);
    within = (omega (arith, p.0), p.1, v.within);
  },
)

-- On a valid allocator, every sequence of `Allocate` and `Free` returns and answers as the stack of
-- free objects does, if each object that is freed lies in the array behind its first object and is
-- not free. The allocator stays valid.
pub run-spec :
    (base count : ℕ) (ops : List Op) (a : Allocator) (free : List ℕ)
    → IsValid base count a free
    → AllPermitted base count free ops
    → (a' : Allocator) × (run base count a ops ≡ ok (a', (spec_run free ops).1))
      × IsValid base count a' (spec_run free ops).0
run-spec base count [] a free v p = (a, refl, v)
run-spec base count (op ∷ ops) a free v p =
    let (a1, e1, v1) = step-spec base count a free op v p.0 in
    let (a2, e2, v2) = run-spec base count ops a1 (spec free op).0 v1 p.1 in
    (a2, rw (e1, e2) refl, v2)

-- The first object that a new allocator, not at the null address, hands out cannot be returned to
-- it.
fixed_free-fault :
    (base count : ℕ)
    → base ≢ 0
    → 0 < count
    → let (a, object) = fixed_allocate (fixed_construct base count) in
      (object ≢ 0) × (fixed_free base count a object ≡ fault)
unfolding fixed_construct fixed_allocate fixed_free
fixed_free-fault base count nz h = rw (==_ne base 0 nz) (nz, ground arith)
