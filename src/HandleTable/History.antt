-- ===== src/HandleTable/History.antt =====
-- Sequences of calls on the table of ukern_handletable.hpp.
use dd_framework.Base.{
  ℕ, zero, suc, ◌≡◌, ◌≢◌, refl, List, [], ◌∷◌, ◌<◌, ◌≤◌, Bool, true, false, Option, none, some,
  to_u32, arith, Run, ok, ◌>>=◌, dec_lt, if◌then◌else◌, ◌==◌,
}
use dd_framework.HandleTable.{
  HandleTable, null, max_handles, handle_index, initialize, make_handle, reserve_handle,
  free_handle, get_object_by_handle,
}
use dd_framework.HandleTable.Invariant.{IsValid, initialize-IsValid, slots_below}
use dd_framework.HandleTable.Lookup.{
  live-named, full-live, reserve_handle_lem, reserve_handle_full, free_handle_lem,
  free_handle_stale, get_object_by_handle-ok,
}

pub data Call : Type 0 where
  reserves : ℕ → Call
  frees : ℕ → Call

-- What a call returns: a handle or `false`, or a `bool`.
pub data Answer : Type 0 where
  reserved : Option ℕ → Answer
  freed : Bool → Answer

-- The table after a call, and the answer.
unfoldable pub call : HandleTable → Call → Run (HandleTable × Answer)
call t (reserves object) = reserve_handle t object >>= λ r. ok (r.0, reserved r.1)
call t (frees handle) = free_handle t handle >>= λ r. ok (r.0, freed r.1)

unfoldable pub run : HandleTable → List Call → Run HandleTable
run t [] = ok t
run t (c ∷ cs) = call t c >>= λ r. run r.0 cs

-- What clients keep to: objects are not null, and no handle has the index one past the last slot.
abbrev pub IsSafe : Call → Type 0
IsSafe (reserves object) = object ≢ null
IsSafe (frees handle) = handle_index handle ≢ max_handles

abbrev pub AllSafe : List Call → Type 0
AllSafe [] = Unit {0}
AllSafe (c ∷ cs) = IsSafe c × AllSafe cs

-- Every slot has a handle that names an object.
abbrev pub IsFull : (ℕ → Run ℕ) → Type 0
IsFull m =
    (i : ℕ)
    → i < max_handles
    → (h : ℕ) × (object : ℕ) × (handle_index h ≡ i) × (m h ≡ ok object) × (object ≢ null)

-- What one call does to the map from handles to objects, and what it answers.
pub data MapStep (m m' : ℕ → Run ℕ) : Call → Answer → Type 0 where
  adds :
      (object h : ℕ)
      → m h ≡ ok null
      → ((g : ℕ) → m' g ≡ (if g == h then ok object else m g))
      → MapStep m m' (reserves object) (reserved (some h))
  refuses :
      (object : ℕ)
      → IsFull m
      → ((g : ℕ) → m' g ≡ m g)
      → MapStep m m' (reserves object) (reserved none)
  removes :
      (h object : ℕ)
      → object ≢ null
      → m h ≡ ok object
      → ((g : ℕ) → m' g ≡ (if g == h then ok null else m g))
      → MapStep m m' (frees h) (freed true)
  ignores : (h : ℕ) → m h ≡ ok null → ((g : ℕ) → m' g ≡ m g) → MapStep m m' (frees h) (freed false)

-- The run returns, and leaves a table that is well formed.
abbrev pub Returns : Run HandleTable → Type 0
Returns r = (t' : HandleTable) × (free' : List ℕ) × (r ≡ ok t') × IsValid t' free'

module _ (t : HandleTable) (free : List ℕ) where
  abbrev pub Steps : Call → Type 0
  Steps c =
      (t' : HandleTable) × (free' : List ℕ) × (answer : Answer) × (call t c ≡ ok (t', answer))
      × IsValid t' free'
      × MapStep (get_object_by_handle t) (get_object_by_handle t') c answer

  full : IsValid t free → max_handles ≤ t.active_handles → IsFull (get_object_by_handle t)
  full v all i h =
      let lives = full-live t free i v all h in
      let (index, names) = live-named t free i v h lives in
      (make_handle i (to_u32 (t.counters i)), t.objects i, index, names, lives)

  call-reserves : (object : ℕ) → IsValid t free → object ≢ null → Steps (reserves object)
  unfolding call
  call-reserves object v s = elim (dec_lt t.active_handles max_handles) [
    | yes h ↦
        let (t', g, rest, e, new, same, w) = reserve_handle_lem t free object v h s in
        (t', rest, reserved (some g), rw e, w, adds object g new same)
    | no h ↦ (
      t,
      free,
      reserved none,
      rw (reserve_handle_full t object (omega arith)),
      v,
      refuses object (full v (omega arith)) λ g. refl,
    )
  ]

  call-frees :
      (handle : ℕ) → IsValid t free → handle_index handle ≢ max_handles → Steps (frees handle)
  unfolding call
  call-frees handle v s = go (get_object_by_handle-ok t handle s)
    where
      go : (o : ℕ) × (get_object_by_handle t handle ≡ ok o) → Steps (frees handle)
      go (zero, e) = (
        t,
        free,
        freed false,
        rw (free_handle_stale t free handle v s e),
        v,
        ignores handle e λ g. refl,
      )
      go (suc o, e) =
          let (t', done, same, w) = free_handle_lem t free handle (suc o) v e (ground arith) in
          (t', _, freed true, rw done, w, removes handle (suc o) (ground arith) e same)

  -- On a well-formed table, every call that keeps to `IsSafe` returns, keeps the table well formed,
  -- and acts on the map from handles to objects as `MapStep` says: `ReserveHandle` adds a handle that
  -- named nothing and returns it, or returns `false` where each of the 256 slots has a handle that
  -- names an object; `FreeHandle` takes its handle out and returns `true`, or returns `false` where
  -- the handle names nothing. All other handles answer as before.
  pub call-MapStep : (c : Call) → IsValid t free → IsSafe c → Steps c
  call-MapStep (reserves object) = call-reserves object
  call-MapStep (frees handle) = call-frees handle

run-Returns :
    (t : HandleTable) (free : List ℕ) (cs : List Call)
    → IsValid t free
    → AllSafe cs
    → Returns (run t cs)
unfolding run
run-Returns t free [] v s = (t, free, refl, v)
run-Returns t free (c ∷ cs) v s =
    let (t', free', _, e, w, _) = call-MapStep t free c v s.0 in
    rw e (run-Returns t' free' cs w s.1)

-- From `Initialize`, every sequence of calls that keep to `IsSafe` runs to its end without an
-- access out of bounds and leaves a well-formed table.
pub run-initialize :
    (t : HandleTable) (cs : List Call) → AllSafe cs → Returns (run (initialize t) cs)
run-initialize t cs s =
    run-Returns (initialize t) (slots_below max_handles) cs (initialize-IsValid t) s
