-- ===== src/HandleTable/Lookup.antt =====
-- The handle table as a finite map from handles to objects: what `GetObjectByHandle` answers after
-- each operation of ukern_handletable.hpp.
use dd_framework.Base.{
  ℕ, ◌^◌, ◌≤◌, ◌<◌, ◌≡◌, ◌≢◌, refl, subst, ◌↔◌, true, false, List, [], ◌∷◌, none, some, arith, ◌==◌,
  if◌then◌else◌, Run, ok, fault, out_of_fuel, dec_lt, to_u32,
}
use dd_framework.HandleTable.{
  HandleTable, max_handles, null, make_handle, handle_index, handle_counter, reserve_handle,
  free_handle, get_object_by_handle, take_slot, give_slot,
}
use dd_framework.HandleTable.Invariant.{
  IsValid, free_slot, reserve-take_slot, take_slot-IsValid, free_slot_left, give_slot-IsValid,
}

module _ (t : HandleTable) where
  -- The handle that ends the search for a slot is never a live one.
  get_object-take_slot :
      (x : ℕ) (xs : List ℕ) (object g : ℕ)
      → IsValid t (x ∷ xs)
      → get_object_by_handle (take_slot t x object) g
        ≡ (if g == make_handle x t.counter_value then ok object else get_object_by_handle t g)
  unfolding get_object_by_handle
  get_object-take_slot x xs object g v = ground (arith, v.free_iff x)

  get_object-give_slot :
      (free : List ℕ) (h object g : ℕ)
      → IsValid t free
      → get_object_by_handle t h ≡ ok object
      → object ≢ null
      → get_object_by_handle (give_slot t (handle_index h)) g
        ≡ (if g == h then ok null else get_object_by_handle t g)
  unfolding get_object_by_handle
  get_object-give_slot free h object g v e ne = ground (arith, v.live (handle_index h))

  fresh_handle :
      (x : ℕ) (xs : List ℕ)
      → IsValid t (x ∷ xs)
      → get_object_by_handle t (make_handle x t.counter_value) ≡ ok null
  unfolding get_object_by_handle
  fresh_handle x xs v = ground (arith, v.free_iff x)

  free_handle-give_slot :
      (free : List ℕ) (h object : ℕ)
      → IsValid t free
      → get_object_by_handle t h ≡ ok object
      → object ≢ null
      → free_handle t h ≡ ok (give_slot t (handle_index h), true)
  unfolding get_object_by_handle free_handle
  free_handle-give_slot free h object v e ne = ground (arith, v.live (handle_index h))

  live_handle :
      (h object : ℕ)
      → get_object_by_handle t h ≡ ok object
      → object ≢ null
      → (handle_index h < max_handles) × (t.objects (handle_index h) ≢ null)
  unfolding get_object_by_handle
  live_handle h object e ne = (ground arith, ground arith)

  -- The handle of a slot that is in use.
  pub live-named :
      (free : List ℕ) (i : ℕ)
      → IsValid t free
      → i < max_handles
      → t.objects i ≢ null
      → let h = make_handle i (to_u32 (t.counters i)) in
        (handle_index h ≡ i) × (get_object_by_handle t h ≡ ok (t.objects i))
  unfolding get_object_by_handle
  live-named free i v h ne = (ground (arith, v.live i h ne), ground (arith, v.live i h ne))

  -- Without a slot left every slot is in use.
  pub full-live :
      (free : List ℕ) (i : ℕ)
      → IsValid t free
      → max_handles ≤ t.active_handles
      → i < max_handles
      → t.objects i ≢ null
  full-live [] i v full h = ground (arith, v.free_iff i h)
  full-live (x ∷ xs) i v full h = absurd (omega (arith, free_slot_left x xs 0 v))

  pub reserve_handle_full :
      (object : ℕ) → max_handles ≤ t.active_handles → reserve_handle t object ≡ ok (t, none)
  unfolding reserve_handle
  reserve_handle_full object h = ground arith

  -- `ReserveHandle` with a slot left and an object: it returns a handle that named nothing before;
  -- afterwards that handle names the object, every other handle answers as before, and the table is
  -- well formed.
  pub reserve_handle_lem :
      (free : List ℕ) (object : ℕ)
      → IsValid t free
      → t.active_handles < max_handles
      → object ≢ null
      → (t' : HandleTable) × (h : ℕ) × (rest : List ℕ) × (reserve_handle t object ≡ ok (t', some h))
        × (get_object_by_handle t h ≡ ok null)
        × ((g : ℕ)
            → get_object_by_handle t' g ≡ (if g == h then ok object else get_object_by_handle t g))
        × IsValid t' rest
  reserve_handle_lem free object v h ne =
      let (x, xs, e) = free_slot free v h in
      let w : IsValid t (x ∷ xs) = subst (IsValid t) e v in
      (
        take_slot t x object,
        make_handle x t.counter_value,
        xs,
        reserve-take_slot x xs object w h,
        fresh_handle x xs w,
        (λ g. get_object-take_slot x xs object g w),
        take_slot-IsValid x xs object w h ne,
      )

  -- On a well-formed table, `ReserveHandle` returns `false` and changes nothing exactly when no
  -- slot is free.
  pub reserve_handle-none :
      (free : List ℕ) (object : ℕ)
      → IsValid t free
      → (reserve_handle t object ≡ ok (t, none)) ↔ (free ≡ [])
  reserve_handle-none [] object v = (
    (λ _. refl),
    λ _. reserve_handle_full object (elim (dec_lt t.active_handles max_handles) [
      | yes h ↦ let (x, xs, e) = free_slot [] v h in cc e
      | no h ↦ omega arith
    ]),
  )
  reserve_handle-none (x ∷ xs) object v =
      let made = reserve-take_slot x xs object v (free_slot_left x xs object v) in
      ((λ e. cc made), λ e. cc)

  -- `FreeHandle` of a handle that names an object: afterwards the handle names nothing, every other
  -- handle answers as before, and the table is well formed.
  pub free_handle_lem :
      (free : List ℕ) (h object : ℕ)
      → IsValid t free
      → get_object_by_handle t h ≡ ok object
      → object ≢ null
      → (t' : HandleTable) × (free_handle t h ≡ ok (t', true))
        × ((g : ℕ)
            → get_object_by_handle t' g ≡ (if g == h then ok null else get_object_by_handle t g))
        × IsValid t' (handle_index h ∷ free)
  free_handle_lem free h object v e ne = (
    give_slot t (handle_index h),
    free_handle-give_slot free h object v e ne,
    (λ g. get_object-give_slot free h object g v e ne),
    give_slot-IsValid free (handle_index h) v (live_handle h object e ne).0
        (live_handle h object e ne).1,
  )

  -- `FreeHandle` of a handle that names nothing, its index not `MaxHandles`, returns `false` and changes nothing.
  pub free_handle_stale :
      (free : List ℕ) (h : ℕ)
      → IsValid t free
      → handle_index h ≢ max_handles
      → get_object_by_handle t h ≡ ok null
      → free_handle t h ≡ ok (t, false)
  unfolding get_object_by_handle free_handle
  free_handle_stale free h v ne e = ground (arith, v.live (handle_index h))

  -- `GetObjectByHandle` leaves the table's arrays exactly at the handles below 2^30 whose counter
  -- is not 0 and whose index is `MaxHandles`.
  get_object_by_handle-fault :
      (h : ℕ)
      → (get_object_by_handle t h ≡ fault)
        ↔ ((h < 2 ^ 30) × (1 ≤ handle_counter h) × (handle_index h ≡ max_handles))
  unfolding get_object_by_handle
  get_object_by_handle-fault h = (ground arith, ground arith)

  get_object-out_of_fuel : (h : ℕ) → get_object_by_handle t h ≢ out_of_fuel
  unfolding get_object_by_handle
  get_object-out_of_fuel h = ground arith

  -- Elsewhere it answers.
  pub get_object_by_handle-ok :
      (h : ℕ) → handle_index h ≢ max_handles → (o : ℕ) × (get_object_by_handle t h ≡ ok o)
  get_object_by_handle-ok h ne = go (get_object_by_handle t h) refl
    where
      go : (r : Run ℕ) → get_object_by_handle t h ≡ r → (o : ℕ) × (get_object_by_handle t h ≡ ok o)
      go (ok o) e = (o, e)
      go fault e = absurd (ne ((get_object_by_handle-fault h).0 e).2)
      go out_of_fuel e = absurd (get_object-out_of_fuel h e)
