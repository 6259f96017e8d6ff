-- ===== src/RawInput/Held.antt =====
-- What a frame says of a key.
use dd_framework.Base.{
  ℕ, ◌≤◌, ◌<◌, ◌^◌, ◌%◌, ◌≡◌, refl, ◌∙◌, ap, Bool, true, false, not, ◌&&◌, List, [], ◌∷◌, ◌++◌, ltb,
  ◌==◌, Bool-cases, inl, inr, arith, ==_refl, ok, fault,
}
use dd_framework.RawInput.{
  Keyboard, Event, key, frame, set_key_state, set_keyboard_state, vk_of, run, is_key_pressed,
  is_key_held, is_key_up, ri_key_make, ri_key_break,
}
use dd_framework.RawInput.Keys.{contains, IsPlain, get_key_state-contains}
use dd_framework.RawInput.Refines.{
  Key, key_run, key_step, key_frame, view, IsValid, AllPlain, run-Runs,
}

-- Events that let the key alone.
abbrev pub Spares : ℕ → List Event → Type 0
Spares vk [] = Unit {0}
Spares vk (key flags code ∷ es) = ((vk_of code == vk) ≡ false) × Spares vk es
Spares vk (frame ∷ es) = ⊥

spared : (vk : ℕ) (es : List Event) (k : Key) → Spares vk es → key_run vk k es ≡ k
spared vk [] k s = refl
spared vk (key flags code ∷ es) k s =
    let same : key_step vk k (key flags code) ≡ k = elim (Bool-cases (flags == ri_key_make)) [
      | inl e ↦ rw (s.0, e)
      | inr e ↦
          rw (s.0, e) (elim (Bool-cases (flags == ri_key_break)) [ inl b ↦ rw b | inr b ↦ rw b ])
    ] in
    rw same (spared vk es k s.1)
spared vk (frame ∷ es) k s = absurd s

key_run-append :
    (vk : ℕ) (es fs : List Event) (k : Key)
    → key_run vk k (es ++ fs) ≡ key_run vk (key_run vk k es) fs
key_run-append vk [] fs k = refl
key_run-append vk (e ∷ es) fs k = key_run-append vk es fs (key_step vk k e)

AllPlain-append : (es fs : List Event) → AllPlain es → AllPlain fs → AllPlain (es ++ fs)
AllPlain-append [] fs p q = q
AllPlain-append (key flags code ∷ es) fs p q = (p.0, AllPlain-append es fs p.1 q)
AllPlain-append (frame ∷ es) fs p q = AllPlain-append es fs p q

-- What the frame's three tests say of a key.
pub record Says (k : Keyboard) (vk : ℕ) (is_pressed is_held is_up : Bool) : Type 0 where
  pub pressed : is_key_pressed k vk ≡ ok is_pressed
  pub held : is_key_held k vk ≡ ok is_held
  pub up : is_key_up k vk ≡ ok is_up

view-Says :
    (k : Keyboard) (vk : ℕ)
    → IsPlain vk
    → Says k vk (view k vk).pressed (view k vk).held (view k vk).released
view-Says k vk plain = record {
  pressed = get_key_state-contains k.pressed_keys vk plain;
  held = get_key_state-contains k.held_keys vk plain;
  up = get_key_state-contains k.released_keys vk plain;
}

Says-as :
    (k : Keyboard) (vk : ℕ)
    → IsPlain vk
    → (s : Key) → view k vk ≡ s
    → {pressed held up : Bool} → s.pressed ≡ pressed
    → s.held ≡ held
    → s.released ≡ up
    → Says k vk pressed held up
Says-as k vk plain s e p h u =
    let says = view-Says k vk plain in
    record {
      pressed = says.pressed ∙ ap ok (ap (λ (t : Key). t.pressed) e ∙ p);
      held = says.held ∙ ap ok (ap (λ (t : Key). t.held) e ∙ h);
      up = says.up ∙ ap ok (ap (λ (t : Key). t.released) e ∙ u);
    }

abbrev pub let_go_among : ℕ → List Event → List Event → List Event
let_go_among vk es fs = es ++ (key ri_key_break vk ∷ (fs ++ (frame ∷ [])))

-- A key that is let go in the middle of a frame's events.
let_go :
    (vk : ℕ) (es fs : List Event) (k : Key)
    → vk < 2 ^ 8
    → Spares vk es
    → Spares vk fs
    → key_run vk k (let_go_among vk es fs) ≡ key_frame (record k { up = true; down = false })
let_go vk es fs k narrow before after =
    let own : vk_of vk ≡ vk = omega arith in
    let rest = fs ++ (frame ∷ []) in
    let k' : Key = record k { up = true; down = false } in
    let step : key_step vk k (key ri_key_break vk) ≡ k' = rw (own, ==_refl vk) in
    let first : key_run vk k (let_go_among vk es fs) ≡ key_run vk k (key ri_key_break vk ∷ rest) =
      key_run-append vk es (key ri_key_break vk ∷ rest) k
      ∙ ap (λ (s : Key). key_run vk s (key ri_key_break vk ∷ rest)) (spared vk es k before) in
    let last : key_run vk k' rest ≡ key_frame k' =
      key_run-append vk fs (frame ∷ []) k'
      ∙ ap (λ (s : Key). key_frame s) (spared vk fs k' after) in
    first ∙ ap (λ (s : Key). key_run vk s rest) step ∙ last

module _ (k : Keyboard) (valid : IsValid k) (vk : ℕ) (plain : IsPlain vk) (narrow : vk < 2 ^ 8)
    (es fs : List Event) (es_plain : AllPlain es) (fs_plain : AllPlain fs) (before : Spares vk es)
    (after : Spares vk fs) where
  -- A key, of an 8-bit code with its place in its word below 31, that was up when the last frame began
  -- and is pressed and let go once before the next one, is reported as let go, and not as pressed or
  -- held, whatever input of other codes there is meanwhile whose place is below 31 too.
  pub tap-lost :
      contains k.pressed_state vk ≡ false
      → contains k.pressed_state_last vk ≡ false
      → (k' : Keyboard) × (run k (key ri_key_make vk ∷ let_go_among vk es fs) ≡ ok k')
        × Says k' vk false false true
  tap-lost up up_last =
      let events = let_go_among vk es fs in
      let own : IsPlain (vk_of vk) = omega arith in
      let rest_plain =
        AllPlain-append es (key ri_key_break vk ∷ (fs ++ (frame ∷ []))) es_plain
          (own, AllPlain-append fs (frame ∷ []) fs_plain tt) in
      let ran = run-Runs (key ri_key_make vk ∷ events) k valid (own, rest_plain) in
      let seen : view ran.keyboard vk ≡ key_frame (record (view k vk) { up = true; down = false }) =
        ran.views vk narrow
        ∙ let_go vk es fs (key_step vk (view k vk) (key ri_key_make vk)) narrow before after in
      (
        ran.keyboard,
        ran.returns,
        Says-as ran.keyboard vk plain _ seen refl
            (ap (λ (b : Bool). b && not (contains k.released_state_last vk)) up_last) refl,
      )

  -- A key that was down when the last frame began, and was not let go in the frame before it, and is
  -- then let go, is reported as held and as let go at once.
  held-let_go :
      contains k.pressed_state_last vk ≡ true
      → contains k.released_state_last vk ≡ false
      → (k' : Keyboard) × (run k (let_go_among vk es fs) ≡ ok k') × Says k' vk false true true
  held-let_go down_last up_last =
      let own : IsPlain (vk_of vk) = omega arith in
      let rest_plain =
        AllPlain-append es (key ri_key_break vk ∷ (fs ++ (frame ∷ []))) es_plain
          (own, AllPlain-append fs (frame ∷ []) fs_plain tt) in
      let ran = run-Runs (let_go_among vk es fs) k valid rest_plain in
      let seen = ran.views vk narrow ∙ let_go vk es fs (view k vk) narrow before after in
      (
        ran.keyboard,
        ran.returns,
        Says-as ran.keyboard vk plain _ seen refl (rw (down_last, up_last)) refl,
      )

-- `SetKeyState` shifts too far for every key whose place in its word is 32 or more.
wide-fault :
    (k : Keyboard) (vk : ℕ) → 32 ≤ vk_of vk % 64 → set_keyboard_state k ri_key_make vk ≡ fault
unfolding set_keyboard_state set_key_state
wide-fault k vk h =
    let small : ltb (vk_of vk % 64) 31 ≡ false = ground arith in
    let other : vk_of vk % 64 == 31 ≡ false = ground arith in rw (small, other)
