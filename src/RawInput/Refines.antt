-- ===== src/RawInput/Refines.antt =====
-- The keyboard, seen at one key.
use dd_framework.Base.{
  ℕ, ◌<◌, ◌^◌, ◌%◌, ◌≡◌, refl, ap, digit-zero, ◌∙◌, Bool, true, false, not, ◌&&◌, ◌||◌, List, [],
  ◌∷◌, ◌==◌, if◌then◌else◌, Bool-cases, inl, inr, arith, ok,
}
use dd_framework.RawInput.{
  no_keys, key_and, key_not, Keyboard, Event, key, frame, set_keyboard_state, begin_keyboard_frame,
  vk_of, handle, run, ri_key_make, ri_key_break,
}
use dd_framework.RawInput.Keys.{
  contains, Bounded, IsPlain, set_key_state-Becomes, clear_key_state-Becomes, contains-or,
  contains-and_not,
}

-- One key: whether it is down and whether it was let go since the last frame began, both now and
-- when the last frame began, and what that frame says of it.
pub record Key : Type 0 where
  pub down : Bool
  pub down_last : Bool
  pub up : Bool
  pub up_last : Bool
  pub pressed : Bool
  pub held : Bool
  pub released : Bool

abbrev pub key_frame : Key → Key
key_frame k = record {
  down = k.down;
  down_last = k.down;
  up = false;
  up_last = k.up;
  pressed = k.down && not k.down_last;
  held = k.down || (k.down_last && not k.up_last);
  released = k.up;
}

abbrev pub key_step : ℕ → Key → Event → Key
key_step vk k frame = key_frame k
key_step vk k (key flags code) =
    if flags == ri_key_make
    then record k { down = (vk_of code == vk) || k.down }
    else if flags == ri_key_break
    then record k { up = (vk_of code == vk) || k.up; down = not (vk_of code == vk) && k.down }
    else k

abbrev pub key_run : ℕ → Key → List Event → Key
key_run vk k [] = k
key_run vk k (e ∷ es) = key_run vk (key_step vk k e) es

abbrev pub view : Keyboard → ℕ → Key
view k vk = record {
  down = contains k.pressed_state vk;
  down_last = contains k.pressed_state_last vk;
  up = contains k.released_state vk;
  up_last = contains k.released_state_last vk;
  pressed = contains k.pressed_keys vk;
  held = contains k.held_keys vk;
  released = contains k.released_keys vk;
}

-- The words that are complemented have 64 bits.
pub record IsValid (k : Keyboard) : Type 0 where
  pub pressed : Bounded k.pressed_state
  pub pressed_last : Bounded k.pressed_state_last
  pub released : Bounded k.released_state
  pub released_last : Bounded k.released_state_last

abbrev pub AllPlain : List Event → Type 0
AllPlain [] = Unit {0}
AllPlain (key flags code ∷ es) = IsPlain (vk_of code) × AllPlain es
AllPlain (frame ∷ es) = AllPlain es

record Steps (k : Keyboard) (e : Event) : Type 0 where
  pub keyboard : Keyboard
  pub returns : handle k e ≡ ok keyboard
  pub valid : IsValid keyboard
  pub views : (vk : ℕ) → view keyboard vk ≡ key_step vk (view k vk) e

no_keys-Bounded : Bounded no_keys
no_keys-Bounded i = omega arith

twice : (a b : Bool) → (a && (a && b)) ≡ (a && b)
twice true b = refl
twice false b = refl

frame-Steps : (k : Keyboard) → IsValid k → Steps k frame
unfolding handle begin_keyboard_frame
frame-Steps k v = record {
  keyboard = begin_keyboard_frame k;
  returns = refl;
  valid = record {
    pressed = v.pressed;
    pressed_last = v.pressed;
    released = no_keys-Bounded;
    released_last = v.released;
  };
  views = λ vk.
      let pressed = contains-and_not k.pressed_state k.pressed_state_last vk v.pressed_last in
      let kept = contains-and_not k.pressed_state_last k.released_state_last vk v.released_last in
      let held =
        contains-or k.pressed_state (key_and k.pressed_state_last (key_not k.released_state_last))
          vk in
      λ i. record {
        down = contains k.pressed_state vk;
        down_last = contains k.pressed_state vk;
        up = digit-zero (vk % 64) i;
        up_last = contains k.released_state vk;
        pressed = pressed i;
        held = (held ∙ ap (λ (b : Bool). contains k.pressed_state vk || b) kept) i;
        released = contains k.released_state vk;
      };
}

key-Steps :
    (k : Keyboard) (flags code : ℕ) → IsValid k → IsPlain (vk_of code) → Steps k (key flags code)
unfolding handle set_keyboard_state
key-Steps k flags code v plain = elim (Bool-cases (flags == ri_key_make)) [
  | inl make ↦
      let pressed = set_key_state-Becomes k.pressed_state (vk_of code) plain v.pressed in
      record {
        keyboard = record k { pressed_state = pressed.state };
        returns = rw (make, pressed.returns);
        valid = record {
          pressed = pressed.bounded;
          pressed_last = v.pressed_last;
          released = v.released;
          released_last = v.released_last;
        };
        views = λ vk. rw make (λ i. record (view k vk) { down = pressed.keys vk i });
      }
  | inr other ↦ elim (Bool-cases (flags == ri_key_break)) [
    | inl break ↦
        let released = set_key_state-Becomes k.released_state (vk_of code) plain v.released in
        let cleared = clear_key_state-Becomes k.pressed_state (vk_of code) plain v.pressed in
        let again = clear_key_state-Becomes cleared.state (vk_of code) plain cleared.bounded in
        record {
          keyboard = record k { pressed_state = again.state; released_state = released.state };
          returns = rw (other, break, released.returns, cleared.returns, again.returns);
          valid = record {
            pressed = again.bounded;
            pressed_last = v.pressed_last;
            released = released.bounded;
            released_last = v.released_last;
          };
          views = λ vk.
              rw (other, break)
                (λ i. record (view k vk) {
                  up = released.keys vk i;
                  down =
                      (again.keys vk
                          ∙ ap (λ (b : Bool). not (vk_of code == vk) && b) (cleared.keys vk)
                          ∙ twice (not (vk_of code == vk)) (contains k.pressed_state vk))
                        i;
                });
        }
    | inr ignored ↦ record {
      keyboard = k;
      returns = rw (other, ignored);
      valid = v;
      views = λ vk. rw (other, ignored);
    }
  ]
]

event-Steps :
    (k : Keyboard) (e : Event) (es : List Event)
    → IsValid k
    → AllPlain (e ∷ es)
    → Steps k e × AllPlain es
event-Steps k (key flags code) es v plain = (key-Steps k flags code v plain.0, plain.1)
event-Steps k frame es v plain = (frame-Steps k v, plain)

-- A keyboard that has run through events.
pub record Runs (k : Keyboard) (es : List Event) : Type 0 where
  pub keyboard : Keyboard
  pub returns : run k es ≡ ok keyboard
  pub valid : IsValid keyboard
  pub views : (vk : ℕ) → vk < 2 ^ 8 → view keyboard vk ≡ key_run vk (view k vk) es

-- Every sequence of frames and of raw input for keys whose 8-bit code has its place in its word below
-- 31 runs without a fault; and what the keyboard then holds of each of the 256 keys is what the one key's machine holds
-- that sees only the input whose code, in 8 bits, is its own.
pub run-Runs : (es : List Event) (k : Keyboard) → IsValid k → AllPlain es → Runs k es
unfolding run
run-Runs [] k v plain = record {
  keyboard = k;
  returns = refl;
  valid = v;
  views = λ vk narrow. refl;
}
run-Runs (e ∷ es) k v plain =
    let (step, rest) = event-Steps k e es v plain in
    let ran = run-Runs es step.keyboard step.valid rest in
    record {
      keyboard = ran.keyboard;
      returns = rw step.returns ran.returns;
      valid = ran.valid;
      views = λ vk narrow. ran.views vk narrow ∙ ap (λ s. key_run vk s es) (step.views vk);
    }
