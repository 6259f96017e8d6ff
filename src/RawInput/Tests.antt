-- ===== src/RawInput/Tests.antt =====
-- Keys, a tap, a key that is let go, and the mouse.
use dd_framework.Base.{ℕ, ◌<◌, ◌≡◌, refl, true, false, [], ◌∷◌, pos, arith, ok, fault}
use dd_framework.RawInput.{
  KeyState, no_keys, Keyboard, key, frame, set_key_state, set_keyboard_state, run,
}
use dd_framework.RawInput.Refines.{IsValid, Runs, run-Runs}
use dd_framework.RawInput.Held.{Says, tap-lost, let_go_among}
use dd_framework.RawInput.Mouse.{
  MouseState, no_mouse, RawMouse, Mouse, System, MouseEvent, get_button_down, get_button_held,
  get_button_up, run_mouse, set_mouse_state, begin_mouse_frame, add_s32,
}
use dd_framework.RawInput.Mouse as Mice
use dd_framework.RawInput.Buttons.{run_mouse-no_button}

abbrev idle : Keyboard
idle = record {
  pressed_state = no_keys;
  pressed_state_last = no_keys;
  released_state = no_keys;
  released_state_last = no_keys;
  aheld_state = no_keys;
  pressed_keys = no_keys;
  held_keys = no_keys;
  released_keys = no_keys;
}

idle-IsValid : IsValid idle
idle-IsValid = record {
  pressed = λ i. omega arith;
  pressed_last = λ i. omega arith;
  released = λ i. omega arith;
  released_last = λ i. omega arith;
}

-- The key 0x41 is down, and was when the last frame began.
abbrev letter : KeyState
letter i = elim (Prim.Native.Nat.compare i 1) [ Prim.Native.Nat.Ordering.eq ↦ 2 | _ ↦ 0 ]

abbrev steady : Keyboard
steady = record idle { pressed_state = letter; pressed_state_last = letter }

letter-Bounded : (i : ℕ) → letter i < 18446744073709551616
letter-Bounded i = ground arith

steady-IsValid : IsValid steady
steady-IsValid = record {
  pressed = letter-Bounded;
  pressed_last = letter-Bounded;
  released = λ i. omega arith;
  released_last = λ i. omega arith;
}

run-Runs_example : Runs idle (key 0 0x41 ∷ frame ∷ key 1 0x42 ∷ [])
run-Runs_example =
    run-Runs (key 0 0x41 ∷ frame ∷ key 1 0x42 ∷ []) idle idle-IsValid
      (omega arith, (omega arith, tt))

tap-lost_example :
    (k' : Keyboard) × (run idle (key 0 0x41 ∷ let_go_among 0x41 (key 0 0x42 ∷ []) []) ≡ ok k')
    × Says k' 0x41 false false true
tap-lost_example =
    tap-lost idle idle-IsValid 0x41 (omega arith) (omega arith) (key 0 0x42 ∷ []) []
      (omega arith, tt) tt (refl, tt) tt refl refl

-- The code 0x141 is the key 0x41.
wide-test : (k : Keyboard) → set_keyboard_state k 0 0x141 ≡ set_keyboard_state k 0 0x41
unfolding set_keyboard_state
wide-test k = refl

-- The space bar, 0x20.
space-fault : set_keyboard_state idle 0 0x20 ≡ fault
unfolding set_keyboard_state set_key_state
space-fault = refl

abbrev still : RawMouse
still = record { flags = 0; button_flags = 0; button_data = 0; last_x = pos 0; last_y = pos 0 }

abbrev mouse : Mouse
mouse = record { last_raw = still; interim = no_mouse; frame = no_mouse }

abbrev system : System
system = record { width = λ v. pos 1920; height = λ v. pos 1080; scale = λ value size. value }

abbrev click : RawMouse
click = record still { button_flags = 1; last_x = pos 3 }

abbrev clicked : Mouse
clicked =
    begin_mouse_frame
      (record mouse {
        interim = record no_mouse { delta_x = pos 3; button_held = 1 };
        last_raw = click;
      })
      (pos 7) (pos 8)

run_mouse-no_button_example :
    (get_button_down clicked.frame 1 ≡ false)
    × (get_button_held clicked.frame 1 ≡ false)
    × (get_button_up clicked.frame 1 ≡ false)
unfolding run_mouse set_mouse_state begin_mouse_frame add_s32 Mice.move_relative Mice.turn_wheels
run_mouse-no_button_example =
    run_mouse-no_button system (Mice.moved click ∷ Mice.frame (pos 7) (pos 8) ∷ []) mouse clicked 1
      (record { interim_state = refl; frame_state = refl; frame_held = refl }) refl
