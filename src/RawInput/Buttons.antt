-- ===== src/RawInput/Buttons.antt =====
-- What is reported of the mouse's buttons.
use Prim.Native.Nat.{bit_and, bit_or}
use dd_framework.Base.{
  ℕ, ◌*◌, ◌≡◌, refl, ap, subst, ◌∙◌, Bool, true, false, List, [], ◌∷◌, if◌then◌else◌, arith, Signed,
  ok, ◌>>=◌, bit_and-le, >>=-returns,
}
use dd_framework.RawInput.Mouse.{
  MouseState, RawMouse, Mouse, System, MouseEvent, moved, frame, move_absolute, move_relative,
  turn_wheels, set_mouse_state, begin_mouse_frame, get_button_down, get_button_held, get_button_up,
  run_mouse, has_flag, mouse_move_absolute,
}

-- No button has been noted in the words that are tested.
pub record IsSilent (m : Mouse) : Type 0 where
  pub interim_state : m.interim.button_state ≡ 0
  pub frame_state : m.frame.button_state ≡ 0
  pub frame_held : m.frame.button_held ≡ 0

absolute-keeps :
    (system : System) (s : MouseState) (last mouse : RawMouse) {s' : MouseState}
    → move_absolute system s last mouse ≡ ok s'
    → s'.button_state ≡ s.button_state
unfolding move_absolute
absolute-keeps system s last mouse e = ground arith

relative-keeps :
    (system : System) (s : MouseState) (mouse : RawMouse) {s' : MouseState}
    → move_relative system s mouse ≡ ok s'
    → s'.button_state ≡ s.button_state
unfolding move_relative
relative-keeps system s mouse e = ground arith

turn_wheels-keeps :
    (system : System) (s : MouseState) (mouse : RawMouse) {s' : MouseState}
    → turn_wheels system s mouse ≡ ok s'
    → s'.button_state ≡ s.button_state
unfolding turn_wheels
turn_wheels-keeps system s mouse e = ground arith

moved-keeps :
    (system : System) (s : MouseState) (last mouse : RawMouse) (b : Bool) {s' : MouseState}
    → (if b then move_absolute system s last mouse else move_relative system s mouse) ≡ ok s'
    → s'.button_state ≡ s.button_state
moved-keeps system s last mouse true e = absolute-keeps system s last mouse e
moved-keeps system s last mouse false e = relative-keeps system s mouse e

set_mouse_state-keeps :
    (system : System) (m : Mouse) (raw : RawMouse) {m' : Mouse}
    → set_mouse_state system m raw ≡ ok m'
    → (m'.interim.button_state ≡ m.interim.button_state) × (m'.frame ≡ m.frame)
unfolding set_mouse_state
set_mouse_state-keeps system m raw e =
    let after_move = λ (turned : MouseState). ok (record m {
      interim = record turned { button_held = bit_or turned.button_held raw.button_flags };
      last_raw = raw;
    }) in
    let moved_run =
      if has_flag m.last_raw.flags mouse_move_absolute
      then move_absolute system m.interim m.last_raw raw
      else move_relative system m.interim raw in
    let first = >>=-returns moved_run (λ s. turn_wheels system s raw >>= after_move) e in
    let second = >>=-returns (turn_wheels system first.0 raw) after_move first.2 in
    let turned_same = turn_wheels-keeps system first.0 raw second.1 in
    let moved_same =
      moved-keeps system m.interim m.last_raw raw (has_flag m.last_raw.flags mouse_move_absolute)
        first.1 in
    ground (arith, second.2, turned_same, moved_same)

IsSilent-frame : (m : Mouse) (x y : Signed) → IsSilent m → IsSilent (begin_mouse_frame m x y)
unfolding begin_mouse_frame
IsSilent-frame m x y s = record {
  interim_state = refl;
  frame_state = s.interim_state;
  frame_held = rw (s.interim_state, s.frame_held);
}

run_mouse-IsSilent :
    (system : System) (es : List MouseEvent) (m m' : Mouse)
    → IsSilent m
    → run_mouse system m es ≡ ok m'
    → IsSilent m'
unfolding run_mouse
run_mouse-IsSilent system [] m m' s e = let same : m ≡ m' = cc in subst IsSilent same s
run_mouse-IsSilent system (moved raw ∷ es) m m' s e =
    let step = >>=-returns (set_mouse_state system m raw) (λ m1. run_mouse system m1 es) e in
    let kept = set_mouse_state-keeps system m raw step.1 in
    run_mouse-IsSilent system es step.0 m'
      (record {
        interim_state = kept.0 ∙ s.interim_state;
        frame_state = ap (λ (f : MouseState). f.button_state) kept.1 ∙ s.frame_state;
        frame_held = ap (λ (f : MouseState). f.button_held) kept.1 ∙ s.frame_held;
      })
      step.2
run_mouse-IsSilent system (frame x y ∷ es) m m' s e =
    run_mouse-IsSilent system es (begin_mouse_frame m x y) m' (IsSilent-frame m x y s) e

-- From a mouse of which no button has been noted, whatever raw input arrives in whatever frames:
-- no button is ever reported as down, held or up.
pub run_mouse-no_button :
    (system : System) (es : List MouseEvent) (m m' : Mouse) (mouse_button : ℕ)
    → IsSilent m
    → run_mouse system m es ≡ ok m'
    → (get_button_down m'.frame mouse_button ≡ false)
      × (get_button_held m'.frame mouse_button ≡ false)
      × (get_button_up m'.frame mouse_button ≡ false)
unfolding get_button_down get_button_held get_button_up
run_mouse-no_button system es m m' mouse_button s e =
    let silent = run_mouse-IsSilent system es m m' s e in
    let down : bit_and m'.frame.button_state mouse_button ≡ 0 =
      omega (arith, silent.frame_state, bit_and-le m'.frame.button_state mouse_button) in
    let held : bit_and m'.frame.button_held mouse_button ≡ 0 =
      omega (arith, silent.frame_held, bit_and-le m'.frame.button_held mouse_button) in
    let up : bit_and m'.frame.button_state (mouse_button * 2) ≡ 0 =
      omega (arith, silent.frame_state, bit_and-le m'.frame.button_state (mouse_button * 2)) in
    (rw down, rw held, rw up)
