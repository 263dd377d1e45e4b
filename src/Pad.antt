-- ===== src/Pad.antt =====
-- readPad and doubleClick of integration/adrenaline-v7/overlay/user/utils.c. The arrays of pads are a
-- record for each button, with 1 and 0 as Booleans.
pub mod Repeat
use adr_bubble_booter_oss.Prelude.{
  ℕ, ◌+◌, ◌-◌, ◌^◌, ◌%◌, Bool, true, false, not, ◌&&◌, ◌||◌, if◌then◌else◌, ltb, leb,
}

-- the indices of the arrays that stand for one button or one direction of a stick
pub data Key : Type 0 where
  up down left right ltrigger rtrigger triangle circle cross square start select psbutton : Key
  enter cancel : Key
  left_analog_up left_analog_down left_analog_left left_analog_right : Key
  right_analog_up right_analog_down right_analog_left right_analog_right : Key

-- the places of one key in the arrays
pub record Button : Type 0 where
  pub old : Bool
  pub current : Bool
  pub pressed : Bool
  pub released : Bool
  pub hold : Bool
  pub hold2 : Bool
  pub hold_count : ℕ
  pub hold2_count : ℕ

-- SceCtrlData, with the test of each button of the two peeked pads, and the sticks
pub record Peek : Type 0 where
  pub button : Key → Bool
  pub lx : ℕ
  pub ly : ℕ
  pub rx : ℕ
  pub ry : ℕ

abbrev pub analog_center : ℕ
analog_center = 128

abbrev pub analog_threshold : ℕ
analog_threshold = 64

abbrev pub is_low : ℕ → Bool
is_low n = ltb n (analog_center - analog_threshold)

abbrev pub is_high : ℕ → Bool
is_high n = ltb (analog_center + analog_threshold) n

-- current_pad before PAD_ENTER and PAD_CANCEL are set
unfoldable pub current_key : Peek → Key → Bool
current_key p enter = false
current_key p cancel = false
current_key p left_analog_up = is_low p.ly
current_key p left_analog_down = not (is_low p.ly) && is_high p.ly
current_key p left_analog_left = is_low p.lx
current_key p left_analog_right = not (is_low p.lx) && is_high p.lx
current_key p right_analog_up = is_low p.ry
current_key p right_analog_down = not (is_low p.ry) && is_high p.ry
current_key p right_analog_left = is_low p.rx
current_key p right_analog_right = not (is_low p.rx) && is_high p.rx
current_key p key = p.button key

-- one turn of the loop over the arrays, where `old` has been copied from `current`
unfoldable pub update_button : Bool → Button → Button
update_button current b =
    let pressed = current && not b.current in
    let turned = if leb 10 b.hold_count then 6 else b.hold_count in
    let turned2 = if leb 10 b.hold2_count then 10 else b.hold2_count in
    record {
      old = b.current;
      current = current;
      pressed = pressed;
      released = not current && b.current;
      hold = pressed || (current && leb 10 b.hold_count);
      hold2 = pressed || (current && leb 10 b.hold2_count);
      hold_count = if current then turned + 1 else 0;
      hold2_count = if current then turned2 + 1 else 0;
    }

-- what is copied to PAD_ENTER and PAD_CANCEL; the counters are not
abbrev pub copy_button : Button → Button → Button
copy_button source target = record source {
  hold_count = target.hold_count;
  hold2_count = target.hold2_count;
}

-- readPad: `enter_is_circle` is `enter_button == SCE_SYSTEM_PARAM_ENTER_BUTTON_CIRCLE`
unfoldable pub read_pad : Bool → Peek → (Key → Button) → Key → Button
unfolding current_key update_button
read_pad enter_is_circle p pads enter =
    let update = λ (key : Key). update_button (current_key p key) (pads key) in
    copy_button (if enter_is_circle then update circle else update cross) (update enter)
read_pad enter_is_circle p pads cancel =
    let update = λ (key : Key). update_button (current_key p key) (pads key) in
    copy_button (if enter_is_circle then update cross else update circle) (update cancel)
read_pad enter_is_circle p pads key = update_button (current_key p key) (pads key)

-- the static variables of doubleClick, with the test `buttons` of the pads' bits
pub record Clicks : Type 0 where
  pub current_buttons : ℕ
  pub last_time : ℕ
  pub clicked : Bool

-- doubleClick: `is_released old current` is `~current & old & buttons`, `now` the two readings of the
-- clock, in microseconds that 64 bits hold
unfoldable pub double_click : (ℕ → ℕ → Bool) → ℕ → ℕ → ℕ → ℕ → Clicks → Bool × Clicks
double_click is_released buttons max_time now now' c =
    let waiting = record c { current_buttons = buttons } in
    let since = (now + 2 ^ 64 - c.last_time) % 2 ^ 64 in
    if not (is_released c.current_buttons buttons)
    then (false, waiting)
    else if not c.clicked
    then (false, record waiting { clicked = true; last_time = now })
    else if ltb since max_time
    then (true, record waiting { clicked = false; last_time = 0 })
    else (false, record waiting { clicked = true; last_time = now' })
