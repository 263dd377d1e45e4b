-- ===== src/Tests/Buttons.antt =====
-- utils.c and the names of savestates at concrete inputs.
use adr_bubble_booter_oss.Prelude.{◌≡◌, refl, pos, true, false, some}
use adr_bubble_booter_oss.Text.{codes}
use adr_bubble_booter_oss.Clock.{DateTime, Formats, time_string, date_string}
use adr_bubble_booter_oss.Thumb.{encode_bl, encode_movw}
use adr_bubble_booter_oss.States.Files.{state_number, make_save_state_path}
use adr_bubble_booter_oss.Pad.{Button, update_button}
use adr_bubble_booter_oss.Pad.Repeat.{held, update_button-held}

abbrev released : Button
released = record {
  old = false;
  current = true;
  pressed = false;
  released = false;
  hold = false;
  hold2 = false;
  hold_count = 4;
  hold2_count = 11;
}

update_button-held_example :
    let r = held 15 (update_button false released) in
    (r.hold ≡ true) × (r.hold2 ≡ true) × (r.pressed ≡ false)
update_button-held_example = update_button-held 14 released

-- BL from 0x100 to 0x200, and MOVW R0, #0x1234
branch : encode_bl 0x100 0x200 ≡ 0xF87EF000
unfolding encode_bl
branch = refl

move : encode_movw 0 0x1234 ≡ 0x2034F241
unfolding encode_movw
move = refl

abbrev formats : Formats
formats = record {
  time_12hr = pos 0;
  time_24hr = pos 1;
  date_yyyymmdd = pos 0;
  date_ddmmyyyy = pos 1;
  date_mmddyyyy = pos 2;
}

abbrev date : DateTime
date = record { year = 2018; month = 3; day = 9; hour = 0; minute = 5 }

midnight : time_string formats (pos 0) date ≡ some (codes "12:05 AM")
unfolding time_string
midnight = refl

day : date_string formats (pos 1) date ≡ some (codes "09/03/2018")
unfolding date_string
day = refl

named : state_number (codes "STATE07.BIN") ≡ some 7
unfolding state_number
named = refl

path : make_save_state_path (codes "ux0:pspemu") 7 ≡ codes "ux0:pspemu/PSP/SAVESTATE/STATE07.BIN"
unfolding make_save_state_path
path = refl
