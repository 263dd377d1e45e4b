-- ===== src/Clock.antt =====
-- getTimeString and getDateString of integration/adrenaline-v7/overlay/user/utils.c, of a local time:
-- the text in the array, or none when the format is not known and nothing is written.
use adr_bubble_booter_oss.Prelude.{
  ℕ, ◌-◌, List, [], ◌∷◌, ◌++◌, ℤ, eqb_ℤ, if◌then◌else◌, ltb, leb, ◌==◌, length, take, replicate,
  Option, none, some,
}
use adr_bubble_booter_oss.Text.{codes}
use adr_bubble_booter_oss.Minilibc.Format.{decimal_digits}

-- SceDateTime, by the fields that are printed
pub record DateTime : Type 0 where
  pub year : ℕ
  pub month : ℕ
  pub day : ℕ
  pub hour : ℕ
  pub minute : ℕ

-- the constants of system_param.h
pub record Formats : Type 0 where
  pub time_12hr : ℤ
  pub time_24hr : ℤ
  pub date_yyyymmdd : ℤ
  pub date_ddmmyyyy : ℤ
  pub date_mmddyyyy : ℤ

-- `%0<width>d` of a number that is not negative
unfoldable pub padded : ℕ → ℕ → List ℕ
unfolding decimal_digits
padded width n =
    let digits = decimal_digits 11 [] n in replicate {A = ℕ} (width - length digits) b'0' ++ digits

unfoldable pub time_string : Formats → ℤ → DateTime → Option (List ℕ)
unfolding padded
time_string f time_format t =
    let hour = if ltb 12 t.hour then t.hour - 12 else if t.hour == 0 then 12 else t.hour in
    let half = if leb 12 t.hour then codes "PM" else codes "AM" in
    let minute = padded 2 t.minute in
    if eqb_ℤ time_format f.time_12hr
    then some (take 15 (padded 2 hour ++ (b':' ∷ minute) ++ (b' ' ∷ half)))
    else if eqb_ℤ time_format f.time_24hr
    then some (take 15 (padded 2 t.hour ++ (b':' ∷ minute)))
    else none

unfoldable pub date_string : Formats → ℤ → DateTime → Option (List ℕ)
unfolding padded
date_string f date_format t =
    let parts : List ℕ → List ℕ → List ℕ → List ℕ =
      λ a b c. take 23 (a ++ (b'/' ∷ b) ++ (b'/' ∷ c)) in
    if eqb_ℤ date_format f.date_yyyymmdd
    then some (parts (padded 4 t.year) (padded 2 t.month) (padded 2 t.day))
    else if eqb_ℤ date_format f.date_ddmmyyyy
    then some (parts (padded 2 t.day) (padded 2 t.month) (padded 4 t.year))
    else if eqb_ℤ date_format f.date_mmddyyyy
    then some (parts (padded 2 t.month) (padded 2 t.day) (padded 4 t.year))
    else none
