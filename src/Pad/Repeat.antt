-- ===== src/Pad/Repeat.antt =====
-- The repetition of a button that is held.
use adr_bubble_booter_oss.Prelude.{
  ℕ, zero, suc, ◌+◌, ◌-◌, ◌%◌, ◌≡◌, refl, arith, true, false, ◌&&◌, ◌||◌, if◌then◌else◌, ltb, leb,
  ◌==◌, min,
}
use adr_bubble_booter_oss.Pad.{Button, update_button}

-- a button that is held for some calls of readPad
unfoldable pub held : ℕ → Button → Button
unfolding update_button
held zero b = b
held (suc n) b = update_button true (held n b)

-- the counter of hold_pad behind `n + 1` calls
abbrev turns : ℕ → ℕ
turns n = if ltb n 10 then n + 1 else 7 + (n - 10) % 4

turns-suc : (n : ℕ) → (if leb 10 (turns n) then 6 else turns n) + 1 ≡ turns (suc n)
turns-suc n = ground arith

held_lem :
    (n : ℕ) (b : Button)
    → ((held (suc n) (update_button false b)).current ≡ true)
      × ((held (suc n) (update_button false b)).hold_count ≡ turns n)
      × ((held (suc n) (update_button false b)).hold2_count ≡ min (n + 1) 11)
unfolding held
held_lem zero b = (refl, refl, refl)
held_lem (suc n) b =
    let (current, count, count2) = held_lem n b in
    (refl, rw count (turns-suc n), rw count2 (ground arith))

-- From a call of readPad at which a button is not pressed on, held for `n + 1` calls: at the last of
-- them hold_pad is set when it is the first, the eleventh, or each fourth behind that; hold2_pad is
-- set when it is the first, or the eleventh or later; and pressed_pad is set when it is the first.
pub update_button-held :
    (n : ℕ) (b : Button)
    → let r = held (suc n) (update_button false b) in
      (r.hold ≡ (n == 0 || (leb 10 n && (n - 10) % 4 == 0)))
      × (r.hold2 ≡ (n == 0 || leb 10 n))
      × (r.pressed ≡ (n == 0))
unfolding held
update_button-held zero b = (refl, refl, refl)
update_button-held (suc n) b =
    let (current, count, count2) = held_lem n b in
    (rw count (ground arith), rw count2 (ground arith), ground arith)
