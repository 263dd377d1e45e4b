-- ===== src/Tests/Menus.antt =====
-- The savestate menu of states.c at concrete inputs.
use adr_bubble_booter_oss.Prelude.{
  ◌++◌, ◌≡◌, refl, arith, List, [], ◌∷◌, pos, negsuc, true, Option, none, some, replicate,
}
use adr_bubble_booter_oss.States.{
  Entry, Menu, Action, exit_menu, load_state_of, remove_state, free_texture, Event, turn, starts,
  selects, run, initial, start_states,
}
use adr_bubble_booter_oss.States.Safe.{run-initial-IsSafe}
use adr_bubble_booter_oss.States.Inside.{IsSafe}
use adr_bubble_booter_oss.States.Walk.{no_press, press_up, press_down, IsAt, run-presses}

-- an array whose first state is used
abbrev entries : List Entry
entries =
    record { num = pos 0; tex = some 5 }
    ∷ replicate {A = Entry} 31 (record { num = negsuc 0; tex = none })

abbrev press_enter : Event
press_enter = turn (record no_press { enter = true })

-- "Delete State" of state 0
abbrev events : List Event
events =
    starts (some entries) ∷ press_enter ∷ press_down ∷ press_down ∷ press_enter ∷ selects 20 ∷ []

run-initial-IsSafe_example : IsSafe (run events initial)
run-initial-IsSafe_example =
    run-initial-IsSafe events (refl, (tt, (tt, (tt, (tt, (omega arith, tt))))))

abbrev actions_of : Option (Menu × List Action) → Option (List Action)
actions_of none = none
actions_of (some r) = some r.1

deleted :
    actions_of (run events initial)
    ≡ some (remove_state 0 ∷ free_texture 5 ∷ exit_menu ∷ load_state_of 19 ∷ [])
unfolding run
deleted = refl

abbrev shown : Menu
shown = start_states (some entries) initial

run-presses_example : IsAt entries 7 (run (replicate 31 press_up ++ replicate 7 press_down) shown)
run-presses_example =
    run-presses entries 7 shown ((omega arith, omega arith, refl, λ o. absurd (cc o)), refl, refl)
      (omega arith)
