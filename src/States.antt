-- ===== src/States.antt =====
-- integration/adrenaline-v7/overlay/user/states.c: the savestate menu. What the menu calls is a list of
-- actions, in their order. An access outside the array `states` is the result none.
pub mod Files
pub mod Inside
pub mod Actions
pub mod Safe
pub mod Walk
use adr_bubble_booter_oss.Prelude.{
  ℕ, zero, suc, ◌+◌, ◌-◌, List, [], ◌∷◌, ◌++◌, ℤ, pos, negsuc, eqb_ℤ, Bool, true, false, not, ◌||◌,
  if◌then◌else◌, ltb, length, get_or, set, Option, none, some,
}

-- AdrenalineStateEntry, by the fields that the menu decides on
pub record Entry : Type 0 where
  pub num : ℤ
  -- a texture, or NULL
  pub tex : Option ℕ

-- OPTION_MODE_NEW and OPTION_MODE_EXIST
pub data Mode : Type 0 where
  new exist : Mode

-- the globals
pub record Menu : Type 0 where
  pub states : Option (List Entry)
  pub option_sel : ℕ
  pub rel_pos : ℕ
  pub base_pos : ℕ
  pub open_options : Bool
  pub n_options : ℕ
  pub option_mode : Mode
  pub load_state : Bool

pub data Action : Type 0 where
  -- ExitAdrenalineMenu before its call of finishStates
  exit_menu : Action
  save_state load_state_of remove_state free_texture : ℕ → Action

-- the tests of released_pad and hold_pad
pub record Pad : Type 0 where
  pub cancel : Bool
  pub enter : Bool
  pub up : Bool
  pub analog_up : Bool
  pub down : Bool
  pub analog_down : Bool

abbrev pub max_states : ℕ
max_states = 32

abbrev pub max_position : ℕ
max_position = 4

-- the textures that the entries in use hold
unfoldable pub textures : List Entry → List Action
textures [] = []
textures (e ∷ entries) =
    let rest = textures entries in
    if eqb_ℤ e.num (negsuc 0)
    then rest
    else elim e.tex [ none ↦ rest | some t ↦ free_texture t ∷ rest ]

unfoldable pub finish_states : Menu → Menu × List Action
unfolding textures
finish_states m = elim m.states [
  | none ↦ (m, [])
  | some entries ↦ (record m { states = none }, textures entries)
]

-- ExitAdrenalineMenu, and then an action
unfoldable pub exit_with : Action → Menu → Menu × List Action
unfolding finish_states
exit_with a m = let (m', freed) = finish_states m in (m', exit_menu ∷ freed ++ (a ∷ []))

unfoldable pub delete_state : ℕ → Menu → Option (Menu × List Action)
delete_state num m = elim m.states [
  | none ↦ none
  | some entries ↦
      let e = get_or entries num (record { num = negsuc 0; tex = none }) in
      let m' = record m { states = some (set entries num (record e { num = negsuc 0 })) } in
      if ltb num (length entries)
      then elim e.tex [
        | none ↦ some (m', remove_state num ∷ [])
        | some t ↦ some (m', remove_state num ∷ free_texture t ∷ [])
      ]
      else none
]

abbrev pub close_options : Menu → Menu
close_options m = record m { open_options = false }

abbrev pub selected : Menu → ℕ
selected m = m.base_pos + m.rel_pos

-- the released enter button on an option
unfoldable pub choose_new : ℕ → Menu → Menu × List Action
unfolding exit_with
choose_new zero m = exit_with (save_state (selected m)) m
choose_new (suc zero) m = (close_options m, [])
choose_new (suc (suc k)) m = (m, [])

unfoldable pub choose_exist : ℕ → Menu → Option (Menu × List Action)
unfolding exit_with delete_state
choose_exist zero m = some (exit_with (load_state_of (selected m)) m)
choose_exist (suc zero) m = some (exit_with (save_state (selected m)) m)
choose_exist (suc (suc zero)) m = elim (delete_state (selected m) m) [
  | none ↦ none
  | some (m', actions) ↦ some (close_options m', actions)
]
choose_exist (suc (suc (suc zero))) m = some (close_options m, [])
choose_exist (suc (suc (suc (suc k)))) m = some (m, [])

unfoldable pub choose : Menu → Option (Menu × List Action)
unfolding choose_new choose_exist
choose m = elim m.option_mode [
  | new ↦ some (choose_new m.option_sel m)
  | exist ↦ choose_exist m.option_sel m
]

unfoldable pub option_up : Menu → Menu
option_up m = if ltb 0 m.option_sel then record m { option_sel = m.option_sel - 1 } else m

unfoldable pub option_down : Menu → Menu
option_down m =
    if ltb (m.option_sel + 1) m.n_options then record m { option_sel = m.option_sel + 1 } else m

unfoldable pub list_up : Menu → Menu
list_up m =
    if ltb 0 m.rel_pos
    then record m { rel_pos = m.rel_pos - 1 }
    else if ltb 0 m.base_pos
    then record m { base_pos = m.base_pos - 1 }
    else m

unfoldable pub list_down : Menu → Menu
list_down m =
    if ltb m.rel_pos (max_states - 1)
    then (if ltb m.rel_pos (max_position - 1)
        then record m { rel_pos = m.rel_pos + 1 }
        else if ltb (m.base_pos + m.rel_pos) (max_states - 1)
        then record m { base_pos = m.base_pos + 1 }
        else m)
    else m

-- the released enter button on a state
unfoldable pub open_entry : Menu → Option Menu
open_entry m = elim m.states [
  | none ↦ none
  | some entries ↦
      let e = get_or entries (selected m) (record { num = negsuc 0; tex = none }) in
      let opened = record m { open_options = true; option_sel = 0 } in
      if not (ltb (selected m) (length entries))
      then none
      else if eqb_ℤ e.num (negsuc 0)
      then some (record opened { n_options = 2; option_mode = new })
      else some (record opened { n_options = 4; option_mode = exist })
]

-- the branch of the open options
unfoldable pub ctrl_options : Pad → Menu → Option (Menu × List Action)
unfolding choose option_up option_down
ctrl_options p m =
    let m₁ = if p.cancel then close_options m else m in
    elim (if p.enter then choose m₁ else some (m₁, [])) [
      | none ↦ none
      | some (m₂, actions) ↦
          let m₃ = if p.up || p.analog_up then option_up m₂ else m₂ in
          some (if p.down || p.analog_down then option_down m₃ else m₃, actions)
    ]

-- the branch of the list
unfoldable pub ctrl_list : Pad → Menu → Option (Menu × List Action)
unfolding list_up list_down open_entry
ctrl_list p m =
    let m₁ = if p.up || p.analog_up then list_up m else m in
    let m₂ = if p.down || p.analog_down then list_down m₁ else m₁ in
    elim (if p.enter then open_entry m₂ else some m₂) [ none ↦ none | some m₃ ↦ some (m₃, []) ]

unfoldable pub ctrl_states : Pad → Menu → Option (Menu × List Action)
unfolding ctrl_options ctrl_list
ctrl_states p m = elim m.states [
  | none ↦ some (m, [])
  | some entries ↦ if m.open_options then ctrl_options p m else ctrl_list p m
]

-- initStates, with the array that it makes, or none when malloc fails
abbrev pub start_states : Option (List Entry) → Menu → Menu
start_states entries m = record m { option_sel = 0; open_options = false; states = entries }

-- autoLoadState, for the answer of stateExists: its only call has a number that is not negative
unfoldable pub auto_load_state : Bool → ℕ → Menu → Menu × List Action
auto_load_state exists num m =
    if m.load_state || not exists
    then (m, [])
    else (record m { load_state = true; base_pos = num }, load_state_of num ∷ [])

-- LoadSelectedState of menu.c, for boot_info.loadstate, where zero stands for a number below one too
unfoldable pub load_selected_state : ℕ → Menu → Menu × List Action
unfolding exit_with finish_states
load_selected_state zero m = let (m', freed) = finish_states m in (m', exit_menu ∷ freed)
load_selected_state (suc num) m =
    let (m', actions) = exit_with (load_state_of num) m in
    (record m' { base_pos = num; load_state = true }, actions)

-- what the program does with the menu: a turn of its loop; the calls of initStates, finishStates,
-- autoLoadState and LoadSelectedState; and the assignment `load_state = 1` of DoAction in menu.c and
-- of main.c
pub data Event : Type 0 where
  turn : Pad → Event
  starts : Option (List Entry) → Event
  finishes : Event
  loads : Bool → ℕ → Event
  selects : ℕ → Event
  marks : Event

unfoldable pub react : Event → Menu → Option (Menu × List Action)
unfolding ctrl_states finish_states auto_load_state load_selected_state
react (turn p) m = ctrl_states p m
react (starts entries) m = some (start_states entries m, [])
react finishes m = some (finish_states m)
react (loads exists num) m = some (auto_load_state exists num m)
react (selects loadstate) m = some (load_selected_state loadstate m)
react marks m = some (record m { load_state = true }, [])

-- the menu and all the actions behind some events
unfoldable pub run : List Event → Menu → Option (Menu × List Action)
unfolding react
run [] m = some (m, [])
run (e ∷ events) m = elim (react e m) [
  | none ↦ none
  | some (m', actions) ↦ elim (run events m') [
    | none ↦ none
    | some (m'', actions') ↦ some (m'', actions ++ actions')
  ]
]

-- the globals of a program that starts
abbrev pub initial : Menu
initial = record {
  states = none;
  option_sel = 0;
  rel_pos = 0;
  base_pos = 0;
  open_options = false;
  n_options = 0;
  option_mode = new;
  load_state = false;
}
