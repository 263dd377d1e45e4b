-- ===== src/States/Inside.antt =====
-- What the savestate menu keeps: the selection inside the array. The moves keep it.
use adr_bubble_booter_oss.Prelude.{
  ◌+◌, ◌-◌, ◌<◌, ◌≤◌, ◌≡◌, refl, arith, List, [], ◌∷◌, true, ltb, length, Option, none, some,
  Bool-cases, inl, inr,
}
use adr_bubble_booter_oss.States.{
  Entry, Menu, Action, exit_menu, save_state, load_state_of, remove_state, free_texture, max_states,
  max_position, option_up, option_down, list_up, list_down,
}

abbrev pub IsWhole : Option (List Entry) → Type 0
IsWhole none = Unit
IsWhole (some entries) = length entries ≡ max_states

-- the selection is a state of the array, and the option one of those shown
abbrev pub IsInside : Menu → Type 0
IsInside m =
    (m.rel_pos < max_position)
    × (m.base_pos + max_position ≤ max_states)
    × IsWhole m.states
    × (m.open_options ≡ true → m.option_sel < m.n_options)

-- a state that is saved, loaded or deleted is one of the array
abbrev pub IsWithin : Action → Type 0
IsWithin exit_menu = Unit
IsWithin (save_state n) = n < max_states
IsWithin (load_state_of n) = n < max_states
IsWithin (remove_state n) = n < max_states
IsWithin (free_texture t) = Unit

abbrev pub AllWithin : List Action → Type 0
AllWithin [] = Unit
AllWithin (a ∷ actions) = IsWithin a × AllWithin actions

abbrev pub IsSafe : Option (Menu × List Action) → Type 0
IsSafe none = ⊥
IsSafe (some (m, actions)) = IsInside m × AllWithin actions

pub option_up-IsInside : (m : Menu) → IsInside m → IsInside (option_up m)
unfolding option_up
option_up-IsInside m (rel, base, whole, opt) = elim (Bool-cases (ltb 0 m.option_sel)) [
  | inl a ↦ rw (option_up, a) (rel, base, whole, λ o. omega (arith, opt o))
  | inr a ↦ rw (option_up, a) (rel, base, whole, opt)
]

pub option_down-IsInside : (m : Menu) → IsInside m → IsInside (option_down m)
unfolding option_down
option_down-IsInside m (rel, base, whole, opt) =
    elim (Bool-cases (ltb (m.option_sel + 1) m.n_options)) [
      | inl a ↦ rw (option_down, a) (rel, base, whole, λ o. ground arith)
      | inr a ↦ rw (option_down, a) (rel, base, whole, opt)
    ]

pub list_up-IsInside : (m : Menu) → IsInside m → IsInside (list_up m)
unfolding list_up
list_up-IsInside m (rel, base, whole, opt) = elim (Bool-cases (ltb 0 m.rel_pos)) [
  | inl a ↦ rw (list_up, a) (omega arith, base, whole, opt)
  | inr a ↦ elim (Bool-cases (ltb 0 m.base_pos)) [
    | inl b ↦ rw (list_up, a, b) (rel, omega arith, whole, opt)
    | inr b ↦ rw (list_up, a, b) (rel, base, whole, opt)
  ]
]

pub list_down-IsInside : (m : Menu) → IsInside m → IsInside (list_down m)
unfolding list_down
list_down-IsInside m (rel, base, whole, opt) = elim (Bool-cases (ltb m.rel_pos (max_states - 1))) [
  | inr a ↦ rw (list_down, a) (rel, base, whole, opt)
  | inl a ↦ elim (Bool-cases (ltb m.rel_pos (max_position - 1))) [
    | inl b ↦ rw (list_down, a, b) (ground arith, base, whole, opt)
    | inr b ↦ elim (Bool-cases (ltb (m.base_pos + m.rel_pos) (max_states - 1))) [
      | inl c ↦ rw (list_down, a, b, c) (rel, ground arith, whole, opt)
      | inr c ↦ rw (list_down, a, b, c) (rel, base, whole, opt)
    ]
  ]
]

pub list_up-keeps :
    (m : Menu) → ((list_up m).states ≡ m.states) × ((list_up m).open_options ≡ m.open_options)
unfolding list_up
list_up-keeps m = elim (Bool-cases (ltb 0 m.rel_pos)) [
  | inl a ↦ rw (list_up, a) (refl, refl)
  | inr a ↦ elim (Bool-cases (ltb 0 m.base_pos)) [
    | inl b ↦ rw (list_up, a, b) (refl, refl)
    | inr b ↦ rw (list_up, a, b) (refl, refl)
  ]
]

pub list_down-keeps :
    (m : Menu) → ((list_down m).states ≡ m.states) × ((list_down m).open_options ≡ m.open_options)
unfolding list_down
list_down-keeps m = elim (Bool-cases (ltb m.rel_pos (max_states - 1))) [
  | inr a ↦ rw (list_down, a) (refl, refl)
  | inl a ↦ elim (Bool-cases (ltb m.rel_pos (max_position - 1))) [
    | inl b ↦ rw (list_down, a, b) (refl, refl)
    | inr b ↦ elim (Bool-cases (ltb (m.base_pos + m.rel_pos) (max_states - 1))) [
      | inl c ↦ rw (list_down, a, b, c) (refl, refl)
      | inr c ↦ rw (list_down, a, b, c) (refl, refl)
    ]
  ]
]
