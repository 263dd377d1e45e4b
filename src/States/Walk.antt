-- ===== src/States/Walk.antt =====
-- Every state of the savestate menu can be selected.
use adr_bubble_booter_oss.Prelude.{
  ℕ, zero, suc, ◌+◌, ◌-◌, ◌<◌, ◌≡◌, refl, subst, ◌∙◌, arith, List, [], ◌++◌, Bool, true, false, ltb,
  min, replicate, Option, none, some, Bool-cases, if◌then◌else◌, inl, inr,
}
use adr_bubble_booter_oss.States.{
  Entry, Menu, Action, Pad, max_states, max_position, selected, list_up, list_down, ctrl_list,
  ctrl_options, ctrl_states, Event, turn, react, run,
}
use adr_bubble_booter_oss.States.Inside.{
  IsInside, list_up-IsInside, list_down-IsInside, list_up-keeps, list_down-keeps,
}

abbrev pub no_press : Pad
no_press = record {
  cancel = false;
  enter = false;
  up = false;
  analog_up = false;
  down = false;
  analog_down = false;
}

abbrev pub hold_up : Pad
hold_up = record no_press { up = true }

abbrev pub hold_down : Pad
hold_down = record no_press { down = true }

abbrev pub press_up : Event
press_up = turn hold_up

abbrev pub press_down : Event
press_down = turn hold_down

-- the menu shows the list
abbrev pub Shows : List Entry → Menu → Type 0
Shows entries m = IsInside m × (m.states ≡ some entries) × (m.open_options ≡ false)

selected-list_down : (m : Menu) → IsInside m → selected (list_down m) ≡ min (selected m + 1) 31
unfolding list_down
selected-list_down m (rel, base, whole, opt) = elim (Bool-cases (ltb m.rel_pos (max_states - 1))) [
  | inr a ↦ absurd (ground arith)
  | inl a ↦ elim (Bool-cases (ltb m.rel_pos (max_position - 1))) [
    | inl b ↦ rw (list_down, a, b) (ground arith)
    | inr b ↦ elim (Bool-cases (ltb (m.base_pos + m.rel_pos) (max_states - 1))) [
      | inl c ↦ rw (list_down, a, b, c) (ground arith)
      | inr c ↦ rw (list_down, a, b, c) (ground arith)
    ]
  ]
]

selected-list_up : (m : Menu) → selected (list_up m) ≡ selected m - 1
unfolding list_up
selected-list_up m = elim (Bool-cases (ltb 0 m.rel_pos)) [
  | inl a ↦ rw (list_up, a) (ground arith)
  | inr a ↦ elim (Bool-cases (ltb 0 m.base_pos)) [
    | inl b ↦ rw (list_up, a, b) (ground arith)
    | inr b ↦ rw (list_up, a, b) (ground arith)
  ]
]

list_branch :
    (o : Option (List Entry)) (b : Bool) (entries : List Entry)
    (x y z : Option (Menu × List Action))
    → o ≡ some entries
    → b ≡ false
    → (elim o as (λ _. Option (Menu × List Action)) [
      | none ↦ x
      | some entries ↦ if b then y else z
    ])
      ≡ z
list_branch o b entries x y z e closed = rw (e, closed) refl

-- on the list, a turn is that of the list
ctrl_states-Shows :
    (p : Pad) (entries : List Entry) (m : Menu) → Shows entries m → ctrl_states p m ≡ ctrl_list p m
unfolding ctrl_states
ctrl_states-Shows p entries m (inside, e, closed) =
    list_branch m.states m.open_options entries (some (m, [])) (ctrl_options p m) (ctrl_list p m) e
      closed

react-press_up :
    (entries : List Entry) (m : Menu)
    → Shows entries m
    → (react press_up m ≡ some (list_up m, [])) × Shows entries (list_up m)
unfolding react ctrl_list
react-press_up entries m h =
    let (inside, e, closed) = h in
    let (same, same') = list_up-keeps m in
    (ctrl_states-Shows hold_up entries m h, (list_up-IsInside m inside, same ∙ e, same' ∙ closed))

react-press_down :
    (entries : List Entry) (m : Menu)
    → Shows entries m
    → (react press_down m ≡ some (list_down m, [])) × Shows entries (list_down m)
unfolding react ctrl_list
react-press_down entries m h =
    let (inside, e, closed) = h in
    let (same, same') = list_down-keeps m in
    (
      ctrl_states-Shows hold_down entries m h,
      (list_down-IsInside m inside, same ∙ e, same' ∙ closed),
    )

-- some events that end on the list at a selection, without actions
abbrev pub IsAt : List Entry → ℕ → Option (Menu × List Action) → Type 0
IsAt entries k r = (m : Menu) × (r ≡ some (m, [])) × Shows entries m × (selected m ≡ k)

at_end : (m : Menu) → IsInside m → selected m ≡ min (selected m + 0) 31
at_end m (rel, base, whole, opt) = omega arith

run-press_down :
    (entries : List Entry) (k : ℕ) (m : Menu)
    → Shows entries m
    → IsAt entries (min (selected m + k) 31) (run (replicate k press_down) m)
unfolding run
run-press_down entries zero m h = let inside = h.0 in (m, refl, h, at_end m inside)
run-press_down entries (suc k) m h =
    let (step, shows) = react-press_down entries m h in
    let (m', e, h', s) = run-press_down entries k (list_down m) shows in
    let d = selected-list_down m h.0 in (m', rw (run, step, e) refl, h', s ∙ (rw d (omega arith)))

run-press_up :
    (entries : List Entry) (k t : ℕ) (events : List Event) (m : Menu)
    → Shows entries m
    → ((m' : Menu)
        → Shows entries m'
        → selected m' ≡ selected m - k
        → IsAt entries t (run events m'))
    → IsAt entries t (run (replicate k press_up ++ events) m)
unfolding run
run-press_up entries zero t events m h f = f m h (omega arith)
run-press_up entries (suc k) t events m h f =
    let (step, shows) = react-press_up entries m h in
    let u = selected-list_up m in
    let (m', e, h', s) =
      run-press_up entries k t events (list_up m) shows
        (λ m' h' q. f m' h' (q ∙ rw u (omega arith))) in
    (m', rw (run, step, e) refl, h', s)

-- While the list of a whole array is shown, every state can be selected: 31 presses of the up button
-- and then `k` of the down button, with no other button, lead to the list with state `k` selected, and
-- do nothing else.
pub run-presses :
    (entries : List Entry) (k : ℕ) (m : Menu)
    → Shows entries m
    → k < max_states
    → IsAt entries k (run (replicate 31 press_up ++ replicate k press_down) m)
run-presses entries k m h lt = run-press_up entries 31 k (replicate k press_down) m h λ m' h' q.
    let (rel, base, whole, opt) = h.0 in
    let z : selected m' ≡ 0 = omega arith in
    let at : min (selected m' + k) 31 ≡ k = omega arith in
    subst (λ n. IsAt entries n (run (replicate k press_down) m')) at
      (run-press_down entries k m' h')
