-- ===== src/States/Safe.antt =====
-- The savestate menu stays inside its array.
use adr_bubble_booter_oss.Prelude.{
  ℕ, zero, suc, ◌+◌, ◌≤◌, ◌≡◌, refl, ◌∙◌, arith, List, [], ◌∷◌, Bool, true, false, not, ◌||◌,
  if◌then◌else◌, Option, some, Bool-cases, Option-cases, inl, inr,
}
use adr_bubble_booter_oss.States.Actions.{
  AllWithin-append, textures-AllWithin, exit_with-IsSafe, close-IsSafe, choose-IsSafe,
  open_entry-Keeps,
}
use adr_bubble_booter_oss.States.Inside.{
  IsInside, IsWhole, IsSafe, option_up-IsInside, option_down-IsInside, list_up-IsInside,
  list_down-IsInside, list_up-keeps, list_down-keeps,
}
use adr_bubble_booter_oss.States.{
  Entry, Menu, Action, Pad, max_states, max_position, finish_states, close_options, choose,
  option_up, option_down, list_up, list_down, open_entry, ctrl_options, ctrl_list, ctrl_states,
  auto_load_state, load_selected_state, load_state_of, Event, turn, starts, finishes, loads,
  selects, marks, react, run, initial,
}

ctrl_options-IsSafe :
    (p : Pad) (m : Menu) (entries : List Entry)
    → m.states ≡ some entries
    → IsInside m
    → IsSafe (ctrl_options p m)
unfolding ctrl_options
ctrl_options-IsSafe p m entries e h =
    let m₁ : Menu = if p.cancel then close_options m else m in
    let h₁ : (IsInside m₁) × (m₁.states ≡ some entries) = elim (Bool-cases p.cancel) [
      | inl a ↦ rw a ((close-IsSafe m [] (h, tt)).0, e)
      | inr a ↦ rw a (h, e)
    ] in
    let chosen : Option (Menu × List Action) = if p.enter then choose m₁ else some (m₁, []) in
    let safe : IsSafe chosen = elim (Bool-cases p.enter) [
      | inl a ↦ rw a (choose-IsSafe m₁ entries h₁.1 h₁.0)
      | inr a ↦ rw a (h₁.0, tt)
    ] in
    elim (Option-cases chosen) [
      | inl n ↦ absurd (rw n at safe)
      | inr ((m₂, actions), q) ↦
          let s : IsSafe (some (m₂, actions)) = rw q at safe in
          rw (ctrl_options, q) (moved (p.up || p.analog_up) (p.down || p.analog_down) m₂ s.0, s.1)
    ]
  where
    moved :
        (up down : Bool) (m₂ : Menu)
        → IsInside m₂
        → let m₃ = if up then option_up m₂ else m₂ in IsInside (if down then option_down m₃ else m₃)
    moved true true m₂ h = option_down-IsInside (option_up m₂) (option_up-IsInside m₂ h)
    moved true false m₂ h = option_up-IsInside m₂ h
    moved false true m₂ h = option_down-IsInside m₂ h
    moved false false m₂ h = h

move-IsInside :
    (up down : Bool) (m : Menu)
    → IsInside m
    → let m₁ = if up then list_up m else m in
      let m₂ = if down then list_down m₁ else m₁ in (IsInside m₂) × (m₂.states ≡ m.states)
move-IsInside true true m h = (
  list_down-IsInside (list_up m) (list_up-IsInside m h),
  (list_down-keeps (list_up m)).0 ∙ (list_up-keeps m).0,
)
move-IsInside true false m h = (list_up-IsInside m h, (list_up-keeps m).0)
move-IsInside false true m h = (list_down-IsInside m h, (list_down-keeps m).0)
move-IsInside false false m h = (h, refl)

ctrl_list-IsSafe :
    (p : Pad) (m : Menu) (entries : List Entry)
    → m.states ≡ some entries
    → IsInside m
    → IsSafe (ctrl_list p m)
unfolding ctrl_list
ctrl_list-IsSafe p m entries e h =
    let m₁ : Menu = if p.up || p.analog_up then list_up m else m in
    let m₂ : Menu = if p.down || p.analog_down then list_down m₁ else m₁ in
    let (h₂, same) = move-IsInside (p.up || p.analog_up) (p.down || p.analog_down) m h in
    elim (Bool-cases p.enter) [
      | inr a ↦ rw (ctrl_list, a) (h₂, tt)
      | inl a ↦
          let keeps = open_entry-Keeps m₂ entries (same ∙ e) h₂ in
          elim (Option-cases (open_entry m₂)) [
            | inl n ↦ absurd (rw n at keeps)
            | inr (m₃, q) ↦ rw (ctrl_list, a, q) ((rw q at keeps), tt)
          ]
    ]

if-IsSafe :
    (b : Bool) (x y : Option (Menu × List Action))
    → IsSafe x
    → IsSafe y
    → IsSafe (if b then x else y)
if-IsSafe true x y h k = h
if-IsSafe false x y h k = k

ctrl_states-IsSafe : (p : Pad) (m : Menu) → IsInside m → IsSafe (ctrl_states p m)
unfolding ctrl_states
ctrl_states-IsSafe p m h = elim (Option-cases m.states) [
  | inl n ↦ rw (ctrl_states, n) (h, tt)
  | inr (entries, e) ↦
      rw (ctrl_states, e)
        (if-IsSafe m.open_options (ctrl_options p m) (ctrl_list p m)
          (ctrl_options-IsSafe p m entries e h) (ctrl_list-IsSafe p m entries e h))
]

finish_states-IsSafe : (m : Menu) → IsInside m → IsSafe (some (finish_states m))
unfolding finish_states
finish_states-IsSafe m (rel, base, whole, opt) = elim (Option-cases m.states) [
  | inl n ↦ rw (finish_states, n) ((rel, base, whole, opt), tt)
  | inr (entries, e) ↦ rw (finish_states, e) ((rel, base, tt, opt), textures-AllWithin entries)
]

-- an array that initStates makes has 32 entries, and the states that autoLoadState finds and that
-- LoadSelectedState loads are below 29
abbrev pub IsFit : Event → Type 0
IsFit (turn p) = Unit
IsFit (starts entries) = IsWhole entries
IsFit finishes = Unit
IsFit (loads exists num) = exists ≡ true → num + max_position ≤ max_states
IsFit (selects loadstate) = loadstate + max_position ≤ max_states + 1
IsFit marks = Unit

abbrev pub AllFit : List Event → Type 0
AllFit [] = Unit
AllFit (e ∷ events) = IsFit e × AllFit events

auto_load_state-IsSafe :
    (exists : Bool) (num : ℕ) (m : Menu)
    → (exists ≡ true → num + max_position ≤ max_states)
    → IsInside m
    → IsSafe (some (auto_load_state exists num m))
unfolding auto_load_state
auto_load_state-IsSafe exists num m h (rel, base, whole, opt) =
    elim (Bool-cases (m.load_state || not exists)) [
      | inl a ↦ rw (auto_load_state, a) ((rel, base, whole, opt), tt)
      | inr a ↦
          let here : exists ≡ true = ground arith in
          rw (auto_load_state, a) ((rel, h here, whole, opt), (omega (arith, h here), tt))
    ]

load_selected_state-IsSafe :
    (loadstate : ℕ) (m : Menu)
    → loadstate + max_position ≤ max_states + 1
    → IsInside m
    → IsSafe (some (load_selected_state loadstate m))
unfolding load_selected_state
load_selected_state-IsSafe zero m fit h =
    let (kept, within) = finish_states-IsSafe m h in (kept, (tt, within))
load_selected_state-IsSafe (suc num) m fit h =
    let ((rel, base, whole, opt), within) =
      exit_with-IsSafe (load_state_of num) m (omega arith) h in
    ((rel, omega arith, whole, opt), within)

react-IsSafe : (e : Event) (m : Menu) → IsFit e → IsInside m → IsSafe (react e m)
unfolding react
react-IsSafe (turn p) m f h = ctrl_states-IsSafe p m h
react-IsSafe (starts entries) m f (rel, base, whole, opt) = ((rel, base, f, λ o. absurd (cc o)), tt)
react-IsSafe finishes m f h = finish_states-IsSafe m h
react-IsSafe (loads exists num) m f h = auto_load_state-IsSafe exists num m f h
react-IsSafe (selects loadstate) m f h = load_selected_state-IsSafe loadstate m f h
react-IsSafe marks m f h = (h, tt)

run-IsSafe : (events : List Event) (m : Menu) → AllFit events → IsInside m → IsSafe (run events m)
unfolding run
run-IsSafe [] m f h = (h, tt)
run-IsSafe (e ∷ events) m (f, fs) h =
    let safe = react-IsSafe e m f h in
    elim (Option-cases (react e m)) [
      | inl n ↦ absurd (rw n at safe)
      | inr ((m', actions), q) ↦
          let s : IsSafe (some (m', actions)) = rw q at safe in
          let rest = run-IsSafe events m' fs s.0 in
          elim (Option-cases (run events m')) [
            | inl n ↦ absurd (rw n at rest)
            | inr ((m'', actions'), q') ↦
                let s' : IsSafe (some (m'', actions')) = rw q' at rest in
                rw (run, q, q') (s'.0, AllWithin-append actions actions' s.1 s'.1)
          ]
    ]

-- Whatever buttons are pressed in the savestate menu, and whenever it is started and left, where
-- initStates makes an array of 32 entries, and the states that autoLoadState finds and that
-- LoadSelectedState loads have numbers below 29: the menu never reads or writes outside the array; the four states that
-- it shows, and the selected one, are in the array; the selected option is one of those shown; and
-- only states of the array are saved, loaded or deleted.
pub run-initial-IsSafe : (events : List Event) → AllFit events → IsSafe (run events initial)
run-initial-IsSafe events f =
    run-IsSafe events initial f (omega arith, omega arith, tt, λ o. absurd (cc o))
