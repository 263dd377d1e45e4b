-- ===== src/States/Actions.antt =====
-- The actions of the savestate menu, and the opening of its options, stay inside the array.
use adr_bubble_booter_oss.Prelude.{
  ℕ, zero, suc, ◌<◌, ◌≡◌, refl, ◌∙◌, arith, List, [], ◌∷◌, ◌++◌, negsuc, eqb_ℤ, true, ltb, length,
  get_or, set, length-set, Option, none, some, Bool-cases, Option-cases, ◌⊎◌, inl, inr,
}
use adr_bubble_booter_oss.States.Inside.{IsInside, IsWithin, AllWithin, IsSafe}
use adr_bubble_booter_oss.States.{
  Entry, Mode, new, exist, Menu, Action, save_state, load_state_of, max_states, textures,
  finish_states, exit_with, delete_state, close_options, selected, choose_new, choose_exist, choose,
  open_entry,
}

pub AllWithin-append : (xs ys : List Action) → AllWithin xs → AllWithin ys → AllWithin (xs ++ ys)
AllWithin-append [] ys h k = k
AllWithin-append (x ∷ xs) ys (h, hs) k = (h, AllWithin-append xs ys hs k)

pub textures-AllWithin : (entries : List Entry) → AllWithin (textures entries)
unfolding textures
textures-AllWithin [] = tt
textures-AllWithin (e ∷ entries) =
    let rest = textures-AllWithin entries in
    elim (Bool-cases (eqb_ℤ e.num (negsuc 0))) [
      | inl a ↦ rw (textures, a) rest
      | inr a ↦ elim (Option-cases e.tex) [
        | inl b ↦ rw (textures, a, b) rest
        | inr (t, b) ↦ rw (textures, a, b) (tt, rest)
      ]
    ]

pub exit_with-IsSafe :
    (a : Action) (m : Menu) → IsWithin a → IsInside m → IsSafe (some (exit_with a m))
unfolding exit_with finish_states
exit_with-IsSafe a m h (rel, base, whole, opt) = elim (Option-cases m.states) [
  | inl n ↦ rw (exit_with, finish_states, n) ((rel, base, whole, opt), (tt, (h, tt)))
  | inr (entries, e) ↦
      rw (exit_with, finish_states, e)
        (
          (rel, base, tt, opt),
          (tt, AllWithin-append (textures entries) (a ∷ []) (textures-AllWithin entries) (h, tt)),
        )
]

selected-lt : (m : Menu) → IsInside m → selected m < max_states
selected-lt m (rel, base, whole, opt) = omega arith

delete_state-IsSafe :
    (n : ℕ) (m : Menu) (entries : List Entry)
    → m.states ≡ some entries
    → n < max_states
    → IsInside m
    → IsSafe (delete_state n m)
unfolding delete_state
delete_state-IsSafe n m entries e h (rel, base, whole, opt) =
    let blank : Entry = record { num = negsuc 0; tex = none } in
    let w : length entries ≡ max_states = rw e at whole in
    let lt : ltb n (length entries) ≡ true = ground arith in
    let w' : (x : Entry) → length (set entries n x) ≡ max_states =
      λ x. length-set entries n x ∙ w in
    elim (Option-cases (get_or entries n blank).tex) [
      | inl t ↦ rw (delete_state, e, lt, t) ((rel, base, w' _, opt), (h, tt))
      | inr (x, t) ↦ rw (delete_state, e, lt, t) ((rel, base, w' _, opt), (h, (tt, tt)))
    ]

pub close-IsSafe :
    (m : Menu) (actions : List Action)
    → IsSafe (some (m, actions))
    → IsSafe (some (close_options m, actions))
close-IsSafe m actions ((rel, base, whole, opt), within) =
    ((rel, base, whole, λ o. absurd (cc o)), within)

choose_new-IsSafe : (k : ℕ) (m : Menu) → IsInside m → IsSafe (some (choose_new k m))
unfolding choose_new
choose_new-IsSafe zero m h = exit_with-IsSafe (save_state (selected m)) m (selected-lt m h) h
choose_new-IsSafe (suc zero) m h = close-IsSafe m [] (h, tt)
choose_new-IsSafe (suc (suc k)) m h = (h, tt)

choose_exist-IsSafe :
    (k : ℕ) (m : Menu) (entries : List Entry)
    → m.states ≡ some entries
    → IsInside m
    → IsSafe (choose_exist k m)
unfolding choose_exist
choose_exist-IsSafe zero m entries e h =
    exit_with-IsSafe (load_state_of (selected m)) m (selected-lt m h) h
choose_exist-IsSafe (suc zero) m entries e h =
    exit_with-IsSafe (save_state (selected m)) m (selected-lt m h) h
choose_exist-IsSafe (suc (suc zero)) m entries e h =
    let safe = delete_state-IsSafe (selected m) m entries e (selected-lt m h) h in
    elim (Option-cases (delete_state (selected m) m)) [
      | inl n ↦ absurd (rw n at safe)
      | inr ((m', actions), q) ↦ rw (choose_exist, q) (close-IsSafe m' actions (rw q at safe))
    ]
choose_exist-IsSafe (suc (suc (suc zero))) m entries e h = close-IsSafe m [] (h, tt)
choose_exist-IsSafe (suc (suc (suc (suc k)))) m entries e h = (h, tt)

mode_cases : (o : Mode) → (o ≡ new) ⊎ (o ≡ exist)
mode_cases new = inl refl
mode_cases exist = inr refl

pub choose-IsSafe :
    (m : Menu) (entries : List Entry) → m.states ≡ some entries → IsInside m → IsSafe (choose m)
unfolding choose
choose-IsSafe m entries e h = elim (mode_cases m.option_mode) [
  | inl o ↦ rw (choose, o) (choose_new-IsSafe m.option_sel m h)
  | inr o ↦ rw (choose, o) (choose_exist-IsSafe m.option_sel m entries e h)
]

abbrev pub Keeps : Option Menu → Type 0
Keeps none = ⊥
Keeps (some m) = IsInside m

pub open_entry-Keeps :
    (m : Menu) (entries : List Entry) → m.states ≡ some entries → IsInside m → Keeps (open_entry m)
unfolding open_entry
open_entry-Keeps m entries e h =
    let (rel, base, whole, opt) = h in
    let blank : Entry = record { num = negsuc 0; tex = none } in
    let w : length entries ≡ max_states = rw e at whole in
    let s = selected-lt m h in
    let lt : ltb (selected m) (length entries) ≡ true = ground arith in
    elim (Bool-cases (eqb_ℤ (get_or entries (selected m) blank).num (negsuc 0))) [
      | inl b ↦ rw (open_entry, e, lt, b) (rel, base, whole, λ o. omega arith)
      | inr b ↦ rw (open_entry, e, lt, b) (rel, base, whole, λ o. omega arith)
    ]
