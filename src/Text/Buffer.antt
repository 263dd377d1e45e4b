-- ===== src/Text/Buffer.antt =====
-- Strings in arrays.
use adr_bubble_booter_oss.Prelude.{
  ℕ, zero, suc, ◌-◌, ◌<◌, ◌≤◌, ◌≡◌, ◌≢◌, List, [], ◌∷◌, ◌++◌, length, drop, replicate, arith, some,
  ◌==◌, Bool-cases, inl, inr, Option-cases, append_assoc, take_all,
}
use adr_bubble_booter_oss.Text.{c_string, strncpy}

abbrev pub NonZero : List ℕ → Type 0
NonZero [] = Unit
NonZero (x ∷ s) = (x ≢ 0) × NonZero s

pub c_string-NonZero : (b : List ℕ) {s : List ℕ} → c_string b ≡ some s → NonZero s
unfolding c_string
c_string-NonZero [] h = cc
c_string-NonZero (x ∷ b) {s = s} h = elim (Option-cases (c_string b)) [
  | inl e ↦ let s_nil : [] ≡ s = ground (arith, e) in rw (← s_nil) tt
  | inr (t, e) ↦ elim (Bool-cases (x == 0)) [
    | inl z ↦ let s_nil : [] ≡ s = ground (arith, e, z) in rw (← s_nil) tt
    | inr nz ↦
        let s_cons : x ∷ t ≡ s = ground (arith, e, nz) in
        rw (← s_cons) (ground arith, c_string-NonZero b e)
  ]
]

-- a string in an array, seen from one of its places
pub c_string-drop :
    (n : ℕ) (b : List ℕ) {s : List ℕ}
    → c_string b ≡ some s
    → n ≤ length s
    → c_string (drop n b) ≡ some (drop n s)
unfolding c_string
c_string-drop zero b h le = h
c_string-drop (suc n) [] h le = cc
c_string-drop (suc n) (x ∷ b) {s = s} h le = elim (Option-cases (c_string b)) [
  | inl e ↦
      let s_nil : [] ≡ s = ground (arith, e) in
      absurd (let le' : suc n ≤ 0 = rw (← s_nil) at le in omega arith)
  | inr (t, e) ↦ elim (Bool-cases (x == 0)) [
    | inl z ↦
        let s_nil : [] ≡ s = ground (arith, e, z) in
        absurd (let le' : suc n ≤ 0 = rw (← s_nil) at le in omega arith)
    | inr nz ↦
        let s_cons : x ∷ t ≡ s = ground (arith, e, nz) in
        let le' : suc n ≤ length (x ∷ t) = rw (← s_cons) at le in
        rw (← s_cons) (c_string-drop n b e (omega arith))
  ]
]

pub c_string-append : (s rest : List ℕ) → NonZero s → c_string (s ++ (0 ∷ rest)) ≡ some s
unfolding c_string
c_string-append [] rest h = ground arith
c_string-append (x ∷ s) rest h = ground (arith, c_string-append s rest h.1)

-- strncpy leaves a string that is shorter than its size, with its end
pub c_string-strncpy :
    (size : ℕ) (s rest : List ℕ)
    → NonZero s
    → length s < size
    → c_string (strncpy size s ++ rest) ≡ some s
unfolding strncpy
c_string-strncpy size s rest h lt =
    let n : size - length s ≡ suc (size - length s - 1) = omega arith in
    let pad = replicate {A = ℕ} (size - length s - 1) 0 in
    rw (take_all s size (omega arith), n, append_assoc s (0 ∷ pad) rest)
      (c_string-append s (pad ++ rest) h)
