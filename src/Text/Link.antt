-- ===== src/Text/Link.antt =====
-- The values of Text against the memory of src/vita/common/minilibc.c.
use adr_bubble_booter_oss.Prelude.{
  ℕ, zero, suc, ◌+◌, ◌%◌, ◌<◌, ◌≡◌, ◌≢◌, refl, List, [], ◌∷◌, Option, none, some, length, arith,
  ◌==◌, if◌then◌else◌, inl, inr, Option-cases, ◌∙◌, Bool-cases, ◌++◌,
}
use adr_bubble_booter_oss.Memory.{Mem, StrAt}
use adr_bubble_booter_oss.Minilibc.Strings
use adr_bubble_booter_oss.Minilibc.Strings.Search.{last_at, strrchr_lem}
use adr_bubble_booter_oss.Minilibc.Format.{Arg, next_piece, format}
use adr_bubble_booter_oss.Minilibc.Format.Render.{
  Renders, done, piece, piece_text, Formatted, format-Formatted,
}
use adr_bubble_booter_oss.Text.{strrchr, render, sprintf}

-- What the pointer that strrchr returns points to.
abbrev pub PointsTo : Mem → Option ℕ → Option (List ℕ) → Type 0
PointsTo m none none = Unit
PointsTo m (some q) (some t) = StrAt m q t
PointsTo m _ _ = ⊥

-- `r` points to the string, or is the value from before where there is none.
abbrev Last : Mem → Option ℕ → Option ℕ → Option (List ℕ) → Type 0
Last m found r none = r ≡ found
Last m found r (some t) = (q : ℕ) × (r ≡ some q) × StrAt m q t

Last-step :
    (m : Mem) (found : Option ℕ) (p c x : ℕ) (s : List ℕ) (r : Option ℕ) (o : Option (List ℕ))
    → StrAt m p (x ∷ s)
    → Last m (if x == c then some p else found) r o
    → Last m found r (elim o [ some t ↦ some t | none ↦ if x == c then some (x ∷ s) else none ])
Last-step m found p c x s r (some t) h l = l
Last-step m found p c x s r none h l = elim (Bool-cases (x == c)) [
  | inl e ↦ rw e (p, rw e at l, h)
  | inr e ↦ rw e (rw e at l)
]

last_at-Last :
    (m : Mem) (found : Option ℕ) (p c : ℕ) (s : List ℕ)
    → StrAt m p s
    → c ≢ 0
    → Last m found (last_at found p s c) (strrchr s c)
unfolding last_at strrchr
last_at-Last m found p c [] h nz = ground arith
last_at-Last m found p c (x ∷ s) h nz =
    Last-step m found p c x s _ (strrchr s c) h
      (last_at-Last m (if x == c then some p else found) (p + 1) c s h.2 nz)

Last-PointsTo : (m : Mem) (r : Option ℕ) (o : Option (List ℕ)) → Last m none r o → PointsTo m r o
Last-PointsTo m r none l = rw l tt
Last-PointsTo m r (some t) (q, e, h) = rw e h

-- strrchr in memory, with fuel for the string and a byte that is not zero, returns a pointer to the
-- rest of the string from its last such byte on, or NULL where there is none.
pub strrchr-PointsTo :
    (fuel : ℕ) (m : Mem) (text c : ℕ) (s : List ℕ)
    → StrAt m text s
    → length s < fuel
    → c < 256
    → c ≢ 0
    → (r : Option ℕ) × (Strings.strrchr fuel m text c ≡ some r) × PointsTo m r (strrchr s c)
strrchr-PointsTo fuel m text c s h lt byte nz =
    let e : c % 256 ≡ c = omega arith in
    (
      last_at none text s c,
      strrchr_lem fuel m text c s h lt ∙ rw e refl,
      Last-PointsTo m _ (strrchr s c) (last_at-Last m none text c s h nz),
    )

render-Renders :
    (fuel : ℕ) (fmt : List ℕ) (args : List Arg) {s : List ℕ}
    → render fuel fmt args ≡ some s
    → Renders fmt args s
unfolding render
render-Renders fuel [] args {s = s} h = let e : [] ≡ s = cc in rw (← e) done
render-Renders zero (c ∷ fmt) args h = cc
render-Renders (suc fuel) (c ∷ fmt) args {s = s} h = elim (Option-cases (next_piece c fmt args)) [
  | inl e ↦ absurd (ground (arith, e))
  | inr ((p, left, args'), e) ↦ elim (Option-cases (render fuel left args')) [
    | inl e' ↦ absurd (ground (arith, e, e'))
    | inr (s', e') ↦
        let eq : piece_text p ++ s' ≡ s = ground (arith, e, e') in
        rw (← eq) (piece e (render-Renders fuel left args' e'))
  ]
]

-- What sprintf of a value computes, format in memory leaves: the whole length is returned, and the
-- text, cut to the capacity, stands in the buffer with its zero byte.
pub sprintf-Formatted :
    (m : Mem) (buffer capacity : ℕ) (fmt : List ℕ) (args : List Arg) {s : List ℕ}
    → sprintf fmt args ≡ some s
    → (r : ℕ × Mem) × (format m buffer capacity fmt args ≡ some r) × Formatted m buffer capacity s r
unfolding sprintf
sprintf-Formatted m buffer capacity fmt args h =
    format-Formatted m buffer capacity (render-Renders (length fmt) fmt args h)
