-- ===== src/Minilibc/Token/Laws.antt =====
-- strtok_r of src/vita/common/minilibc.c against a split of the text as a list.
use adr_bubble_booter_oss.Prelude.{
  ℕ, zero, suc, ◌+◌, ◌≤◌, ◌<◌, ◌≡◌, ◌≢◌, refl, arith, List, [], ◌∷◌, Bool, true, false, not, ◌||◌,
  Option, none, some, length, take, drop, ◌⊎◌, inl, inr, ◌==◌, if◌then◌else◌, length-drop, ap, sym,
  subst,
}
use adr_bubble_booter_oss.Memory.{Mem, StrAt, StrAt-drop, StrAt-cut, StrAt-agree, store}
use adr_bubble_booter_oss.Minilibc.Token.{
  is_delimiter, skip_while, strtok_at, strtok_r, end_token, Token,
}

unfoldable pub member : ℕ → List ℕ → Bool
member c [] = false
member c (d ∷ ds) = c == d || member c ds

-- how many bytes at the front are delimiters, or are not
unfoldable pub prefix : Bool → List ℕ → List ℕ → ℕ
prefix wanted ds [] = 0
prefix wanted ds (c ∷ s) =
    if (if wanted then member c ds else not (member c ds)) then suc (prefix wanted ds s) else 0

pub prefix-le : (wanted : Bool) (ds s : List ℕ) → prefix wanted ds s ≤ length s
unfolding prefix
prefix-le wanted ds [] = omega arith
prefix-le wanted ds (c ∷ s) = ground (arith, prefix-le wanted ds s)

is_delimiter-member :
    (fuel : ℕ) (m : Mem) (c q : ℕ) (ds : List ℕ)
    → StrAt m q ds
    → length ds < fuel
    → is_delimiter fuel m c q ≡ some (member c ds)
unfolding is_delimiter member
is_delimiter-member zero m c q ds h lt = absurd (omega arith)
is_delimiter-member (suc f) m c q [] h lt = ground arith
is_delimiter-member (suc f) m c q (d ∷ ds) (e, nz, h) lt =
    ground (arith, is_delimiter-member f m c (q + 1) ds h (omega arith))

skip_while-prefix :
    (fuel limit : ℕ) (wanted : Bool) (m : Mem) (p q : ℕ) (s ds : List ℕ)
    → StrAt m p s
    → StrAt m q ds
    → length s < fuel
    → length ds < limit
    → skip_while fuel limit wanted m p q ≡ some (p + prefix wanted ds s)
unfolding skip_while prefix
skip_while-prefix zero l w m p q s ds h k lt lt' = absurd (omega arith)
skip_while-prefix (suc f) l w m p q [] ds h k lt lt' = ground arith
skip_while-prefix (suc f) l w m p q (c ∷ s) ds (e, nz, h) k lt lt' = ground (
  arith,
  is_delimiter-member l m (m p) q ds k lt',
  skip_while-prefix f l w m (p + 1) q s ds h k (omega arith) lt',
)

-- the first token of the text, where it starts, and what is behind it
abbrev pub start : List ℕ → List ℕ → ℕ
start ds s = prefix true ds s

abbrev pub body : List ℕ → List ℕ → List ℕ
body ds s = drop (start ds s) s

abbrev pub stop : List ℕ → List ℕ → ℕ
stop ds s = prefix false ds (body ds s)

abbrev pub token : List ℕ → List ℕ → List ℕ
token ds s = take (stop ds s) (body ds s)

abbrev pub remains : List ℕ → List ℕ → List ℕ
remains ds s = drop (suc (stop ds s)) (body ds s)

-- What strtok_r does with the text `s` at `p`: nothing where only delimiters are left; else the token
-- stands at the place returned, and where more text follows, the delimiter behind the token is
-- overwritten by its zero byte and the rest of the text stands behind that.
pub data Tokenized (m : Mem) (p : ℕ) (ds s : List ℕ) : Token → Type 0 where
  finished : body ds s ≡ [] → Tokenized m p ds s (none, none, m)
  last_token :
      body ds s ≢ []
      → StrAt m (p + start ds s) (token ds s)
      → Tokenized m p ds s (some (p + start ds s), none, m)
  next_token :
      body ds s ≢ []
      → StrAt (store m (p + start ds s + stop ds s) 0) (p + start ds s) (token ds s)
      → StrAt
          (store m (p + start ds s + stop ds s) 0)
          (p + start ds s + stop ds s + 1)
          (remains ds s)
      → Tokenized m p ds s (
        some (p + start ds s),
        some (p + start ds s + stop ds s + 1),
        store m (p + start ds s + stop ds s) 0,
      )

drop-suc : (i : ℕ) (s : List ℕ) (c : ℕ) (r : List ℕ) → drop i s ≡ c ∷ r → drop (suc i) s ≡ r
drop-suc zero [] c r h = cc
drop-suc zero (x ∷ s) c r h = cc
drop-suc (suc i) [] c r h = cc
drop-suc (suc i) (x ∷ s) c r h = drop-suc i s c r h

take-drop_nil : (i : ℕ) (s : List ℕ) → drop i s ≡ [] → take i s ≡ s
take-drop_nil zero s h = sym h
take-drop_nil (suc i) [] h = refl
take-drop_nil (suc i) (x ∷ s) h = ap (◌∷◌ x) (take-drop_nil i s h)

-- the step behind the second loop, on what is left at the cursor
end_token-Tokenized :
    (m : Mem) (p : ℕ) (ds s left : List ℕ)
    → StrAt m (p + start ds s) (body ds s)
    → body ds s ≢ []
    → left ≡ drop (stop ds s) (body ds s)
    → StrAt m (p + start ds s + stop ds s) left
    → Tokenized m p ds s (end_token m (p + start ds s) (p + start ds s + stop ds s))
unfolding end_token
end_token-Tokenized m p ds s [] hb ne e h =
    let t : (m (p + start ds s + stop ds s) == 0) ≡ true = ground arith in
    rw t (last_token ne (rw (take-drop_nil (stop ds s) (body ds s) (sym e)) hb))
end_token-Tokenized m p ds s (c ∷ r) hb ne e (ec, nz, h) =
    let t : (m (p + start ds s + stop ds s) == 0) ≡ false = ground arith in
    rw t (
      next_token ne
        (StrAt-cut m (p + start ds s) (stop ds s) (body ds s) hb (prefix-le false ds (body ds s)))
        (rw (drop-suc (stop ds s) (body ds s) c r (sym e))
          (StrAt-agree m _ _ r h (λ q lo hi. ground arith))))

list_cases : (s : List ℕ) → (s ≡ []) ⊎ ((c : ℕ) × (r : List ℕ) × (s ≡ c ∷ r))
list_cases [] = inl refl
list_cases (c ∷ r) = inr (c, r, refl)

-- strtok_r on a text, with fuel for the text and the delimiters, returns what Tokenized says: the
-- token is the text's first run of bytes that are no delimiters, ended by a zero byte in memory; the
-- state is the rest of the text behind that, or NULL where the token ends the text; and a text of
-- delimiters alone gives NULL.
pub strtok_r_lem :
    (fuel : ℕ) (m : Mem) (p q : ℕ) (s ds : List ℕ) (state : Option ℕ)
    → StrAt m p s
    → StrAt m q ds
    → length s < fuel
    → length ds < fuel
    → (t : Token) × (strtok_r fuel m (some p) q state ≡ some t) × Tokenized m p ds s t
unfolding strtok_r strtok_at
strtok_r_lem fuel m p q s ds state h k lt lt' =
    let first = skip_while-prefix fuel fuel true m p q s ds h k lt lt' in
    let hb = StrAt-drop m p (start ds s) s h (prefix-le true ds s) in
    let short : length (body ds s) < fuel = omega (arith, length-drop (start ds s) s) in
    let second =
      skip_while-prefix fuel fuel false m (p + start ds s) q (body ds s) ds hb k short lt' in
    let left = StrAt-drop m _ (stop ds s) (body ds s) hb (prefix-le false ds (body ds s)) in
    elim (list_cases (body ds s)) [
      | inl e ↦
          let z : (m (p + start ds s) == 0) ≡ true =
            let hz = subst (StrAt m (p + start ds s)) e hb in ground arith in
          ((none, none, m), ground (arith, first), finished e)
      | inr (c, r, e) ↦
          let hz = subst (StrAt m (p + start ds s)) e hb in
          let z : (m (p + start ds s) == 0) ≡ false = ground arith in
          let ne : body ds s ≢ [] = λ e'. cc in
          (
            end_token m (p + start ds s) (p + start ds s + stop ds s),
            ground (arith, first, second),
            end_token-Tokenized m p ds s _ hb ne refl left,
          )
    ]
