-- ===== src/Bootconv/Value.antt =====
-- The value that src/vita/bootconv/main.c takes from a boot.inf.
use adr_bubble_booter_oss.Prelude.{
  ℕ, ◌≡◌, refl, List, [], ◌∷◌, ◌++◌, ℤ, true, false, some, take, Bool-cases, inl, inr,
}
use adr_bubble_booter_oss.Bootconv.{is_match, after_first_equals, last_value}

module _ (strncasecmp : List ℕ → List ℕ → ℕ → ℤ) (key : List ℕ) where
  -- every line that matches has an equals sign
  abbrev pub AllValues : List (List ℕ) → Type 0
  AllValues [] = Unit
  AllValues (line ∷ ls) =
      (is_match strncasecmp line key ≡ true → (v : List ℕ) × (after_first_equals line ≡ some v))
      × AllValues ls

  -- no line matches
  abbrev pub NoMatch : List (List ℕ) → Type 0
  NoMatch [] = Unit
  NoMatch (line ∷ ls) = (is_match strncasecmp line key ≡ false) × NoMatch ls

  last_value-NoMatch :
      (ls : List (List ℕ)) (value : List ℕ)
      → NoMatch ls
      → last_value strncasecmp key ls value ≡ some value
  unfolding last_value
  last_value-NoMatch [] value h = refl
  last_value-NoMatch (line ∷ ls) value (e, h) = rw (last_value, e) (last_value-NoMatch ls value h)

  -- Where every line before that matches has an equals sign, and no line behind matches, a matching
  -- line's text behind its first equals sign, cut to 255 bytes, is the value.
  pub last_value_lem :
      (before after : List (List ℕ)) (line v value : List ℕ)
      → AllValues before
      → is_match strncasecmp line key ≡ true
      → after_first_equals line ≡ some v
      → NoMatch after
      → last_value strncasecmp key (before ++ (line ∷ after)) value ≡ some (take 255 v)
  unfolding last_value
  last_value_lem [] after line v value a m e n =
      rw (last_value, m, e) (last_value-NoMatch after (take 255 v) n)
  last_value_lem (l ∷ before) after line v value (a, rests) m e n =
      elim (Bool-cases (is_match strncasecmp l key)) [
        | inl b ↦
            let (u, q) = a b in
            rw (last_value, b, q) (last_value_lem before after line v (take 255 u) rests m e n)
        | inr b ↦ rw (last_value, b) (last_value_lem before after line v value rests m e n)
      ]
