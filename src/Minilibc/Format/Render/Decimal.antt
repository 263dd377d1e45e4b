-- ===== src/Minilibc/Format/Render/Decimal.antt =====
-- The digits that emit_decimal of src/vita/common/minilibc.c writes.
use adr_bubble_booter_oss.Prelude.{
  ℕ, zero, suc, ◌+◌, ◌-◌, ◌*◌, ◌/◌, ◌%◌, ◌≤◌, ◌<◌, ◌^◌, ◌≡◌, refl, arith, List, [], ◌∷◌, ◌∙◌, ap,
  ◌≢◌, true, ◌==◌, Bool-cases, inl, inr,
}
use adr_bubble_booter_oss.Minilibc.Format.{decimal_digits}

-- the number that decimal digits stand for, behind a number already read
unfoldable pub decimal_value : ℕ → List ℕ → ℕ
decimal_value n [] = n
decimal_value n (d ∷ ds) = decimal_value (n * 10 + (d - b'0')) ds

-- Every byte is a decimal digit.
abbrev pub AllDigits : List ℕ → Type 0
AllDigits [] = Unit
AllDigits (d ∷ ds) = (b'0' ≤ d) × (d ≤ b'9') × AllDigits ds

-- ten to the power of the fuel
abbrev reach : ℕ → ℕ
reach zero = 1
reach (suc f) = 10 * reach f

abbrev pub NoLeadingZero : List ℕ → Type 0
NoLeadingZero [] = Unit
NoLeadingZero (d ∷ ds) = d ≢ b'0'

digits-value :
    (f : ℕ) (ds : List ℕ) (n : ℕ)
    → n < reach f
    → 0 < f
    → decimal_value 0 (decimal_digits f ds n) ≡ decimal_value n ds
unfolding decimal_digits decimal_value
digits-value zero ds n lt h = absurd (omega arith)
digits-value (suc zero) ds n lt h =
    let t : (n / 10 == 0) ≡ true = ground arith in rw t (ap (λ k. decimal_value k ds) (omega arith))
digits-value (suc (suc f)) ds n lt h = elim (Bool-cases (n / 10 == 0)) [
  | inl t ↦ rw t (ap (λ k. decimal_value k ds) (ground arith))
  | inr t ↦ rw t (
      digits-value (suc f) ((b'0' + n % 10) ∷ ds) (n / 10) (omega arith) (omega arith)
      ∙ unfold decimal_value in ap (λ k. decimal_value k ds) (omega arith))
]

digits-AllDigits : (f : ℕ) (ds : List ℕ) (n : ℕ) → AllDigits ds → AllDigits (decimal_digits f ds n)
unfolding decimal_digits
digits-AllDigits zero ds n h = h
digits-AllDigits (suc f) ds n h = elim (Bool-cases (n / 10 == 0)) [
  | inl t ↦ rw t (omega arith, omega arith, h)
  | inr t ↦ rw t (digits-AllDigits f ((b'0' + n % 10) ∷ ds) (n / 10) (omega arith, omega arith, h))
]

digits-head :
    (f : ℕ) (ds : List ℕ) (n : ℕ) → n < reach f → 0 < n → NoLeadingZero (decimal_digits f ds n)
unfolding decimal_digits
digits-head zero ds n lt h = absurd (omega arith)
digits-head (suc f) ds n lt h = elim (Bool-cases (n / 10 == 0)) [
  | inl t ↦ rw t (ground arith)
  | inr t ↦ rw t (digits-head f ((b'0' + n % 10) ∷ ds) (n / 10) (omega arith) (ground arith))
]

digits-zero : decimal_digits 11 [] 0 ≡ b'0' ∷ []
unfolding decimal_digits
digits-zero = refl

-- The digits of every 32-bit magnitude fit the array of eleven places, are decimal digits that stand
-- for the magnitude, and have no leading zero unless the magnitude is zero, whose digits are the one
-- digit 0.
pub decimal_digits_lem :
    (n : ℕ)
    → n < 2 ^ 32
    → (decimal_value 0 (decimal_digits 11 [] n) ≡ n)
      × AllDigits (decimal_digits 11 [] n)
      × (0 < n → NoLeadingZero (decimal_digits 11 [] n))
      × (n ≡ 0 → decimal_digits 11 [] n ≡ b'0' ∷ [])
unfolding decimal_value
decimal_digits_lem n lt = (
  digits-value 11 [] n (omega arith) (omega arith),
  digits-AllDigits 11 [] n tt,
  λ h. digits-head 11 [] n (omega arith) h,
  λ e. rw e digits-zero,
)
