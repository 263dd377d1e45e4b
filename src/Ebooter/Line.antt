-- ===== src/Ebooter/Line.antt =====
-- A line of text that printTextScreen draws.
use adr_bubble_booter_oss.Prelude.{
  ℕ, zero, suc, ◌+◌, ◌*◌, ◌-◌, ◌/◌, ◌%◌, ◌^◌, ◌≤◌, ◌<◌, ◌≡◌, ◌≢◌, refl, ap, ◌∙◌, arith, List, [],
  ◌∷◌, false, ltb, ◌==◌, ◌⊎◌, inl, inr, length, get_or, if◌then◌else◌,
}
use native.Mathlib.Decide.{dec_lt}
use adr_bubble_booter_oss.Memory.{Mem}
use adr_bubble_booter_oss.Ebooter.{
  Screen, pixel, draw_rows, wrap_line, wrap_page, draw_glyph, place_char, print_text,
}
use adr_bubble_booter_oss.Ebooter.Pixels.{draw_row-off, draw_rows-in}

-- bytes that are neither a line feed nor a carriage return
abbrev pub AllPlain : List ℕ → Type 0
AllPlain [] = Unit
AllPlain (ch ∷ text) = (ch ≢ b'\n') × (ch ≢ b'\r') × AllPlain text

-- a pixel that is in none of the rows
draw_rows-beside :
    (n : ℕ) (s : Screen) (font : ℕ → ℕ) (p : ℕ) (m : Mem) (q : ℕ)
    → ((i : ℕ) → i < n → (q < p + i * 960) ⊎ (p + i * 960 + 8 ≤ q))
    → draw_rows n s font p m q ≡ m q
unfolding draw_rows
draw_rows-beside zero s font p m q off = refl
draw_rows-beside (suc n) s font p m q off =
    draw_row-off 8 s (font n) (p + n * 960) (draw_rows n s font p m) q (off n (omega arith))
    ∙ draw_rows-beside n s font p m q (λ i lt. off i (omega arith))

-- The pixel of column `c` and row `r` is beside `n` columns from `x` on of the rows `y` to `y + 7`.
abbrev pub IsBeside : ℕ → ℕ → ℕ → ℕ → ℕ → Type 0
IsBeside x y n c r = ((c < x) ⊎ (x + n ≤ c)) ⊎ ((r < y) ⊎ (y + 8 ≤ r))

row_beside :
    (x y c r i : ℕ)
    → x + 8 ≤ 960
    → c < 960
    → i < 8
    → IsBeside x y 8 c r
    → (c + r * 960 < x + y * 960 + i * 960) ⊎ (x + y * 960 + i * 960 + 8 ≤ c + r * 960)
row_beside x y c r i fits lt h b = elim (dec_lt r (y + i)) [
  | yes above ↦ inl (omega arith)
  | no not_above ↦ elim (dec_lt (y + i) r) [
    | yes below ↦ inr (omega arith)
    | no not_below ↦ elim b [
      | inl (inl left) ↦ inl (omega arith)
      | inl (inr right) ↦ inr (omega arith)
      | inr (inl above) ↦ absurd (omega arith)
      | inr (inr below) ↦ absurd (omega arith)
    ]
  ]
]

IsBeside-tail : (x y n c r : ℕ) → IsBeside x y (8 * suc n) c r → IsBeside (x + 8) y (8 * n) c r
IsBeside-tail x y n c r (inl (inl a)) = inl (inl (omega arith))
IsBeside-tail x y n c r (inl (inr a)) = inl (inr (omega arith))
IsBeside-tail x y n c r (inr a) = inr a

IsBeside-head : (x y n c r : ℕ) → IsBeside x y (8 * suc n) c r → IsBeside x y 8 c r
IsBeside-head x y n c r (inl (inl a)) = inl (inl a)
IsBeside-head x y n c r (inl (inr a)) = inl (inr (omega arith))
IsBeside-head x y n c r (inr a) = inr a

module _ (msx : ℕ → ℕ) where
  draw_glyph-beside :
      (ch : ℕ) (s : Screen) (c r : ℕ)
      → s.x + 8 ≤ 960
      → c < 960
      → IsBeside s.x s.y 8 c r
      → (draw_glyph msx ch s).vram (c + r * 960) ≡ s.vram (c + r * 960)
  unfolding draw_glyph
  draw_glyph-beside ch s c r fits lt off =
      draw_rows-beside 8 s (λ i. msx (ch * 8 + i)) (s.x + s.y * 960) s.vram (c + r * 960)
        (λ i h. row_beside s.x s.y c r i fits lt h off)

  draw_glyph-shows :
      (ch : ℕ) (s : Screen) (i j : ℕ)
      → i < 8
      → j < 8
      → (draw_glyph msx ch s).vram (s.x + j + (s.y + i) * 960) ≡ pixel s (msx (ch * 8 + i)) j
  unfolding draw_glyph
  draw_glyph-shows ch s i j h k =
      ap (draw_glyph msx ch s).vram (omega arith)
      ∙ draw_rows-in 8 s (λ i. msx (ch * 8 + i)) (s.x + s.y * 960) s.vram i j h k

  -- a byte of the line, where the line fits
  step-glyph :
      (ch : ℕ) (text : List ℕ) (s : Screen)
      → ch ≢ b'\n'
      → ch ≢ b'\r'
      → s.x + 8 ≤ 960
      → s.y + 8 ≤ 544
      → print_text msx (ch ∷ text) s ≡ print_text msx text (draw_glyph msx ch s)
  unfolding print_text wrap_line wrap_page place_char
  step-glyph ch text s n r column row =
      let a : ltb 960 (s.x + 8) ≡ false = ground arith in
      let b : ltb 544 (s.y + 8) ≡ false = ground arith in
      let n' : (ch == b'\n') ≡ false = ground arith in
      let r' : (ch == b'\r') ≡ false = ground arith in
      rw (print_text, wrap_line, a, wrap_page, b, place_char, n', r') refl

  -- a line that fits leaves the pixels beside it
  print_text-beside :
      (text : List ℕ) (s : Screen) (c r : ℕ)
      → AllPlain text
      → s.x + 8 * length text ≤ 960
      → s.y + 8 ≤ 544
      → c < 960
      → IsBeside s.x s.y (8 * length text) c r
      → (print_text msx text s).vram (c + r * 960) ≡ s.vram (c + r * 960)
  unfolding print_text draw_glyph
  print_text-beside [] s c r plain column row lt off = refl
  print_text-beside (ch ∷ text) s c r (n, q, plain) column row lt off =
      let column' : s.x + 8 + 8 * length text ≤ 960 = omega arith in
      ap (λ (t : Screen). t.vram (c + r * 960)) (step-glyph ch text s n q (omega arith) row)
      ∙ print_text-beside text (draw_glyph msx ch s) c r plain column' row lt
          (IsBeside-tail s.x s.y (length text) c r off)
      ∙ draw_glyph-beside ch s c r (omega arith) lt (IsBeside-head s.x s.y (length text) c r off)

  print_text-shows :
      (text : List ℕ) (s : Screen) (k i j : ℕ)
      → AllPlain text
      → s.x + 8 * length text ≤ 960
      → s.y + 8 ≤ 544
      → k < length text
      → i < 8
      → j < 8
      → (print_text msx text s).vram (s.x + 8 * k + j + (s.y + i) * 960)
        ≡ pixel s (msx (get_or text k 0 * 8 + i)) j
  unfolding print_text draw_glyph pixel
  print_text-shows [] s k i j plain column row inside h h' = absurd (omega arith)
  print_text-shows (ch ∷ text) s zero i j (n, q, plain) column row inside h h' =
      let column' : s.x + 8 + 8 * length text ≤ 960 = omega arith in
      let first : s.x + 8 * 0 + j + (s.y + i) * 960 ≡ s.x + j + (s.y + i) * 960 = omega arith in
      let left : s.x + 8 * 0 + j < s.x + 8 = omega arith in
      ap (λ (t : Screen). t.vram (s.x + 8 * 0 + j + (s.y + i) * 960))
        (step-glyph ch text s n q (omega arith) row)
      ∙ print_text-beside text (draw_glyph msx ch s) (s.x + 8 * 0 + j) (s.y + i) plain column' row
          (omega arith) (inl (inl left))
      ∙ ap (draw_glyph msx ch s).vram first
      ∙ draw_glyph-shows ch s i j h h'
  print_text-shows (ch ∷ text) s (suc k) i j (n, q, plain) column row inside h h' =
      let column' : s.x + 8 + 8 * length text ≤ 960 = omega arith in
      let place : s.x + 8 * suc k + j + (s.y + i) * 960 ≡ s.x + 8 + 8 * k + j + (s.y + i) * 960 =
        omega arith in
      ap (λ (t : Screen). t.vram (s.x + 8 * suc k + j + (s.y + i) * 960))
        (step-glyph ch text s n q (omega arith) row)
      ∙ ap (print_text msx text (draw_glyph msx ch s)).vram place
      ∙ print_text-shows text (draw_glyph msx ch s) k i j plain column' row (omega arith) h h'

  cursor-print_text :
      (text : List ℕ) (s : Screen)
      → AllPlain text
      → s.x + 8 * length text ≤ 960
      → s.y + 8 ≤ 544
      → ((print_text msx text s).x ≡ s.x + 8 * length text) × ((print_text msx text s).y ≡ s.y)
  unfolding print_text draw_glyph
  cursor-print_text [] s plain column row = (omega arith, refl)
  cursor-print_text (ch ∷ text) s (n, q, plain) column row =
      let column' : s.x + 8 + 8 * length text ≤ 960 = omega arith in
      let step = step-glyph ch text s n q (omega arith) row in
      let (x_is, y_is) = cursor-print_text text (draw_glyph msx ch s) plain column' row in
      let place : s.x + 8 + 8 * length text ≡ s.x + 8 * suc (length text) = omega arith in
      (ap (λ (t : Screen). t.x) step ∙ x_is ∙ place, ap (λ (t : Screen). t.y) step ∙ y_is)

  -- A text without line feeds and carriage returns that fits behind the cursor on its line of the
  -- screen: printTextScreen draws its bytes one behind the other, each in 8 rows of 8 pixels, where
  -- pixel j of row i has the text colour if bit 7 - j of byte i of its glyph is set, and the
  -- background's otherwise; no other pixel of the screen changes; and the cursor stands behind the
  -- text.
  pub print_text-line :
      (text : List ℕ) (s : Screen)
      → AllPlain text
      → s.x + 8 * length text ≤ 960
      → s.y + 8 ≤ 544
      → ((k i j : ℕ)
          → k < length text
          → i < 8
          → j < 8
          → (print_text msx text s).vram (s.x + 8 * k + j + (s.y + i) * 960)
            ≡ (if msx (get_or text k 0 * 8 + i) / 2 ^ (7 - j) % 2 == 1 then s.fg else s.bg))
        × ((c r : ℕ)
            → c < 960
            → IsBeside s.x s.y (8 * length text) c r
            → (print_text msx text s).vram (c + r * 960) ≡ s.vram (c + r * 960))
        × ((print_text msx text s).x ≡ s.x + 8 * length text)
        × ((print_text msx text s).y ≡ s.y)
  unfolding pixel
  print_text-line text s plain column row = (
    λ k i j h h' h''. print_text-shows text s k i j plain column row h h' h'',
    λ c r h off. print_text-beside text s c r plain column row h off,
    (cursor-print_text text s plain column row).0,
    (cursor-print_text text s plain column row).1,
  )
