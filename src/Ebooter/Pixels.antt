-- ===== src/Ebooter/Pixels.antt =====
-- The pixels that printTextScreen draws.
use adr_bubble_booter_oss.Prelude.{
  ℕ, zero, suc, ◌+◌, ◌*◌, ◌≤◌, ◌<◌, ◌≡◌, refl, ap, ◌∙◌, arith, List, [], ◌∷◌, true, false, ltb,
  ◌==◌, Bool-cases, ◌⊎◌, inl, inr,
}
use adr_bubble_booter_oss.Memory.{Mem}
use adr_bubble_booter_oss.Ebooter.{
  Screen, fill, clear, pixel, draw_row, draw_rows, wrap_line, wrap_page, draw_glyph, place_char,
  print_text,
}

-- a row's pixels, and the others
draw_row-in :
    (n : ℕ) (s : Screen) (bits p : ℕ) (m : Mem) (j : ℕ)
    → j < n
    → draw_row n s bits p m (p + j) ≡ pixel s bits j
unfolding draw_row
draw_row-in zero s bits p m j lt = absurd (omega arith)
draw_row-in (suc n) s bits p m j lt = elim (Bool-cases (p + j == p + n)) [
  | inl e ↦
      let same : j ≡ n = ground arith in
      rw same (let r : (p + n == p + n) ≡ true = ground arith in rw r refl)
  | inr e ↦ rw e (draw_row-in n s bits p m j (ground arith))
]

pub draw_row-off :
    (n : ℕ) (s : Screen) (bits p : ℕ) (m : Mem) (q : ℕ)
    → (q < p) ⊎ (p + n ≤ q)
    → draw_row n s bits p m q ≡ m q
unfolding draw_row
draw_row-off zero s bits p m q off = refl
draw_row-off (suc n) s bits p m q off =
    let ne : (q == p + n) ≡ false = ground arith in
    rw ne (draw_row-off n s bits p m q (ground arith))

-- a glyph's pixels, and those of another column of the screen
pub draw_rows-in :
    (n : ℕ) (s : Screen) (font : ℕ → ℕ) (p : ℕ) (m : Mem) (i j : ℕ)
    → i < n
    → j < 8
    → draw_rows n s font p m (p + i * 960 + j) ≡ pixel s (font i) j
unfolding draw_rows
draw_rows-in zero s font p m i j lt lt' = absurd (omega arith)
draw_rows-in (suc n) s font p m i j lt lt' = elim (Bool-cases (i == n)) [
  | inl e ↦
      let same : i ≡ n = ground arith in
      rw same (draw_row-in 8 s (font n) (p + n * 960) (draw_rows n s font p m) j lt')
  | inr e ↦
      let below : i < n = ground arith in
      draw_row-off 8 s (font n) (p + n * 960) (draw_rows n s font p m) (p + i * 960 + j)
        (inl (omega arith))
      ∙ draw_rows-in n s font p m i j below lt'
]

draw_rows-off :
    (n : ℕ) (s : Screen) (font : ℕ → ℕ) (p : ℕ) (m : Mem) (q : ℕ)
    → p + n * 960 ≤ q + 952
    → draw_rows n s font p m q ≡ m q
unfolding draw_rows
draw_rows-off zero s font p m q off = refl
draw_rows-off (suc n) s font p m q off =
    draw_row-off 8 s (font n) (p + n * 960) (draw_rows n s font p m) q (inr (omega arith))
    ∙ draw_rows-off n s font p m q (omega arith)

fill-off : (n color : ℕ) (m : Mem) (q : ℕ) → n ≤ q → fill n color m q ≡ m q
unfolding fill
fill-off zero color m q le = refl
fill-off (suc n) color m q le =
    let ne : (q == n) ≡ false = ground arith in rw ne (fill-off n color m q (omega arith))

-- Behind the last pixel of the screen nothing has changed.
abbrev pub AgreeBehind : Screen → Screen → Type 0
AgreeBehind s s' = (q : ℕ) → 960 * 544 ≤ q → s'.vram q ≡ s.vram q

abbrev pub Fits : Screen → Type 0
Fits s = (s.x + 8 ≤ 960) × (s.y + 8 ≤ 544)

clear-Fits : (color : ℕ) (s : Screen) → Fits (clear color s)
unfolding clear
clear-Fits color s = (omega arith, omega arith)

clear-AgreeBehind : (color : ℕ) (s : Screen) → AgreeBehind s (clear color s)
unfolding clear
clear-AgreeBehind color s q le = fill-off (960 * 544) color s.vram q le

wrap_page-Fits : (s : Screen) → s.x + 8 ≤ 960 → Fits (wrap_page s) × AgreeBehind s (wrap_page s)
unfolding wrap_page
wrap_page-Fits s le = elim (Bool-cases (ltb 544 (s.y + 8))) [
  | inl b ↦
      rw (wrap_page, b)
        (clear-Fits s.bg (record s { y = 0 }), clear-AgreeBehind s.bg (record s { y = 0 }))
  | inr b ↦ rw (wrap_page, b) ((le, ground arith), λ q le. refl)
]

wrap_line-within : (s : Screen) → (wrap_line s).x + 8 ≤ 960
unfolding wrap_line
wrap_line-within s = elim (Bool-cases (ltb 960 (s.x + 8))) [
  | inl a ↦ rw (wrap_line, a) (omega arith)
  | inr a ↦ rw (wrap_line, a) (ground arith)
]

vram-wrap_line : (s : Screen) → (wrap_line s).vram ≡ s.vram
unfolding wrap_line
vram-wrap_line s = elim (Bool-cases (ltb 960 (s.x + 8))) [
  | inl a ↦ rw (wrap_line, a) refl
  | inr a ↦ rw (wrap_line, a) refl
]

draw_glyph-AgreeBehind :
    (msx : ℕ → ℕ) (ch : ℕ) (s : Screen) → Fits s → AgreeBehind s (draw_glyph msx ch s)
unfolding draw_glyph
draw_glyph-AgreeBehind msx ch s (column, row) q le =
    draw_rows-off 8 s (λ i. msx (ch * 8 + i)) (s.x + s.y * 960) s.vram q (omega arith)

place_char-AgreeBehind :
    (msx : ℕ → ℕ) (ch : ℕ) (s : Screen) → Fits s → AgreeBehind s (place_char msx ch s)
unfolding place_char
place_char-AgreeBehind msx ch s fits = elim (Bool-cases (ch == b'\n')) [
  | inl n ↦ rw (place_char, n) (λ q le. refl)
  | inr n ↦ elim (Bool-cases (ch == b'\r')) [
    | inl r ↦ rw (place_char, n, r) (λ q le. refl)
    | inr r ↦ rw (place_char, n, r) (draw_glyph-AgreeBehind msx ch s fits)
  ]
]

-- printTextScreen of any text, wherever on the screen or behind its ends the cursor stands (its
-- coordinates not negative) and whatever the glyphs are, changes nothing behind the 960 * 544 pixels
-- of the screen.
pub print_text-inside :
    (msx : ℕ → ℕ) (text : List ℕ) (s : Screen) → AgreeBehind s (print_text msx text s)
unfolding print_text
print_text-inside msx [] s q le = refl
print_text-inside msx (ch ∷ text) s q le =
    let (fits, kept) = wrap_page-Fits (wrap_line s) (wrap_line-within s) in
    let page = wrap_page (wrap_line s) in
    print_text-inside msx text (place_char msx ch page) q le
    ∙ place_char-AgreeBehind msx ch page fits q le
    ∙ kept q le
    ∙ ap (λ (m : Mem). m q) (vram-wrap_line s)
