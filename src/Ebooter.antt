-- ===== src/Ebooter.antt =====
-- src/vita/ebooter/graphics.c and main.c: the text screen, and the checks before a bubble starts. The glyphs
-- of src/vita/ebooter/font.c and the system's calls are parameters. The mutex and the kernel's buffer
-- around the pixels are not modelled: a screen is its pixels, counted from the base of the buffer.
pub mod Pixels
pub mod Line
use adr_bubble_booter_oss.Prelude.{
  ℕ, zero, suc, ◌+◌, ◌*◌, ◌-◌, ◌/◌, ◌%◌, ◌^◌, ◌++◌, List, [], ◌∷◌, ℤ, pos, is_neg, eqb_ℤ, Bool,
  true, false, not, ◌==◌, ltb, Option, none, some, if◌then◌else◌,
}
use adr_bubble_booter_oss.Memory.{Mem, store}
use adr_bubble_booter_oss.Text.{codes}

-- The cursor starts at zero, and printing keeps its coordinates from being negative; they are ints only
-- for psvDebugScreenSetXY, which nothing calls.
pub record Screen : Type 0 where
  pub x : ℕ
  pub y : ℕ
  pub fg : ℕ
  pub bg : ℕ
  pub vram : Mem

-- `for (i = 0; i < n; i++) pixel++->rgba = color`
unfoldable pub fill : ℕ → ℕ → Mem → Mem
fill zero color m = m
fill (suc n) color m = store (fill n color m) n color

unfoldable pub clear : ℕ → Screen → Screen
clear color s = record s { x = 0; y = 0; vram = fill (960 * 544) color s.vram }

-- `font & (128 >> j)`, for j below 8
unfoldable pub pixel : Screen → ℕ → ℕ → ℕ
pixel s bits j = if bits / 2 ^ (7 - j) % 2 == 1 then s.fg else s.bg

-- the first `n` pixels of a row of a glyph, from `p` on
unfoldable pub draw_row : ℕ → Screen → ℕ → ℕ → Mem → Mem
unfolding pixel
draw_row zero s bits p m = m
draw_row (suc j) s bits p m = store (draw_row j s bits p m) (p + j) (pixel s bits j)

-- the first `n` rows of a glyph whose bytes are `font 0`, `font 1` and so on
unfoldable pub draw_rows : ℕ → Screen → (ℕ → ℕ) → ℕ → Mem → Mem
unfolding draw_row
draw_rows zero s font p m = m
draw_rows (suc i) s font p m = draw_row 8 s (font i) (p + i * 960) (draw_rows i s font p m)

unfoldable pub wrap_line : Screen → Screen
wrap_line s = if ltb 960 (s.x + 8) then record s { x = 0; y = s.y + 8 } else s

unfoldable pub wrap_page : Screen → Screen
wrap_page s = if ltb 544 (s.y + 8) then clear s.bg (record s { y = 0 }) else s

module _ (msx : ℕ → ℕ) where
  -- a char is unsigned on ARM: the array holds the glyphs of all 256
  unfoldable pub draw_glyph : ℕ → Screen → Screen
  unfolding draw_rows
  draw_glyph ch s = record s {
    x = s.x + 8;
    vram = draw_rows 8 s (λ i. msx (ch * 8 + i)) (s.x + s.y * 960) s.vram;
  }

  unfoldable pub place_char : ℕ → Screen → Screen
  unfolding draw_glyph
  place_char ch s =
      if ch == b'\n'
      then record s { x = 0; y = s.y + 8 }
      else if ch == b'\r'
      then record s { x = 0 }
      else draw_glyph ch s

  unfoldable pub print_text : List ℕ → Screen → Screen
  unfolding wrap_line wrap_page place_char
  print_text [] s = s
  print_text (ch ∷ text) s = print_text text (place_char ch (wrap_page (wrap_line s)))

-- the prerequisites of main, and what it does when one is missing: it prints and never returns
pub data Outcome : Type 0 where
  returned : Outcome
  stopped : List ℕ → Outcome

pub record System : Type 1 where
  pub World : Type 0
  -- sceIoDevctl("ux0:", 0x3001), and the result of it where unsafe homebrew is off
  pub io_devctl : World → ℤ × World
  pub safe_mode : ℤ
  pub io_getstat : List ℕ → World → ℤ × World
  pub load_start_module : List ℕ → World → ℤ × World

abbrev pub eboot_bin : List ℕ
eboot_bin = codes "ux0:app/PSPEMUCFW/eboot.bin"

abbrev pub eboot_pbp : List ℕ
eboot_pbp = codes "ux0:app/PSPEMUCFW/eboot.pbp"

abbrev pub kernel_module : List ℕ
kernel_module = codes "ux0:app/PSPEMUCFW/sce_module/adrenaline_kernel.skprx"

abbrev pub unsafe_message : List ℕ
unsafe_message = codes "Please enable unsafe homebrew first before using this software."

abbrev pub absent_message : List ℕ
absent_message =
    codes "Adrenaline has not been installed yet."
    ++ (b'\r'
        ∷ b'\n'
        ∷ b'\n'
        ∷ codes "In order to use AdrBubbleBooter you need to install Adrenaline first.")

abbrev pub kernel_message : List ℕ
kernel_message =
    codes
      "Could not load adrenaline_kernel.skprx. Please reboot or use the AdrBubbleBooterInstaller."

-- Adrenaline's eboot, the second name asked for only without the first
unfoldable pub is_installed : (h : System) → h.World → Bool × h.World
is_installed h w =
    let (bin, w₁) = h.io_getstat eboot_bin w in
    let (pbp, w₂) = h.io_getstat eboot_pbp w₁ in
    if is_neg bin then (not (is_neg pbp), w₂) else (true, w₁)

unfoldable pub main : (h : System) → h.World → Outcome × h.World
unfolding is_installed
main h w =
    let (safe, w₁) = h.io_devctl w in
    let (installed, w₂) = is_installed h w₁ in
    let (res, w₃) = h.load_start_module kernel_module w₂ in
    if eqb_ℤ safe h.safe_mode
    then (stopped unsafe_message, w₁)
    else if not installed
    then (stopped absent_message, w₂)
    else if is_neg res
    then (stopped kernel_message, w₃)
    else (returned, w₃)
