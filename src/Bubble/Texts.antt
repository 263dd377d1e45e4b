-- ===== src/Bubble/Texts.antt =====
-- The paths that src/vita/adrbubblebooter/main.c builds, and how long they are.
use adr_bubble_booter_oss.Prelude.{
  ℕ, zero, suc, ◌+◌, ◌-◌, ◌<◌, ◌≤◌, ◌≡◌, refl, List, [], ◌∷◌, ◌++◌, length, arith, some,
  length-append, inl, inr, ℤ, pos, negsuc, ◌%◌, ◌/◌, replicate, length-replicate, Option-cases,
}
use adr_bubble_booter_oss.Minilibc.Format.{decimal_digits, count, str, int}
use adr_bubble_booter_oss.Minilibc.Format.Render.{magnitude_text, piece_text}
use adr_bubble_booter_oss.Minilibc.Format.{decimal}
use adr_bubble_booter_oss.Text.{codes, sprintf, c_string}
use adr_bubble_booter_oss.Vita.Files.{get_device_name, cut_at_colon}
use adr_bubble_booter_oss.Bubble.{location_of, clamp_location, get_ms_location, get_pspemu_root}

length-decimal_digits :
    (f : ℕ) (ds : List ℕ) (n : ℕ) → length (decimal_digits f ds n) ≤ length ds + f
unfolding decimal_digits
length-decimal_digits zero ds n = omega arith
length-decimal_digits (suc f) ds n =
    ground (arith, length-decimal_digits f ((b'0' + n % 10) ∷ ds) (n / 10))

length-magnitude_text :
    (n width padding : ℕ) → width ≤ 2 → length (magnitude_text n width padding) ≤ 13
length-magnitude_text n width padding h =
    let ds = decimal_digits 11 [] n in
    omega (
      arith,
      length-append (replicate (width - count ds) padding) ds,
      length-replicate (width - count ds) padding,
      length-decimal_digits 11 [] n,
    )

pub length-decimal : (value : ℤ) (padding : ℕ) → length (piece_text (decimal value 2 padding)) ≤ 14
length-decimal (pos n) padding = omega (arith, length-magnitude_text n 2 padding (omega arith))
length-decimal (negsuc n) padding =
    omega (arith, length-magnitude_text (suc n) 1 padding (omega arith))

-- the paths that the module builds
pub savestate_text :
    (root : List ℕ) (n : ℤ)
    → sprintf (codes "%s/PSP/SAVESTATE/STATE%02d.BIN") (str root ∷ int n ∷ [])
      ≡ some (
          root ++ (codes "/PSP/SAVESTATE/STATE" ++ (piece_text (decimal n 2 b'0') ++ codes ".BIN")))
unfolding sprintf
savestate_text root n = refl

pub boot_path_text :
    (id : List ℕ)
    → sprintf (codes "ux0:app/%s/data/boot.bin") (str id ∷ [])
      ≡ some (codes "ux0:app/" ++ (id ++ codes "/data/boot.bin"))
unfolding sprintf
boot_path_text id = refl

pub config_path_text :
    (id : List ℕ)
    → sprintf (codes "ux0:app/%s/data/config.bin") (str id ∷ [])
      ≡ some (codes "ux0:app/" ++ (id ++ codes "/data/config.bin"))
unfolding sprintf
config_path_text id = refl

pub length-root : (n : ℕ) → length (get_pspemu_root (pos n)) ≤ 11
unfolding get_pspemu_root
length-root n = ground arith

pub c_string-lt :
    (buffer : List ℕ) {s : List ℕ} → c_string buffer ≡ some s → length s < length buffer
unfolding c_string
c_string-lt [] h = cc
c_string-lt (x ∷ buffer) h = elim (Option-cases (c_string buffer)) [
  | inl e ↦ ground (arith, e)
  | inr (t, e) ↦ ground (arith, e, c_string-lt buffer e)
]

pub location_of_total : (path : List ℕ) → length path < 256 → (n : ℕ) × (location_of path ≡ some n)
unfolding location_of
location_of_total path lt =
    let e : get_device_name path ≡ some (some (cut_at_colon path)) =
      unfold get_device_name in ground arith in
    (clamp_location (get_ms_location (cut_at_colon path)), rw (location_of, e) refl)
