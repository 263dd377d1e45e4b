-- ===== src/Bootconv/Path.antt =====
-- The path in a converted boot.bin, as adrbubblebooter reads it.
use adr_bubble_booter_oss.Prelude.{
  ℕ, zero, suc, ◌<◌, ◌≤◌, ◌≡◌, refl, arith, List, ◌++◌, pos, some, length, take, take_all,
  append_assoc, length-append, ◌∙◌, ap, sym,
}
use adr_bubble_booter_oss.Text.{codes}
use adr_bubble_booter_oss.Bubble.{get_pspemu_root, location_of}
use adr_bubble_booter_oss.Bubble.Location.{Free, location_of-root}
use adr_bubble_booter_oss.Bubble.Texts.{length-root}
use adr_bubble_booter_oss.Bootconv.{get_device_prefix, converted_path}

prefix-root :
    (n : ℕ) → n < 5 → get_pspemu_root (pos n) ≡ get_device_prefix (pos n) ++ codes "pspemu"
unfolding get_pspemu_root get_device_prefix
prefix-root zero h = refl
prefix-root (suc zero) h = refl
prefix-root (suc (suc zero)) h = refl
prefix-root (suc (suc (suc zero))) h = refl
prefix-root (suc (suc (suc (suc zero)))) h = refl
prefix-root (suc (suc (suc (suc (suc n))))) h = absurd (omega arith)

-- The path that bootconv makes for location n (0 to 4) and a rest without a colon, of less than 240
-- bytes, is the root of that location and the rest, whole, and adrbubblebooter takes the location n
-- from it.
pub location_of-converted_path :
    (n : ℕ) (rest : List ℕ)
    → n < 5
    → Free b':' rest
    → length rest < 240
    → (converted_path (pos n) rest ≡ get_pspemu_root (pos n) ++ rest)
      × (location_of (converted_path (pos n) rest) ≡ some n)
unfolding converted_path
location_of-converted_path n rest lt free short =
    let e : get_pspemu_root (pos n) ++ rest
        ≡ get_device_prefix (pos n) ++ (codes "pspemu" ++ rest) =
      rw (prefix-root n lt) (append_assoc (get_device_prefix (pos n)) (codes "pspemu") rest) in
    let len : length (get_pspemu_root (pos n) ++ rest) ≤ 255 =
      omega (arith, length-root n, length-append (get_pspemu_root (pos n)) rest) in
    let whole : converted_path (pos n) rest ≡ get_pspemu_root (pos n) ++ rest =
      ap (take 255) (sym e) ∙ take_all (get_pspemu_root (pos n) ++ rest) 255 len in
    (whole, ap location_of whole ∙ location_of-root n rest lt free short)
