-- ===== src/Tests/Conversion.antt =====
-- src/vita/bootconv/main.c at concrete inputs.
use adr_bubble_booter_oss.Prelude.{
  ℕ, ◌≡◌, refl, arith, List, [], ◌∷◌, ◌++◌, ℤ, pos, some, take, true, false,
}
use adr_bubble_booter_oss.Text.{codes}
use adr_bubble_booter_oss.Minilibc.Strings.{fold_case}
use adr_bubble_booter_oss.Minilibc.Strings.Compare.{compare_bytes}
use adr_bubble_booter_oss.Bubble.{get_pspemu_root, location_of}
use adr_bubble_booter_oss.Bootconv.{
  converted_path, last_value, is_match, starts_with, after_first_equals,
}
use adr_bubble_booter_oss.Bootconv.Value.{last_value_lem}
use adr_bubble_booter_oss.Bootconv.Path.{location_of-converted_path}
use mathlib.Core.List.{map}

location_of-converted_path_example :
    (converted_path (pos 1) (codes "/g.iso") ≡ get_pspemu_root (pos 1) ++ codes "/g.iso")
    × (location_of (converted_path (pos 1) (codes "/g.iso")) ≡ some 1)
location_of-converted_path_example =
    location_of-converted_path 1 (codes "/g.iso") (omega arith)
      (omega arith, (omega arith, (omega arith, (omega arith, (omega arith, (omega arith, tt))))))
      (omega arith)

abbrev strncasecmp : List ℕ → List ℕ → ℕ → ℤ
strncasecmp left right n =
    compare_bytes (map fold_case (take n left)) (map fold_case (take n right))

matched : is_match strncasecmp (codes "Path=a") (codes "PATH") ≡ true
unfolding is_match starts_with compare_bytes fold_case
matched = refl

unmatched : is_match strncasecmp (codes "X=b") (codes "PATH") ≡ false
unfolding is_match starts_with compare_bytes fold_case
unmatched = refl

valued : after_first_equals (codes "Path=a") ≡ some (codes "a")
unfolding after_first_equals
valued = refl

last_value_lem_example :
    last_value strncasecmp
      (codes "PATH")
      ((codes "Path=a" ∷ []) ++ (codes "Path=a" ∷ (codes "X=b" ∷ [])))
      []
    ≡ some (codes "a")
last_value_lem_example =
    last_value_lem strncasecmp (codes "PATH") (codes "Path=a" ∷ []) (codes "X=b" ∷ [])
      (codes "Path=a") (codes "a") [] ((λ m. (codes "a", valued)), tt) matched valued
      (unmatched, tt)
