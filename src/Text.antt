-- ===== src/Text.antt =====
-- C strings as values: the bytes before the zero byte, none of them zero. The modules of the program
-- are written over these; Minilibc proves that the routines in memory compute them.
pub mod Link
pub mod Buffer
use Prim.Native.Char.{code}
use Prim.Native.String.{String}
use mathlib.Core.List.{map}
use adr_bubble_booter_oss.Prelude.{
  ℕ, zero, suc, ◌+◌, ◌≡◌, ◌≢◌, List, [], ◌∷◌, ◌++◌, Bool, Option, none, some, ◌==◌, if◌then◌else◌,
  length, drop, take, ℤ, pos, negsuc, eqb_ℤ, sub_ℕ, ltb, ◌-◌, ◌%◌, ◌^◌, leb, replicate,
}
use adr_bubble_booter_oss.Minilibc.Strings.{fold_case}
use adr_bubble_booter_oss.Minilibc.Strings.Compare.{compare_bytes}
use adr_bubble_booter_oss.Minilibc.Format.{Arg, Piece, next_piece}
use adr_bubble_booter_oss.Minilibc.Format.Render.{piece_text}

-- the bytes of a literal
abbrev pub codes : String → List ℕ
codes String.[] = []
codes (String.◌∷◌ c s) = code c ∷ codes s

-- `strcasecmp(s, t) == 0`
unfoldable pub equal_folded : List ℕ → List ℕ → Bool
unfolding compare_bytes fold_case
equal_folded s t = eqb_ℤ (compare_bytes (map fold_case s) (map fold_case t)) (pos 0)

-- strrchr for a byte that is not zero: the rest of the string from its last place on
unfoldable pub strrchr : List ℕ → ℕ → Option (List ℕ)
strrchr [] c = none
strrchr (x ∷ s) c = elim (strrchr s c) [
  | some t ↦ some t
  | none ↦ if x == c then some (x ∷ s) else none
]

-- the string in a buffer, if the buffer holds a zero byte
unfoldable pub c_string : List ℕ → Option (List ℕ)
c_string [] = none
c_string (x ∷ buffer) = elim (c_string buffer) [
  | none ↦ if x == 0 then some [] else none
  | some s ↦ if x == 0 then some [] else some (x ∷ s)
]

-- strncpy into a buffer of `size` bytes, as its new contents
unfoldable pub strncpy : ℕ → List ℕ → List ℕ
strncpy size s = take size s ++ replicate (size - length s) 0

-- what sprintf writes before the zero byte
unfoldable pub render : ℕ → List ℕ → List Arg → Option (List ℕ)
render fuel [] args = some []
render zero (c ∷ fmt) args = none
render (suc fuel) (c ∷ fmt) args = elim (next_piece c fmt args) [
  | none ↦ none
  | some (piece, left, args') ↦ elim (render fuel left args') [
    | none ↦ none
    | some s ↦ some (piece_text piece ++ s)
  ]
]

unfoldable pub sprintf : List ℕ → List Arg → Option (List ℕ)
unfolding render next_piece
sprintf fmt args = render (length fmt) fmt args

-- the cast of a wider integer to int, which wraps at 32 bits
unfoldable pub to_int32 : ℤ → ℤ
to_int32 (pos n) =
    if ltb (n % 2 ^ 32) (2 ^ 31) then pos (n % 2 ^ 32) else negsuc (2 ^ 32 - 1 - n % 2 ^ 32)
to_int32 (negsuc n) =
    if ltb (n % 2 ^ 32) (2 ^ 31) then negsuc (n % 2 ^ 32) else pos (2 ^ 32 - 1 - n % 2 ^ 32)
