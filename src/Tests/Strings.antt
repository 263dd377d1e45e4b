-- ===== src/Tests/Strings.antt =====
-- The C library of src/vita/common/minilibc.c at concrete inputs.
use adr_bubble_booter_oss.Prelude.{
  ℕ, if◌then◌else◌, leb, ◌&&◌, ◌+◌, ◌<◌, ◌≡◌, refl, arith, [], ◌∷◌, ◌++◌, ℤ, pos, negsuc, Option,
  none, some, ◌↔◌, inr, get_or,
}
use adr_bubble_booter_oss.Memory.{Mem, StrAt, AgreeOff}
use adr_bubble_booter_oss.Minilibc.Block.{memcpy}
use adr_bubble_booter_oss.Minilibc.Block.Laws.{memcpy_lem}
use adr_bubble_booter_oss.Minilibc.Strings
use adr_bubble_booter_oss.Minilibc.Strings.{
  strlen, strcpy, strncpy, strcmp, strncmp, strcasecmp, strchr, fold_case,
}
use adr_bubble_booter_oss.Minilibc.Strings.Length.{strlen_lem}
use adr_bubble_booter_oss.Minilibc.Strings.Copy.{strcpy_lem, strncpy_lem}
use adr_bubble_booter_oss.Minilibc.Strings.Compare.{
  compare_bytes, strcmp_iff, strncmp_lem, strcasecmp_lem,
}
use adr_bubble_booter_oss.Minilibc.Strings.Search.{first_at, last_at, strchr_lem, strrchr_lem}
use adr_bubble_booter_oss.Minilibc.Token.{Token, strtok_r}
use adr_bubble_booter_oss.Minilibc.Token.Laws.{Tokenized, strtok_r_lem}
use adr_bubble_booter_oss.Minilibc.Format.{int, format, next_piece, count, decimal_digits}
use adr_bubble_booter_oss.Minilibc.Format.Render.{Renders, done, piece, Formatted, format-Formatted}
use adr_bubble_booter_oss.Minilibc.Format.Render.Decimal.{
  decimal_value, AllDigits, NoLeadingZero, decimal_digits_lem,
}
use adr_bubble_booter_oss.Text
use adr_bubble_booter_oss.Text.{codes}
use adr_bubble_booter_oss.Text.Link.{PointsTo, strrchr-PointsTo}

-- "ABA" at 0 and "BA" at 8
abbrev memory : Mem
memory p = get_or (codes "ABA" ++ (0 ∷ 0 ∷ 0 ∷ 0 ∷ 0 ∷ codes "BA")) p 0

memory-long : StrAt memory 0 (codes "ABA")
memory-long = (refl, omega arith, (refl, omega arith, (refl, omega arith, refl)))

memory-short : StrAt memory 8 (codes "BA")
memory-short = (refl, omega arith, (refl, omega arith, refl))

memcpy_lem_example :
    ((k : ℕ) → k < 2 → memcpy memory 20 8 2 (20 + k) ≡ memory (8 + k))
    × AgreeOff memory (memcpy memory 20 8 2) 20 2
memcpy_lem_example = memcpy_lem memory 20 8 2 (inr (omega arith))

strcpy_lem_example :
    (m' : Mem) × (strcpy 4 memory 20 0 ≡ some m')
    × StrAt m' 20 (codes "ABA")
    × StrAt m' 0 (codes "ABA")
    × AgreeOff memory m' 20 4
strcpy_lem_example =
    strcpy_lem 4 memory 20 0 (codes "ABA") memory-long (omega arith) (inr (omega arith))

strncpy_lem_example :
    ((k : ℕ) → k < 5 → strncpy memory 20 0 5 (20 + k) ≡ get_or (codes "ABA") k 0)
    × AgreeOff memory (strncpy memory 20 0 5) 20 5
strncpy_lem_example = strncpy_lem 5 memory 20 0 (codes "ABA") memory-long (inr (omega arith))

strcmp_iff_example :
    (r : ℤ) × (strcmp 4 memory 0 8 ≡ some r) × ((r ≡ pos 0) ↔ (codes "ABA" ≡ codes "BA"))
strcmp_iff_example =
    strcmp_iff 4 memory 0 8 (codes "ABA") (codes "BA") memory-long memory-short (omega arith)

strlen_lem_example : strlen 4 memory 0 ≡ some 3
strlen_lem_example = strlen_lem 4 memory 0 (codes "ABA") memory-long (omega arith)

strncmp_lem_example : strncmp memory 1 8 2 ≡ pos 0
unfolding compare_bytes
strncmp_lem_example =
    strncmp_lem 2 memory 1 8 (codes "BA") (codes "BA")
      (refl, omega arith, (refl, omega arith, refl)) memory-short

strchr_lem_example : strchr 4 memory 0 b'A' ≡ some (some 0)
unfolding first_at
strchr_lem_example = strchr_lem 4 memory 0 b'A' (codes "ABA") memory-long (omega arith)

strcasecmp_lem_example : strcasecmp 4 memory 0 8 ≡ some (negsuc 0)
unfolding compare_bytes fold_case
strcasecmp_lem_example =
    strcasecmp_lem 4 memory 0 8 (codes "ABA") (codes "BA")
      (λ c. if leb b'A' c && leb c b'Z' then c + 32 else c) (λ c h k. ground arith)
      (λ c h. ground arith) memory-long memory-short (omega arith)

strrchr_lem_example : Strings.strrchr 4 memory 0 b'A' ≡ some (some 2)
unfolding last_at
strrchr_lem_example = strrchr_lem 4 memory 0 b'A' (codes "ABA") memory-long (omega arith)

strtok_r_lem_example :
    (t : Token) × (strtok_r 4 memory (some 0) 8 none ≡ some t)
    × Tokenized memory 0 (codes "BA") (codes "ABA") t
strtok_r_lem_example =
    strtok_r_lem 4 memory 0 8 (codes "ABA") (codes "BA") none memory-long memory-short (omega arith)
      (omega arith)

-- "x%02d" of 7
renders : Renders (codes "x%02d") (int (pos 7) ∷ []) (codes "x07")
unfolding next_piece count decimal_digits
renders = piece refl (piece refl done)

format-Formatted_example :
    (r : ℕ × Mem) × (format memory 20 3 (codes "x%02d") (int (pos 7) ∷ []) ≡ some r)
    × Formatted memory 20 3 (codes "x07") r
format-Formatted_example = format-Formatted memory 20 3 renders

decimal_digits_lem_example :
    (decimal_value 0 (decimal_digits 11 [] 4207) ≡ 4207)
    × AllDigits (decimal_digits 11 [] 4207)
    × (0 < 4207 → NoLeadingZero (decimal_digits 11 [] 4207))
    × (◌≡◌ {A = ℕ} 4207 0 → decimal_digits 11 [] 4207 ≡ b'0' ∷ [])
decimal_digits_lem_example = decimal_digits_lem 4207 (omega arith)

strrchr-PointsTo_example :
    (r : Option ℕ) × (Strings.strrchr 4 memory 0 b'A' ≡ some r)
    × PointsTo memory r (Text.strrchr (codes "ABA") b'A')
strrchr-PointsTo_example =
    strrchr-PointsTo 4 memory 0 b'A' (codes "ABA") memory-long (omega arith) (omega arith)
      (omega arith)

printed : Text.sprintf (codes "x%02d") (int (pos 7) ∷ []) ≡ some (codes "x07")
unfolding Text.sprintf count decimal_digits
printed = refl
