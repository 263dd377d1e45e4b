-- ===== src/Minilibc/Format.antt =====
-- The formatter of src/vita/common/minilibc.c: FormatOutput, emit_character, emit_string,
-- emit_decimal, format, and the entry points vsnprintf, snprintf and sprintf. The format string and
-- the `%s` arguments are the bytes before their zero byte; `Minilibc.Strings` is about finding those
-- in memory. A variable argument list is a list of `Arg`; a conversion with no argument left, or one
-- of the other kind, is undefined in C, and the result is `none`.
pub mod Render
use adr_bubble_booter_oss.Prelude.{
  ℕ, zero, suc, ◌+◌, ◌-◌, ◌*◌, ◌/◌, ◌%◌, ◌^◌, List, [], ◌∷◌, Bool, ◌&&◌, not, Option, none, some,
  ◌==◌, leb, ltb, if◌then◌else◌, ℤ, pos, negsuc,
}
use adr_bubble_booter_oss.Memory.{Mem, store}

pub data Arg : Type 0 where
  str : List ℕ → Arg
  int : ℤ → Arg

-- `struct FormatOutput`, and the memory that `buffer` points into.
pub record Output : Type 0 where
  pub memory : Mem
  pub buffer : ℕ
  pub capacity : ℕ
  pub written : ℕ

pub emit_character : Output → ℕ → Output
emit_character o character = record o {
  memory =
      if not (o.capacity == 0) && ltb (o.written + 1) o.capacity
      then store o.memory (o.buffer + o.written) character
      else o.memory;
  written = o.written + 1;
}

pub emit_string : Output → List ℕ → Output
unfolding emit_character
emit_string o [] = o
emit_string o (c ∷ text) = emit_string (emit_character o c) text

-- `do { digits[count++] = '0' + magnitude % 10u; magnitude /= 10u; } while (magnitude != 0);`
-- The array is the list, so that the digit stored last stands first. The fuel is its 11 places.
unfoldable pub decimal_digits : ℕ → List ℕ → ℕ → List ℕ
decimal_digits zero digits magnitude = digits
decimal_digits (suc fuel) digits magnitude =
    let digits' = (b'0' + magnitude % 10) ∷ digits in
    let rest = decimal_digits fuel digits' (magnitude / 10) in
    if magnitude / 10 == 0 then digits' else rest

-- `while (count < width) { emit_character(output, padding); --width; }`
pub emit_padding : Output → ℕ → ℕ → Output
unfolding emit_character
emit_padding o padding zero = o
emit_padding o padding (suc n) = emit_padding (emit_character o padding) padding n

unfoldable pub count : List ℕ → ℕ
count [] = 0
count (x ∷ xs) = suc (count xs)

-- `count < width` holds for width - count rounds; `--width` under the minus sign stops at zero.
pub emit_magnitude : Output → ℕ → ℕ → ℕ → Output
unfolding decimal_digits emit_padding emit_string count
emit_magnitude o magnitude width padding =
    let digits = decimal_digits 11 [] magnitude in
    emit_string (emit_padding o padding (width - count digits)) digits

-- `0u - (uint32_t)value` of a negative int is its absolute value
pub emit_decimal : Output → ℤ → ℕ → ℕ → Output
unfolding emit_magnitude emit_character
emit_decimal o (negsuc n) width padding =
    emit_magnitude (emit_character o b'-') (suc n) (width - 1) padding
emit_decimal o (pos n) width padding = emit_magnitude o n width padding

-- The digits of a width, and the format behind them. `width * 10u + digit` wraps at 32 bits.
unfoldable pub read_width : ℕ → List ℕ → ℕ × List ℕ
read_width width [] = (width, [])
read_width width (c ∷ fmt) =
    if leb b'0' c && leb c b'9'
    then read_width ((width * 10 + (c - b'0')) % 2 ^ 32) fmt
    else (width, c ∷ fmt)

-- the optional '0' flag: the padding, and the format behind it
unfoldable pub read_padding : List ℕ → ℕ × List ℕ
read_padding [] = (b' ', [])
read_padding (c ∷ fmt) = if c == b'0' then (b'0', fmt) else (b' ', c ∷ fmt)

-- What one turn of the loop of format emits: nothing, a character, a `%` and a character, or an
-- argument; or it takes an argument that is not there.
pub data Piece : Type 0 where
  nothing : Piece
  char : ℕ → Piece
  percent_char : ℕ → Piece
  string : List ℕ → Piece
  decimal : ℤ → ℕ → ℕ → Piece

-- `va_arg(arguments, const char *)` and `va_arg(arguments, int)`
unfoldable pub take_string : List Arg → Option (Piece × List Arg)
take_string (str text ∷ args) = some (string text, args)
take_string _ = none

unfoldable pub take_int : ℕ → ℕ → List Arg → Option (Piece × List Arg)
take_int width padding (int value ∷ args) = some (decimal value width padding, args)
take_int width padding _ = none

-- the conversion character behind flag and width
unfoldable pub convert : ℕ → ℕ → List ℕ → List Arg → Option (Piece × List ℕ × List Arg)
unfolding take_string take_int
convert width padding [] args = some (nothing, [], args)
convert width padding (c ∷ fmt) args =
    if c == b's'
    then elim (take_string args) [ none ↦ none | some (piece, left) ↦ some (piece, fmt, left) ]
    else if c == b'd'
    then elim (take_int width padding args) [
      | none ↦ none
      | some (piece, left) ↦ some (piece, fmt, left)
    ]
    else some (percent_char c, fmt, args)

-- behind a `%`
unfoldable pub read_conversion : List ℕ → List Arg → Option (Piece × List ℕ × List Arg)
unfolding convert read_padding read_width
read_conversion [] args = some (nothing, [], args)
read_conversion (c ∷ fmt) args =
    if c == b'%'
    then some (char c, fmt, args)
    else let (padding, behind) = read_padding (c ∷ fmt) in
      let (width, left) = read_width 0 behind in convert width padding left args

-- one turn of `while (*format_string != '\0')`, at a format that is not empty
unfoldable pub next_piece : ℕ → List ℕ → List Arg → Option (Piece × List ℕ × List Arg)
unfolding read_conversion
next_piece c fmt args = if c == b'%' then read_conversion fmt args else some (char c, fmt, args)

pub emit : Output → Piece → Output
unfolding emit_character emit_string emit_decimal
emit o nothing = o
emit o (char c) = emit_character o c
emit o (percent_char c) = emit_character (emit_character o b'%') c
emit o (string text) = emit_string o text
emit o (decimal value width padding) = emit_decimal o value width padding

-- the loop; every turn takes a byte of the format at least, so its length is enough fuel
pub format_loop : ℕ → Output → List ℕ → List Arg → Option Output
format_loop fuel o [] args = some o
format_loop zero o (c ∷ fmt) args = none
format_loop (suc fuel) o (c ∷ fmt) args = elim (next_piece c fmt args) [
  | none ↦ none
  | some (piece, left, args') ↦ format_loop fuel (emit o piece) left args'
]

-- `buffer[terminator] = '\0'` where capacity is not zero
pub terminate : Output → Mem
terminate o =
    if o.capacity == 0
    then o.memory
    else store o.memory
        (o.buffer + (if ltb o.written o.capacity then o.written else o.capacity - 1)) 0

-- format returns the length and leaves the memory. vsnprintf and snprintf call it as it is.
pub format : Mem → ℕ → ℕ → List ℕ → List Arg → Option (ℕ × Mem)
unfolding format_loop next_piece emit terminate count
format m buffer capacity fmt args =
    let o : Output = record { memory = m; buffer = buffer; capacity = capacity; written = 0 } in
    elim (format_loop (count fmt) o fmt args) [
      | none ↦ none
      | some o' ↦ some (o'.written, terminate o')
    ]

pub vsnprintf : Mem → ℕ → ℕ → List ℕ → List Arg → Option (ℕ × Mem)
vsnprintf = format

pub snprintf : Mem → ℕ → ℕ → List ℕ → List Arg → Option (ℕ × Mem)
snprintf = format

-- SIZE_MAX of a 32-bit size_t
pub sprintf : Mem → ℕ → List ℕ → List Arg → Option (ℕ × Mem)
sprintf m buffer = format m buffer (2 ^ 32 - 1)
