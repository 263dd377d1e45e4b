-- ===== src/Minilibc/Format/Render.antt =====
-- The formatter of src/vita/common/minilibc.c against the text that a format and its arguments mean.
pub mod Decimal
use adr_bubble_booter_oss.Prelude.{
  ℕ, zero, suc, ◌+◌, ◌-◌, ◌*◌, ◌%◌, ◌^◌, ◌≤◌, ◌<◌, ◌≡◌, ◌≢◌, refl, arith, List, [], ◌∷◌, ◌++◌,
  append-nil, append_assoc, Bool, true, false, not, ◌&&◌, ◌==◌, leb, ltb, Option, none, some,
  length, length-append, replicate, get_or, ◌⊎◌, inl, inr, if◌then◌else◌, ◌∙◌, ap, sym, subst, ℤ,
  pos, negsuc, Bool-cases, min, ◌/◌,
}
use adr_bubble_booter_oss.Memory.{Mem, store, AgreeOff}
use adr_bubble_booter_oss.Minilibc.Format.{
  Arg, Output, emit_character, emit_string, emit_padding, emit_magnitude, emit_decimal,
  decimal_digits, count, Piece, nothing, char, percent_char, string, decimal, next_piece, emit,
  format_loop, terminate, format, convert, read_conversion, read_padding, read_width, take_string,
  take_int,
}

abbrev pub magnitude_text : ℕ → ℕ → ℕ → List ℕ
magnitude_text n width padding =
    let digits = decimal_digits 11 [] n in replicate (width - count digits) padding ++ digits

-- what a piece adds to the text
abbrev pub piece_text : Piece → List ℕ
piece_text nothing = []
piece_text (char c) = c ∷ []
piece_text (percent_char c) = b'%' ∷ c ∷ []
piece_text (string text) = text
piece_text (decimal (pos n) width padding) = magnitude_text n width padding
piece_text (decimal (negsuc n) width padding) = b'-' ∷ magnitude_text (suc n) (width - 1) padding

-- The text of a format with its arguments: the texts of its pieces in order.
pub data Renders : List ℕ → List Arg → List ℕ → Type 0 where
  done : {args : List Arg} → Renders [] args []
  piece :
      {c : ℕ} {fmt : List ℕ} {args : List Arg} {p : Piece} {left : List ℕ} {args' : List Arg}
      {s : List ℕ}
      → next_piece c fmt args ≡ some (p, left, args')
      → Renders left args' s
      → Renders (c ∷ fmt) args (piece_text p ++ s)

emit_string-append :
    (o : Output) (s t : List ℕ) → emit_string (emit_string o s) t ≡ emit_string o (s ++ t)
unfolding emit_string
emit_string-append o [] t = refl
emit_string-append o (c ∷ s) t = emit_string-append (emit_character o c) s t

emit_padding-replicate :
    (o : Output) (padding n : ℕ) → emit_padding o padding n ≡ emit_string o (replicate n padding)
unfolding emit_padding emit_string
emit_padding-replicate o p zero = refl
emit_padding-replicate o p (suc n) = emit_padding-replicate (emit_character o p) p n

emit_magnitude-text :
    (o : Output) (n width padding : ℕ)
    → emit_magnitude o n width padding ≡ emit_string o (magnitude_text n width padding)
unfolding emit_magnitude
emit_magnitude-text o n w p =
    let digits = decimal_digits 11 [] n in
    rw emit_padding-replicate (emit_string-append o (replicate (w - count digits) p) digits)

emit-text : (o : Output) (p : Piece) → emit o p ≡ emit_string o (piece_text p)
unfolding emit emit_decimal emit_string
emit-text o nothing = refl
emit-text o (char c) = refl
emit-text o (percent_char c) = refl
emit-text o (string text) = refl
emit-text o (decimal (pos n) w p) = emit_magnitude-text o n w p
emit-text o (decimal (negsuc n) w p) = emit_magnitude-text (emit_character o b'-') (suc n) (w - 1) p

-- A turn of the loop takes a byte of the format at least.
read_width-le : (w : ℕ) (fmt : List ℕ) → length (read_width w fmt).1 ≤ length fmt
unfolding read_width
read_width-le w [] = omega arith
read_width-le w (c ∷ fmt) = ground (arith, read_width-le ((w * 10 + (c - b'0')) % 2 ^ 32) fmt)

read_padding-le : (fmt : List ℕ) → length (read_padding fmt).1 ≤ length fmt
unfolding read_padding
read_padding-le [] = omega arith
read_padding-le (c ∷ fmt) = ground arith

convert-le :
    (w p : ℕ) (fmt : List ℕ) (args : List Arg) {r : Piece} {left : List ℕ} {args' : List Arg}
    → convert w p fmt args ≡ some (r, left, args')
    → length left ≤ length fmt
unfolding convert
convert-le w p [] args h = ground arith
convert-le w p (c ∷ fmt) args h = ground arith

next_piece-le :
    (c : ℕ) (fmt : List ℕ) (args : List Arg) {r : Piece} {left : List ℕ} {args' : List Arg}
    → next_piece c fmt args ≡ some (r, left, args')
    → length left ≤ length fmt
unfolding next_piece read_conversion
next_piece-le c [] args h = ground arith
next_piece-le c (d ∷ fmt) args h =
    let (padding, behind) = read_padding (d ∷ fmt) in
    let (width, left) = read_width 0 behind in
    ground
      (arith, read_padding-le (d ∷ fmt), read_width-le 0 behind, convert-le width padding left args)

-- with fuel for the format, the loop emits the text
format_loop-Renders :
    (fuel : ℕ) (o : Output) {fmt : List ℕ} {args : List Arg} {s : List ℕ}
    → Renders fmt args s
    → length fmt ≤ fuel
    → format_loop fuel o fmt args ≡ some (emit_string o s)
unfolding format_loop
format_loop-Renders fuel o done le = unfold emit_string in refl
format_loop-Renders zero o (piece e r) le = absurd (omega arith)
format_loop-Renders (suc fuel) o (piece {c = c} {fmt = fmt} {args = args} {p = p} {s = s} e r) le =
    rw
      (
        e,
        format_loop,
        format_loop-Renders fuel (emit o p) r (omega (arith, next_piece-le c fmt args e)),
        emit-text o p,
        emit_string-append o (piece_text p) s,
      )
      refl

-- What emitting a text does to the buffer: the length always grows by the text's; a byte is stored
-- only where a place for the terminator is left behind it.
emit_string-fields :
    (o : Output) (s : List ℕ)
    → ((emit_string o s).written ≡ o.written + length s)
      × ((emit_string o s).capacity ≡ o.capacity)
      × ((emit_string o s).buffer ≡ o.buffer)
unfolding emit_string emit_character
emit_string-fields o [] = omega arith
emit_string-fields o (c ∷ s) = omega (arith, emit_string-fields (emit_character o c) s)

emit_string-frame :
    (o : Output) (s : List ℕ) (q : ℕ)
    → (q < o.buffer + o.written) ⊎ (o.buffer + o.capacity ≤ q + 1)
    → (emit_string o s).memory q ≡ o.memory q
unfolding emit_string emit_character
emit_string-frame o [] q h = refl
emit_string-frame o (c ∷ s) q h =
    emit_string-frame (emit_character o c) s q (omega arith) ∙ ground arith

emit_string-stores :
    (o : Output) (s : List ℕ) (k : ℕ)
    → k < length s
    → o.written + k + 1 < o.capacity
    → (emit_string o s).memory (o.buffer + (o.written + k)) ≡ get_or s k 0
unfolding emit_string
emit_string-stores o [] k lt h = absurd (omega arith)
emit_string-stores o (c ∷ s) zero lt h =
    unfold emit_character in
    (emit_string-frame (emit_character o c) s (o.buffer + (o.written + 0)) (omega arith)
      ∙ ground arith)
emit_string-stores o (c ∷ s) (suc k) lt h =
    unfold emit_character in
    (let e : o.written + suc k ≡ o.written + 1 + k = omega arith in
      rw e (emit_string-stores (emit_character o c) s k (omega arith) (omega arith)))

-- What snprintf leaves, for the text `s`: the length of the whole text is returned; the buffer holds
-- the text cut to capacity - 1 bytes and a zero byte; no byte outside the buffer changes.
pub record Formatted (m : Mem) (buffer capacity : ℕ) (s : List ℕ) (r : ℕ × Mem) : Type 0 where
  pub returns : r.0 ≡ length s
  pub holds : (k : ℕ) → k < length s → k + 1 < capacity → r.1 (buffer + k) ≡ get_or s k 0
  pub ends : 0 < capacity → r.1 (buffer + min (length s) (capacity - 1)) ≡ 0
  pub frame : AgreeOff m r.1 buffer capacity

terminate-frame :
    (o : Output) (q : ℕ)
    → (q ≢ o.buffer + min o.written (o.capacity - 1)) ⊎ (o.capacity ≡ 0)
    → terminate o q ≡ o.memory q
unfolding terminate
terminate-frame o q h = ground arith

terminate_self :
    (o : Output) → 0 < o.capacity → terminate o (o.buffer + min o.written (o.capacity - 1)) ≡ 0
unfolding terminate
terminate_self o h = ground arith

abbrev fresh : Mem → ℕ → ℕ → Output
fresh m buffer capacity = record { memory = m; buffer = buffer; capacity = capacity; written = 0 }

emitted-Formatted :
    (m : Mem) (buffer capacity : ℕ) (s : List ℕ)
    → let o = emit_string (fresh m buffer capacity) s in
      Formatted m buffer capacity s (o.written, terminate o)
emitted-Formatted m b size s =
    let o = fresh m b size in
    let o' = emit_string o s in
    let f = emit_string-fields o s in
    record {
      returns = omega arith;
      holds = λ k lt h.
          let e : b + (0 + k) ≡ b + k = omega arith in
          terminate-frame o' (b + k) (omega arith)
          ∙ rw e at (emit_string-stores o s k lt (omega arith));
      ends = λ h.
          let e : o'.buffer + min o'.written (o'.capacity - 1) ≡ b + min (length s) (size - 1) =
            omega arith in
          subst (λ q. terminate o' q ≡ 0) e (terminate_self o' (omega arith));
      frame = λ q h. terminate-frame o' q (omega arith) ∙ emit_string-frame o s q (omega arith);
    }

count-length : (s : List ℕ) → length s ≤ count s
unfolding count
count-length [] = omega arith
count-length (c ∷ s) = omega (arith, count-length s)

-- snprintf returns for every format whose conversions find their arguments, and does what Formatted
-- says with the text: truncation, termination and the returned length of the whole text.
pub format-Formatted :
    (m : Mem) (buffer capacity : ℕ) {fmt : List ℕ} {args : List Arg} {s : List ℕ}
    → Renders fmt args s
    → (r : ℕ × Mem) × (format m buffer capacity fmt args ≡ some r) × Formatted m buffer capacity s r
unfolding format
format-Formatted m b size {fmt} {args} {s} h =
    let o = emit_string (fresh m b size) s in
    (
      (o.written, terminate o),
      rw (format_loop-Renders (count fmt) (fresh m b size) h (count-length fmt), format) refl,
      emitted-Formatted m b size s,
    )
