-- ===== src/Minilibc/Strings.antt =====
-- The string routines of src/vita/common/minilibc.c, and strcasecmp.c. Characters are bytes, as
-- the ARM ABI's unsigned `char`; an int result is a ℤ.
pub mod Length
pub mod Copy
pub mod Compare
pub mod Search
use mathlib.Core.Option
use adr_bubble_booter_oss.Prelude.{
  ℕ, zero, suc, ◌+◌, ◌-◌, ◌%◌, List, [], ◌∷◌, Bool, ◌&&◌, ◌||◌, not, Option, none, some, ◌==◌, leb,
  if◌then◌else◌, ℤ, pos, sub_ℕ,
}
use adr_bubble_booter_oss.Memory.{Mem, store}

-- `while (*end != '\0') ++end;`
pub scan_end : ℕ → Mem → ℕ → Option ℕ
scan_end zero m end = none
scan_end (suc fuel) m end =
    let rest = scan_end fuel m (end + 1) in if m end == 0 then some end else rest

pub strlen : ℕ → Mem → ℕ → Option ℕ
unfolding scan_end
strlen fuel m text = Option.map (λ end. end - text) (scan_end fuel m text)

-- the byte is tested after it is written, through the source pointer
pub strcpy : ℕ → Mem → ℕ → ℕ → Option Mem
strcpy zero m destination source = none
strcpy (suc fuel) m destination source =
    let m' = store m destination (m source) in
    let rest = strcpy fuel m' (destination + 1) (source + 1) in
    if m' source == 0 then some m' else rest

-- the second loop of strncpy
pub pad_zero : Mem → ℕ → ℕ → Mem
pad_zero m destination zero = m
pad_zero m destination (suc size) = pad_zero (store m destination 0) (destination + 1) size

pub strncpy : Mem → ℕ → ℕ → ℕ → Mem
strncpy m destination source zero = m
strncpy m destination source (suc size) =
    let rest = strncpy (store m destination (m source)) (destination + 1) (source + 1) size in
    if m source == 0 then pad_zero m destination (suc size) else rest

pub strcmp : ℕ → Mem → ℕ → ℕ → Option ℤ
strcmp zero m a b = none
strcmp (suc fuel) m a b =
    let rest = strcmp fuel m (a + 1) (b + 1) in
    if not (m a == 0) && m a == m b then rest else some (sub_ℕ (m a) (m b))

pub strncmp : Mem → ℕ → ℕ → ℕ → ℤ
strncmp m a b zero = pos 0
strncmp m a b (suc size) =
    let rest = strncmp m (a + 1) (b + 1) size in
    if m a == 0 || not (m a == m b) then sub_ℕ (m a) (m b) else rest

-- the inner option is the pointer returned, `none` for NULL
pub strchr : ℕ → Mem → ℕ → ℕ → Option (Option ℕ)
strchr zero m text character = none
strchr (suc fuel) m text character =
    let rest = strchr fuel m (text + 1) character in
    if m text == character % 256 then some (some text) else if m text == 0 then some none else rest

pub strrchr_from : ℕ → Mem → Option ℕ → ℕ → ℕ → Option (Option ℕ)
strrchr_from zero m found text target = none
strrchr_from (suc fuel) m found text target =
    let found' = if m text == target then some text else found in
    let rest = strrchr_from fuel m found' (text + 1) target in
    if m text == 0 then some found' else rest

pub strrchr : ℕ → Mem → ℕ → ℕ → Option (Option ℕ)
unfolding strrchr_from
strrchr fuel m text character = strrchr_from fuel m none text (character % 256)

-- the fold of strcasecmp: 'A' to 'Z' take 'a' - 'A' more
unfoldable pub fold_case : ℕ → ℕ
fold_case c = if leb b'A' c && leb c b'Z' then c + 32 else c

pub strcasecmp : ℕ → Mem → ℕ → ℕ → Option ℤ
unfolding fold_case
strcasecmp zero m a b = none
strcasecmp (suc fuel) m a b =
    let rest = strcasecmp fuel m (a + 1) (b + 1) in
    if not (fold_case (m a) == fold_case (m b)) || m b == 0
    then some (sub_ℕ (fold_case (m a)) (fold_case (m b)))
    else rest
