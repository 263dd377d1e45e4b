-- ===== src/Minilibc/Token.antt =====
-- is_delimiter and strtok_r of src/vita/common/minilibc.c. A pointer is an `Option ℕ`, `none` for
-- NULL, and `*state` is passed in and out.
pub mod Laws
use adr_bubble_booter_oss.Prelude.{
  ℕ, zero, suc, ◌+◌, Bool, true, false, ◌&&◌, not, Option, none, some, ◌==◌, if◌then◌else◌,
}
use adr_bubble_booter_oss.Memory.{Mem, store}

pub is_delimiter : ℕ → Mem → ℕ → ℕ → Option Bool
is_delimiter zero m character delimiters = none
is_delimiter (suc fuel) m character delimiters =
    let rest = is_delimiter fuel m character (delimiters + 1) in
    if m delimiters == 0 then some false else if character == m delimiters then some true else rest

-- `while (*cursor != '\0' && is_delimiter(*cursor, delimiters) == wanted) ++cursor;`: the first
-- loop of strtok_r wants delimiters and the second wants none. `limit` is the fuel of is_delimiter.
pub skip_while : ℕ → ℕ → Bool → Mem → ℕ → ℕ → Option ℕ
skip_while zero limit wanted m cursor delimiters = none
skip_while (suc fuel) limit wanted m cursor delimiters =
    let rest = skip_while fuel limit wanted m (cursor + 1) delimiters in
    if m cursor == 0 then some cursor else elim (is_delimiter limit m (m cursor) delimiters) [
      | none ↦ none
      | some found ↦ if (if wanted then found else not found) then rest else some cursor
    ]

-- the value returned, `*state`, and the memory
abbrev pub Token : Type 0
Token = Option ℕ × Option ℕ × Mem

-- behind the token: end it with a zero byte unless the text ends here
pub end_token : Mem → ℕ → ℕ → Token
end_token m token cursor =
    if m cursor == 0
    then (some token, none, m)
    else (some token, some (cursor + 1), store m cursor 0)

pub strtok_at : ℕ → Mem → ℕ → ℕ → Option Token
unfolding skip_while end_token is_delimiter
strtok_at fuel m cursor delimiters = elim (skip_while fuel fuel true m cursor delimiters) [
  | none ↦ none
  | some token ↦
      if m token == 0
      then some (none, none, m)
      else elim (skip_while fuel fuel false m token delimiters) [
        | none ↦ none
        | some end ↦ some (end_token m token end)
      ]
]

pub strtok_r : ℕ → Mem → Option ℕ → ℕ → Option ℕ → Option Token
unfolding strtok_at
strtok_r fuel m (some text) delimiters state = strtok_at fuel m text delimiters
strtok_r fuel m none delimiters (some cursor) = strtok_at fuel m cursor delimiters
strtok_r fuel m none delimiters none = some (none, none, m)
