-- ===== src/Isofs/Names.antt =====
-- UmdNormalizeName and GetPathAndName of isofs_driver.c.
pub mod Laws
use adr_bubble_booter_oss.Prelude.{
  ℕ, zero, suc, ◌-◌, ◌+◌, List, [], ◌∷◌, ◌++◌, ℤ, pos, Bool, true, false, ◌&&◌, if◌then◌else◌, ltb,
  ◌==◌, length, drop, take, Option, none, some,
}
use adr_bubble_booter_oss.Text.{strrchr}
use adr_bubble_booter_oss.Isofs.{Errors, Run, done, fault}

-- a text with ";1" at its front
unfoldable pub version_follows : List ℕ → Bool
version_follows (c ∷ d ∷ s) = c == b';' && d == b'1'
version_follows _ = false

-- `p = strstr(filename, ";1"); if (p) *p = 0;`
unfoldable pub normalize_name : List ℕ → List ℕ
unfolding version_follows
normalize_name [] = []
normalize_name (c ∷ s) = if version_follows (c ∷ s) then [] else c ∷ normalize_name s

-- `if (s[strlen(s) - 1] == '/') s[strlen(s) - 1] = 0;`: of an empty string, the byte before it is read
unfoldable pub strip_slash : List ℕ → Option (List ℕ)
strip_slash [] = none
strip_slash (c ∷ []) = some (if c == b'/' then [] else c ∷ [])
strip_slash (c ∷ d ∷ s) = elim (strip_slash (d ∷ s)) [ none ↦ none | some t ↦ some (c ∷ t) ]

abbrev pub skip_root : List ℕ → List ℕ
skip_root [] = []
skip_root (c ∷ s) = if c == b'/' then s else c ∷ s

-- the path and the name, or an error
pub data Parts : Type 0 where
  too_long : Parts
  parts : List ℕ → List ℕ → Parts

-- behind the trailing slash
unfoldable pub split_path : List ℕ → Parts
unfolding strrchr normalize_name
split_path fullpath = elim (strrchr fullpath b'/') [
  | none ↦ if ltb 32 (length fullpath + 1) then too_long else parts [] (normalize_name fullpath)
  | some p ↦
      if ltb 32 (length (drop 1 p) + 1)
      then too_long
      else parts (skip_root (take (length fullpath - length p + 1) fullpath))
          (normalize_name (drop 1 p))
]

-- GetPathAndName. The result 0 is `parts`, and SCE_ERROR_ERRNO_ENAMETOOLONG is `too_long`.
unfoldable pub get_path_and_name : List ℕ → Run Parts
unfolding strip_slash split_path
get_path_and_name fullpath = elim (strip_slash fullpath) [
  | none ↦ fault
  | some s ↦ done (split_path s)
]
