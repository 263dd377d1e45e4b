-- ===== src/Msfs/Paths.antt =====
-- buildPspemuMsfsPath of integration/adrenaline-v7/overlay/user/msfs.c, and
-- getPspemuMemoryStickLocation of overlay/user/utils.c.
use adr_bubble_booter_oss.Prelude.{
  ℕ, List, [], ◌∷◌, ◌++◌, ℤ, pos, eqb_ℤ, Bool, true, false, ◌&&◌, if◌then◌else◌, ◌==◌, drop, take,
}
use adr_bubble_booter_oss.Text.{codes}

-- the root of the configured location; the macros MEMORY_STICK_LOCATION_UX0 … are 0 to 4
unfoldable pub memory_stick_location : ℤ → List ℕ
memory_stick_location ms_location =
    if eqb_ℤ ms_location (pos 1)
    then codes "ur0:pspemu"
    else if eqb_ℤ ms_location (pos 2)
    then codes "imc0:pspemu"
    else if eqb_ℤ ms_location (pos 3)
    then codes "xmc0:pspemu"
    else if eqb_ℤ ms_location (pos 4)
    then codes "uma0:pspemu"
    else codes "ux0:pspemu"

-- `strncmp(text, prefix, strlen(prefix)) == 0`
unfoldable pub has_prefix : List ℕ → List ℕ → Bool
has_prefix text [] = true
has_prefix [] (c ∷ prefix) = false
has_prefix (x ∷ text) (c ∷ prefix) = x == c && has_prefix text prefix

-- `if (in_path[0] == '/') in_path++;`
unfoldable pub skip_slash : List ℕ → List ℕ
skip_slash [] = []
skip_slash (c ∷ path) = if c == b'/' then path else c ∷ path

-- MAX_PATH_LENGTH
abbrev pub max_path_length : ℕ
max_path_length = 1024

-- The text that snprintf leaves: cut so that its zero byte is inside the 1024 bytes.
unfoldable pub build_path : List ℕ → ℤ → List ℕ → List ℕ
unfolding skip_slash has_prefix memory_stick_location
build_path app_titleid ms_location in_path =
    let path = skip_slash in_path in
    take 1023 (
      if has_prefix path (codes "__ADRENALINE__")
      then codes "ux0:app/PSPEMUCFW/" ++ drop 14 path
      else if has_prefix path (codes "__APPID__")
      then codes "ux0:app/" ++ (app_titleid ++ (b'/' ∷ drop 9 path))
      else memory_stick_location ms_location ++ (b'/' ∷ path))
