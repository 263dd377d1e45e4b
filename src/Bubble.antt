-- ===== src/Bubble.antt =====
-- src/vita/adrbubblebooter/main.c: before a bubble starts, upgrade a legacy boot.bin, take the global
-- or the bubble's own settings, and write back the memory-stick location of the device that holds the
-- game. `isage` is the build flag ADRBUBBLE_ISAGE_CONFIG.
pub mod Launch
pub mod Legacy
pub mod Upgraded
pub mod Location
pub mod Texts
pub mod Safe
use adr_bubble_booter_oss.Prelude.{
  ℕ, zero, suc, ◌+◌, ◌-◌, ◌*◌, List, [], ◌∷◌, ◌++◌, ℤ, pos, negsuc, is_neg, eqb_ℤ, ◌-ℤ◌, Bool, true,
  false, not, ◌&&◌, Option, none, some, if◌then◌else◌, leb, ltb, ◌==◌, length, drop, take, set,
  replicate, ◌%◌,
}
use adr_bubble_booter_oss.Vita.{Vita, M, pure, ◌>>=◌, ◌>>◌, call, need, require, sprintf_into}
use adr_bubble_booter_oss.Vita.Files.{
  check_file, get_file_size, read_file, write_file, get_device_name,
}
use adr_bubble_booter_oss.Text.{codes, equal_folded, c_string, strncpy, sprintf, to_int32, strrchr}
use adr_bubble_booter_oss.Minilibc.Format.{str, int}
use adr_bubble_booter_oss.BootInfo.{
  BootInfo, load_word, store_word, load_boot_info, store_boot_info, zero_boot_info, boot_info_magic,
  boot_info_size,
}

abbrev pub adrenaline_title_id : List ℕ
adrenaline_title_id = codes "PSPEMUCFW"

abbrev pub config_fallback_size : ℕ
config_fallback_size = 0x60

abbrev pub legacy_size : ℕ
legacy_size = 0x120

-- `struct LegacyBootInfo`: eight words, and a path buffer at 0x20
pub record LegacyBootInfo : Type 0 where
  pub fields : List ℕ
  pub file_path : List ℕ

-- the bytes before the first zero byte, or all of them: what strncpy reads of a full array
unfoldable pub until_zero : List ℕ → List ℕ
until_zero [] = []
until_zero (c ∷ s) = if c == 0 then [] else c ∷ until_zero s

unfoldable pub load_legacy : List ℕ → LegacyBootInfo
unfolding load_word
load_legacy bytes =
    let at = λ (i : ℕ). load_word (drop (4 * i) bytes) in
    record {
      fields = at 0 ∷ at 1 ∷ at 2 ∷ at 3 ∷ at 4 ∷ at 5 ∷ at 6 ∷ at 7 ∷ [];
      file_path = take 256 (drop 0x20 bytes);
    }

abbrev field : ℕ → List ℕ → ℕ
field i [] = 0
field zero (w ∷ ws) = w
field (suc i) (w ∷ ws) = field i ws

-- the assignments behind the two memsets
unfoldable pub upgrade : LegacyBootInfo → BootInfo
unfolding strncpy until_zero
upgrade l = record zero_boot_info {
  magic = field 0 l.fields;
  driver = field 1 l.fields;
  execute = field 2 l.fields;
  customized = field 3 l.fields;
  loadstate = field 4 l.fields;
  psbutton = field 5 l.fields;
  suspend = field 6 l.fields;
  file_path = strncpy 256 (until_zero l.file_path);
}

unfoldable pub get_ms_location : List ℕ → ℤ
unfolding equal_folded
get_ms_location device =
    if equal_folded device (codes "ux0")
    then pos 0
    else if equal_folded device (codes "ur0")
    then pos 1
    else if equal_folded device (codes "imc0")
    then pos 2
    else if equal_folded device (codes "xmc0")
    then pos 3
    else if equal_folded device (codes "uma0")
    then pos 4
    else negsuc 0

unfoldable pub get_pspemu_root : ℤ → List ℕ
get_pspemu_root location =
    if eqb_ℤ location (pos 1)
    then codes "ur0:pspemu"
    else if eqb_ℤ location (pos 2)
    then codes "imc0:pspemu"
    else if eqb_ℤ location (pos 3)
    then codes "xmc0:pspemu"
    else if eqb_ℤ location (pos 4)
    then codes "uma0:pspemu"
    else codes "ux0:pspemu"

-- `location >> 31` is 0 or -1, so the complement keeps or clears every bit.
unfoldable pub clamp_location : ℤ → ℕ
clamp_location (pos n) = n
clamp_location (negsuc n) = 0

-- `get_ms_location(get_device_name(boot_info.file_path))`, clamped. NULL is no string to compare.
unfoldable pub location_of : List ℕ → Option ℕ
unfolding clamp_location
location_of path = elim (get_device_name path) [
  | none ↦ none
  | some none ↦ none
  | some (some device) ↦ some (clamp_location (get_ms_location device))
]

-- the assignment of AdrenalineConfig.ms_location
unfoldable pub set_location : Bool → List ℕ → ℕ → List ℕ
unfolding store_word
set_location isage config location =
    if isage
    then set config 0x0B (location % 256)
    else take 0x18 config ++ (store_word location ++ drop 0x1C config)

-- the size of the global settings file, or the fallback
unfoldable pub config_size_of : ℤ → ℕ
config_size_of (pos (suc n)) = suc n
config_size_of _ = config_fallback_size
