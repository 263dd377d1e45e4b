-- ===== src/Booter.antt =====
-- src/psp/booter/main.c: the PSP side. It reads boot.bin, turns the Vita path into one on ms0:, finds
-- what kind of content stands there, and starts it. `isage` is the flag ADRBUBBLE_ISAGE_CONFIG. The
-- firmware's calls are functions on an abstract world (Psp); what launch_content tells SystemCtrl is
-- kept as the list of its calls in order. `none` is undefined behaviour, as in Vita.
pub mod Thread
pub mod Paths
pub mod Kinds
pub mod Launch
use adr_bubble_booter_oss.Prelude.{
  ℕ, zero, suc, ◌+◌, ◌-◌, List, [], ◌∷◌, ◌++◌, ℤ, pos, negsuc, is_neg, eqb_ℤ, Bool, true, false,
  not, ◌&&◌, ◌||◌, Option, none, some, if◌then◌else◌, leb, ltb, ◌==◌, length, drop, take, replicate,
}
use adr_bubble_booter_oss.Vita.{M, pure, ◌>>=◌, ◌>>◌, call, need, require}
use adr_bubble_booter_oss.Text.{codes, c_string, strncpy, strrchr}
use adr_bubble_booter_oss.BootInfo.{
  BootInfo, load_boot_info, store_boot_info, zero_boot_info, boot_info_size,
}

-- `enum ContentType`; the type that the booter passes on is an int, which may be a negative error
unfoldable pub content_unknown : ℤ
content_unknown = pos 0

unfoldable pub content_iso : ℤ
content_iso = pos 1

unfoldable pub content_psp_pbp : ℤ
content_psp_pbp = pos 2

unfoldable pub content_npdrm_pbp : ℤ
content_npdrm_pbp = pos 3

unfoldable pub content_ps1_pbp : ℤ
content_ps1_pbp = pos 4

-- `enum BootConfigIndex`
abbrev pub boot_config_march33 : Bool → ℕ
boot_config_march33 isage = if isage then 2 else 1

abbrev pub boot_config_np9660 : Bool → ℕ
boot_config_np9660 isage = if isage then 3 else 2

abbrev pub boot_config_inferno : Bool → ℕ
boot_config_inferno isage = if isage then 4 else 3

-- what launch_content asks of the system, apart from the K1 register
pub data Request : Type 0 where
  set_umd_file : List ℕ → Request
  set_boot_conf_file_index : ℕ → Request
  set_disc_type_game : Request
  mount_umd_from_file : List ℕ → Request
  set_param_sfo : List ℕ → Request

-- the arguments of sctrlKernelLoadExecVSHWithApitype: apitype, file, and the parameter block's
-- argument string, its length and the key
pub record LoadExec : Type 0 where
  pub apitype : ℕ
  pub file : List ℕ
  pub argp : List ℕ
  pub args : ℕ
  pub key : List ℕ

-- the driver's index, where the driver is one of the three
unfoldable pub driver_request : Bool → ℕ → List Request
driver_request isage driver =
    if driver == 0
    then set_boot_conf_file_index (boot_config_inferno isage) ∷ []
    else if driver == 1
    then set_boot_conf_file_index (boot_config_march33 isage) ∷ []
    else if driver == 2
    then set_boot_conf_file_index (boot_config_np9660 isage) ∷ []
    else []

unfoldable pub execute_path : ℕ → List ℕ
execute_path execute =
    if execute == 1
    then codes "disc0:/PSP_GAME/SYSDIR/EBOOT.OLD"
    else if execute == 2
    then codes "disc0:/PSP_GAME/SYSDIR/BOOT.BIN"
    else codes "disc0:/PSP_GAME/SYSDIR/EBOOT.BIN"

-- `param.args = strlen(param.argp) + 1`
abbrev load_exec : ℕ → List ℕ → List ℕ → List ℕ → LoadExec
load_exec apitype file argp key = record {
  apitype = apitype;
  file = file;
  argp = argp;
  args = length argp + 1;
  key = key;
}

-- The requests in order and the final call. The path is `boot_info.file_path`. For another type
-- `param.argp` is NULL when strlen reads it.
unfoldable pub launch_content :
    Bool → BootInfo → List ℕ → List ℕ → ℤ → Option (List Request × LoadExec)
unfolding driver_request execute_path content_npdrm_pbp content_iso content_psp_pbp content_ps1_pbp
launch_content isage boot_info file_path ps1_title_id type =
    if eqb_ℤ type content_npdrm_pbp
    then some (
      set_umd_file [] ∷ set_boot_conf_file_index (boot_config_np9660 isage) ∷ [],
      load_exec 0x123 file_path (codes "disc0:/PSP_GAME/SYSDIR/EBOOT.BIN") (codes "umdemu"),
    )
    else if eqb_ℤ type content_iso
    then some (
      set_umd_file file_path
          ∷ (driver_request isage boot_info.driver
              ++ (set_disc_type_game ∷ mount_umd_from_file file_path ∷ [])),
      load_exec 0x120 (execute_path boot_info.execute) (execute_path boot_info.execute)
          (codes "umdemu"),
    )
    else if eqb_ℤ type content_psp_pbp
    then some ([], load_exec 0x141 file_path file_path (codes "game"))
    else if eqb_ℤ type content_ps1_pbp
    then some (set_param_sfo ps1_title_id ∷ [], load_exec 0x144 file_path file_path (codes "pops"))
    else none

-- The path in the array, from behind its last colon and "pspemu"; `colon + 7` may point into the
-- bytes behind the path's end, and is undefined past the array.
unfoldable pub path_after_pspemu_device : List ℕ → Option (List ℕ)
unfolding strrchr c_string
path_after_pspemu_device buffer = elim (c_string buffer) [
  | none ↦ none
  | some path ↦ elim (strrchr path b':') [
    | none ↦ some path
    | some colon ↦ c_string (drop (length path - length colon + 7) buffer)
  ]
]

-- `sprintf(path, "ms0:%s", …)` into 256 bytes, and strncpy over the first 255 bytes of the record's
-- path; the record and its new path as a string
unfoldable pub rebase_path : BootInfo → Option (BootInfo × List ℕ)
unfolding path_after_pspemu_device strncpy c_string
rebase_path boot_info = elim (path_after_pspemu_device boot_info.file_path) [
  | none ↦ none
  | some rest ↦
      if ltb (length (codes "ms0:" ++ rest)) 256
      then (let file_path = strncpy 255 (codes "ms0:" ++ rest) ++ drop 255 boot_info.file_path in
          elim (c_string file_path) [
            | none ↦ none
            | some path ↦ some (record boot_info { file_path = file_path }, path)
          ])
      else none
]
