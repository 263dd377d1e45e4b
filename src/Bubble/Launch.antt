-- ===== src/Bubble/Launch.antt =====
-- module_start of src/vita/adrbubblebooter/main.c, in the monad of Vita.
use adr_bubble_booter_oss.Prelude.{
  ℕ, List, [], ◌∷◌, ℤ, pos, is_neg, eqb_ℤ, ◌-ℤ◌, Bool, not, if◌then◌else◌, leb, ◌==◌, ◌^◌, length,
  take, replicate,
}
use adr_bubble_booter_oss.Vita.{Vita, M, pure, ◌>>=◌, ◌>>◌, call, need, require, sprintf_into}
use adr_bubble_booter_oss.Vita.Files.{check_file, get_file_size, read_file, write_file}
use adr_bubble_booter_oss.Text.{codes, equal_folded, c_string, to_int32}
use adr_bubble_booter_oss.Minilibc.Format.{str, int}
use adr_bubble_booter_oss.BootInfo.{
  BootInfo, load_boot_info, store_boot_info, zero_boot_info, boot_info_size,
}
use adr_bubble_booter_oss.Bubble.{
  adrenaline_title_id, config_fallback_size, legacy_size, load_legacy, upgrade, get_pspemu_root,
  location_of, set_location, config_size_of,
}

module _ (v : Vita) (isage : Bool) where
  open v use {World, tai_get_module_info, app_mgr_get_name, exit_process}

  -- a file of another size is a legacy record: it is upgraded and written back
  unfoldable pub load_legacy_boot : List ℕ → M World BootInfo
  unfolding read_file write_file
  load_legacy_boot bubble_boot_path = do
    (_, bytes) ← read_file v bubble_boot_path (replicate legacy_size 0) legacy_size
    let boot_info = upgrade (load_legacy bytes)
    _ ← write_file v bubble_boot_path (store_boot_info boot_info)
    pure boot_info

  unfoldable pub load_current_boot : List ℕ → M World BootInfo
  unfolding read_file
  load_current_boot bubble_boot_path = do
    (_, bytes) ← read_file v bubble_boot_path (store_boot_info zero_boot_info) boot_info_size
    pure (load_boot_info bytes)

  unfoldable pub load_boot : List ℕ → M World BootInfo
  unfolding get_file_size load_legacy_boot load_current_boot
  load_boot bubble_boot_path = do
    boot_size ← get_file_size v bubble_boot_path
    if not (eqb_ℤ boot_size (pos boot_info_size))
        then load_legacy_boot bubble_boot_path
        else load_current_boot bubble_boot_path

  -- the bubble's own settings over the global ones
  unfoldable pub load_custom : BootInfo → List ℕ → List ℕ → ℕ → M World (List ℕ)
  unfolding read_file
  load_custom boot_info bubble_config_path config config_size =
      if boot_info.customized == 1
      then (do (_, custom) ← read_file v bubble_config_path config config_size; pure custom)
      else pure config

  -- `config` holds config_fallback_size bytes: clearing config_size of them must stay inside
  unfoldable pub load_config : BootInfo → List ℕ → List ℕ → M World (ℕ × List ℕ)
  unfolding config_size_of get_file_size read_file load_custom
  load_config boot_info adrenaline_config_path bubble_config_path = do
    size ← get_file_size v adrenaline_config_path
    let config_size = config_size_of size
    require (leb config_size config_fallback_size)
    (_, config) ← read_file v adrenaline_config_path (replicate config_fallback_size 0) config_size
    custom ← load_custom boot_info bubble_config_path config config_size
    pure (config_size, custom)

  -- from the check of the content file on
  unfoldable pub save_config : BootInfo → List ℕ → ℕ → ℕ → List ℕ → List ℕ → List ℕ → M World ℤ
  unfolding check_file write_file set_location
  save_config boot_info file_path location config_size config config_path bubble_config_path = do
    found ← check_file v file_path
    if is_neg found then call (exit_process (pos 0)) else do
      let output = if boot_info.customized == 1 then bubble_config_path else config_path
      written ← write_file v output (take config_size (set_location isage config location))
      if is_neg written then call (exit_process (pos 0)) else pure (pos 0)

  -- Behind the launch checks. `boot_info.loadstate - 1` is undefined for the least int.
  unfoldable pub start_bubble : List ℕ → List ℕ → List ℕ → M World ℤ
  unfolding load_boot load_config save_config location_of
  start_bubble bubble_boot_path bubble_config_path config_path = do
    boot_info ← load_boot bubble_boot_path
    (config_size, config) ← load_config boot_info config_path bubble_config_path
    file_path ← need (c_string boot_info.file_path)
    location ← need (location_of file_path)
    require (not (boot_info.loadstate == 2 ^ 31))
    savestate_path ← sprintf_into 128 (codes "%s/PSP/SAVESTATE/STATE%02d.BIN") (
        str (get_pspemu_root (pos location))
        ∷ int (to_int32 (to_int32 (pos boot_info.loadstate) -ℤ pos 1))
        ∷ [])
    if boot_info.loadstate == 0
        then save_config boot_info file_path location config_size config config_path
            bubble_config_path
        else do
          saved ← check_file v savestate_path
          if is_neg saved
              then save_config boot_info file_path location config_size config config_path
                  bubble_config_path
              else pure (pos 0)

  -- behind the title's name
  unfoldable pub launch_bubble : List ℕ → M World ℤ
  unfolding start_bubble check_file
  launch_bubble app_title_id =
      if equal_folded app_title_id adrenaline_title_id then pure (pos 0) else (do
        bubble_boot_path ←
            sprintf_into 64 (codes "ux0:app/%s/data/boot.bin") (str app_title_id ∷ [])
        bubble_config_path ←
            sprintf_into 64 (codes "ux0:app/%s/data/config.bin") (str app_title_id ∷ [])
        present ← check_file v bubble_boot_path
        if is_neg present
            then call (exit_process (pos 0))
            else start_bubble bubble_boot_path bubble_config_path
                (codes "ux0:app/PSPEMUCFW/adrenaline.bin"))

  unfoldable pub module_start : M World ℤ
  unfolding launch_bubble
  module_start = do
    info ← call tai_get_module_info
    if is_neg info then call (exit_process (pos 0)) else do
      name ← call app_mgr_get_name
      require (leb (length name) 12)
      app_title_id ← need (c_string name)
      launch_bubble app_title_id

  -- module_stop does nothing
  unfoldable pub module_stop : M World ℤ
  module_stop = pure (pos 0)
