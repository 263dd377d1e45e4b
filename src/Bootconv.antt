-- ===== src/Bootconv.antt =====
-- src/vita/bootconv/main.c: in a bubble that has a boot.inf and no boot.bin, make the boot.bin from the
-- PATH of the boot.inf and remove the latter. strncasecmp, which is not in the repository, is a
-- parameter. The second path is snprintf of 64 bytes, which a title of twelve bytes does not fill.
pub mod Value
pub mod Path
use adr_bubble_booter_oss.Prelude.{
  ℕ, zero, suc, List, [], ◌∷◌, ◌++◌, ℤ, pos, eqb_ℤ, is_neg, Bool, true, false, not, ◌&&◌, Option,
  none, some, if◌then◌else◌, leb, ◌==◌, length, drop, take, replicate, get_or, ◌-◌,
}
use adr_bubble_booter_oss.Vita.{Vita, M, pure, ◌>>=◌, ◌>>◌, call, need, require, sprintf_into}
use adr_bubble_booter_oss.Vita.{OpenMode, read_only}
use adr_bubble_booter_oss.Vita.Files.{check_file, read_file, write_file}
use adr_bubble_booter_oss.Text.{codes, c_string, strrchr, to_int32}
use adr_bubble_booter_oss.Minilibc.Strings.Compare.{compare_bytes}
use adr_bubble_booter_oss.Minilibc.Format.{str}
use adr_bubble_booter_oss.Minilibc.Token.Laws.{body, token, remains}
use adr_bubble_booter_oss.BootInfo.{
  BootInfo, load_word, store_boot_info, zero_boot_info, boot_info_magic,
}
use adr_bubble_booter_oss.Bubble.{adrenaline_title_id}

unfoldable pub get_device_prefix : ℤ → List ℕ
get_device_prefix location =
    if eqb_ℤ location (pos 1)
    then codes "ur0:"
    else if eqb_ℤ location (pos 2)
    then codes "imc0:"
    else if eqb_ℤ location (pos 3)
    then codes "xmc0:"
    else if eqb_ℤ location (pos 4)
    then codes "uma0:"
    else codes "ux0:"

-- `strrchr(path, ':') + 1`; NULL + 1 is undefined
unfoldable pub after_last_colon : List ℕ → Option (List ℕ)
unfolding strrchr
after_last_colon path = elim (strrchr path b':') [ none ↦ none | some colon ↦ some (drop 1 colon) ]

-- `strchr(line, '=') + 1`
unfoldable pub after_first_equals : List ℕ → Option (List ℕ)
after_first_equals [] = none
after_first_equals (c ∷ line) = if c == b'=' then some line else after_first_equals line

-- The tokens that the calls of strtok_r with "\r\n" give one after another: `token`, and `remains` for
-- the rest, are what strtok_r_lem shows of a call. A call takes a byte at least.
unfoldable pub lines : ℕ → List ℕ → List (List ℕ)
lines zero text = []
lines (suc fuel) text =
    let rest = lines fuel (remains (13 ∷ 10 ∷ []) text) in
    elim (body (13 ∷ 10 ∷ []) text) [ [] ↦ [] | (c ∷ s) ↦ token (13 ∷ 10 ∷ []) text ∷ rest ]

-- the config word or byte of the location; the word is an int
unfoldable pub location_in : Bool → List ℕ → ℤ
unfolding load_word
location_in isage config =
    if isage then pos (get_or config 0x0B 0) else to_int32 (pos (load_word (drop 0x18 config)))

-- `snprintf(boot_info.file_path, 256, "%spspemu%s", prefix, …)`
unfoldable pub converted_path : ℤ → List ℕ → List ℕ
unfolding get_device_prefix
converted_path location rest = take 255 (get_device_prefix location ++ (codes "pspemu" ++ rest))

module _ (strncasecmp : List ℕ → List ℕ → ℕ → ℤ) where
  unfoldable pub starts_with : List ℕ → List ℕ → Bool
  starts_with text prefix = eqb_ℤ (strncasecmp text prefix (length prefix)) (pos 0)

  -- `line[0] != '\0' && line[0] != '#' && starts_with(line, key)`
  unfoldable pub is_match : List ℕ → List ℕ → Bool
  unfolding starts_with
  is_match [] key = false
  is_match (c ∷ line) key = not (c == b'#') && starts_with (c ∷ line) key

  -- what the loop leaves in `ini_value`
  unfoldable pub last_value : List ℕ → List (List ℕ) → List ℕ → Option (List ℕ)
  unfolding is_match after_first_equals
  last_value key [] value = some value
  last_value key (line ∷ ls) value =
      if is_match line key
      then elim (after_first_equals line) [
        | none ↦ none
        | some text ↦ last_value key ls (take 255 text)
      ]
      else last_value key ls value

  module _ (v : Vita) (isage : Bool) where
    open v use {
      World, io_open, io_read, io_close, io_remove, tai_get_module_info, app_mgr_get_name,
      exit_process,
    }

    -- NULL is `none` of the result. The array is not ended by a zero byte when the file fills it.
    unfoldable pub read_ini_value : List ℕ → List ℕ → M World (Option (List ℕ))
    unfolding last_value lines
    read_ini_value path key = do
      fd ← call (io_open path read_only)
      if is_neg fd then (do _ ← call (io_close fd); pure none) else do
        (_, bytes) ← call (io_read fd 1024)
        require (leb (length bytes) 1024)
        _ ← call (io_close fd)
        text ← need (c_string (bytes ++ replicate (1024 - length bytes) 0))
        value ← need (last_value key (lines (length text) text) [])
        pure (some value)

    -- the conversion's last part
    unfoldable pub write_boot : List ℕ → List ℕ → List ℕ → M World ℤ
    unfolding check_file write_file
    write_boot boot_bin_path boot_inf_path file_path = do
      found ← check_file v file_path
      if is_neg found then call (exit_process (pos 0)) else do
        let boot_info = record zero_boot_info {
          magic = boot_info_magic;
          file_path = file_path ++ replicate (256 - length file_path) 0;
        }
        _ ← write_file v boot_bin_path (store_boot_info boot_info)
        _ ← call (io_remove boot_inf_path)
        pure (pos 0)

    unfoldable pub convert : List ℕ → List ℕ → List ℕ → M World ℤ
    unfolding read_ini_value write_boot
    convert boot_bin_path boot_inf_path config = do
      value ← read_ini_value boot_inf_path (codes "PATH")
      legacy_path ← need value
      rest ← need (after_last_colon legacy_path)
      write_boot boot_bin_path boot_inf_path (converted_path (location_in isage config) rest)

    -- behind the title's name
    unfoldable pub convert_bubble : List ℕ → M World ℤ
    unfolding convert check_file read_file
    convert_bubble app_title_id = do
      (_, config) ← read_file v (codes "ux0:app/PSPEMUCFW/adrenaline.bin") (replicate 0xB8 0) 0xB8
      boot_bin_path ← sprintf_into 64 (codes "ux0:app/%s/data/boot.bin") (str app_title_id ∷ [])
      boot_inf_path ← sprintf_into 64 (codes "ux0:app/%s/data/boot.inf") (str app_title_id ∷ [])
      inf ← check_file v boot_inf_path
      if is_neg inf then pure (pos 0) else do
        bin ← check_file v boot_bin_path
        if is_neg bin then convert boot_bin_path boot_inf_path config else pure (pos 0)

    unfoldable pub module_start : M World ℤ
    unfolding convert_bubble
    module_start = do
      info ← call tai_get_module_info
      if is_neg info then call (exit_process (pos 0)) else do
        name ← call app_mgr_get_name
        require (leb (length name) 12)
        app_title_id ← need (c_string name)
        if eqb_ℤ (compare_bytes app_title_id adrenaline_title_id) (pos 0)
            then pure (pos 0)
            else convert_bubble app_title_id
