-- ===== src/Usb.antt =====
-- integration/adrenaline-v7/overlay/user/usb.c. The system's calls are a parameter.
pub mod Clean
use adr_bubble_booter_oss.Prelude.{
  ℕ, List, [], ◌∷◌, ℤ, pos, negsuc, eqb_ℤ, is_neg, Bool, true, false, not, ◌&&◌, if◌then◌else◌,
}
use adr_bubble_booter_oss.Text.{codes}

pub record Host : Type 1 where
  pub World : Type 0
  pub destroy_other_app : World → World
  pub load_start_module : List ℕ → World → ℤ × World
  pub stop_unload_module : ℤ → World → ℤ × World
  pub stop_mtp_driver : World → ℤ × World
  pub start_mtp_driver : World → ℤ × World
  -- sceUsbstorVStorSetDeviceInfo, SetImgFilePath, Start and Stop
  pub set_device_info : World → ℤ × World
  pub set_image_path : List ℕ → World → ℤ × World
  pub start_storage : ℕ → World → ℤ × World
  pub stop_storage : World → ℤ × World
  pub lock_power : World → World
  pub unlock_power : World → World
  pub io_dopen : List ℕ → World → ℤ × World
  pub io_dclose : ℤ → World → World
  pub umount : ℕ → ℕ → World → World
  pub mount : ℕ → World → World
  -- the result 0x8054360C of sceMtpIfStopDriver, which is let through
  pub mtp_not_running : ℤ

module _ (h : Host) where
  abbrev pub remount : ℕ → h.World → h.World
  remount id w = h.mount id (h.umount id 1 (h.umount id 0 w))

  unfoldable pub check_folder_exist : List ℕ → h.World → Bool × h.World
  check_folder_exist folder w =
      let (dfd, w) = h.io_dopen folder w in
      if is_neg dfd then (false, w) else (true, h.io_dclose dfd w)

  -- ERROR_STOP_DRIVER
  abbrev pub error_stop_driver : ℤ → ℤ → h.World → ℤ × h.World
  error_stop_driver modid res w = (res, (h.stop_unload_module modid w).1)

  -- ERROR_USBSTOR_VSTOR
  abbrev pub error_storage : ℤ → ℤ → h.World → ℤ × h.World
  error_storage modid res w = error_stop_driver modid res (h.start_mtp_driver w).1

  -- the calls on the storage, behind the stop of the MTP driver
  unfoldable pub start_with : ℤ → List ℕ → ℕ → h.World → ℤ × h.World
  start_with modid image type w =
      let (res₁, w₁) = h.set_device_info w in
      let (res₂, w₂) = h.set_image_path image w₁ in
      let (res₃, w₃) = h.start_storage type w₂ in
      if is_neg res₁
      then error_storage modid res₁ w₁
      else if is_neg res₂
      then error_storage modid res₂ w₂
      else if is_neg res₃
      then error_storage modid res₃ w₃
      else (modid, h.lock_power w₃)

  unfoldable pub start_usb : List ℕ → List ℕ → ℕ → h.World → ℤ × h.World
  unfolding start_with
  start_usb device image type w =
      let (modid, w₁) = h.load_start_module device (h.destroy_other_app w) in
      let (res, w₂) = h.stop_mtp_driver w₁ in
      if is_neg modid
      then (modid, w₁)
      else if is_neg res && not (eqb_ℤ res h.mtp_not_running)
      then error_stop_driver modid res w₂
      else start_with modid image type w₂

  unfoldable pub remount_folder : List ℕ → ℕ → h.World → h.World
  unfolding check_folder_exist
  remount_folder folder id w =
      let (exists, w) = check_folder_exist folder w in if exists then remount id w else w

  unfoldable pub stop_usb : ℤ → h.World → ℤ × h.World
  unfolding remount_folder
  stop_usb modid w =
      let (res₁, w₁) = h.stop_storage w in
      let (res₂, w₂) = h.start_mtp_driver w₁ in
      let (res₃, w₃) = h.stop_unload_module modid w₂ in
      let w₄ = remount 0x800 (h.unlock_power w₃) in
      let w₅ = remount_folder (codes "imc0:") 0xD00 w₄ in
      let w₆ = remount_folder (codes "xmc0:") 0xE00 w₅ in
      let w₇ = remount_folder (codes "uma0:") 0xF00 w₆ in
      if is_neg modid
      then (pos 0, w)
      else if is_neg res₁
      then (res₁, w₁)
      else if is_neg res₂
      then (res₂, w₂)
      else if is_neg res₃
      then (res₃, w₃)
      else (pos 0, w₇)
