-- ===== src/Drm.antt =====
-- integration/adrenaline-v7/overlay/cef/systemctrl/nodrm.c: the functions that stand in for the system's
-- when a file is not encrypted. The functions replaced, and the calls on files, are a parameter.
use adr_bubble_booter_oss.Prelude.{
  ℕ, List, ◌∷◌, ℤ, pos, negsuc, eqb_ℤ, is_neg, Bool, false, not, ◌||◌, if◌then◌else◌, ◌==◌, ◌^◌,
  ◌-◌, ◌/◌, ◌%◌, take,
}
use adr_bubble_booter_oss.Text.{codes}
use adr_bubble_booter_oss.Minilibc.Strings.Compare.{compare_bytes}

pub record Host : Type 1 where
  pub World : Type 0
  pub io_open : List ℕ → World → ℤ × World
  pub io_close : ℤ → World → World
  -- sceIoRead of 8 bytes, with the bytes of the buffer behind it
  pub io_read : ℤ → World → ℤ × List ℕ × World
  -- sceIoLseek32 with PSP_SEEK_SET, PSP_SEEK_CUR and PSP_SEEK_END
  pub seek_set : ℤ → ℤ → World → ℤ × World
  pub seek_cur : ℤ → ℤ → World → ℤ × World
  pub seek_end : ℤ → ℤ → World → ℤ × World
  -- the replaced functions, and sceKernelLoadModule661
  pub do_open : List ℕ → ℕ → World → ℤ × World
  pub do_ioctl : ℤ → ℕ → World → ℤ × World
  pub load_module_npdrm : List ℕ → ℕ → World → ℤ × World
  pub load_module : List ℕ → ℕ → World → ℤ × World
  pub rename_check : List ℕ → World → ℤ × World
  pub edata_setup_key : ℤ → World → ℤ × World
  pub edata_get_data_size : ℤ → World → ℤ × World

-- `memcmp(buf, text, size) == 0`, of a buffer of `size` bytes at least
unfoldable pub same_front : ℕ → List ℕ → List ℕ → Bool
unfolding compare_bytes
same_front size buffer text = eqb_ℤ (compare_bytes (take size buffer) text) (pos 0)

unfoldable pub is_encrypted : List ℕ → Bool
unfolding same_front
is_encrypted buffer =
    same_front 8 buffer (0 ∷ codes "PSPEDAT") || same_front 4 buffer (0 ∷ codes "PGD")

module _ (h : Host) where
  unfoldable pub is_plain_drm_fd : ℤ → h.World → ℤ × h.World
  unfolding is_encrypted
  is_plain_drm_fd fd w =
      let (at, w) = h.seek_cur fd (pos 0) w in
      let (start, w) = h.seek_set fd (pos 0) w in
      let (read, buffer, w) = h.io_read fd w in
      let (back, w') = h.seek_set fd at w in
      if not (eqb_ℤ read (pos 8))
      then (negsuc 0, w)
      else if is_encrypted buffer
      then (pos 0, w')
      else (pos 1, w')

  -- the code's test of the result: -1, a read error, is taken for a plain file
  abbrev pub is_true : ℤ → Bool
  is_true n = not (eqb_ℤ n (pos 0))

  unfoldable pub is_plain_drm_path : List ℕ → h.World → Bool × h.World
  unfolding is_plain_drm_fd
  is_plain_drm_path path w =
      let (fd, w) = h.io_open path w in
      let (plain, w') = is_plain_drm_fd fd w in
      if is_neg fd then (false, w) else (is_true plain, h.io_close fd w')

  -- `flags & 0x40000000`, bit 30
  unfoldable pub do_open_patched : List ℕ → ℕ → h.World → ℤ × h.World
  unfolding is_plain_drm_path
  do_open_patched file flags w =
      let (plain, w') = is_plain_drm_path file w in
      if flags / 2 ^ 30 % 2 == 1
      then (if plain then h.do_open file (flags - 2 ^ 30) w' else h.do_open file flags w')
      else h.do_open file flags w

  -- what stands in for a function of a handle: `good` when it fails on a plain file
  unfoldable pub or_plain_fd : ℤ → ℤ → ℤ × h.World → ℤ × h.World
  unfolding is_plain_drm_fd
  or_plain_fd good fd (res, w) =
      let (plain, w') = is_plain_drm_fd fd w in
      if is_neg res then (if is_true plain then (good, w') else (res, w')) else (res, w)

  unfoldable pub do_ioctl_patched : ℤ → ℕ → h.World → ℤ × h.World
  unfolding or_plain_fd
  do_ioctl_patched fd cmd w =
      let r = h.do_ioctl fd cmd w in
      if cmd == 0x04100001 || cmd == 0x04100002 then or_plain_fd (pos 0) fd r else r

  unfoldable pub load_module_patched : List ℕ → ℕ → h.World → ℤ × h.World
  unfolding is_plain_drm_path
  load_module_patched path flags w =
      let (res, w) = h.load_module_npdrm path flags w in
      let (plain, w') = is_plain_drm_path path w in
      if is_neg res then (if plain then h.load_module path flags w' else (res, w')) else (res, w)

  unfoldable pub rename_check_patched : List ℕ → h.World → ℤ × h.World
  unfolding is_plain_drm_path
  rename_check_patched file_name w =
      let (res, w) = h.rename_check file_name w in
      let (plain, w') = is_plain_drm_path file_name w in
      if is_neg res then (if plain then (pos 0, w') else (res, w')) else (res, w)

  unfoldable pub setup_key_patched : ℤ → h.World → ℤ × h.World
  unfolding or_plain_fd
  setup_key_patched fd w = or_plain_fd (pos 0) fd (h.edata_setup_key fd w)

  unfoldable pub get_data_size_patched : ℤ → h.World → ℤ × h.World
  unfolding is_plain_drm_fd
  get_data_size_patched fd w =
      let (res, w) = h.edata_get_data_size fd w in
      let (plain, w') = is_plain_drm_fd fd w in
      let (at, w₁) = h.seek_cur fd (pos 0) w' in
      let (size, w₂) = h.seek_end fd (pos 0) w₁ in
      let (back, w₃) = h.seek_set fd at w₂ in
      if is_neg res then (if is_true plain then (size, w₃) else (res, w')) else (res, w)
