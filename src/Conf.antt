-- ===== src/Conf.antt =====
-- integration/adrenaline-v7/overlay/cef/systemctrl/conf.c. The calls on files, and what the PSP's own
-- headers define (the size and the magic words of the settings, the size of the boot record), are a
-- parameter. A buffer is the bytes from its address on.
pub mod Saved
use adr_bubble_booter_oss.Prelude.{
  ℕ, List, ◌++◌, ℤ, pos, negsuc, is_neg, Bool, true, false, if◌then◌else◌, ltb, length, take, drop,
  replicate,
}
use adr_bubble_booter_oss.Text.{codes}
use adr_bubble_booter_oss.BootInfo.{store_word}

pub record Host : Type 1 where
  pub World : Type 0
  -- sceIoOpen with PSP_O_RDONLY, and with PSP_O_WRONLY | PSP_O_CREAT | PSP_O_TRUNC
  pub open_read : List ℕ → World → ℤ × World
  pub open_write : List ℕ → World → ℤ × World
  -- the result and the bytes read
  pub io_read : ℤ → ℕ → World → ℤ × List ℕ × World
  pub io_write : ℤ → List ℕ → World → ℤ × World
  pub io_close : ℤ → World → World
  pub magic_1 : ℕ
  pub magic_2 : ℕ
  pub config_size : ℕ
  pub booter_size : ℕ

abbrev pub config_path : List ℕ
config_path = codes "flash1:/config.adrenaline"

abbrev pub booter_path : List ℕ
booter_path = codes "ms0:/__APPID__/data/boot.bin"

-- `n < size` on int
unfoldable pub is_below : ℤ → ℕ → Bool
is_below (pos n) size = ltb n size
is_below (negsuc n) size = true

-- the bytes written over the front of the buffer
unfoldable pub over : List ℕ → List ℕ → List ℕ
over bytes buffer = bytes ++ drop (length bytes) buffer

module _ (h : Host) where
  -- the text that sctrlSEGetConfigEx and sctrlSEGetBooterConfigEx share: the result, the buffer and the
  -- world
  unfoldable pub get_file : List ℕ → List ℕ → ℕ → h.World → ℤ × List ℕ × h.World
  unfolding over
  get_file path buffer size w =
      let zeros = over (replicate size 0) buffer in
      let (fd, w) = h.open_read path w in
      let (read, bytes, w') = h.io_read fd size w in
      if is_neg fd then (negsuc 0, zeros, w) else (read, over bytes zeros, h.io_close fd w')

  unfoldable pub get_config_ex : List ℕ → ℕ → h.World → ℤ × List ℕ × h.World
  unfolding get_file
  get_config_ex = get_file config_path

  -- `config->magic`, the first two words
  abbrev pub with_magic : List ℕ → List ℕ
  with_magic config = over (store_word h.magic_1 ++ store_word h.magic_2) config

  unfoldable pub set_config_ex : List ℕ → ℕ → h.World → ℤ × List ℕ × h.World
  unfolding over is_below store_word
  set_config_ex config size w =
      let (fd, w) = h.open_write config_path w in
      let (written, w') = h.io_write fd (take size (with_magic config)) w in
      if is_neg fd
      then (negsuc 0, config, w)
      else if is_below written size
      then (negsuc 0, with_magic config, h.io_close fd w')
      else (pos 0, with_magic config, h.io_close fd w')

  unfoldable pub get_booter_config_ex : List ℕ → ℕ → h.World → ℤ × List ℕ × h.World
  unfolding get_file
  get_booter_config_ex = get_file booter_path

  unfoldable pub get_config : List ℕ → h.World → ℤ × List ℕ × h.World
  unfolding get_config_ex
  get_config config = get_config_ex config h.config_size

  unfoldable pub set_config : List ℕ → h.World → ℤ × List ℕ × h.World
  unfolding set_config_ex
  set_config config = set_config_ex config h.config_size

  unfoldable pub get_booter_config : List ℕ → h.World → ℤ × List ℕ × h.World
  unfolding get_booter_config_ex
  get_booter_config config = get_booter_config_ex config h.booter_size
