-- ===== src/BootInfo.antt =====
-- src/common/adrenaline_compat.h: the boot.bin record that the Vita modules write and the PSP booter
-- reads. The 0x140 bytes are sixteen little-endian words and a path buffer of 256 bytes; a word is
-- kept as its bit pattern.
pub mod Codec
use adr_bubble_booter_oss.Prelude.{
  ℕ, zero, suc, ◌+◌, ◌*◌, ◌/◌, ◌%◌, ◌^◌, ◌<◌, ◌≡◌, List, [], ◌∷◌, ◌++◌, length, take, drop,
  replicate,
}

pub record BootInfo : Type 0 where
  pub magic : ℕ
  pub driver : ℕ
  pub execute : ℕ
  pub customized : ℕ
  pub loadstate : ℕ
  pub psbutton : ℕ
  pub suspend : ℕ
  pub cpuspeed : ℕ
  pub plugins : ℕ
  pub nonpdrm : ℕ
  pub highmemory : ℕ
  pub reserved : List ℕ
  pub file_path : List ℕ

-- BOOT_INFO_MAGIC, and the two sizes that the static assertions fix
abbrev pub boot_info_magic : ℕ
boot_info_magic = 0x00424241

abbrev pub boot_info_size : ℕ
boot_info_size = 0x140

-- a word in memory, and the word that stands at the front of the bytes
unfoldable pub store_word : ℕ → List ℕ
store_word w = w % 256 ∷ w / 256 % 256 ∷ w / 65536 % 256 ∷ w / 16777216 % 256 ∷ []

unfoldable pub load_word : List ℕ → ℕ
load_word (a ∷ b ∷ c ∷ d ∷ rest) = a + 256 * b + 65536 * c + 16777216 * d
load_word _ = 0

unfoldable pub store_words : List ℕ → List ℕ
store_words [] = []
store_words (w ∷ ws) = store_word w ++ store_words ws

unfoldable pub load_words : ℕ → List ℕ → List ℕ
load_words zero bytes = []
load_words (suc n) bytes = load_word bytes ∷ load_words n (drop 4 bytes)

abbrev pub words : BootInfo → List ℕ
words b =
    b.magic ∷ b.driver ∷ b.execute ∷ b.customized ∷ b.loadstate ∷ b.psbutton ∷ b.suspend
    ∷ b.cpuspeed ∷ b.plugins ∷ b.nonpdrm ∷ b.highmemory ∷ b.reserved

-- the record as it lies in memory, and what a buffer of its size holds
unfoldable pub store_boot_info : BootInfo → List ℕ
unfolding store_words store_word
store_boot_info b = store_words (words b) ++ b.file_path

unfoldable pub load_boot_info : List ℕ → BootInfo
unfolding load_words load_word
load_boot_info bytes =
    let at = λ (i : ℕ). load_word (drop (4 * i) bytes) in
    record {
      magic = at 0;
      driver = at 1;
      execute = at 2;
      customized = at 3;
      loadstate = at 4;
      psbutton = at 5;
      suspend = at 6;
      cpuspeed = at 7;
      plugins = at 8;
      nonpdrm = at 9;
      highmemory = at 10;
      reserved = load_words 5 (drop 0x2C bytes);
      file_path = take 256 (drop 0x40 bytes);
    }

-- `memset(&boot_info, 0, sizeof(boot_info))`
abbrev pub zero_boot_info : BootInfo
zero_boot_info = record {
  magic = 0;
  driver = 0;
  execute = 0;
  customized = 0;
  loadstate = 0;
  psbutton = 0;
  suspend = 0;
  cpuspeed = 0;
  plugins = 0;
  nonpdrm = 0;
  highmemory = 0;
  reserved = replicate 5 0;
  file_path = replicate 256 0;
}
