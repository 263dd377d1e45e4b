-- ===== src/BootInfo/Codec.antt =====
-- The layout of boot.bin: BootInfo of src/common/adrenaline_compat.h in memory and back.
use adr_bubble_booter_oss.Prelude.{
  ℕ, zero, suc, ◌*◌, ◌^◌, ◌<◌, ◌≡◌, refl, List, [], ◌∷◌, ◌++◌, length, take, drop, arith,
  length-append, ap₂, take_all, drop-append_exact,
}
use adr_bubble_booter_oss.BootInfo.{
  BootInfo, words, store_word, load_word, store_words, load_words, store_boot_info, load_boot_info,
}

-- Every word fits 32 bits.
abbrev pub AllWords : List ℕ → Type 0
AllWords [] = Unit
AllWords (w ∷ ws) = (w < 2 ^ 32) × AllWords ws

-- A record that memory can hold: 32-bit words, five of them reserved, and a path buffer of 256.
pub record IsValid (b : BootInfo) : Type 0 where
  pub words_fit : AllWords (words b)
  pub reserved_size : length b.reserved ≡ 5
  pub path_size : length b.file_path ≡ 256

load_word-store_word : (w : ℕ) (rest : List ℕ) → w < 2 ^ 32 → load_word (store_word w ++ rest) ≡ w
unfolding load_word store_word
load_word-store_word w rest h = omega arith

load_words-store_words :
    (ws : List ℕ) (n : ℕ) (rest : List ℕ)
    → AllWords ws
    → length ws ≡ n
    → load_words n (store_words ws ++ rest) ≡ ws
unfolding load_words store_words store_word
load_words-store_words [] zero rest h e = refl
load_words-store_words [] (suc n) rest h e = absurd (omega arith)
load_words-store_words (w ∷ ws) zero rest h e = absurd (omega arith)
load_words-store_words (w ∷ ws) (suc n) rest (hw, h) e =
    ap₂ ◌∷◌ (load_word-store_word w (store_words ws ++ rest) hw)
      (load_words-store_words ws n rest h (omega arith))

pub length-store_words : (ws : List ℕ) → length (store_words ws) ≡ 4 * length ws
unfolding store_words store_word
length-store_words [] = refl
length-store_words (w ∷ ws) = omega (arith, length-store_words ws)

-- A valid record (32-bit words, five of them reserved, a path buffer of 256) takes 0x140 bytes in
-- memory.
pub length-store_boot_info : (b : BootInfo) → IsValid b → length (store_boot_info b) ≡ 0x140
unfolding store_boot_info
length-store_boot_info b v =
    omega (arith, length-append (store_words (words b)) b.file_path, length-store_words (words b))

-- What is read back from a valid record's bytes is the record.
pub load-store_boot_info : (b : BootInfo) → IsValid b → load_boot_info (store_boot_info b) ≡ b
unfolding load_boot_info store_boot_info
load-store_boot_info b v =
    let word = load_word-store_word in
    let w = v.words_fit in
    let path : take 256 (drop 20 (store_words b.reserved ++ b.file_path)) ≡ b.file_path =
      rw
        (drop-append_exact (store_words b.reserved) b.file_path 20
          (omega (arith, length-store_words b.reserved, v.reserved_size)))
        (take_all b.file_path 256 (omega arith)) in
    λ i. record {
      magic = word b.magic [] w.0 i;
      driver = word b.driver [] w.1.0 i;
      execute = word b.execute [] w.1.1.0 i;
      customized = word b.customized [] w.1.1.1.0 i;
      loadstate = word b.loadstate [] w.1.1.1.1.0 i;
      psbutton = word b.psbutton [] w.1.1.1.1.1.0 i;
      suspend = word b.suspend [] w.1.1.1.1.1.1.0 i;
      cpuspeed = word b.cpuspeed [] w.1.1.1.1.1.1.1.0 i;
      plugins = word b.plugins [] w.1.1.1.1.1.1.1.1.0 i;
      nonpdrm = word b.nonpdrm [] w.1.1.1.1.1.1.1.1.1.0 i;
      highmemory = word b.highmemory [] w.1.1.1.1.1.1.1.1.1.1.0 i;
      reserved =
          load_words-store_words b.reserved 5 b.file_path w.1.1.1.1.1.1.1.1.1.1.1 v.reserved_size i;
      file_path = path i;
    }
