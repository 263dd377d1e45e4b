-- ===== src/Conf/Saved.antt =====
-- The settings of conf.c, saved and loaded again.
use adr_bubble_booter_oss.Prelude.{
  ℕ, ◌≤◌, ◌≡◌, refl, arith, List, ◌++◌, ℤ, pos, is_neg, false, Bool-cases, inl, inr, length, take,
  drop, replicate, take_all, drop_all, append_empty, length-append, length-drop, length-replicate,
}
use adr_bubble_booter_oss.BootInfo.{store_word}
use adr_bubble_booter_oss.Conf.{
  Host, config_path, is_below, over, get_file, get_config_ex, with_magic, set_config_ex, get_config,
  set_config,
}

-- What open files do: a write that returns all the bytes asked for leaves them as the content of the
-- file that was truncated, and a read from the start returns the front of the content.
pub record Behaves (h : Host) : Type 1 where
  pub content : List ℕ → h.World → List ℕ
  pub write_kept :
      (path bytes : List ℕ) (w : h.World)
      → is_neg (h.open_write path w).0 ≡ false
      → is_below (h.io_write (h.open_write path w).0 bytes (h.open_write path w).1).0 (length bytes)
        ≡ false
      → content path (
          h.io_close
            (h.open_write path w).0
            (h.io_write (h.open_write path w).0 bytes (h.open_write path w).1).1)
        ≡ bytes
  pub read_count :
      (path : List ℕ) (size : ℕ) (w : h.World)
      → is_neg (h.open_read path w).0 ≡ false
      → (h.io_read (h.open_read path w).0 size (h.open_read path w).1).0
        ≡ pos (length (take size (content path w)))
  pub read_bytes :
      (path : List ℕ) (size : ℕ) (w : h.World)
      → is_neg (h.open_read path w).0 ≡ false
      → (h.io_read (h.open_read path w).0 size (h.open_read path w).1).1
        ≡ take size (content path w)

over_all : (bytes buffer : List ℕ) → length buffer ≤ length bytes → over bytes buffer ≡ bytes
unfolding over
over_all bytes buffer le = rw (over, drop_all buffer (length bytes) le) (append_empty bytes)

length-over :
    (bytes buffer : List ℕ)
    → length bytes ≤ length buffer
    → length (over bytes buffer) ≡ length buffer
unfolding over
length-over bytes buffer le =
    omega
      (arith, length-append bytes (drop (length bytes) buffer), length-drop (length bytes) buffer)

module _ (h : Host) (b : Behaves h) where
  -- a file of `size` bytes, loaded to a buffer of `size` bytes
  get_file-whole :
      (path buffer bytes : List ℕ) (size : ℕ) (w : h.World)
      → length buffer ≡ size
      → length bytes ≡ size
      → b.content path w ≡ bytes
      → is_neg (h.open_read path w).0 ≡ false
      → ((get_file h path buffer size w).0 ≡ pos size) × ((get_file h path buffer size w).1 ≡ bytes)
  unfolding get_file
  get_file-whole path buffer bytes size w lb ls same opened =
      let whole : take size bytes ≡ bytes = take_all bytes size (omega arith) in
      let zeros : over (replicate size 0) buffer ≡ replicate size 0 =
        over_all (replicate size 0) buffer (omega (arith, length-replicate {A = ℕ} size 0)) in
      let result =
        over_all bytes (replicate size 0) (omega (arith, length-replicate {A = ℕ} size 0)) in
      rw
        (
          get_file,
          opened,
          b.read_count path size w opened,
          b.read_bytes path size w opened,
          same,
          whole,
          zeros,
          result,
          ls,
        )
        (refl, refl)

  length-with_magic :
      {size : ℕ} (config : List ℕ)
      → length config ≡ size
      → 8 ≤ size
      → length (with_magic h config) ≡ size
  unfolding store_word
  length-with_magic config lc large =
      let large' : 8 ≤ length config = omega arith in
      let long = length-over (store_word h.magic_1 ++ store_word h.magic_2) config large' in
      omega (arith, long)

  -- all the bytes were written
  written :
      (bytes config : List ℕ) {size : ℕ} (w : h.World) (fd : ℤ)
      → take size config ≡ bytes
      → length bytes ≡ size
      → is_below (h.io_write fd (take size config) w).0 size ≡ false
      → is_below (h.io_write fd bytes w).0 (length bytes) ≡ false
  written bytes config w fd whole total s = rw total (rw whole at s)

  -- a save that returns 0 leaves the settings, with their magic words, in the file
  content-set_config_ex :
      (config : List ℕ) (size : ℕ) (w : h.World)
      → length config ≡ size
      → 8 ≤ size
      → (set_config_ex h config size w).0 ≡ pos 0
      → b.content config_path (set_config_ex h config size w).2 ≡ with_magic h config
  unfolding set_config_ex
  content-set_config_ex config size w lc large saved =
      let fd = (h.open_write config_path w).0 in
      let w₁ = (h.open_write config_path w).1 in
      let total = length-with_magic config lc large in
      let whole : take size (with_magic h config) ≡ with_magic h config =
        take_all (with_magic h config) size (omega arith) in
      elim (Bool-cases (is_neg fd)) [
        | inl n ↦ absurd (cc (rw (set_config_ex, n) at saved))
        | inr n ↦
            elim (Bool-cases
              (is_below (h.io_write fd (take size (with_magic h config)) w₁).0 size)) [
                | inl s ↦ absurd (cc (rw (set_config_ex, n, s) at saved))
                | inr s ↦
                    rw (set_config_ex, n, s, whole)
                      (b.write_kept config_path (with_magic h config) w n
                        (written (with_magic h config) (with_magic h config) w₁ fd whole total s))
              ]
      ]

  -- Where a write that returns all its bytes leaves them in the file and a read returns the front of
  -- it: settings of the settings' size (8 bytes at least) that sctrlSESetConfig saves with result 0
  -- are what sctrlSEGetConfig then loads, with the two magic words in front, when it can open the
  -- file, and its result is their size.
  pub get_config-set_config :
      (config buffer : List ℕ) (w : h.World)
      → length config ≡ h.config_size
      → 8 ≤ h.config_size
      → length buffer ≡ h.config_size
      → (set_config h config w).0 ≡ pos 0
      → is_neg (h.open_read config_path (set_config h config w).2).0 ≡ false
      → ((get_config h buffer (set_config h config w).2).0 ≡ pos h.config_size)
        × ((get_config h buffer (set_config h config w).2).1 ≡ with_magic h config)
  unfolding get_config set_config get_config_ex
  get_config-set_config config buffer w lc large lb saved opened =
      get_file-whole config_path buffer (with_magic h config) h.config_size
        (set_config_ex h config h.config_size w).2 lb (length-with_magic config lc large)
        (content-set_config_ex config h.config_size w lc large saved) opened
