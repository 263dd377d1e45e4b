-- ===== src/Bubble/Safe.antt =====
-- src/vita/adrbubblebooter/main.c stays inside its arrays and never reads an unterminated string.
use adr_bubble_booter_oss.Prelude.{
  ℕ, ◌<◌, ◌≤◌, ◌≡◌, ◌≢◌, ◌^◌, List, [], ◌∷◌, ◌++◌, length, arith, some, length-append, take,
  if◌then◌else◌, ◌==◌, ℤ, pos, Bool, leb, true, not, eqb_ℤ, ◌-ℤ◌, replicate, is_neg,
}
use adr_bubble_booter_oss.Minilibc.Format.{str, int}
use adr_bubble_booter_oss.Minilibc.Format.Render.{piece_text}
use adr_bubble_booter_oss.Minilibc.Format.{decimal}
use adr_bubble_booter_oss.Text.{codes, c_string, to_int32, equal_folded}
use adr_bubble_booter_oss.Vita.{Vita, sprintf_into}
use adr_bubble_booter_oss.Vita.Files.{get_file_size}
use adr_bubble_booter_oss.Vita.Defined.{
  Defined, Defined-pure, Defined-call, Defined-need, Defined-if, Defined-bind, Defined-require,
  Defined-sprintf_into, sprintf_into-text, ReadsWithin, check_file-Defined, get_file_size-Defined,
  read_file-Defined, read_file-length, write_file-Defined,
}
use adr_bubble_booter_oss.BootInfo.{
  BootInfo, boot_info_size, store_boot_info, load_boot_info, zero_boot_info,
}
use adr_bubble_booter_oss.Bubble.{
  location_of, legacy_size, load_legacy, upgrade, set_location, get_pspemu_root,
  adrenaline_title_id, config_size_of, config_fallback_size,
}
use adr_bubble_booter_oss.Bubble.Launch.{
  load_legacy_boot, load_current_boot, load_custom, load_boot, load_config, save_config,
  start_bubble, launch_bubble, module_start,
}
use adr_bubble_booter_oss.Bubble.Texts.{
  savestate_text, boot_path_text, config_path_text, length-decimal, length-root, c_string-lt,
  location_of_total,
}

-- the savestate path fits its 128 bytes
savestate-Defined :
    {W : Type 0} (n loadstate : ℕ) (w : W)
    → Defined
        (sprintf_into 128
          (codes "%s/PSP/SAVESTATE/STATE%02d.BIN")
          (str (get_pspemu_root (pos n)) ∷ int (to_int32 (to_int32 (pos loadstate) -ℤ pos 1)) ∷ []))
        w
savestate-Defined n loadstate w =
    let slot = to_int32 (to_int32 (pos loadstate) -ℤ pos 1) in
    let digits = piece_text (decimal slot 2 b'0') in
    let root = get_pspemu_root (pos n) in
    Defined-sprintf_into 128 _ _ _ w (savestate_text root slot) (
      omega (
        arith,
        length-append root (codes "/PSP/SAVESTATE/STATE" ++ (digits ++ codes ".BIN")),
        length-append digits (codes ".BIN"),
        length-root n,
        length-decimal slot b'0',
      ))

load_config-Defined :
    (v : Vita) (isage : Bool) (b : BootInfo) (path custom : List ℕ) (w : v.World)
    → ReadsWithin v
    → ((size : ℤ) (w' : v.World)
        → get_file_size v path w ≡ some (size, w')
        → config_size_of size ≤ config_fallback_size)
    → Defined (load_config v isage b path custom) w
unfolding load_config load_custom
load_config-Defined v isage b path custom w reads fit =
    Defined-bind _ _ w (get_file_size-Defined v path w) (λ size w' e.
      let fits = fit size w' e in
      Defined-bind _ _ w'
        (Defined-require (leb (config_size_of size) config_fallback_size) w' (ground (arith, fits)))
        (λ u w₂ e₂.
          Defined-bind _ _ w₂
            (read_file-Defined v path (replicate config_fallback_size 0) (config_size_of size) w₂
              reads fits)
            (λ r w₃ e₃.
              Defined-bind _ _ w₃
                (Defined-if (b.customized == 1) _ _ w₃
                  (Defined-bind _ _ w₃
                    (read_file-Defined v custom r.1 (config_size_of size) w₃ reads (
                      omega (
                        arith,
                        fits,
                        read_file-length v path (replicate config_fallback_size 0)
                            (config_size_of size) w₂ w₃ r e₃,
                      )))
                    (λ s w₄ e₄. Defined-pure s.1 w₄))
                  (Defined-pure r.1 w₃))
                (λ s w₄ e₄. Defined-pure (config_size_of size, s) w₄))))

module _ (v : Vita) (isage : Bool) where
  abbrev adrenaline_config : List ℕ
  adrenaline_config = codes "ux0:app/PSPEMUCFW/adrenaline.bin"

  -- the boot record of a title
  abbrev boot_of : List ℕ → List ℕ
  boot_of id = codes "ux0:app/" ++ (id ++ codes "/data/boot.bin")

  -- What the calls are relied on for: reads stay within what was asked, the name of the title fits
  -- its twelve bytes with its zero byte, the global settings file is no longer than the array for it,
  -- and in the boot record of a title the path ends inside its array and the number of the savestate
  -- is not the least int.
  pub record Relied : Type 0 where
    pub reads : ReadsWithin v
    pub name_fits : (w : v.World) → length (v.app_mgr_get_name w).0 ≤ 12
    pub name_ends : (w : v.World) → (s : List ℕ) × (c_string (v.app_mgr_get_name w).0 ≡ some s)
    pub config_fits :
        (w w' : v.World) (size : ℤ)
        → get_file_size v adrenaline_config w ≡ some (size, w')
        → config_size_of size ≤ config_fallback_size
    pub boot_fits :
        (id : List ℕ) (w w' : v.World) (b : BootInfo)
        → load_boot v isage (boot_of id) w ≡ some (b, w')
        → (s : List ℕ) × (c_string b.file_path ≡ some s)
          × (length b.file_path ≤ 256)
          × (b.loadstate ≢ 2 ^ 31)

  module _ (relied : Relied) where
    load_boot-Defined : (path : List ℕ) (w : v.World) → Defined (load_boot v isage path) w
    unfolding load_boot load_legacy_boot load_current_boot
    load_boot-Defined path w = Defined-bind _ _ w (get_file_size-Defined v path w) (λ size w' e.
        Defined-if (not (eqb_ℤ size (pos boot_info_size))) _ _ w'
          (Defined-bind _ _ w'
            (read_file-Defined v path (replicate legacy_size 0) legacy_size w' relied.reads
              (omega arith))
            (λ r w₂ e₂.
              Defined-bind _ _ w₂ (write_file-Defined v path _ w₂)
                (λ n w₃ e₃. Defined-pure (upgrade (load_legacy r.1)) w₃)))
          (Defined-bind _ _ w'
            (read_file-Defined v path (store_boot_info zero_boot_info) boot_info_size w'
              relied.reads (unfold store_boot_info in omega arith))
            (λ r w₂ e₂. Defined-pure (load_boot_info r.1) w₂)))

    save_config-Defined :
        (b : BootInfo) (file_path : List ℕ) (location size : ℕ) (config path custom : List ℕ)
        (w : v.World)
        → Defined (save_config v isage b file_path location size config path custom) w
    unfolding save_config
    save_config-Defined b file_path location size config path custom w =
        Defined-bind _ _ w (check_file-Defined v file_path w) (λ found w' e.
          Defined-if (is_neg found) _ _ w' (Defined-call (v.exit_process (pos 0)) w') (
            Defined-bind _ _ w'
              (write_file-Defined v (if b.customized == 1 then custom else path)
                (take size (set_location isage config location)) w')
              (λ n w₂ e₂.
                Defined-if (is_neg n) _ _ w₂ (Defined-call (v.exit_process (pos 0)) w₂)
                  (Defined-pure (pos 0) w₂))))

    start_bubble-Defined :
        (id custom boot : List ℕ) (w : v.World)
        → boot_of id ≡ boot
        → Defined (start_bubble v isage boot custom adrenaline_config) w
    unfolding start_bubble
    start_bubble-Defined id custom boot w same =
        let path = adrenaline_config in
        Defined-bind _ _ w (load_boot-Defined boot w) (λ b w₁ e₁.
          let (s, ends, size, slot) = relied.boot_fits id w w₁ b (rw same e₁) in
          let slot' : not (b.loadstate == 2 ^ 31) ≡ true = ground arith in
          let (n, located) =
            location_of_total s (omega (arith, size, c_string-lt b.file_path ends)) in
          Defined-bind _ _ w₁
            (load_config-Defined v isage b path custom w₁ relied.reads
              (λ size w' e. relied.config_fits w₁ w' size e))
            (λ c w₂ e₂.
              Defined-bind _ _ w₂ (Defined-need (c_string b.file_path) s w₂ ends) (λ s' w₃ e₃.
                let same : s ≡ s' = ground (arith, ends, e₃) in
                Defined-bind _ _ w₃ (Defined-need (location_of s') n w₃ (rw (← same) located))
                  (λ m w₀ e₀. Defined-bind _ _ w₀ (Defined-require _ w₀ slot') (λ u w₄ e₄.
                    Defined-bind _ _ w₄ (savestate-Defined m b.loadstate w₄) (λ p w₅ e₅.
                      let save = save_config-Defined b s' m c.0 c.1 path custom in
                      Defined-if (b.loadstate == 0) _ _ w₅ (save w₅) (
                        Defined-bind _ _ w₅ (check_file-Defined v p w₅) (λ found w₆ e₆.
                          Defined-if (is_neg found) _ _ w₆ (save w₆)
                            (Defined-pure (pos 0) w₆)))))))))

    launch_bubble-Defined :
        (id : List ℕ) (w : v.World) → length id < 12 → Defined (launch_bubble v isage id) w
    unfolding launch_bubble
    launch_bubble-Defined id w short =
        let rest = codes "/data/config.bin" in
        Defined-if (equal_folded id adrenaline_title_id) _ _ w (Defined-pure (pos 0) w) (
          Defined-bind _ _ w
            (Defined-sprintf_into 64 _ _ _ w (boot_path_text id)
              (omega (arith, length-append id (codes "/data/boot.bin"))))
            (λ boot w₁ e₁.
              Defined-bind _ _ w₁
                (Defined-sprintf_into 64 _ _ _ w₁ (config_path_text id)
                  (omega (arith, length-append id rest)))
                (λ custom w₂ e₂.
                  let boot_is = sprintf_into-text 64 _ _ _ boot w w₁ (boot_path_text id) e₁ in
                  Defined-bind _ _ w₂ (check_file-Defined v boot w₂) (λ present w₃ e₃.
                    Defined-if (is_neg present) _ _ w₃ (Defined-call (v.exit_process (pos 0)) w₃)
                      (start_bubble-Defined id custom boot w₃ boot_is)))))

    -- If a read returns at most the bytes asked for, the title's name fits its twelve bytes with its
    -- zero byte, the global settings file is at most as long as the array for it, and in the title's
    -- boot record the path ends inside its array and the number of the savestate is not the least int,
    -- then every launch has a result: no step of module_start writes outside an array, reads a string
    -- without its end, compares NULL, or overflows that number.
    pub module_start-Defined : (w : v.World) → Defined (module_start v isage) w
    unfolding module_start
    module_start-Defined w =
        Defined-bind _ _ w (Defined-call v.tai_get_module_info w) (λ info w₁ e₁.
          Defined-if (is_neg info) _ _ w₁ (Defined-call (v.exit_process (pos 0)) w₁) (
            Defined-bind _ _ w₁ (Defined-call v.app_mgr_get_name w₁) (λ name w₂ e₂.
              let same : (v.app_mgr_get_name w₁).0 ≡ name = ground arith in
              let (s, ends) = relied.name_ends w₁ in
              let ends' : c_string name ≡ some s = rw (← same) ends in
              let lt : length s < length name = c_string-lt name ends' in
              let le : length name ≤ 12 = rw (← same) (relied.name_fits w₁) in
              let fits : leb (length name) 12 ≡ true = ground arith in
              Defined-bind _ _ w₂ (Defined-require (leb (length name) 12) w₂ fits) (λ u w₃ e₃.
                Defined-bind _ _ w₃ (Defined-need (c_string name) s w₃ ends') (λ id w₄ e₄.
                  let id_is : s ≡ id = ground (arith, ends', e₄) in
                  launch_bubble-Defined id w₄ (rw (← id_is) (omega arith)))))))
