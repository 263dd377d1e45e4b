-- ===== src/Tests/Launches.antt =====
-- src/vita/adrbubblebooter/main.c and src/psp/booter/main.c on a system that holds one file.
use adr_bubble_booter_oss.Prelude.{
  ℕ, ◌≤◌, ◌≡◌, refl, arith, List, [], ◌∷◌, ◌++◌, pos, is_neg, Option, none, some, replicate, take,
  length, length-take, ◌≢◌, ◌^◌, Bool, get_or, ◌==◌, eqb_ℤ, if◌then◌else◌, true, false, ap, ◌∙◌,
  sym, subst,
}
use adr_bubble_booter_oss.Text.{codes, c_string}
use adr_bubble_booter_oss.Vita.{Vita}
use adr_bubble_booter_oss.Vita.Defined.{Defined, ReadsWithin}
use adr_bubble_booter_oss.Vita.Files.{get_file_size, read_file, write_file}
use adr_bubble_booter_oss.BootInfo.{BootInfo, zero_boot_info, load_boot_info, store_boot_info}
use adr_bubble_booter_oss.Bubble.{
  config_size_of, config_fallback_size, upgrade, load_legacy, until_zero,
}
use adr_bubble_booter_oss.Bubble.Launch.{
  module_start, load_boot, load_legacy_boot, load_current_boot,
}
use adr_bubble_booter_oss.Bubble.Safe
use adr_bubble_booter_oss.Bubble.Safe.{module_start-Defined}
use adr_bubble_booter_oss.Booter.Thread.{Psp, boot_content}
use adr_bubble_booter_oss.Booter.Kinds
use adr_bubble_booter_oss.Booter.Launch.{Launched, boot_content_iff}

-- The boot record of the title ABCD00001, which the system stores with its whole size; every other
-- file has 0x60 bytes.
abbrev file : List ℕ
file = 0x41 ∷ 0x42 ∷ 0x42 ∷ 0 ∷ 1 ∷ 0 ∷ 0 ∷ 0 ∷ (replicate 56 0 ++ codes "ux0:pspemu/a")

abbrev is_global : List ℕ → Bool
is_global path = get_or path 8 0 == b'P'

abbrev vita : Vita
vita = record {
  World = Unit {0};
  tai_get_module_info = λ w. (pos 0, w);
  app_mgr_get_name = λ w. (codes "ABCD00001" ++ (0 ∷ []), w);
  exit_process = λ code w. (pos 0, w);
  io_getstat = λ path w. (pos 0, w);
  io_open = λ path mode w. (if is_global path then pos 4 else pos 3, w);
  io_lseek_end = λ fd w. (if eqb_ℤ fd (pos 4) then pos 0x60 else pos 0x140, w);
  io_read = λ fd size w. ((pos (length (take size file)), take size file), w);
  io_write = λ fd bytes w. (pos (length bytes), w);
  io_close = λ fd w. (pos 0, w);
  io_remove = λ path w. (pos 0, w);
}

vita-ReadsWithin : ReadsWithin vita
vita-ReadsWithin fd size w = omega (arith, length-take size file)

vita-name : c_string (codes "ABCD00001" ++ (0 ∷ [])) ≡ some (codes "ABCD00001")
unfolding c_string
vita-name = refl

vita-size : get_file_size vita (codes "ux0:app/PSPEMUCFW/adrenaline.bin") tt ≡ some (pos 0x60, tt)
unfolding get_file_size
vita-size = refl

vita-config : config_size_of (pos 0x60) ≤ config_fallback_size
unfolding config_size_of
vita-config = omega arith

abbrev result_or : {A W : Type 0} → A → Option (A × W) → A
result_or d none = d
result_or d (some (a, w)) = a

abbrev FitsBoot : BootInfo → Type 0
FitsBoot b =
    (s : List ℕ) × (c_string b.file_path ≡ some s)
    × (length b.file_path ≤ 256)
    × (b.loadstate ≢ 2 ^ 31)

-- the system where every file is the settings, or none is
abbrev vita_with : Bool → Vita
vita_with t = record vita { io_open = λ path mode w. (if t then pos 4 else pos 3, w) }

vita_with-boot :
    (t : Bool) (path : List ℕ) (w' : Unit {0}) (b : BootInfo)
    → load_boot (vita_with t) false path tt ≡ some (b, w')
    → FitsBoot b
unfolding load_boot load_legacy load_legacy_boot load_current_boot upgrade until_zero read_file
    write_file get_file_size c_string load_boot_info store_boot_info
vita_with-boot true path w' b h =
    subst FitsBoot (ap (result_or zero_boot_info) h) ([], refl, omega arith, omega arith)
vita_with-boot false path w' b h =
    subst FitsBoot (ap (result_or zero_boot_info) h)
      (codes "ux0:pspemu/a", refl, omega arith, omega arith)

vita-boot :
    (path : List ℕ) (w w' : Unit {0}) (b : BootInfo)
    → load_boot vita false path w ≡ some (b, w')
    → FitsBoot b
unfolding load_boot load_legacy load_legacy_boot load_current_boot upgrade until_zero read_file
    write_file get_file_size c_string load_boot_info store_boot_info
vita-boot path w w' b h = vita_with-boot (is_global path) path w' b h

vita-Relied : Safe.Relied vita false
vita-Relied = record {
  reads = vita-ReadsWithin;
  name_fits = λ w. omega arith;
  name_ends = λ w. (codes "ABCD00001", vita-name);
  config_fits = λ w w' size e.
      subst (λ z. config_size_of z ≤ config_fallback_size)
        (ap (result_or (pos 0)) (sym vita-size ∙ e)) vita-config;
  boot_fits = λ id. vita-boot (codes "ux0:app/" ++ (id ++ codes "/data/boot.bin"));
}

module_start-Defined_example : Defined (module_start vita false) tt
module_start-Defined_example = module_start-Defined vita false vita-Relied tt

abbrev psp : Psp
psp = record {
  World = Unit {0};
  io_open = λ path w. (pos 3, w);
  io_read = λ fd size w. ((pos (length (take size file)), take size file), w);
  io_lseek = λ fd offset w. (tt, w);
  io_close = λ fd w. (tt, w);
  io_getstat = λ path w. (pos 0, w);
  flush_caches = λ w. (tt, w);
  request = λ r w. (tt, w);
  load_exec_vsh = λ e w. (pos 0, w);
  pbp_header_size = 0x28;
  psar_offset = λ header. 0;
}

psp-Relied : Kinds.Relied psp (replicate 0x28 0) (replicate 16 0) (replicate 12 0)
psp-Relied = record {
  reads = λ fd size w. omega (arith, length-take size file);
  pbp_header_fits = omega arith;
  header_fits = refl;
  title_fits = omega arith;
}

boot_content_iff_example :
    (is_neg (pos 3) ≡ false
      → Launched psp false zero_boot_info
          (codes "ms0:/a")
          (replicate 0x28 0)
          (replicate 16 0)
          (replicate 12 0)
          tt)
    × (is_neg (pos 3) ≡ true
        → boot_content psp false zero_boot_info
            (codes "ms0:/a")
            (replicate 0x28 0)
            (replicate 16 0)
            (replicate 12 0)
            tt
          ≡ none)
boot_content_iff_example =
    boot_content_iff psp false zero_boot_info (codes "ms0:/a") (replicate 0x28 0) (replicate 16 0)
      (replicate 12 0) tt psp-Relied refl
