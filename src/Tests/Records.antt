-- ===== src/Tests/Records.antt =====
-- boot.bin, paths and locations at concrete inputs.
use adr_bubble_booter_oss.Prelude.{ℕ, ◌≡◌, refl, arith, List, [], ◌++◌, pos, some, replicate, false}
use adr_bubble_booter_oss.Text.{codes, c_string}
use adr_bubble_booter_oss.BootInfo.{BootInfo, zero_boot_info, boot_info_magic}
use adr_bubble_booter_oss.BootInfo.Codec.{IsValid}
use adr_bubble_booter_oss.Bubble.{get_pspemu_root, location_of}
use adr_bubble_booter_oss.Bubble.Location.{Free, location_of-root}
use adr_bubble_booter_oss.Booter.{rebase_path}
use adr_bubble_booter_oss.Booter.Paths.{rebase_path_lem}
use adr_bubble_booter_oss.Msfs.Paths.{build_path, has_prefix}
use adr_bubble_booter_oss.Roundtrip.{build_path-rebase_path}

-- a record for ur0:pspemu/ISO/g.iso
abbrev record_of_game : BootInfo
record_of_game = record zero_boot_info {
  magic = boot_info_magic;
  driver = 1;
  file_path = codes "ur0:pspemu/ISO/g.iso" ++ replicate 236 0;
}

record_of_game-IsValid : IsValid record_of_game
record_of_game-IsValid = record {
  words_fit = (
    omega arith,
    (
      omega arith,
      (
        omega arith,
        (
          omega arith,
          (
            omega arith,
            (
              omega arith,
              (
                omega arith,
                (
                  omega arith,
                  (
                    omega arith,
                    (
                      omega arith,
                      (
                        omega arith,
                        (
                          omega arith,
                          (omega arith, (omega arith, (omega arith, (omega arith, tt)))),
                        ),
                      ),
                    ),
                  ),
                ),
              ),
            ),
          ),
        ),
      ),
    ),
  );
  reserved_size = refl;
  path_size = refl;
}

game_path : c_string record_of_game.file_path ≡ some (codes "ur0:pspemu/ISO/g.iso")
unfolding c_string
game_path = refl

Free-game : Free b':' (codes "/ISO/g.iso")
Free-game = (
  omega arith,
  (
    omega arith,
    (
      omega arith,
      (
        omega arith,
        (
          omega arith,
          (omega arith, (omega arith, (omega arith, (omega arith, (omega arith, tt))))),
        ),
      ),
    ),
  ),
)

location_of-root_example : location_of (get_pspemu_root (pos 1) ++ codes "/ISO/g.iso") ≡ some 1
location_of-root_example =
    location_of-root 1 (codes "/ISO/g.iso") (omega arith) Free-game (omega arith)

rebase_path_lem_example :
    (file_path : List ℕ) × (rebase_path record_of_game
      ≡ some (record record_of_game { file_path = file_path }, codes "ms0:/ISO/g.iso"))
    × (c_string file_path ≡ some (codes "ms0:/ISO/g.iso"))
rebase_path_lem_example =
    rebase_path_lem record_of_game (codes "ur0") (codes "/ISO/g.iso") Free-game (omega arith)
      game_path

no_adrenaline : has_prefix (codes "ISO/g.iso") (codes "__ADRENALINE__") ≡ false
unfolding has_prefix
no_adrenaline = refl

no_app_id : has_prefix (codes "ISO/g.iso") (codes "__APPID__") ≡ false
unfolding has_prefix
no_app_id = refl

build_path-rebase_path_example :
    (location_of (get_pspemu_root (pos 1) ++ codes "/ISO/g.iso") ≡ some 1)
    × ((file_path : List ℕ) × (rebase_path record_of_game
          ≡ some (record record_of_game { file_path = file_path }, codes "ms0:/ISO/g.iso")))
    × (build_path [] (pos 1) (codes "/ISO/g.iso") ≡ get_pspemu_root (pos 1) ++ codes "/ISO/g.iso")
unfolding get_pspemu_root
build_path-rebase_path_example =
    build_path-rebase_path 1 (codes "ISO/g.iso") record_of_game [] (omega arith) Free-game.1
      (omega arith) no_adrenaline no_app_id game_path
