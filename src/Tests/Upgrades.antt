-- ===== src/Tests/Upgrades.antt =====
-- A boot.bin of the legacy size on a system that holds one file: the world is its content.
use adr_bubble_booter_oss.Prelude.{ℕ, refl, List, [], ◌∷◌, length, take, replicate, pos}
use adr_bubble_booter_oss.Text.{codes}
use adr_bubble_booter_oss.BootInfo.{BootInfo}
use adr_bubble_booter_oss.Vita.{Vita, OpenMode, read_only, create_truncate}
use adr_bubble_booter_oss.Bubble.Upgraded.{Stores}

abbrev behind_open : OpenMode → List ℕ → List ℕ
behind_open read_only w = w
behind_open create_truncate w = []

abbrev vita : Vita
vita = record {
  World = List ℕ;
  tai_get_module_info = λ w. (pos 0, w);
  app_mgr_get_name = λ w. (codes "ABCD00001", w);
  exit_process = λ code w. (pos 0, w);
  io_getstat = λ path w. (pos 0, w);
  io_open = λ path mode w. (pos 3, behind_open mode w);
  io_lseek_end = λ fd w. (pos (length w), w);
  io_read = λ fd size w. ((pos (length (take size w)), take size w), w);
  io_write = λ fd bytes w. (pos (length bytes), bytes);
  io_close = λ fd w. (pos 0, w);
  io_remove = λ path w. (pos 0, []);
}

vita-Stores : Stores vita (codes "boot.bin")
vita-Stores = record {
  content = λ w. w;
  opens = λ w. refl;
  creates = λ w. refl;
  open_kept = λ w. refl;
  seek_kept = λ fd w. refl;
  read_kept = λ fd size w. refl;
  close_kept = λ fd w. refl;
  end_found = λ w. refl;
  bytes_read = λ size w. refl;
  write_kept = λ bytes w. refl;
}

abbrev old : List ℕ
old = 5 ∷ 6 ∷ 7 ∷ 8 ∷ 1 ∷ replicate 283 0
