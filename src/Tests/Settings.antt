-- ===== src/Tests/Settings.antt =====
-- conf.c with a flash that holds one file: the world is its content.
use adr_bubble_booter_oss.Prelude.{ℕ, ◌≡◌, refl, arith, List, [], ◌∷◌, pos, length, take, replicate}
use adr_bubble_booter_oss.Text.{codes}
use adr_bubble_booter_oss.Conf.{Host, with_magic, get_config, set_config}
use adr_bubble_booter_oss.Conf.Saved.{Behaves, get_config-set_config}

abbrev host : Host
host = record {
  World = List ℕ;
  open_read = λ path w. (pos 3, w);
  open_write = λ path w. (pos 3, []);
  io_read = λ fd size w. (pos (length (take size w)), take size w, w);
  io_write = λ fd bytes w. (pos (length bytes), bytes);
  io_close = λ fd w. w;
  magic_1 = 0x31483943;
  magic_2 = 0x334F4E33;
  config_size = 12;
  booter_size = 0x140;
}

host-Behaves : Behaves host
host-Behaves = record {
  content = λ path w. w;
  write_kept = λ path bytes w opened whole. refl;
  read_count = λ path size w opened. refl;
  read_bytes = λ path size w opened. refl;
}

get_config-set_config_example :
    ((get_config host (replicate 12 7) (set_config host (replicate 12 9) (codes "old")).2).0
      ≡ pos 12)
    × ((get_config host (replicate 12 7) (set_config host (replicate 12 9) (codes "old")).2).1
        ≡ with_magic host (replicate 12 9))
unfolding set_config
get_config-set_config_example =
    get_config-set_config host host-Behaves (replicate 12 9) (replicate 12 7) (codes "old") refl
      (omega arith) refl refl refl

loaded :
    (get_config host [] (set_config host (replicate 12 9) (codes "old")).2).1
    ≡ 0x43 ∷ 0x39 ∷ 0x48 ∷ 0x31 ∷ 0x33 ∷ 0x4E ∷ 0x4F ∷ 0x33 ∷ 9 ∷ 9 ∷ 9 ∷ 9 ∷ []
unfolding get_config set_config
loaded = refl
