-- ===== src/Tests/Listings.antt =====
-- A listing of msfs.c at concrete inputs.
use adr_bubble_booter_oss.Prelude.{
  ℕ, ◌≡◌, refl, arith, [], ◌∷◌, pos, negsuc, ◌==◌, true, if◌then◌else◌, some,
}
use adr_bubble_booter_oss.Text.{codes}
use adr_bubble_booter_oss.Msfs.Filter.{directory_filter}
use adr_bubble_booter_oss.Msfs.Table.{Descriptor, Table, empty, get_descriptor}
use adr_bubble_booter_oss.Msfs.Transfer.{Kernel}
use adr_bubble_booter_oss.Msfs.Folders.{Stat, Dirent, Host, convert_file_stat, put, dread}
use adr_bubble_booter_oss.Msfs.Folders.Listing.{dread-first_taken}

-- a folder of two files; the world is the number of those that have been given
abbrev kernel : Kernel
kernel = record {
  World = ℕ;
  io_open = λ path flags w. (pos 7, w);
  io_dopen = λ path w. (pos 8, 0);
  io_read = λ fd n w. (pos 0, [], w);
  io_write = λ fd bytes w. (pos 0, w);
  io_lseek = λ fd offset whence w. (offset, w);
  io_close = λ fd w. (pos 0, w);
  io_rename = λ a b w. (pos 0, w);
  io_remove = λ a w. (pos 0, w);
  malloc = λ n w. (some [], w);
  truncates = λ flags. true;
  read_only = 1;
  create_truncate = 2;
  transfer_size = 4;
  enodev = negsuc 18;
  einval = negsuc 21;
  seek_set = 0;
  max_io_size = 3;
  app_titleid = codes "ABCD00001";
  ms_location = pos 0;
}

abbrev stat : Stat
stat = record { mode = 1; attr = 0; times = [] }

abbrev text_file : Dirent
text_file = record { name = codes "a.txt"; stat = stat }

abbrev image_file : Dirent
image_file = record { name = codes "b.iso"; stat = stat }

abbrev host : Host ℕ
host = record {
  io_dread = λ fd dir w.
      if w == 0
      then (pos 1, text_file, 1)
      else if w == 1
      then (pos 1, image_file, 2)
      else (pos 0, dir, w);
  io_getstat = λ path s w. (pos 0, s, w);
  io_dclose = λ fd w. (pos 0, w);
  io_chstat = λ path s bits w. (pos 0, w);
  io_mkdir = λ path mode w. (pos 0, w);
  io_rmdir = λ path w. (pos 0, w);
  to_local = λ times. times;
  to_utc = λ times. times;
  is_dir = λ mode. mode == 2;
  is_reg = λ mode. mode == 1;
  with_dir = λ attr. 16;
  with_reg = λ attr. 32;
  folder_mode = 2;
  folder_attr = 16;
  clear_bits = λ bits. bits;
}

abbrev listing : Descriptor
listing = record empty { fd = pos 8; folder = true; extra = negsuc 0; filter = codes "*.iso" }

abbrev table : Table
table = listing ∷ []

held : get_descriptor (pos 0) table ≡ some listing
unfolding get_descriptor
held = refl

dread-first_taken_example :
    (w : ℕ) × (dread kernel host 3 (pos 0) text_file table 0
      ≡ some (
        pos 1,
        record image_file { stat = convert_file_stat host stat },
        put kernel host (pos 0) listing table,
        w,
      ))
unfolding directory_filter
dread-first_taken_example =
    dread-first_taken kernel host (text_file ∷ image_file ∷ []) 3 (pos 0) listing table text_file 0
      held refl (1, (λ dir. refl), (2, (λ dir. refl), λ dir. (dir, 2, refl))) (omega arith)
