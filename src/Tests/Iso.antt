-- ===== src/Tests/Iso.antt =====
-- isofs_driver.c at concrete inputs: an image with one file, A, of five bytes in sector 1.
use adr_bubble_booter_oss.Prelude.{
  ℕ, ◌*◌, ◌≡◌, refl, arith, List, [], ◌∷◌, ◌++◌, ℤ, pos, negsuc, ◌==◌, not, get_or, set, drop,
  replicate, Option, none, some,
}
use adr_bubble_booter_oss.Text.{codes}
use adr_bubble_booter_oss.Isofs.{no_entry, Errors, Image, Driver, Run, done}
use adr_bubble_booter_oss.Isofs.Ends.{Ends}
use adr_bubble_booter_oss.Isofs.Names.{parts, get_path_and_name}
use adr_bubble_booter_oss.Isofs.Names.Laws.{IsSkipped, IsCut, get_path_and_name_lem}
use adr_bubble_booter_oss.Isofs.Search.Laws.{AllNegative}
use adr_bubble_booter_oss.Isofs.Read.Laws.Slices.{slice}
use adr_bubble_booter_oss.Isofs.Read.Laws.Bytes.{file_at}
use adr_bubble_booter_oss.Isofs.Files.{cleared, opened_handle, isofs_open, isofs_read}
use adr_bubble_booter_oss.Isofs.Files.Table.{Opens}
use adr_bubble_booter_oss.Isofs.Files.Opened.{isofs_open-Opens}
use adr_bubble_booter_oss.Isofs.Files.Session.{
  starts, goes_on, resets, opens, initial, Reaches-IsSound,
}
use adr_bubble_booter_oss.Isofs.Files.Calls.{IsSound}
use adr_bubble_booter_oss.Isofs.Files.Bytes.{isofs_read-slice}

get_path_and_name_lem_example :
    (path : List ℕ) × (file : List ℕ) × IsSkipped (codes "/GAME/") path
    × IsCut (codes "A;1") file
    × (get_path_and_name (codes "/GAME/A;1") ≡ done (parts path file))
    × (get_path_and_name (codes "/GAME/A;1/") ≡ done (parts path file))
get_path_and_name_lem_example =
    get_path_and_name_lem (codes "/GAME") b'A' (codes ";1")
      ((λ q. cc), ((λ q. cc), ((λ q. cc), tt))) (omega arith)

-- a record of 40 bytes for the file A, and the file's bytes in the next sector
abbrev bytes : List ℕ
bytes = 40 ∷ 1 ∷ 5 ∷ 0 ∷ 1 ∷ b'A' ∷ replicate 26 0 ++ codes "hello"

abbrev disc : ℕ → ℕ
disc i = get_or bytes i 0

abbrev errors : Errors
errors = record {
  ebadf = negsuc 8;
  efbig = negsuc 26;
  eflag = negsuc 99;
  einval = negsuc 21;
  eio = negsuc 4;
  emfile = negsuc 23;
  enametoolong = negsuc 90;
  enoent = negsuc 1;
  enotdir = negsuc 19;
}

abbrev read_disc : ℤ → ℕ → ℕ → ℤ × List ℕ × ℕ
read_disc (pos l) n w = (pos n, slice disc (l * 32) (n * 32), w)
read_disc (negsuc l) n w = (negsuc 0, [], w)

abbrev image : Image
image = record {
  World = ℕ;
  read_sectors2 = read_disc;
  malloc = λ n w. (some (replicate n 255), w);
  entry_at = λ b. record {
    len_dr = get_or b 0 0;
    lsb_start = pos (get_or b 1 0);
    lsb_data_length = pos (get_or b 2 0);
    is_directory = not (get_or b 3 0 == 0);
    len_fi = get_or b 4 0;
    fi = drop 5 b;
  };
  entry_size = 6;
  sector_size = 32;
  strtol = λ s. pos 0;
  is_not_allowed = λ flags. not (flags == 1);
  seek_set = pos 0;
  seek_cur = pos 1;
  seek_end = pos 2;
  errors = errors;
}

negative : AllNegative errors
negative = record {
  enoent_neg = refl;
  einval_neg = refl;
  enotdir_neg = refl;
  emfile_neg = refl;
  eflag_neg = refl;
  enametoolong_neg = refl;
}

-- behind isofs_init: the root folder is one sector
abbrev driver : Driver
driver = record (cleared (some (replicate {A = ℕ} 320 0))) {
  main_record = record no_entry { lsb_data_length = pos 32 };
}

isofs_open-Opens_example :
    Ends (Opens image driver.handlers) (isofs_open image (some (codes "/A")) 1 driver 0)
isofs_open-Opens_example = isofs_open-Opens image negative (some (codes "/A")) 1 driver 0

abbrev result_of : Run (ℤ × Driver × ℕ) → Option ℤ
result_of (done r) = some r.0
result_of _ = none

first_handle : result_of (isofs_open image (some (codes "/A")) 1 driver 0) ≡ some (pos 1)
unfolding isofs_open slice
first_handle = refl

-- after isofs_reset and the opening of the root
abbrev session : Driver
session = record (cleared none) {
  handlers = set (cleared none).handlers 1 (opened_handle (pos 0) (pos 0));
}

root_opened : isofs_open image (some (codes "/")) 1 (cleared none) 0 ≡ done (pos 1, session, 0)
unfolding isofs_open
root_opened = refl

Reaches-IsSound_example : IsSound session
Reaches-IsSound_example = Reaches-IsSound image negative session (
    goes_on (cleared none) session (goes_on initial (cleared none) starts (resets initial))
      (opens (some (codes "/")) 1 (cleared none) 0 (pos 1, session, 0) root_opened))

-- the file A at its second byte
abbrev reading : Driver
reading = record driver { handlers = set driver.handlers 1 (file_at 1 5 1) }

isofs_read-slice_example :
    (d : Driver) × (w : ℕ) × (isofs_read image (pos 1) (pos 9) reading 0
      ≡ done (pos 4, slice disc 33 4, d, w))
    × (d.handlers ≡ set reading.handlers 1 (file_at 1 5 5))
isofs_read-slice_example =
    isofs_read-slice image disc (λ l n w. refl) (omega arith) 1 1 5 1 9 (replicate {A = ℕ} 320 0)
      reading 0 (omega arith) refl refl (omega arith)

read_bytes : slice disc 33 4 ≡ codes "ello"
unfolding slice
read_bytes = refl
