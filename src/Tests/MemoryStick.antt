-- ===== src/Tests/MemoryStick.antt =====
-- integration/adrenaline-v7/overlay/user/msfs.c at concrete inputs.
use adr_bubble_booter_oss.Prelude.{
  ℕ, is_neg, ◌<◌, ◌≤◌, ◌≡◌, ◌≢◌, refl, arith, List, [], ◌∷◌, ℤ, pos, negsuc, ◌+ℤ◌, some, ◌⊎◌, take,
  length, length-take, get_or, ap, pos_part, true, false,
}
use adr_bubble_booter_oss.Text.{codes}
use adr_bubble_booter_oss.Msfs.Filter.{directory_filter, filter_loop, skip_wild, seek, is_end}
use adr_bubble_booter_oss.Msfs.Filter.Sound.{Matches, directory_filter-Matches}
use adr_bubble_booter_oss.Msfs.Table.{
  Descriptor, empty, Table, describe, find_free, add_descriptor, get_descriptor, remove_descriptor,
}
use adr_bubble_booter_oss.Msfs.Table.Laws.{
  IsFree, IsValid, Full, add_descriptor_lem, remove_descriptor-add_descriptor,
}
use adr_bubble_booter_oss.Msfs.Paths.{build_path}
use adr_bubble_booter_oss.Msfs.Files.{trunc_path, path_of, open_file, close_file}
use adr_bubble_booter_oss.Msfs.Files.Handles.{close_file-open_file}
use adr_bubble_booter_oss.Msfs.Transfer.{Kernel, read, write}
use adr_bubble_booter_oss.Msfs.Transfer.Writes.{WritesWithin, write_lem}
use adr_bubble_booter_oss.Msfs.Transfer.Laws.{ReadsWithin, read_lem}

accepted : directory_filter (codes "a.iso") (codes "*.iso") ≡ true
unfolding directory_filter filter_loop skip_wild seek is_end
accepted = refl

directory_filter-Matches_example : Matches (codes "a.iso") (codes "*.iso")
directory_filter-Matches_example = directory_filter-Matches (codes "a.iso") (codes "*.iso") accepted

-- an open file at handle 0, and two free places
abbrev opened : Descriptor
opened = record empty { path = codes "/a"; fd = pos 7; extra = negsuc 0; offset = pos 5 }

abbrev table : Table
table = opened ∷ empty ∷ empty ∷ []

table-IsValid : IsValid table
table-IsValid = (λ q. cc, ((λ q. refl), ((λ q. refl), tt)))

add_descriptor_lem_example :
    let r = add_descriptor (pos 9) (codes "/b") 1 false false table in
    (Full table × (r ≡ (negsuc 0, table)))
    ⊎ ((i : ℕ) × (r.0 ≡ pos i)
        × IsFree (get_or table i empty)
        × (get_descriptor (pos i) r.1 ≡ some (describe (pos 9) (codes "/b") 1 false false))
        × ((j : ℕ) → j ≢ i → get_descriptor (pos j) r.1 ≡ get_descriptor (pos j) table)
        × (length r.1 ≡ length table)
        × IsValid r.1)
add_descriptor_lem_example =
    add_descriptor_lem (pos 9) (codes "/b") 1 false false table (λ q. cc) table-IsValid

abbrev table_with_b : Table
table_with_b = opened ∷ describe (pos 9) (codes "/b") 1 false false ∷ empty ∷ []

added : add_descriptor (pos 9) (codes "/b") 1 false false table ≡ (pos 1, table_with_b)
unfolding add_descriptor find_free
added = refl

remove_descriptor-add_descriptor_example : remove_descriptor (pos 1) table_with_b ≡ (pos 0, table)
remove_descriptor-add_descriptor_example =
    remove_descriptor-add_descriptor (pos 9) (codes "/b") 1 false false table 1 table_with_b
      table-IsValid added

-- A kernel whose every file holds "data" from the start, with pieces of at most three bytes.
abbrev kernel : Kernel
kernel = record {
  World = Unit {0};
  io_open = λ path flags w. (pos 7, w);
  io_dopen = λ path w. (pos 8, w);
  io_read = λ fd n w. (pos (length (take n (codes "data"))), take n (codes "data"), w);
  io_write = λ fd bytes w. (pos (length bytes), w);
  io_lseek = λ fd offset whence w. (offset, w);
  io_close = λ fd w. (pos 0, w);
  io_rename = λ a b w. (pos 0, w);
  io_remove = λ a w. (pos 0, w);
  malloc = λ n w. (some [], w);
  truncates = λ flags. true;
  read_only = 1;
  create_truncate = 2;
  transfer_size = 4;
  enodev = negsuc 18;
  einval = negsuc 21;
  seek_set = 0;
  max_io_size = 3;
  app_titleid = codes "ABCD00001";
  ms_location = pos 0;
}

kernel-ReadsWithin : ReadsWithin kernel
kernel-ReadsWithin = record {
  read_count = λ fd n m w e.
      let p : length (take n (codes "data")) ≡ m = ap pos_part e in
      (omega (arith, length-take n (codes "data")), p);
  enodev_neg = refl;
}

handle : get_descriptor (pos 0) table ≡ some opened
unfolding get_descriptor
handle = refl

read_lem_example :
    (res : ℤ) × (got : List ℕ) × (t' : Table) × (w' : Unit {0}) × (read kernel (pos 0) 8 table tt
      ≡ some (res, got, t', w'))
    × ((j : ℕ) → j ≢ 0 → get_descriptor (pos j) t' ≡ get_descriptor (pos j) table)
    × ((n : ℕ)
        → res ≡ pos n
        → (n ≤ 8)
          × (length got ≡ n)
          × (d' : Descriptor) × (get_descriptor (pos 0) t' ≡ some d')
          × (d'.offset ≡ pos 5 +ℤ pos n))
read_lem_example = read_lem kernel kernel-ReadsWithin 0 8 table tt opened handle

kernel-WritesWithin : WritesWithin kernel
kernel-WritesWithin = record {
  write_count = λ fd bytes m w e. let p : length bytes ≡ m = ap pos_part e in omega arith;
  enodev_neg = refl;
}

write_lem_example :
    (res : ℤ) × (t' : Table) × (w' : Unit {0}) × (write kernel (pos 0) (codes "bytes") 5 table tt
      ≡ some (res, t', w'))
    × ((j : ℕ) → j ≢ 0 → get_descriptor (pos j) t' ≡ get_descriptor (pos j) table)
    × ((n : ℕ)
        → res ≡ pos n
        → (n ≤ 5)
          × (d' : Descriptor) × (get_descriptor (pos 0) t' ≡ some d')
          × (d'.offset ≡ pos 5 +ℤ pos n)
          × (false ≡ true → d'.first_write_offset ≡ pos 0)
          × (false ≡ false → 0 < 5 → d'.first_write_offset ≡ pos 5))
write_lem_example = write_lem kernel kernel-WritesWithin 0 5 (codes "bytes") table tt opened handle

aside_b : trunc_path (path_of kernel (codes "/b")) ≡ some (codes "ux0:pspemu/b__TRUNC__")
unfolding trunc_path build_path
aside_b = refl

-- the table with "/b" open, set aside, at handle 1
abbrev table_opened : Table
table_opened = opened ∷ describe (pos 7) (codes "/b") 1 true false ∷ empty ∷ []

opened_b : open_file kernel (codes "/b") 1 table tt ≡ some (pos 1, table_opened, tt)
unfolding open_file trunc_path build_path
opened_b = refl

close_file-open_file_example :
    (q : ℤ × Table × Unit {0}) × (close_file kernel (pos 1) table_opened tt ≡ some q)
    × (is_neg q.0 ≡ true → q.1 ≡ table_opened)
    × (is_neg q.0 ≡ false → q.1 ≡ table)
close_file-open_file_example =
    close_file-open_file kernel (codes "/b") 1 table tt tt tt 1 table_opened
      (codes "ux0:pspemu/b__TRUNC__") refl table-IsValid aside_b opened_b
