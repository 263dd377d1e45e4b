-- ===== src/Msfs/Files.antt =====
-- ScePspemuMsfsOpen, ScePspemuMsfsTruncateFix and ScePspemuMsfsClose of
-- integration/adrenaline-v7/overlay/user/msfs.c. `none` is a path that overruns its array of 1024 bytes
-- when strcat appends to it, or a copy out of fuel.
pub mod Laws
pub mod Handles
use adr_bubble_booter_oss.Prelude.{
  ℕ, zero, suc, ◌+◌, ◌-◌, min, List, [], ◌∷◌, ◌++◌, ℤ, pos, negsuc, pos_part, eqb_ℤ, is_neg, ltb,
  Bool, true, false, Option, none, some, if◌then◌else◌, ◌==◌, length, drop, take,
}
use adr_bubble_booter_oss.Text.{codes}
use adr_bubble_booter_oss.Msfs.Paths.{build_path, max_path_length}
use adr_bubble_booter_oss.Msfs.Table.{
  Descriptor, Table, add_descriptor, get_descriptor, remove_descriptor,
}
use adr_bubble_booter_oss.Msfs.Transfer.{Kernel}

-- `strcat(msfs_path_trunc, "__TRUNC__")`
unfoldable pub trunc_path : List ℕ → Option (List ℕ)
trunc_path path =
    let s = path ++ codes "__TRUNC__" in if ltb (length s) max_path_length then some s else none

module _ (k : Kernel) where
  abbrev pub path_of : List ℕ → List ℕ
  path_of file = build_path k.app_titleid k.ms_location file

  -- the file under another name, and an empty one in its place; whether both succeeded
  unfoldable pub set_aside : List ℕ → List ℕ → k.World → Bool × k.World
  set_aside path aside w =
      let (renamed, w) = k.io_rename path aside w in
      let (fd, w') = k.io_open path k.create_truncate w in
      if is_neg renamed
      then (false, w)
      else if is_neg fd
      then (false, w')
      else (true, (k.io_close fd w').1)

  -- behind the truncation
  unfoldable pub finish_open : List ℕ → ℕ → Table → Bool × k.World → ℤ × Table × k.World
  unfolding add_descriptor
  finish_open file flags t (trunc, w) =
      let (fd, w) = k.io_open (path_of file) flags w in
      let (i, t') = add_descriptor fd file flags trunc false t in
      if is_neg fd then (fd, t, w) else (i, t', w)

  -- ScePspemuMsfsOpen
  unfoldable pub open_file : List ℕ → ℕ → Table → k.World → Option (ℤ × Table × k.World)
  unfolding trunc_path set_aside finish_open
  open_file [] flags t w = some (k.einval, t, w)
  open_file (c ∷ file) flags t w =
      let path = path_of (c ∷ file) in
      if k.truncates flags
      then elim (trunc_path path) [
        | none ↦ none
        | some aside ↦ some (finish_open (c ∷ file) flags t (set_aside path aside w))
      ]
      else some (finish_open (c ∷ file) flags t (false, w))

  -- The copy's loop: the result, from `seek` on. The whole of a piece is written, also where less was
  -- read. An offset is not negative. A turn that goes on adds to `seek`.
  unfoldable pub copy : ℕ → ℤ → ℤ → ℕ → ℕ → List ℕ → k.World → Option (ℤ × k.World)
  copy zero source target size seek buffer w = none
  copy (suc fuel) source target size seek buffer w =
      let n = min (size - seek) k.transfer_size in
      let (read, bytes, w₁) = k.io_read source n w in
      let buffer' = bytes ++ drop (length bytes) buffer in
      let (written, w₂) = k.io_write target (take n buffer') w₁ in
      let rest = copy fuel source target size (seek + n) buffer' w₂ in
      if n == 0
      then some (pos 0, w)
      else if is_neg read
      then some (read, w₁)
      else if is_neg written
      then some (written, w₂)
      else if ltb (seek + n) size
      then rest
      else some (pos 0, w₂)

  -- the copy into the closing file, with the file set aside open
  unfoldable pub copy_back : Descriptor → ℤ → k.World → Option (ℤ × k.World)
  unfolding copy
  copy_back d source w =
      let (at, w) = k.io_lseek d.fd (pos 0) k.seek_set w in
      let (buffer, w) = k.malloc k.transfer_size w in
      let size = pos_part d.first_write_offset in
      elim buffer [
        | none ↦ some (negsuc 0, w)
        | some bytes ↦ copy (suc size) source d.fd size 0 bytes w
      ]

  -- ScePspemuMsfsTruncateFix
  unfoldable pub truncate_fix : Descriptor → k.World → Option (ℤ × k.World)
  unfolding trunc_path copy_back
  truncate_fix d w = elim (trunc_path (path_of d.path)) [
    | none ↦ none
    | some aside ↦
        let (fd, w) = k.io_open aside k.read_only w in
        if is_neg fd then some (fd, (k.io_remove aside w).1) else elim (copy_back d fd w) [
          | none ↦ none
          | some (res, w) ↦ some (res, (k.io_remove aside (k.io_close fd w).1).1)
        ]
  ]

  -- behind the truncation's copy
  unfoldable pub finish_close : ℤ → Descriptor → Table → k.World → ℤ × Table × k.World
  unfolding remove_descriptor
  finish_close fd d t w =
      let (closed, w) = k.io_close d.fd w in
      let res = if eqb_ℤ closed k.enodev then pos 0 else closed in
      (res, (if is_neg res then t else (remove_descriptor fd t).1), w)

  -- ScePspemuMsfsClose
  unfoldable pub close_file : ℤ → Table → k.World → Option (ℤ × Table × k.World)
  unfolding get_descriptor truncate_fix finish_close
  close_file fd t w = elim (get_descriptor fd t) [
    | none ↦ some (k.einval, t, w)
    | some d ↦
        if d.trunc
        then elim (truncate_fix d w) [
          | none ↦ none
          | some (res, w) ↦ if is_neg res then some (res, t, w) else some (finish_close fd d t w)
        ]
        else some (finish_close fd d t w)
  ]
