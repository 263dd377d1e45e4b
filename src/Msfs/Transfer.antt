-- ===== src/Msfs/Transfer.antt =====
-- ScePspemuMsfsReopenFile, ScePspemuMsfsRead, ScePspemuMsfsWrite and ScePspemuMsfsLseek of
-- integration/adrenaline-v7/overlay/user/msfs.c. The kernel's calls and the constants that are not in
-- the repository are parameters.
pub mod Laws
pub mod Writes
use adr_bubble_booter_oss.Prelude.{
  ℕ, zero, suc, ◌+◌, ◌-◌, ◌^◌, min, List, [], ◌∷◌, ◌++◌, ℤ, pos, negsuc, ◌+ℤ◌, eqb_ℤ, is_neg, ltb,
  Bool, true, false, not, ◌&&◌, Option, none, some, if◌then◌else◌, length, drop, take, set,
}
use adr_bubble_booter_oss.Text.{to_int32}
use adr_bubble_booter_oss.Msfs.Paths.{build_path}
use adr_bubble_booter_oss.Msfs.Table.{Descriptor, Table, get_descriptor}

pub record Kernel : Type 1 where
  pub World : Type 0
  pub io_open : List ℕ → ℕ → World → ℤ × World
  pub io_dopen : List ℕ → World → ℤ × World
  -- sceIoRead, with the bytes read
  pub io_read : ℤ → ℕ → World → ℤ × List ℕ × World
  pub io_write : ℤ → List ℕ → World → ℤ × World
  pub io_lseek : ℤ → ℤ → ℕ → World → ℤ × World
  pub io_close : ℤ → World → ℤ × World
  pub io_rename : List ℕ → List ℕ → World → ℤ × World
  pub io_remove : List ℕ → World → ℤ × World
  -- malloc, with the bytes that the block holds, or NULL
  pub malloc : ℕ → World → Option (List ℕ) × World
  -- `flags & SCE_O_TRUNC`, SCE_O_RDONLY, and SCE_O_WRONLY | SCE_O_CREAT | SCE_O_TRUNC
  pub truncates : ℕ → Bool
  pub read_only : ℕ
  pub create_truncate : ℕ
  pub transfer_size : ℕ
  -- SCE_ERROR_ERRNO_ENODEV, SCE_ERROR_ERRNO_EINVAL, SCE_SEEK_SET and MAX_IO_SIZE
  pub enodev : ℤ
  pub einval : ℤ
  pub seek_set : ℕ
  pub max_io_size : ℕ
  -- the globals app_titleid and config.ms_location
  pub app_titleid : List ℕ
  pub ms_location : ℤ

module _ (k : Kernel) where
  -- a descriptor, the bytes read so far, and the world
  abbrev pub Transfer : Type 0
  Transfer = Descriptor × List ℕ × k.World

  unfoldable pub reopen_file : Descriptor → k.World → ℤ × Descriptor × k.World
  reopen_file d w =
      let path = build_path k.app_titleid k.ms_location d.path in
      let folder = k.io_dopen path w in
      let file = k.io_open path d.flags w in
      let sought = k.io_lseek file.0 d.offset k.seek_set file.1 in
      if d.folder
      then (folder.0, record d { fd = folder.0 }, folder.1)
      else (file.0, record d { fd = file.0 }, sought.1)

  -- one sceIoRead of at most n bytes, again after a reopen when the device is gone
  unfoldable pub read_piece : ℕ → ℕ → Transfer → ℤ × Transfer
  unfolding reopen_file
  read_piece seek n (d, got, w) =
      let (res, bytes, w) = k.io_read d.fd n w in
      let (fd, d', w') = reopen_file d w in
      let (res', bytes', w'') = k.io_read d'.fd n w' in
      if eqb_ℤ res k.enodev
      then (if is_neg fd then (res, (d', got, w')) else (res', (d', got ++ bytes', w'')))
      else (res, (d, got ++ bytes, w))

  -- one sceIoWrite of at most n bytes of the buffer, from `data + seek`
  unfoldable pub write_piece : List ℕ → ℕ → ℕ → Transfer → ℤ × Transfer
  unfolding reopen_file
  write_piece buffer seek n (d, got, w) =
      let piece = take n (drop seek buffer) in
      let (res, w) = k.io_write d.fd piece w in
      let (fd, d', w') = reopen_file d w in
      let (res', w'') = k.io_write d'.fd piece w' in
      if eqb_ℤ res k.enodev
      then (if is_neg fd then (res, (d', got, w')) else (res', (d', got, w'')))
      else (res, (d, got, w))

  -- `descriptor->offset += res;`
  abbrev pub advance : ℕ → Transfer → Transfer
  advance n (d, got, w) = (record d { offset = d.offset +ℤ pos n }, got, w)

  -- what a turn does with a piece's result, by what the next turns do
  unfoldable pub turn :
      (ℕ → Transfer → Option (ℤ × Transfer)) → ℕ → ℕ → ℤ × Transfer → Option (ℤ × Transfer)
  turn next size seek (negsuc e, s) = some (negsuc e, s)
  turn next size seek (pos zero, s) = some (pos seek, s)
  turn next size seek (pos (suc n), s) =
      let s = advance (suc n) s in
      if ltb (seek + suc n) size then next (seek + suc n) s else some (pos (seek + suc n), s)

  -- `buf_size`: from 2^31 bytes on the int `remain` is negative and less than MAX_IO_SIZE, and the call
  -- takes it as the unsigned number it came from
  unfoldable pub buf_size : ℕ → ℕ
  buf_size remain = if ltb remain (2 ^ 31) then min remain k.max_io_size else remain

  -- The loop of both functions, by the piece it moves. `seek` is taken not to overflow an int. A turn that goes on moves a byte at least, so
  -- one turn more than the bytes left is enough fuel; `none` is out of fuel.
  unfoldable pub transfer :
      (ℕ → ℕ → Transfer → ℤ × Transfer) → ℕ → ℕ → ℕ → Transfer → Option (ℤ × Transfer)
  unfolding turn buf_size
  transfer piece zero size seek s = none
  transfer piece (suc fuel) size seek s =
      turn (transfer piece fuel size) size seek (piece seek (buf_size (size - seek)) s)

  -- what a handle's descriptor has become
  abbrev put_descriptor : ℤ → Descriptor → Table → Table
  put_descriptor (negsuc i) d t = t
  put_descriptor (pos i) d t = set t i d

  -- ScePspemuMsfsRead: the result, the bytes, the table and the world
  unfoldable pub read : ℤ → ℕ → Table → k.World → Option (ℤ × List ℕ × Table × k.World)
  unfolding get_descriptor transfer read_piece
  read fd size t w = elim (get_descriptor fd t) [
    | none ↦ some (k.einval, [], t, w)
    | some d ↦ elim (transfer read_piece (suc size) size 0 (d, [], w)) [
      | none ↦ none
      | some (res, (d', got, w')) ↦ some (res, got, put_descriptor fd d' t, w')
    ]
  ]

  -- the offset of the first write, for the fix of a truncated file
  unfoldable pub mark_first_write : ℕ → Descriptor → Descriptor
  mark_first_write size d =
      if not d.first_write && ltb 0 size
      then record d { first_write = true; first_write_offset = d.offset }
      else d

  -- ScePspemuMsfsWrite, of the first `size` bytes of the buffer
  unfoldable pub write : ℤ → List ℕ → ℕ → Table → k.World → Option (ℤ × Table × k.World)
  unfolding get_descriptor transfer write_piece mark_first_write
  write fd buffer size t w = elim (get_descriptor fd t) [
    | none ↦ some (k.einval, t, w)
    | some d ↦
        elim (transfer (write_piece buffer) (suc size) size 0 (mark_first_write size d, [], w)) [
          | none ↦ none
          | some (res, (d', got, w')) ↦ some (res, put_descriptor fd d' t, w')
        ]
  ]

  -- one sceIoLseek, again after a reopen when the device is gone; the code reads the result as an int
  unfoldable pub seek_file : ℤ → ℕ → Descriptor → k.World → ℤ × Descriptor × k.World
  unfolding reopen_file
  seek_file offset whence d w =
      let (res, w) = k.io_lseek d.fd offset whence w in
      let (opened, d', w') = reopen_file d w in
      let (res', w'') = k.io_lseek d'.fd offset whence w' in
      if eqb_ℤ (to_int32 res) k.enodev
      then (if is_neg opened then (res, d', w') else (res', d', w''))
      else (res, d, w)

  -- `if ((int)res >= 0) descriptor->offset = res;`
  abbrev pub sought : ℤ → Descriptor → Descriptor
  sought res d = if is_neg (to_int32 res) then d else record d { offset = res }

  -- ScePspemuMsfsLseek
  unfoldable pub lseek : ℤ → ℤ → ℕ → Table → k.World → ℤ × Table × k.World
  unfolding get_descriptor seek_file
  lseek fd offset whence t w = elim (get_descriptor fd t) [
    | none ↦ (k.einval, t, w)
    | some d ↦
        let (res, d', w') = seek_file offset whence d w in
        (res, put_descriptor fd (sought res d') t, w')
  ]
