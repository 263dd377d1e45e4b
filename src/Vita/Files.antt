-- ===== src/Vita/Files.antt =====
-- The file helpers that src/vita/bootconv/main.c and src/vita/adrbubblebooter/main.c each have, with
-- the same text: check_file, get_file_size, read_file, write_file, get_device_name.
use adr_bubble_booter_oss.Prelude.{
  ℕ, ◌-◌, List, ◌++◌, ℤ, is_neg, Option, none, some, if◌then◌else◌, leb, ltb, length, drop, take,
}
use adr_bubble_booter_oss.Vita.{
  Vita, read_only, create_truncate, M, pure, ◌>>=◌, ◌>>◌, call, require,
}
use adr_bubble_booter_oss.Text.{to_int32, strrchr}

module _ (v : Vita) where
  open v use {World, io_getstat, io_open, io_lseek_end, io_read, io_write, io_close}

  unfoldable pub check_file : List ℕ → M World ℤ
  check_file path = call (io_getstat path)

  unfoldable pub get_file_size : List ℕ → M World ℤ
  unfolding to_int32
  get_file_size path = do
    fd ← call (io_open path read_only)
    if is_neg fd
        then pure fd
        else do size ← call (io_lseek_end fd); _ ← call (io_close fd); pure (to_int32 size)

  -- the result, and the buffer behind the call
  unfoldable pub read_file : List ℕ → List ℕ → ℕ → M World (ℤ × List ℕ)
  read_file path buffer size = do
    fd ← call (io_open path read_only)
    if is_neg fd then pure (fd, buffer) else do
      (read, bytes) ← call (io_read fd size)
      require (leb (length bytes) (length buffer))
      _ ← call (io_close fd)
      pure (read, bytes ++ drop (length bytes) buffer)

  unfoldable pub write_file : List ℕ → List ℕ → M World ℤ
  write_file path buffer = do
    fd ← call (io_open path create_truncate)
    if is_neg fd
        then pure fd
        else do written ← call (io_write fd buffer); _ ← call (io_close fd); pure written

-- `*colon = '\0'` at the last colon, if there is one
unfoldable pub cut_at_colon : List ℕ → List ℕ
unfolding strrchr
cut_at_colon path = elim (strrchr path b':') [
  | none ↦ path
  | some colon ↦ take (length path - length colon) path
]

-- The text before the last colon, copied to an array of 256 bytes; NULL where the path is longer than
-- the array. `strlen(path) <= sizeof(device_name)` lets a path of 256 bytes in, whose zero byte the
-- array has no place for: that is the outer `none`.
unfoldable pub get_device_name : List ℕ → Option (Option (List ℕ))
unfolding cut_at_colon
get_device_name path =
    if leb (length path) 256
    then (if ltb (length path) 256 then some (some (cut_at_colon path)) else none)
    else some none
