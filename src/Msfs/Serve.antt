-- ===== src/Msfs/Serve.antt =====
-- ScePspemuRemoteMsfs of integration/adrenaline-v7/overlay/user/msfs.c: one turn of it, with the pointers
-- of a request already converted.
pub mod Size
use adr_bubble_booter_oss.Prelude.{
  ℕ, zero, suc, ◌-◌, ◌/◌, List, [], ◌∷◌, ◌++◌, ℤ, pos, negsuc, eqb_ℤ, is_neg, ltb, Bool, true,
  false, not, ◌&&◌, Option, none, some, if◌then◌else◌, ◌==◌, length, take, replicate,
}
use adr_bubble_booter_oss.Text.{codes, strrchr}
use adr_bubble_booter_oss.Msfs.Paths.{max_path_length}
use adr_bubble_booter_oss.Msfs.Table.{Descriptor, Table, empty, get_descriptor}
use adr_bubble_booter_oss.Msfs.Transfer.{Kernel, read, write, lseek, reopen_file}
use adr_bubble_booter_oss.Msfs.Files.{path_of, open_file, close_file}
use adr_bubble_booter_oss.Msfs.Folders.{
  Stat, Dirent, Host, getstat, chstat, dopen, dclose, dread, put,
}
use adr_bubble_booter_oss.Msfs.Requests.{
  PspDevInfo, Device, close_all, ioctl, remove, mkdir, rmdir, rename, devctl,
}

-- the requests of the PSP
pub data Request : Type 0 where
  kermit_init kermit_exit : Request
  kermit_open : List ℕ → ℕ → Request
  kermit_close kermit_dclose : ℤ → Request
  kermit_read : ℤ → ℕ → Request
  kermit_write : ℤ → List ℕ → ℕ → Request
  kermit_lseek : ℤ → ℤ → ℕ → Request
  kermit_ioctl : ℤ → ℕ → Option (List ℕ) → ℕ → Request
  kermit_remove kermit_mkdir kermit_rmdir kermit_dopen kermit_chdir : List ℕ → Request
  kermit_dread : ℤ → Dirent → Request
  kermit_getstat : List ℕ → Stat → Request
  kermit_chstat : List ℕ → Stat → ℕ → Request
  kermit_rename : List ℕ → List ℕ → Request
  kermit_devctl : ℕ → Bool → ℕ → Request

-- what a request leaves in the PSP's memory
pub data Answer : Type 0 where
  nothing : Answer
  data_read : List ℕ → Answer
  entry_read : Dirent → Answer
  stat_read : Stat → Answer
  info_read : Option PspDevInfo → Answer

module _ (k : Kernel) (h : Host k.World) (v : Device k.World) where
  -- the result of a request, what it leaves, the table and the world
  abbrev pub Served : Type 0
  Served = Option (ℤ × Answer × Table × k.World)

  abbrev pub served : ℤ × Table × k.World → ℤ × Answer × Table × k.World
  served (res, t, w) = (res, nothing, t, w)

  abbrev pub untouched : Table → ℤ × k.World → ℤ × Answer × Table × k.World
  untouched t (res, w) = (res, nothing, t, w)

  abbrev pub map_served : Option (ℤ × Table × k.World) → Served
  map_served none = none
  map_served (some r) = some (served r)

  -- one turn of ScePspemuRemoteMsfs, with fuel for the loop of a listing
  unfoldable pub serve : ℕ → Request → Table → k.World → Served
  unfolding close_all open_file close_file read write lseek ioctl remove mkdir rmdir dopen dclose
      dread getstat chstat rename devctl
  serve fuel kermit_init t w =
      some (served (pos 0, (close_all k h v t w).0, (close_all k h v t w).1))
  serve fuel kermit_exit t w =
      some (served (pos 0, (close_all k h v t w).0, (close_all k h v t w).1))
  serve fuel (kermit_open file flags) t w = map_served (open_file k file flags t w)
  serve fuel (kermit_close fd) t w = map_served (close_file k fd t w)
  serve fuel (kermit_read fd size) t w = elim (read k fd size t w) [
    | none ↦ none
    | some (res, bytes, t', w') ↦ some (res, data_read bytes, t', w')
  ]
  serve fuel (kermit_write fd buffer size) t w = map_served (write k fd buffer size t w)
  serve fuel (kermit_lseek fd offset whence) t w = some (served (lseek k fd offset whence t w))
  serve fuel (kermit_ioctl fd cmd name inlen) t w = elim (ioctl k h v fd cmd name inlen t) [
    | none ↦ none
    | some (res, t') ↦ some (res, nothing, t', w)
  ]
  serve fuel (kermit_remove file) t w = some (untouched t (remove k h v file w))
  serve fuel (kermit_mkdir dir) t w = some (untouched t (mkdir k h v dir w))
  serve fuel (kermit_rmdir path) t w = some (untouched t (rmdir k h v path w))
  serve fuel (kermit_dopen dirname) t w = some (served (dopen k h dirname t w))
  serve fuel (kermit_dclose fd) t w = some (served (dclose k h fd t w))
  serve fuel (kermit_dread fd dir) t w = elim (dread k h fuel fd dir t w) [
    | none ↦ none
    | some (res, dir', t', w') ↦ some (res, entry_read dir', t', w')
  ]
  serve fuel (kermit_getstat file s) t w =
      let (res, s', w') = getstat k h file s w in some (res, stat_read s', t, w')
  serve fuel (kermit_chstat file s bits) t w = some (untouched t (chstat k h file s bits w))
  serve fuel (kermit_rename oldname newname) t w =
      some (untouched t (rename k h v oldname newname w))
  serve fuel (kermit_chdir path) t w = some (negsuc 0, nothing, t, w)
  serve fuel (kermit_devctl cmd has_outdata outlen) t w =
      let (res, info, w') = devctl k h v cmd has_outdata outlen w in
      some (res, info_read info, t, w')
