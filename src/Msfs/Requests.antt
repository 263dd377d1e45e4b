-- ===== src/Msfs/Requests.antt =====
-- The other requests of integration/adrenaline-v7/overlay/user/msfs.c.
use adr_bubble_booter_oss.Prelude.{
  ℕ, ◌-◌, ◌/◌, List, [], ◌∷◌, ◌++◌, ℤ, pos, eqb_ℤ, is_neg, ltb, Bool, true, false, not, ◌&&◌,
  Option, none, some, if◌then◌else◌, ◌==◌, length, take, replicate,
}
use adr_bubble_booter_oss.Text.{codes, strrchr}
use adr_bubble_booter_oss.Msfs.Paths.{max_path_length}
use adr_bubble_booter_oss.Msfs.Table.{Descriptor, Table, empty, get_descriptor}
use adr_bubble_booter_oss.Msfs.Transfer.{Kernel, reopen_file}
use adr_bubble_booter_oss.Msfs.Files.{path_of}
use adr_bubble_booter_oss.Msfs.Folders.{Host, put}

-- SceIoDevInfo, and what ScePspemuMsfsDevctl makes of it
pub record DevInfo : Type 0 where
  pub max_size : ℕ
  pub free_size : ℕ
  pub cluster_size : ℕ

pub record PspDevInfo : Type 0 where
  pub max_clusters : ℕ
  pub free_clusters : ℕ
  pub max_sectors : ℕ
  pub sector_size : ℕ
  pub sector_count : ℕ

-- what the requests use beside the calls on files and folders
pub record Device (W : Type 0) : Type 0 where
  -- sceIoDevctl with 0x3001, and ScePspemuDivide
  pub io_devctl : List ℕ → W → ℤ × DevInfo × W
  pub divide : ℕ → ℕ → ℕ
  -- PSP_SECTOR_SIZE, sizeof(ScePspemuIoDevInfo), and the size of Descriptor.filter
  pub sector_size : ℕ
  pub dev_info_size : ℕ
  pub filter_size : ℕ

-- the device of a location
unfoldable pub location_device : ℤ → List ℕ
location_device ms_location =
    if eqb_ℤ ms_location (pos 1)
    then codes "ur0:"
    else if eqb_ℤ ms_location (pos 2)
    then codes "imc0:"
    else if eqb_ℤ ms_location (pos 3)
    then codes "xmc0:"
    else if eqb_ℤ ms_location (pos 4)
    then codes "uma0:"
    else codes "ux0:"

-- `new_path` of a new name without a slash: in the folder of the old path
unfoldable pub sibling_path : List ℕ → List ℕ → Option (List ℕ)
unfolding strrchr
sibling_path old_path newname = elim (strrchr old_path b'/') [
  | none ↦ none
  | some p ↦
      let folder = take (length old_path - length p) old_path in
      some (take (max_path_length - 1) (folder ++ (b'/' ∷ newname)))
]

unfoldable pub has_slash : List ℕ → Bool
has_slash [] = false
has_slash (c ∷ s) = if c == b'/' then true else has_slash s

module _ (k : Kernel) (h : Host k.World) (v : Device k.World) where
  -- ScePspemuMsfsCloseAllDescriptors
  unfoldable pub close_each : Table → k.World → k.World
  close_each [] w = w
  close_each (d ∷ t) w =
      let (res, w₁) = k.io_close d.fd w in
      let (res', w₂) = h.io_dclose d.fd w₁ in
      let rest = close_each t in
      if eqb_ℤ d.fd (pos 0) then rest w else if is_neg res then rest w₂ else rest w₁

  unfoldable pub close_all : Table → k.World → Table × k.World
  unfolding close_each
  close_all t w = (replicate (length t) empty, close_each t w)

  unfoldable pub reopen_open : Descriptor → k.World → Descriptor × k.World
  unfolding reopen_file
  reopen_open d w =
      let (fd, d', w') = reopen_file k d w in if eqb_ℤ d.fd (pos 0) then (d, w) else (d', w')

  unfoldable pub reopen_each : Table → k.World → Table × k.World
  unfolding reopen_open
  reopen_each [] w = ([], w)
  reopen_each (d ∷ t) w =
      let (d', w') = reopen_open d w in let (t', w'') = reopen_each t w' in (d' ∷ t', w'')

  -- ScePspemuMsfsSetFileDescriptors, with as many descriptors as the table has
  unfoldable pub set_descriptors : Table → Table → k.World → Table × k.World
  unfolding close_all reopen_each
  set_descriptors descriptors t w = reopen_each descriptors (close_all t w).1

  -- ScePspemuMsfsIoctl: `name` is the text that `indata` leads to, and none for NULL. A filter that is
  -- too long for the descriptor is the result none.
  unfoldable pub ioctl : ℤ → ℕ → Option (List ℕ) → ℕ → Table → Option (ℤ × Table)
  unfolding get_descriptor
  ioctl fd cmd name inlen t = elim (get_descriptor fd t) [
    | none ↦ some (k.einval, t)
    | some d ↦ elim name [
      | none ↦ some (k.einval, t)
      | some filter ↦
          if not (cmd == 0x02415050 && inlen == 4)
          then some (k.einval, t)
          else if ltb (length filter) v.filter_size
          then some (pos 0, put k h fd (record d { filter = filter }) t)
          else none
    ]
  ]

  -- ScePspemuMsfsRemove, ScePspemuMsfsMkdir and ScePspemuMsfsRmdir
  unfoldable pub remove : List ℕ → k.World → ℤ × k.World
  remove [] w = (k.einval, w)
  remove (c ∷ file) w = k.io_remove (path_of k (c ∷ file)) w

  -- with the mode 0777
  unfoldable pub mkdir : List ℕ → k.World → ℤ × k.World
  mkdir [] w = (k.einval, w)
  mkdir (c ∷ dir) w = h.io_mkdir (path_of k (c ∷ dir)) 511 w

  unfoldable pub rmdir : List ℕ → k.World → ℤ × k.World
  rmdir [] w = (k.einval, w)
  rmdir (c ∷ path) w = h.io_rmdir (path_of k (c ∷ path)) w

  -- ScePspemuMsfsRename
  unfoldable pub rename : List ℕ → List ℕ → k.World → ℤ × k.World
  unfolding sibling_path has_slash
  rename [] newname w = (k.einval, w)
  rename (c ∷ oldname) [] w = (k.einval, w)
  rename (c ∷ oldname) (n ∷ newname) w =
      let old_path = path_of k (c ∷ oldname) in
      if has_slash (n ∷ newname)
      then k.io_rename old_path (path_of k (n ∷ newname)) w
      else elim (sibling_path old_path (n ∷ newname)) [
        | none ↦ (k.einval, w)
        | some new_path ↦ k.io_rename old_path new_path w
      ]

  -- ScePspemuMsfsDevctl, with what it writes to `outdata`
  unfoldable pub devctl : ℕ → Bool → ℕ → k.World → ℤ × Option PspDevInfo × k.World
  unfolding location_device
  devctl cmd has_outdata outlen w =
      let (res, info, w') = v.io_devctl (location_device k.ms_location) w in
      let max_clusters = v.divide info.max_size info.cluster_size in
      let free_clusters = v.divide info.free_size info.cluster_size in
      let answer : PspDevInfo = record {
        max_clusters = max_clusters;
        free_clusters = free_clusters;
        max_sectors = free_clusters;
        sector_size = v.sector_size;
        sector_count = info.cluster_size / v.sector_size;
      } in
      if not (cmd == 0x02425818 && has_outdata && outlen == v.dev_info_size)
      then (k.einval, none, w)
      else if is_neg res
      then (res, none, w')
      else (pos 0, some answer, w')
