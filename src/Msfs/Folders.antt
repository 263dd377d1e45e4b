-- ===== src/Msfs/Folders.antt =====
-- The stats and the directories of integration/adrenaline-v7/overlay/user/msfs.c. What the listing does
-- to the record behind d_private is not modelled.
pub mod Listing
use adr_bubble_booter_oss.Prelude.{
  ℕ, zero, suc, List, [], ◌∷◌, ℤ, pos, negsuc, eqb_ℤ, is_neg, Bool, true, false, not, ◌&&◌, Option,
  none, some, if◌then◌else◌, set,
}
use adr_bubble_booter_oss.Text.{codes}
use adr_bubble_booter_oss.Msfs.Paths.{build_path}
use adr_bubble_booter_oss.Msfs.Filter.{directory_filter}
use adr_bubble_booter_oss.Msfs.Table.{
  Descriptor, Table, add_descriptor, get_descriptor, remove_descriptor,
}
use adr_bubble_booter_oss.Msfs.Transfer.{Kernel}
use adr_bubble_booter_oss.Msfs.Files.{path_of}

-- SceIoStat, by the fields that msfs.c uses, and its times
pub record Stat : Type 0 where
  pub mode : ℕ
  pub attr : ℕ
  pub times : List ℕ

-- SceIoDirent
pub record Dirent : Type 0 where
  pub name : List ℕ
  pub stat : Stat

-- the calls on folders, and the constants
pub record Host (W : Type 0) : Type 0 where
  -- sceIoDread and sceIoGetstat, with what they leave in the record of the caller
  pub io_dread : ℤ → Dirent → W → ℤ × Dirent × W
  pub io_getstat : List ℕ → Stat → W → ℤ × Stat × W
  pub io_dclose : ℤ → W → ℤ × W
  pub io_chstat : List ℕ → Stat → ℕ → W → ℤ × W
  pub io_mkdir : List ℕ → ℕ → W → ℤ × W
  pub io_rmdir : List ℕ → W → ℤ × W
  -- ScePspemuConvertStatTimeToLocaltime and ScePspemuConvertStatTimeToUtc
  pub to_local : List ℕ → List ℕ
  pub to_utc : List ℕ → List ℕ
  -- `st_mode & SCE_S_IFDIR`, `st_mode & SCE_S_IFREG`, `attr | SCE_SO_IFDIR`, `attr | SCE_SO_IFREG`
  pub is_dir : ℕ → Bool
  pub is_reg : ℕ → Bool
  pub with_dir : ℕ → ℕ
  pub with_reg : ℕ → ℕ
  -- the mode and the attribute of `.` and `..`
  pub folder_mode : ℕ
  pub folder_attr : ℕ
  -- `bits & ~(PSP_CST_MODE | PSP_CST_ATTR | PSP_CST_SIZE | PSP_CST_PRVT)`
  pub clear_bits : ℕ → ℕ

-- convertFileStat
unfoldable pub convert_file_stat : {W : Type 0} → Host W → Stat → Stat
convert_file_stat h s =
    let a = if h.is_dir s.mode then h.with_dir s.attr else s.attr in
    let a' = if h.is_reg s.mode then h.with_reg a else a in
    record s { attr = a'; times = h.to_local s.times }

module _ (k : Kernel) (h : Host k.World) where
  -- ScePspemuMsfsGetstat
  unfoldable pub getstat : List ℕ → Stat → k.World → ℤ × Stat × k.World
  unfolding convert_file_stat
  getstat [] s w = (k.einval, s, w)
  getstat (c ∷ file) s w =
      let (res, s', w') = h.io_getstat (path_of k (c ∷ file)) s w in
      (res, convert_file_stat h s', w')

  -- ScePspemuMsfsChstat
  unfoldable pub chstat : List ℕ → Stat → ℕ → k.World → ℤ × k.World
  chstat [] s bits w = (k.einval, w)
  chstat (c ∷ file) s bits w =
      let s' = record s { attr = 0; times = h.to_utc s.times } in
      h.io_chstat (path_of k (c ∷ file)) s' (h.clear_bits bits) w

  -- ScePspemuMsfsDopen
  unfoldable pub dopen : List ℕ → Table → k.World → ℤ × Table × k.World
  unfolding add_descriptor
  dopen dirname t w =
      let (dfd, w) = k.io_dopen (path_of k dirname) w in
      let (i, t') = add_descriptor dfd dirname 0 false true t in
      if is_neg dfd then (dfd, t, w) else (i, t', w)

  -- ScePspemuMsfsDclose
  unfoldable pub dclose : ℤ → Table → k.World → ℤ × Table × k.World
  unfolding get_descriptor remove_descriptor
  dclose fd t w = elim (get_descriptor fd t) [
    | none ↦ (k.einval, t, w)
    | some d ↦
        let (closed, w) = h.io_dclose d.fd w in
        let res = if eqb_ℤ closed k.enodev then pos 0 else closed in
        (res, (if is_neg res then t else (remove_descriptor fd t).1), w)
  ]

  -- the entry `.` or `..`, with the stat of the folder
  unfoldable pub give_extra :
      List ℕ → ℤ → Descriptor → Dirent → k.World → ℤ × Descriptor × Dirent × k.World
  unfolding getstat
  give_extra name next d dir w =
      let (res, s, w') = getstat d.path dir.stat w in
      let s' = record s { mode = h.folder_mode; attr = h.folder_attr } in
      (pos 1, record d { extra = next }, record { name = name; stat = s' }, w')

  -- ScePspemuMsfsExtraDread
  unfoldable pub extra_dread : Descriptor → Dirent → k.World → ℤ × Descriptor × Dirent × k.World
  unfolding give_extra
  extra_dread d dir w =
      if eqb_ℤ d.extra (pos 0)
      then give_extra (codes ".") (pos 1) d dir w
      else if eqb_ℤ d.extra (pos 1)
      then give_extra (codes "..") (negsuc 0) d dir w
      else (pos 0, d, dir, w)

  -- one entry of the listing
  unfoldable pub next_dirent : Descriptor → Dirent → k.World → ℤ × Descriptor × Dirent × k.World
  unfolding extra_dread
  next_dirent d dir w =
      let (res, dir', w') = h.io_dread d.fd dir w in
      if is_neg d.extra then (res, d, dir', w') else extra_dread d dir w

  -- `descriptor->filter[0] && ScePspemuMsfsDirectoryFilter(…) == 0`
  unfoldable pub is_filtered : Descriptor → Dirent → Bool
  unfolding directory_filter
  is_filtered d dir = elim d.filter [
    | [] ↦ false
    | (c ∷ filter) ↦ not (directory_filter dir.name d.filter)
  ]

  -- The loop of ScePspemuMsfsDread. `none` is out of fuel: a call that fails each time with a name that
  -- the filter refuses makes the code go on for ever.
  unfoldable pub dread_loop :
      ℕ → Descriptor → Dirent → k.World → Option (ℤ × Descriptor × Dirent × k.World)
  unfolding next_dirent is_filtered
  dread_loop zero d dir w = none
  dread_loop (suc fuel) d dir w =
      let (res, d', dir', w') = next_dirent d dir w in
      let rest = dread_loop fuel d' dir' w' in
      if not (eqb_ℤ res (pos 0)) && is_filtered d' dir' then rest else some (res, d', dir', w')

  -- what a handle's descriptor has become
  abbrev pub put : ℤ → Descriptor → Table → Table
  put (negsuc i) d t = t
  put (pos i) d t = set t i d

  -- ScePspemuMsfsDread
  unfoldable pub dread : ℕ → ℤ → Dirent → Table → k.World → Option (ℤ × Dirent × Table × k.World)
  unfolding get_descriptor dread_loop convert_file_stat
  dread fuel fd dir t w = elim (get_descriptor fd t) [
    | none ↦ some (k.einval, dir, t, w)
    | some d ↦ elim (dread_loop fuel d dir w) [
      | none ↦ none
      | some (res, d', dir', w') ↦
          some (res, record dir' { stat = convert_file_stat h dir'.stat }, put fd d' t, w')
    ]
  ]
