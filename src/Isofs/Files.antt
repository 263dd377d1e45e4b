-- ===== src/Isofs/Files.antt =====
-- isofs_init to isofs_getstat of isofs_driver.c. Without the buffer of isofs_init a lookup or a read is
-- a fault.
pub mod Table
pub mod Opened
pub mod Calls
pub mod Session
pub mod Bytes
use adr_bubble_booter_oss.Prelude.{
  ℕ, zero, suc, ◌+◌, ◌-◌, ◌^◌, List, [], ◌∷◌, ℤ, pos, negsuc, ◌+ℤ◌, ◌-ℤ◌, ltb_ℤ, is_neg, eqb_ℤ,
  Bool, true, false, not, ◌&&◌, if◌then◌else◌, ltb, leb, ◌==◌, length, drop, take, replicate,
  get_or, set, Option, none, some,
}
use adr_bubble_booter_oss.Text.{codes, to_int32}
use adr_bubble_booter_oss.Isofs.{
  Entry, no_entry, Handle, no_handle, Image, Driver, Run, done, fault, stuck, ◌>>=◌, need,
  max_handlers, read_buffer,
}
use adr_bubble_booter_oss.Isofs.Names.{Parts, too_long, parts, strip_slash, get_path_and_name}
use adr_bubble_booter_oss.Isofs.Search.{Found, same_text, buffer_size, find_file, find_path}
use adr_bubble_booter_oss.Isofs.Read.{read_handle}

-- the bytes from the first place of `t` on
unfoldable pub strstr : List ℕ → List ℕ → Option (List ℕ)
unfolding same_text
strstr [] t = if length t == 0 then some [] else none
strstr (c ∷ s) t = if same_text (take (length t) (c ∷ s)) t then some (c ∷ s) else strstr s t

unfoldable pub free_from : ℕ → List Handle → Option ℕ
free_from i [] = none
free_from i (h ∷ handlers) = if h.opened then free_from (suc i) handlers else some i

-- GetFreeHandle: handle 0 stays unused
unfoldable pub get_free_handle : List Handle → Option ℕ
unfolding free_from
get_free_handle handlers = free_from 1 (drop 1 handlers)

abbrev pub opened_handle : ℤ → ℤ → Handle
opened_handle lba size = record { opened = true; lba = lba; filesize = size; filepointer = pos 0 }

-- the index and the handle behind the two checks of a descriptor, or EBADF
unfoldable pub opened_at : ℤ → List Handle → Option (ℕ × Handle)
opened_at (negsuc i) handlers = none
opened_at (pos i) handlers =
    if ltb i max_handlers && (get_or handlers i no_handle).opened
    then some (i, get_or handlers i no_handle)
    else none

-- a sum of two ints, which C does not define when it is not an int
unfoldable pub as_int : ℤ → Run ℤ
as_int n = if not (ltb_ℤ n (negsuc (2 ^ 31 - 1))) && ltb_ℤ n (pos (2 ^ 31)) then done n else fault

-- the driver with no record, no handles and no last read
abbrev pub cleared : Option (List ℕ) → Driver
cleared sectors = record {
  main_record = no_entry;
  handlers = replicate max_handlers no_handle;
  sectors = sectors;
  last_lba = negsuc 0;
  last_read_size = pos 0;
}

-- what oe_free does is not modelled
abbrev pub isofs_exit : Driver → ℤ × Driver
isofs_exit d = (pos 0, record d { sectors = none; last_lba = negsuc 0; last_read_size = pos 0 })

abbrev pub isofs_reset : Driver → ℤ × Driver
isofs_reset d = (pos 0, cleared d.sectors)

-- the checks of isofs_lseek passed: the new file pointer, or EINVAL
unfoldable pub seek_to : Image → Handle → ℤ → ℤ → Run (Option ℤ)
unfolding as_int to_int32
seek_to m h ofs whence =
    if eqb_ℤ whence m.seek_set
    then done (some (to_int32 ofs))
    else if eqb_ℤ whence m.seek_cur
    then (as_int (h.filepointer +ℤ to_int32 ofs) >>= λ n. done (some n))
    else if eqb_ℤ whence m.seek_end
    then (as_int (h.filesize -ℤ to_int32 ofs) >>= λ n. done (some n))
    else done none

module _ (m : Image) where
  -- a result, the driver and the world
  abbrev pub Reply : Type 0
  Reply = ℤ × Driver × m.World

  unfoldable pub isofs_fastinit : Driver → m.World → Reply
  isofs_fastinit d w =
      let (sectors, w') = m.malloc (buffer_size m) w in
      elim sectors [
        | none ↦ (negsuc 0, record d { sectors = none }, w')
        | some bytes ↦ (pos 0, cleared (some (replicate (buffer_size m) 0)), w')
      ]

  -- isofs_init behind the read of sector 0x10
  unfoldable pub read_volume : ℤ → List ℕ → Driver → m.World → Reply
  unfolding same_text
  read_volume res sectors d w =
      if is_neg res
      then (res, record d { sectors = some sectors }, w)
      else if not (same_text (take 5 (drop 1 sectors)) (codes "CD001"))
      then (m.errors.einval, record d { sectors = some sectors }, w)
      else (
        pos 0,
        record (cleared (some sectors)) { main_record = m.entry_at (drop 0x9C sectors) },
        w,
      )

  unfoldable pub isofs_init : Driver → m.World → Reply
  unfolding read_volume read_buffer
  isofs_init d w =
      let (sectors, w') = m.malloc (buffer_size m) w in
      let (res, sectors', w'') = read_buffer m (pos 0x10) 1 (replicate (buffer_size m) 0) w' in
      elim sectors [
        | none ↦ (negsuc 0, record d { sectors = none }, w')
        | some bytes ↦ read_volume res sectors' d w''
      ]

  -- a free handle for a file
  unfoldable pub assign : ℤ → ℤ → Driver → m.World → Reply
  unfolding get_free_handle
  assign lba size d w = elim (get_free_handle d.handlers) [
    | none ↦ (m.errors.emfile, d, w)
    | some i ↦ (pos i, record d { handlers = set d.handlers i (opened_handle lba size) }, w)
  ]

  -- the folder's record
  unfoldable pub find_folder : List ℕ → Entry → List ℕ → m.World → Run (Found m.World)
  unfolding find_path
  find_folder [] e sectors w =
      done (record { result = e.lsb_start; record_found = some e; buffer = sectors; world = w })
  find_folder (c ∷ path) e sectors w = find_path m (c ∷ path) e sectors w

  -- the folder's record and then the file's
  unfoldable pub find_record : List ℕ → List ℕ → Entry → List ℕ → m.World → Run (Found m.World)
  unfolding find_folder find_file
  find_record path filename e sectors w = find_folder path e sectors w >>= λ f.
      elim f.record_found [
        | none ↦ done f
        | some e' ↦
            if is_neg f.result
            then done f
            else find_file m filename f.result e'.lsb_data_length false f.buffer f.world
      ]

  -- GetPathAndName, FindPathLBA and FindFileLBA: the file's start and record, or an error
  unfoldable pub locate : List ℕ → Driver → m.World → Run (ℤ × Option Entry × Driver × m.World)
  unfolding get_path_and_name find_record
  locate fullpath d w = get_path_and_name fullpath >>= λ p. elim p [
    | too_long ↦ done (m.errors.enametoolong, none, d, w)
    | parts path filename ↦ need d.sectors >>= λ s.
        find_record path filename d.main_record s w >>= λ f.
        done (f.result, f.record_found, record d { sectors = some f.buffer }, f.world)
  ]

  -- isofs_open of a path in the image
  unfoldable pub open_named : List ℕ → Driver → m.World → Run Reply
  unfolding locate assign
  open_named fullpath d w = locate fullpath d w >>= λ (lba, e, d', w'). elim e [
    | none ↦ done (lba, d', w')
    | some e ↦ if is_neg lba then done (lba, d', w') else done (assign lba e.lsb_data_length d' w')
  ]

  -- isofs_open of "/sce_lbn<start>_size<size>"
  unfoldable pub open_sectors : List ℕ → Driver → m.World → Reply
  unfolding strstr assign
  open_sectors fullpath d w = elim (strstr fullpath (codes "_size")) [
    | none ↦ (m.errors.einval, d, w)
    | some p ↦
        let start = take (length fullpath - length p - 8) (drop 8 fullpath) in
        let size = drop 5 p in
        if ltb 10 (length start)
        then (m.errors.enametoolong, d, w)
        else if is_neg (m.strtol start)
        then (m.errors.einval, d, w)
        else if ltb 10 (length size)
        then (m.errors.enametoolong, d, w)
        else if is_neg (m.strtol size)
        then (m.errors.einval, d, w)
        else assign (m.strtol start) (m.strtol size) d w
  ]

  -- isofs_open with the slash at the end removed
  unfoldable pub open_stripped : List ℕ → ℕ → Driver → m.World → Run Reply
  unfolding open_named open_sectors
  open_stripped fullpath flags d w =
      if ltb 256 (length fullpath + 1)
      then done (m.errors.enametoolong, d, w)
      else if m.is_not_allowed flags
      then done (m.errors.eflag, d, w)
      else if same_text (take 8 fullpath) (codes "/sce_lbn")
      then done (open_sectors fullpath d w)
      else open_named fullpath d w

  -- The copy in `fullpath` has no zero byte when the path has 256 bytes or more.
  unfoldable pub isofs_open : Option (List ℕ) → ℕ → Driver → m.World → Run Reply
  unfolding open_stripped
  isofs_open none flags d w = done (m.errors.einval, d, w)
  isofs_open (some file) flags d w =
      if same_text file (codes "/")
      then done (assign d.main_record.lsb_start d.main_record.lsb_data_length d w)
      else if leb 256 (length file)
      then fault
      else need (strip_slash file) >>= λ fullpath. open_stripped fullpath flags d w

  unfoldable pub isofs_close : ℤ → Driver → m.World → Reply
  unfolding opened_at
  isofs_close fd d w = elim (opened_at fd d.handlers) [
    | none ↦ (m.errors.ebadf, d, w)
    | some (i, h) ↦
        (pos 0, record d { handlers = set d.handlers i (record h { opened = false }) }, w)
  ]

  -- the result, the bytes read and the rest
  unfoldable pub isofs_read : ℤ → ℤ → Driver → m.World → Run (ℤ × List ℕ × Driver × m.World)
  unfolding opened_at read_handle
  isofs_read fd len d w = elim (opened_at fd d.handlers) [
    | none ↦ done (m.errors.ebadf, [], d, w)
    | some (i, h) ↦ elim len [
      | negsuc n ↦ done (m.errors.einval, [], d, w)
      | pos n ↦ need d.sectors >>= λ s. read_handle m h n s w >>= λ o.
          let handlers = set d.handlers i (record h { filepointer = o.filepointer }) in
          done
            (o.result, o.bytes, record d { handlers = handlers; sectors = some o.buffer }, o.world)
    ]
  ]

  unfoldable pub isofs_lseek : ℤ → ℤ → ℤ → Driver → m.World → Run Reply
  unfolding opened_at seek_to
  isofs_lseek fd ofs whence d w = elim (opened_at fd d.handlers) [
    | none ↦ done (m.errors.ebadf, d, w)
    | some (i, h) ↦ seek_to m h ofs whence >>= λ r. elim r [
      | none ↦ done (m.errors.einval, d, w)
      | some n ↦
          done (n, record d { handlers = set d.handlers i (record h { filepointer = n }) }, w)
    ]
  ]

  -- isofs_getstat, for a path and a SceIoStat that may be NULL, with the st_size and the st_private[0]
  -- that it writes
  unfoldable pub isofs_getstat :
      Option (List ℕ) → Bool → Driver → m.World → Run (Option (ℤ × ℤ) × ℤ × Driver × m.World)
  unfolding locate
  isofs_getstat none has_stat d w = done (none, m.errors.einval, d, w)
  isofs_getstat (some file) has_stat d w =
      if not has_stat
      then done (none, m.errors.einval, d, w)
      else if ltb 256 (length file + 1)
      then done (none, m.errors.enametoolong, d, w)
      else need (strip_slash file) >>= λ fullpath.
          if same_text (take 8 fullpath) (codes "/sce_lbn")
          then done (none, pos 0, d, w)
          else locate fullpath d w >>= λ (lba, e, d', w'). elim e [
            | none ↦ done (none, lba, d', w')
            | some e ↦
                if is_neg lba
                then done (none, lba, d', w')
                else done (some (e.lsb_data_length, lba), pos 0, d', w')
          ]
