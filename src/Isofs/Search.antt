-- ===== src/Isofs/Search.antt =====
-- FindFileLBA and FindPathLBA of isofs_driver.c. `pos` is an int: a value that does not fit one is a
-- fault.
pub mod Laws
pub mod Ends
use adr_bubble_booter_oss.Prelude.{
  ℕ, zero, suc, ◌+◌, ◌-◌, ◌*◌, ◌/◌, ◌%◌, ◌^◌, List, [], ◌∷◌, ◌++◌, ℤ, pos, negsuc, ◌+ℤ◌, ◌-ℤ◌,
  ltb_ℤ, is_neg, eqb_ℤ, pos_part, Bool, true, false, not, ◌&&◌, if◌then◌else◌, ltb, leb, ◌==◌,
  length, drop, take, Option, none, some, replicate,
}
use adr_bubble_booter_oss.Text.{codes, c_string, strrchr}
use adr_bubble_booter_oss.Minilibc.Strings.Compare.{compare_bytes}
use adr_bubble_booter_oss.Isofs.{
  Entry, Image, Driver, Run, done, fault, stuck, ◌>>=◌, size_to_sectors, read_buffer,
}
use adr_bubble_booter_oss.Isofs.Names.{normalize_name}

-- `strcmp(s, t) == 0`
unfoldable pub same_text : List ℕ → List ℕ → Bool
unfolding compare_bytes
same_text s t = eqb_ℤ (compare_bytes s t) (pos 0)

-- what one record is for the search
pub data Match : Type 0 where
  other found not_directory too_long unterminated : Match

-- the name in the 32 bytes: it has no zero byte behind it when `len_fi` is 32
unfoldable pub entry_name : Entry → Option (List ℕ)
unfolding c_string normalize_name
entry_name e = elim (c_string (take e.len_fi e.fi ++ replicate (32 - e.len_fi) 0)) [
  | none ↦ none
  | some s ↦ some (normalize_name s)
]

-- the body of the loop behind the check for the end: `.` and `..` have the names 0 and 1
unfoldable pub match_entry : List ℕ → Bool → Entry → Match
unfolding same_text entry_name
match_entry filename is_dir e =
    let special : List ℕ → Match = λ name. if same_text filename name then found else other in
    let named : Match = elim (entry_name e) [
      | none ↦ unterminated
      | some name ↦
          if same_text name filename
          then (if is_dir && not e.is_directory then not_directory else found)
          else other
    ] in
    elim (ltb 32 e.len_fi) [
      | true ↦ too_long
      | false ↦ elim e.fi [
        | [] ↦ unterminated
        | (zero ∷ fi) ↦ special (codes ".")
        | (suc zero ∷ fi) ↦ special (codes "..")
        | (suc (suc c) ∷ fi) ↦ named
      ]
    ]

-- the variables of the loop: the offset of `p` in `sectors`, `pos`, and the others
pub record Cursor : Type 0 where
  pub at : ℕ
  pub position : ℤ
  pub old_length : ℕ
  pub lba : ℤ
  pub remaining : ℕ

-- the result, the record for a result that is not negative, and the buffer
pub record Found (W : Type 0) : Type 0 where
  pub result : ℤ
  pub record_found : Option Entry
  pub buffer : List ℕ
  pub world : W

abbrev pub failure : {W : Type 0} → ℤ → List ℕ → W → Found W
failure res sectors w = record { result = res; record_found = none; buffer = sectors; world = w }

-- SizeToSectors of a size that may be negative: C rounds towards zero
unfoldable pub signed_sectors : ℕ → ℤ → ℤ
unfolding size_to_sectors
signed_sectors sector_size (pos n) = pos (size_to_sectors sector_size n)
signed_sectors sector_size (negsuc n) =
    (if suc n % sector_size == 0 then pos 0 else pos 1) -ℤ pos (suc n / sector_size)

-- a value of int
unfoldable pub is_int : ℤ → Bool
is_int (pos n) = ltb n (2 ^ 31)
is_int (negsuc n) = ltb n (2 ^ 31)

-- `lba * SECTOR_SIZE`
unfoldable pub byte_of : ℕ → ℤ → ℤ
byte_of sector_size (pos n) = pos (n * sector_size)
byte_of sector_size (negsuc n) = pos 0 -ℤ pos (suc n * sector_size)

-- `SECTOR_SIZE - (pos % SECTOR_SIZE)`: the remainder of a negative number is negative
unfoldable pub left_of : ℕ → ℤ → ℕ
left_of sector_size (pos n) = sector_size - n % sector_size
left_of sector_size (negsuc n) = sector_size + suc n % sector_size

-- `p = strchr(curpath, '/')`: the text before the slash, and the text behind it
unfoldable pub split_slash : List ℕ → List ℕ × Option (List ℕ)
split_slash [] = ([], none)
split_slash (c ∷ path) =
    let (name, rest) = split_slash path in if c == b'/' then ([], some path) else (c ∷ name, rest)

module _ (m : Image) where
  -- where the loop reads a record; a read behind the array is a fault
  abbrev pub buffer_size : ℕ
  buffer_size = m.sector_size * 8 + 64

  unfoldable pub entry_in : List ℕ → ℕ → Option Entry
  entry_in sectors at =
      if leb (at + m.entry_size) buffer_size then some (m.entry_at (drop at sectors)) else none

  -- The check for the end: the cursor at the next record, if there is one. The records of a sector end
  -- with a zero length, and the next ones stand in the next sector when the last could not fit.
  unfoldable pub next_entry : List ℕ → Cursor → Run (Option (Cursor × Entry))
  unfolding entry_in left_of is_int
  next_entry sectors c =
      let left = left_of m.sector_size c.position in
      let c' = record c { at = c.at + left; position = c.position +ℤ pos left } in
      elim (entry_in sectors c.at) [
        | none ↦ fault
        | some e ↦
            if not (e.len_dr == 0)
            then done (some (c, e))
            else if ltb c.old_length left
            then done none
            else if not (is_int c'.position)
            then fault
            else elim (entry_in sectors c'.at) [
              | none ↦ fault
              | some e' ↦ if e'.len_dr == 0 then done none else done (some (c', e'))
            ]
      ]

  -- `p += record->len_dr`, and so on
  abbrev pub step_over : Entry → Cursor → Cursor
  step_over e c = record c {
    at = c.at + e.len_dr;
    position = c.position +ℤ pos e.len_dr;
    old_length = e.len_dr;
  }

  -- whether the cursor has come so far that the next sectors are read
  unfoldable pub is_exhausted : Cursor → Bool
  is_exhausted c = ltb 0 c.remaining && leb (8 * m.sector_size) (c.at + m.entry_size + 0x60)

  -- the cursor behind the reading of the next sectors, of which `remaining` below zero is zero
  unfoldable pub advance : Cursor → Cursor
  advance c = record c {
    at = c.at % m.sector_size;
    lba = c.lba +ℤ pos (c.at / m.sector_size);
    remaining = if leb (8 * m.sector_size) c.at then c.remaining - 8 else c.remaining - 7;
  }

  unfoldable pub find_loop : ℕ → List ℕ → Bool → List ℕ → Cursor → m.World → Run (Found m.World)
  unfolding next_entry match_entry is_int is_exhausted advance
  find_loop zero filename is_dir sectors c w = stuck
  find_loop (suc fuel) filename is_dir sectors c w = elim (next_entry sectors c) [
    | fault ↦ fault
    | stuck ↦ stuck
    | done none ↦ done (failure m.errors.enoent sectors w)
    | done (some (c', e)) ↦ elim (match_entry filename is_dir e) [
      | too_long ↦ done (failure m.errors.einval sectors w)
      | unterminated ↦ fault
      | not_directory ↦ done (failure m.errors.enotdir sectors w)
      | found ↦
          done (record { result = e.lsb_start; record_found = some e; buffer = sectors; world = w })
      | other ↦
          let c₂ = step_over e c' in
          let c₃ = advance c₂ in
          let (res, sectors', w') = read_buffer m c₃.lba 8 sectors w in
          if not (is_int c₂.position)
          then fault
          else if is_exhausted c₂
          then (if is_neg res
              then done (failure res sectors' w')
              else find_loop fuel filename is_dir sectors' c₃ w')
          else find_loop fuel filename is_dir sectors c₂ w
    ]
  ]

  -- the turns: at most one for each place of the buffer, for each of the sectors remaining and one more
  abbrev pub enough : ℕ → ℕ
  enough remaining = suc (suc remaining * suc buffer_size)

  -- the first sectors of a directory, and the search in them
  unfoldable pub find_in : List ℕ → ℤ → ℕ → Bool → List ℕ → m.World → Run (Found m.World)
  unfolding find_loop read_buffer byte_of is_int
  find_in filename lba n is_dir sectors w =
      let (res, sectors', w') = read_buffer m lba (if leb n 8 then n else 8) sectors w in
      let c : Cursor = record {
        at = 0;
        position = byte_of m.sector_size lba;
        old_length = 0;
        lba = lba;
        remaining = n - 8;
      } in
      if not (is_int c.position)
      then fault
      else if is_neg res
      then done (failure res sectors' w')
      else find_loop (enough (n - 8)) filename is_dir sectors' c w'

  -- FindFileLBA: a negative number of sectors makes memset write before the buffer
  unfoldable pub find_file : List ℕ → ℤ → ℤ → Bool → List ℕ → m.World → Run (Found m.World)
  unfolding find_in signed_sectors
  find_file filename lba size is_dir sectors w = elim (signed_sectors m.sector_size size) [
    | negsuc n ↦ fault
    | pos n ↦ find_in filename lba n is_dir sectors w
  ]

  -- what FindPathLBA does with a folder's name: the level that it counts
  unfoldable pub next_level : List ℕ → ℤ → ℤ
  unfolding same_text
  next_level name level =
      if same_text name (codes ".")
      then level
      else if same_text name (codes "..")
      then level -ℤ pos 1
      else level +ℤ pos 1

  -- The loop of FindPathLBA, from `curpath` on, with the record of the folder so far. A turn takes a
  -- slash at least.
  unfoldable pub find_path_loop :
      ℕ → List ℕ → ℤ → ℤ → Entry → List ℕ → m.World → Run (Found m.World)
  unfolding find_file next_level
  find_path_loop zero path level lba e sectors w = stuck
  find_path_loop (suc fuel) path level lba e sectors w =
      let (name, rest) = split_slash path in
      elim rest [
        | none ↦ done (record { result = lba; record_found = some e; buffer = sectors; world = w })
        | some rest ↦
            if ltb 32 (length name + 1)
            then done (failure m.errors.enametoolong sectors w)
            else if ltb_ℤ (pos 8) (next_level name level)
            then done (failure m.errors.einval sectors w)
            else find_file name lba e.lsb_data_length true sectors w >>= λ f. elim f.record_found [
              | none ↦ done f
              | some e' ↦
                  if is_neg f.result
                  then done f
                  else find_path_loop fuel rest (next_level name level) f.result e' f.buffer f.world
            ]
      ]

  -- FindPathLBA
  unfoldable pub find_path : List ℕ → Entry → List ℕ → m.World → Run (Found m.World)
  unfolding find_path_loop
  find_path path main_record sectors w =
      find_path_loop (suc (length path)) path (pos 0) main_record.lsb_start main_record sectors w
