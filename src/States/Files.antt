-- ===== src/States/Files.antt =====
-- The files of the savestates in integration/adrenaline-v7/overlay/user/states.c: their names, and the
-- loop of initStates over the folder.
use adr_bubble_booter_oss.Prelude.{
  ℕ, ◌+◌, ◌-◌, ◌*◌, List, [], ◌∷◌, ◌++◌, ℤ, pos, negsuc, is_neg, Bool, not, ◌&&◌, if◌then◌else◌,
  ltb, leb, ◌==◌, drop, take, get_or, set, replicate, Option, none, some,
}
use adr_bubble_booter_oss.Text.{codes, c_string}
use adr_bubble_booter_oss.BootInfo.{load_word}
use adr_bubble_booter_oss.Clock.{padded}
use adr_bubble_booter_oss.Msfs.Paths.{memory_stick_location, has_prefix}
use adr_bubble_booter_oss.States.{Entry, max_states}

-- the kernel's calls and the textures
pub record Host : Type 1 where
  pub World : Type 0
  pub io_open : List ℕ → World → ℤ × World
  -- sceIoRead of the header, with the bytes of the header behind it
  pub read_header : ℤ → World → List ℕ × World
  pub io_close : ℤ → World → World
  -- vita2d_create_empty_texture, or NULL
  pub create_texture : World → Option ℕ × World
  -- the bytes that sceIoRead writes to the texture, of an offset and at most a size
  pub read_pixels : ℤ → ℕ → ℕ → World → ℕ × World
  -- sceIoGetstat: a result that is not negative
  pub exists : List ℕ → World → Bool × World
  -- malloc of the array, and sceIoDopen
  pub malloc : World → Bool × World
  pub io_dopen : List ℕ → World → ℤ × World
  -- the names that sceIoDread gives until its result is not positive, and sceIoDclose
  pub read_names : ℤ → World → List (List ℕ) × World
  pub ms_location : ℤ

abbrev pub screenshot_size : ℕ
screenshot_size = 240 * 136 * 4

abbrev pub savestate_magic : ℕ
savestate_magic = 0x54535653

-- makeSaveStatePath
unfoldable pub make_save_state_path : List ℕ → ℕ → List ℕ
unfolding padded
make_save_state_path location num =
    location ++ codes "/PSP/SAVESTATE/STATE" ++ padded 2 num ++ codes ".BIN"

abbrev pub is_digit : ℕ → Bool
is_digit c = leb b'0' c && leb c b'9'

-- the number in a name: two digits behind STATE, below 32
unfoldable pub state_number : List ℕ → Option ℕ
unfolding has_prefix
state_number name =
    let high = get_or name 5 0 in
    let low = get_or name 6 0 in
    let num = 10 * (high - b'0') + (low - b'0') in
    if has_prefix name (codes "STATE") && (is_digit high && is_digit low) && ltb num max_states
    then some num
    else none

-- the entries that malloc gives, with the numbers cleared; the other fields are not set
abbrev pub no_entries : List Entry
no_entries = replicate max_states (record { num = negsuc 0; tex = none })

module _ (h : Host) where
  abbrev pub path_of : ℕ → List ℕ
  path_of num = make_save_state_path (memory_stick_location h.ms_location) num

  -- the picture of a state: a texture is overrun when the file gives more than it holds
  unfoldable pub load_picture : ℤ → List ℕ → h.World → Option (Option ℕ × h.World)
  unfolding load_word
  load_picture fd header w =
      let (tex, w) = h.create_texture w in
      let (n, w') =
        h.read_pixels fd (load_word (drop 0x90 header)) (load_word (drop 0x94 header)) w in
      elim tex [
        | none ↦ some (none, w)
        | some t ↦ if ltb screenshot_size n then none else some (some t, w')
      ]

  -- an open file: the title must end inside its 128 bytes, since strcpy reads on
  unfoldable pub load_header : ℕ → ℤ → List Entry → h.World → Option (List Entry × h.World)
  unfolding load_picture c_string
  load_header num fd entries w =
      let (header, w) = h.read_header fd w in
      if not (load_word header == savestate_magic)
      then some (entries, h.io_close fd w)
      else elim (c_string (take 128 (drop 8 header))) [
        | none ↦ none
        | some title ↦ elim (load_picture fd header w) [
          | none ↦ none
          | some (tex, w) ↦
              let w = (h.exists (path_of num) w).1 in
              some (set entries num (record { num = pos num; tex = tex }), h.io_close fd w)
        ]
      ]

  -- one name of the folder
  unfoldable pub load_name : List ℕ → List Entry → h.World → Option (List Entry × h.World)
  unfolding state_number load_header
  load_name name entries w = elim (state_number name) [
    | none ↦ some (entries, w)
    | some num ↦
        let (fd, w) = h.io_open (path_of num) w in
        if is_neg fd then some (entries, w) else load_header num fd entries w
  ]

  unfoldable pub load_names : List (List ℕ) → List Entry → h.World → Option (List Entry × h.World)
  unfolding load_name
  load_names [] entries w = some (entries, w)
  load_names (name ∷ names) entries w = elim (load_name name entries w) [
    | none ↦ none
    | some (entries', w') ↦ load_names names entries' w'
  ]

  -- initStates: the array, or none when malloc fails
  unfoldable pub init_states : h.World → Option (Option (List Entry) × h.World)
  unfolding load_names
  init_states w =
      let (allocated, w) = h.malloc w in
      let folder = memory_stick_location h.ms_location ++ codes "/PSP/SAVESTATE" in
      let (dfd, w₁) = h.io_dopen folder w in
      let (names, w₂) = h.read_names dfd w₁ in
      if not allocated
      then some (none, w)
      else if is_neg dfd
      then some (some no_entries, w₁)
      else elim (load_names names no_entries w₂) [
        | none ↦ none
        | some (entries, w₃) ↦ some (some entries, w₃)
      ]

  -- stateExists, as the test of its result
  abbrev pub state_exists : ℕ → h.World → Bool × h.World
  state_exists num w = h.exists (path_of num) w
