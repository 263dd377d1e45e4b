-- ===== src/Msfs/Table.antt =====
-- The descriptor table of integration/adrenaline-v7/overlay/user/msfs.c. The handle that the PSP holds
-- is an index into it, and a descriptor whose fd is zero is free.
pub mod Laws
use adr_bubble_booter_oss.Prelude.{
  ℕ, zero, suc, ◌≡◌, List, [], ◌∷◌, ℤ, pos, negsuc, eqb_ℤ, ltb, Bool, true, false, Option, none,
  some, if◌then◌else◌, ◌==◌, length, get_or, set,
}

-- ScePspemuMsfsDescriptor, by the fields that msfs.c uses
pub record Descriptor : Type 0 where
  pub path : List ℕ
  pub fd : ℤ
  pub flags : ℕ
  pub trunc : Bool
  pub folder : Bool
  pub extra : ℤ
  pub offset : ℤ
  pub first_write : Bool
  pub first_write_offset : ℤ
  pub filter : List ℕ

-- a descriptor that memset has cleared
abbrev pub empty : Descriptor
empty = record {
  path = [];
  fd = pos 0;
  flags = 0;
  trunc = false;
  folder = false;
  extra = pos 0;
  offset = pos 0;
  first_write = false;
  first_write_offset = pos 0;
  filter = [];
}

abbrev pub Table : Type 0
Table = List Descriptor

-- `path[0] == '\0' || (path[0] == '/' && path[1] == '\0')`
unfoldable pub is_root : List ℕ → Bool
is_root [] = true
is_root (c ∷ []) = c == b'/'
is_root (c ∷ d ∷ path) = false

unfoldable pub describe : ℤ → List ℕ → ℕ → Bool → Bool → Descriptor
unfolding is_root
describe fd path flags trunc folder = record empty {
  path = path;
  fd = fd;
  flags = flags;
  trunc = trunc;
  folder = folder;
  extra = if is_root path then negsuc 0 else (if folder then pos 0 else negsuc 0);
}

-- the index that the search stops at: the first free descriptor's, or the table's length
unfoldable pub find_free : Table → ℕ
find_free [] = 0
find_free (d ∷ t) = if eqb_ℤ d.fd (pos 0) then 0 else suc (find_free t)

-- ScePspemuMsfsAddDescriptor: the handle, and the table
unfoldable pub add_descriptor : ℤ → List ℕ → ℕ → Bool → Bool → Table → ℤ × Table
unfolding find_free describe
add_descriptor fd path flags trunc folder t =
    let i = find_free t in
    if i == length t then (negsuc 0, t) else (pos i, set t i (describe fd path flags trunc folder))

-- ScePspemuMsfsGetDescriptor
unfoldable pub get_descriptor : ℤ → Table → Option Descriptor
get_descriptor (negsuc i) t = none
get_descriptor (pos i) t = if ltb i (length t) then some (get_or t i empty) else none

-- ScePspemuMsfsRemoveDescriptor
unfoldable pub remove_descriptor : ℤ → Table → ℤ × Table
unfolding get_descriptor
remove_descriptor (negsuc i) t = (negsuc 0, t)
remove_descriptor (pos i) t = if ltb i (length t) then (pos 0, set t i empty) else (negsuc 0, t)
