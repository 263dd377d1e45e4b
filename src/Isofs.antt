-- ===== src/Isofs.antt =====
-- integration/adrenaline-v7/overlay/cef/vshctrl/isofs_driver/isofs_driver.c: the files of an ISO image.
-- What isofs_driver.h and the SDK hold, and the reads of the image, are a parameter; a run is `fault`
-- where C is undefined, and `stuck` only when a loop is out of fuel.
pub mod Ends
pub mod Names
pub mod Search
pub mod Read
pub mod Files
use adr_bubble_booter_oss.Prelude.{
  ℕ, ◌+◌, ◌*◌, ◌/◌, ◌%◌, List, [], ◌++◌, ℤ, pos, negsuc, Bool, true, false, if◌then◌else◌, ltb,
  ◌==◌, length, drop, take, replicate, Option, none, some,
}

-- Iso9660DirectoryRecord, by the fields that the driver uses, and the bytes from `fi` on
pub record Entry : Type 0 where
  pub len_dr : ℕ
  pub lsb_start : ℤ
  pub lsb_data_length : ℤ
  -- `fileFlags & ISO9660_FILEFLAGS_DIR`
  pub is_directory : Bool
  pub len_fi : ℕ
  pub fi : List ℕ

-- a record that memset has cleared
abbrev pub no_entry : Entry
no_entry = record {
  len_dr = 0;
  lsb_start = pos 0;
  lsb_data_length = pos 0;
  is_directory = false;
  len_fi = 0;
  fi = [];
}

-- FileHandle
pub record Handle : Type 0 where
  pub opened : Bool
  pub lba : ℤ
  pub filesize : ℤ
  pub filepointer : ℤ

abbrev pub no_handle : Handle
no_handle = record { opened = false; lba = pos 0; filesize = pos 0; filepointer = pos 0 }

pub record Errors : Type 0 where
  pub ebadf : ℤ
  pub efbig : ℤ
  pub eflag : ℤ
  pub einval : ℤ
  pub eio : ℤ
  pub emfile : ℤ
  pub enametoolong : ℤ
  pub enoent : ℤ
  pub enotdir : ℤ

pub record Image : Type 1 where
  pub World : Type 0
  -- Umd9660ReadSectors2, with the bytes read
  pub read_sectors2 : ℤ → ℕ → World → ℤ × List ℕ × World
  -- oe_malloc of the buffer, with the bytes that it holds, or NULL
  pub malloc : ℕ → World → Option (List ℕ) × World
  -- the record at the front of some bytes, its size, SECTOR_SIZE, and strtol(·, NULL, 0)
  pub entry_at : List ℕ → Entry
  pub entry_size : ℕ
  pub sector_size : ℕ
  pub strtol : List ℕ → ℤ
  -- `flags & notallowedflags` of isofs_open, PSP_SEEK_SET, PSP_SEEK_CUR and PSP_SEEK_END
  pub is_not_allowed : ℕ → Bool
  pub seek_set : ℤ
  pub seek_cur : ℤ
  pub seek_end : ℤ
  pub errors : Errors

-- the globals main_record, handlers, sectors (none for NULL), g_lastLBA and g_lastReadSize
pub record Driver : Type 0 where
  pub main_record : Entry
  pub handlers : List Handle
  pub sectors : Option (List ℕ)
  pub last_lba : ℤ
  pub last_read_size : ℤ

pub data Run {ℓ} (A : Type ℓ) : Type ℓ where
  done : A → Run A
  fault : Run A
  stuck : Run A

infixl 5 ◌>>=◌
abbrev pub ◌>>=◌ {ℓ κ} : {A : Type ℓ} → {B : Type κ} → Run A → (A → Run B) → Run B
done a >>= f = f a
fault >>= f = fault
stuck >>= f = stuck

-- a value that C has only if it is defined
abbrev pub need {ℓ} : {A : Type ℓ} → Option A → Run A
need none = fault
need (some a) = done a

abbrev pub max_handlers : ℕ
max_handlers = 32

-- SizeToSectors, of a size that is not negative
unfoldable pub size_to_sectors : ℕ → ℕ → ℕ
size_to_sectors sector_size size =
    if size % sector_size == 0 then size / sector_size else size / sector_size + 1

module _ (m : Image) where
  -- IsofsReadSectors into another buffer: the result and the bytes
  abbrev pub read_direct : ℤ → ℕ → m.World → ℤ × List ℕ × m.World
  read_direct lba n w = m.read_sectors2 lba n w

  -- `memset(sectors + nsectors * SECTOR_SIZE, 0, 64)`
  unfoldable pub clear_behind : ℕ → List ℕ → List ℕ
  clear_behind n sectors =
      let at = n * m.sector_size in take at sectors ++ (replicate 64 0 ++ drop (at + 64) sectors)

  -- IsofsReadSectors into `sectors`: the result and the buffer
  unfoldable pub read_buffer : ℤ → ℕ → List ℕ → m.World → ℤ × List ℕ × m.World
  unfolding clear_behind
  read_buffer lba n sectors w =
      let (res, bytes, w') = m.read_sectors2 lba n w in
      if ltb 8 n
      then (m.errors.efbig, sectors, w)
      else (res, bytes ++ drop (length bytes) (clear_behind n sectors), w')
