-- ===== src/Bubble/Upgraded.antt =====
-- The first launch of src/vita/adrbubblebooter/main.c with a legacy boot.bin, and the next one.
use adr_bubble_booter_oss.Prelude.{ℕ, ◌≡◌, List, length, take, ℤ, pos, is_neg, false}
use adr_bubble_booter_oss.BootInfo.{BootInfo}
use adr_bubble_booter_oss.Vita.{Vita, read_only, create_truncate}

-- A file that can be opened and written, and its content: the size that a seek to the end gives, the
-- bytes that a read from the start gives, and what a write leaves.
pub record Stores (v : Vita) (path : List ℕ) : Type 0 where
  pub content : v.World → List ℕ
  pub opens : (w : v.World) → is_neg (v.io_open path read_only w).0 ≡ false
  pub creates : (w : v.World) → is_neg (v.io_open path create_truncate w).0 ≡ false
  pub open_kept : (w : v.World) → content (v.io_open path read_only w).1 ≡ content w
  pub seek_kept : (fd : ℤ) (w : v.World) → content (v.io_lseek_end fd w).1 ≡ content w
  pub read_kept : (fd : ℤ) (size : ℕ) (w : v.World) → content (v.io_read fd size w).1 ≡ content w
  pub close_kept : (fd : ℤ) (w : v.World) → content (v.io_close fd w).1 ≡ content w
  pub end_found :
      (w : v.World)
      → (v.io_lseek_end (v.io_open path read_only w).0 (v.io_open path read_only w).1).0
        ≡ pos (length (content w))
  pub bytes_read :
      (size : ℕ) (w : v.World)
      → (v.io_read (v.io_open path read_only w).0 size (v.io_open path read_only w).1).0.1
        ≡ take size (content w)
  pub write_kept :
      (bytes : List ℕ) (w : v.World)
      → content
          (v.io_write
            (v.io_open path create_truncate w).0
            bytes
            (v.io_open path create_truncate w).1).1
        ≡ bytes
