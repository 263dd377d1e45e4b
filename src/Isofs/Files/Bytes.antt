-- ===== src/Isofs/Files/Bytes.antt =====
-- isofs_read gives the bytes of the file that stand on the disc, where the disc can be read.
use adr_bubble_booter_oss.Prelude.{
  ℕ, ◌+◌, ◌-◌, ◌*◌, ◌^◌, ◌<◌, ◌≡◌, refl, arith, List, pos, true, ltb, get_or, set, min, some,
}
use adr_bubble_booter_oss.Isofs.{Handle, no_handle, Image, Driver, done, max_handlers}
use adr_bubble_booter_oss.Isofs.Read.Laws.Slices.{slice}
use adr_bubble_booter_oss.Isofs.Read.Laws.Exact.{IsDisc}
use adr_bubble_booter_oss.Isofs.Read.Laws.Bytes.{file_at, read_handle-Gives}
use adr_bubble_booter_oss.Isofs.Files.{opened_at, isofs_read}

opened_at-file_at :
    (i : ℕ) (handlers : List Handle) (h : Handle)
    → i < max_handlers
    → get_or handlers i no_handle ≡ h
    → h.opened ≡ true
    → opened_at (pos i) handlers ≡ some (i, h)
unfolding opened_at
opened_at-file_at i handlers h lt e o =
    let t : ltb i max_handlers ≡ true = ground arith in rw (opened_at, t, e, o) refl

-- Where Umd9660ReadSectors2 reads every sector of a disc, and a sector is not empty: isofs_read of an
-- open handle, whose file of `size` bytes begins at sector `l` and whose file pointer is `a`, returns
-- the number of bytes that are left in the file, `len` at most; gives as many bytes of the disc, from
-- the file's byte `a` on; moves the file pointer over them; and changes no other handle. `len + a` is an
-- int.
pub isofs_read-slice :
    (m : Image) (disc : ℕ → ℕ)
    → IsDisc m disc
    → 0 < m.sector_size
    → (i l size a len : ℕ) (buffer : List ℕ) (d : Driver) (w : m.World) → i < max_handlers
    → get_or d.handlers i no_handle ≡ file_at l size a
    → d.sectors ≡ some buffer
    → len + a < 2 ^ 31
    → (d' : Driver) × (w' : m.World) × (isofs_read m (pos i) (pos len) d w
        ≡ done (
          pos (min len (size - a)),
          slice disc (l * m.sector_size + a) (min len (size - a)),
          d',
          w',
        ))
      × (d'.handlers ≡ set d.handlers i (file_at l size (a + min len (size - a))))
unfolding isofs_read
isofs_read-slice m disc ideal some_size i l size a len buffer d w lt at has h =
    let n = min len (size - a) in
    let (o, e, g) = read_handle-Gives m disc ideal some_size l size a len buffer w h in
    let opened = opened_at-file_at i d.handlers (file_at l size a) lt at refl in
    let d' : Driver = record d {
      handlers = set d.handlers i (record (file_at l size a) { filepointer = o.filepointer });
      sectors = some o.buffer;
    } in
    (d', o.world, rw (isofs_read, opened, has, e, g.0, g.1) refl, rw g.2 refl)
