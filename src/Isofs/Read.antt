-- ===== src/Isofs/Read.antt =====
-- isofs_read of isofs_driver.c: the bytes up to the next sector's start, whole sectors straight into the
-- caller's buffer, and the bytes of a last sector. The sizes are sums of ints that the model does not
-- wrap, and a sum of 2^31 or more is a fault.
pub mod Laws
use adr_bubble_booter_oss.Prelude.{
  ℕ, zero, suc, ◌+◌, ◌-◌, ◌*◌, ◌/◌, ◌%◌, ◌^◌, List, [], ◌∷◌, ◌++◌, ℤ, pos, negsuc, ◌+ℤ◌, ◌-ℤ◌,
  ltb_ℤ, is_neg, eqb_ℤ, Bool, true, false, not, if◌then◌else◌, ltb, leb, ◌==◌, length, drop, take,
  min,
}
use adr_bubble_booter_oss.Isofs.{
  Handle, Image, Run, done, fault, size_to_sectors, read_buffer, read_direct,
}

-- the result, the bytes that are in the caller's buffer, the file pointer, the driver's buffer
pub record Output (W : Type 0) : Type 0 where
  pub result : ℤ
  pub bytes : List ℕ
  pub filepointer : ℤ
  pub buffer : List ℕ
  pub world : W

-- C's `/` and `%` of an int by the sector size, which round towards zero
abbrev pub quotient : ℤ → ℕ → ℤ
quotient (pos n) d = pos (n / d)
quotient (negsuc n) d = pos 0 -ℤ pos (suc n / d)

abbrev pub residue : ℤ → ℕ → ℤ
residue (pos n) d = pos (n % d)
residue (negsuc n) d = pos 0 -ℤ pos (suc n % d)

-- how far the read has come: the bytes read, those remaining, and the next sector
pub record Progress (W : Type 0) : Type 0 where
  pub read : ℕ
  pub remaining : ℕ
  pub next : ℤ
  pub bytes : List ℕ
  pub filepointer : ℤ
  pub buffer : List ℕ
  pub world : W

module _ (m : Image) where
  -- `return res;` with what has been done
  abbrev pub leave : ℤ → Progress m.World → Output m.World
  leave res p = record {
    result = res;
    bytes = p.bytes;
    filepointer = p.filepointer;
    buffer = p.buffer;
    world = p.world;
  }

  -- the last sector, when it has been read
  unfoldable pub copy_tail : ℤ → List ℕ → m.World → Progress m.World → Output m.World
  copy_tail res sectors w p =
      let rest = p.remaining % m.sector_size in
      let p' : Progress m.World = record p {
        read = p.read + rest;
        remaining = p.remaining - rest;
        bytes = p.bytes ++ take rest sectors;
        filepointer = p.filepointer +ℤ pos rest;
        buffer = sectors;
        world = w;
      } in
      if is_neg res
      then leave res (record p { buffer = sectors; world = w })
      else if ltb 0 p'.remaining
      then leave m.errors.eio p'
      else leave (pos p'.read) p'

  unfoldable pub read_tail : Progress m.World → Output m.World
  unfolding copy_tail read_buffer
  read_tail p =
      let (res, sectors, w) = read_buffer m p.next 1 p.buffer p.world in copy_tail res sectors w p

  -- behind the whole sectors; `remaining` below zero is zero
  abbrev pub after_whole : ℕ → List ℕ → m.World → Progress m.World → Progress m.World
  after_whole n bytes w p = record p {
    read = p.read + n * m.sector_size;
    remaining = p.remaining - n * m.sector_size;
    next = p.next +ℤ pos n;
    bytes = p.bytes ++ bytes;
    filepointer = p.filepointer +ℤ pos (n * m.sector_size);
    world = w;
  }

  unfoldable pub finish : Progress m.World → Output m.World
  unfolding read_tail
  finish p = if p.remaining == 0 then leave (pos p.read) p else read_tail p

  -- the sectors that are read straight into the caller's buffer
  unfoldable pub whole_sectors : ℕ → ℕ
  unfolding size_to_sectors
  whole_sectors remaining =
      if remaining % m.sector_size == 0
      then size_to_sectors m.sector_size remaining
      else size_to_sectors m.sector_size remaining - 1

  -- the whole sectors, when they have been read
  unfoldable pub count_whole : ℤ → List ℕ → m.World → Progress m.World → Output m.World
  unfolding finish
  count_whole (negsuc e) bytes w p = leave (negsuc e) (record p { world = w })
  count_whole (pos k) bytes w p = finish (after_whole k bytes w p)

  unfoldable pub read_whole : Progress m.World → Output m.World
  unfolding whole_sectors count_whole
  read_whole p =
      let n = whole_sectors p.remaining in
      let (res, bytes, w) = read_direct m p.next n p.world in
      if n == 0 then finish p else count_whole res bytes w p

  -- behind the first sector
  unfoldable pub read_rest : Progress m.World → Output m.World
  unfolding read_whole
  read_rest p = if p.remaining == 0 then leave (pos p.read) p else read_whole p

  -- the bytes behind the offset `r` in a first sector
  abbrev pub after_first : ℕ → List ℕ → m.World → Progress m.World → Progress m.World
  after_first r sectors w p =
      let n = min (m.sector_size - r) p.remaining in
      record p {
        read = n;
        remaining = p.remaining - n;
        next = p.next +ℤ pos 1;
        bytes = take n (drop r sectors);
        filepointer = p.filepointer +ℤ pos n;
        buffer = sectors;
        world = w;
      }

  -- A first sector that has been read, by the offset in it. A file pointer below zero that is not a
  -- sector's start makes memcpy read before the buffer.
  unfoldable pub copy_first : ℤ → ℤ → List ℕ → m.World → Progress m.World → Run (Output m.World)
  unfolding read_rest
  copy_first offset res sectors w p =
      if not (eqb_ℤ res (pos 1))
      then done (leave res (record p { buffer = sectors; world = w }))
      else elim offset [ negsuc r ↦ fault | pos r ↦ done (read_rest (after_first r sectors w p)) ]

  unfoldable pub read_first : Progress m.World → Run (Output m.World)
  unfolding copy_first read_buffer
  read_first p =
      let (res, sectors, w) = read_buffer m p.next 1 p.buffer p.world in
      let offset = residue p.filepointer m.sector_size in
      if eqb_ℤ offset (pos 0) then done (read_rest p) else copy_first offset res sectors w p

  -- `if (remaining + filepointer > filesize) remaining -= (remaining + filepointer) - filesize;`
  unfoldable pub cut_remaining : Handle → ℕ → ℤ
  cut_remaining h len =
      let end = pos len +ℤ h.filepointer in
      if ltb_ℤ h.filesize end then pos len -ℤ (end -ℤ h.filesize) else pos len

  unfoldable pub begin_read : ℤ → Progress m.World → Run (Output m.World)
  unfolding read_first
  begin_read (negsuc n) p = done (leave (pos 0) p)
  begin_read (pos zero) p = done (leave (pos 0) p)
  begin_read (pos (suc n)) p = read_first (record p { remaining = suc n })

  abbrev pub at_start : Handle → List ℕ → m.World → Progress m.World
  at_start h buffer w = record {
    read = 0;
    remaining = 0;
    next = h.lba +ℤ quotient h.filepointer m.sector_size;
    bytes = [];
    filepointer = h.filepointer;
    buffer = buffer;
    world = w;
  }

  -- isofs_read of an open handle, for a length that is not negative
  unfoldable pub read_handle : Handle → ℕ → List ℕ → m.World → Run (Output m.World)
  unfolding cut_remaining begin_read
  read_handle h len buffer w =
      if ltb_ℤ (pos len +ℤ h.filepointer) (pos (2 ^ 31))
      then begin_read (cut_remaining h len) (at_start h buffer w)
      else fault
