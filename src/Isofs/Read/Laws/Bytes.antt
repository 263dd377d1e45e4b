-- ===== src/Isofs/Read/Laws/Bytes.antt =====
-- isofs_read gives the bytes of the file that stand on the disc, where the disc can be read.
use native.Mathlib.Nat.{mod-lt, div-add-mod'}
use adr_bubble_booter_oss.Prelude.{
  ℕ, zero, suc, ◌+◌, ◌-◌, ◌*◌, ◌/◌, ◌%◌, ◌^◌, ◌<◌, ◌≤◌, ◌≡◌, refl, sym, ap, subst, ◌∙◌, arith, List,
  ◌++◌, pos, negsuc, ◌+ℤ◌, ltb_ℤ, true, leb, ◌==◌, take, drop, min, Bool-cases, inl, inr,
}
use adr_bubble_booter_oss.Isofs.Read.Laws.Slices.{slice, take-slice, drop-slice}
use adr_bubble_booter_oss.Isofs.Read.Laws.Exact.{
  IsDisc, add-pos, read_buffer-slice, Gives, read_rest-Gives,
}
use adr_bubble_booter_oss.Isofs.{Handle, Image, done, read_buffer}
use adr_bubble_booter_oss.Isofs.Read.{
  Output, Progress, copy_first, leave, read_rest, after_first, read_first, begin_read,
  cut_remaining, at_start, read_handle,
}

-- an open file of `size` bytes from sector `l` on, read up to `a`
abbrev pub file_at : ℕ → ℕ → ℕ → Handle
file_at l size a = record { opened = true; lba = pos l; filesize = pos size; filepointer = pos a }

module _ (m : Image) (disc : ℕ → ℕ) (ideal : IsDisc m disc) (some_size : 0 < m.sector_size) where
  abbrev first_of : ℕ → ℕ → ℕ → ℕ → List ℕ → m.World → Progress m.World
  first_of l size a n buffer w = record (at_start m (file_at l size a) buffer w) { remaining = n }

  module _ (l size a n : ℕ) (buffer : List ℕ) (w : m.World) where
    -- a first sector whose start the file pointer is at
    whole_start :
        a % m.sector_size ≡ 0
        → Gives m disc ideal some_size
            (l * m.sector_size + a)
            a
            n
            (read_rest m (first_of l size a n buffer w))
    whole_start e =
        let d = div-add-mod' a m.sector_size in
        let k = a / m.sector_size in
        let s : (l + k) * m.sector_size ≡ l * m.sector_size + k * m.sector_size = grind arith in
        read_rest-Gives m disc ideal some_size (l * m.sector_size + a) a n
          (first_of l size a n buffer w) (omega arith, unfold slice in refl, ap pos (omega arith))
          (λ h. (l + k, add-pos l k, omega arith))

    -- a first sector that is read from an offset on
    part_start :
        (rest : List ℕ)
        → 0 < a % m.sector_size
        → Gives m disc ideal some_size (l * m.sector_size + a) a n (
            read_rest m (
              after_first m
                (a % m.sector_size)
                (slice disc ((l + a / m.sector_size) * m.sector_size) (1 * m.sector_size) ++ rest)
                w
                (first_of l size a n buffer w)))
    part_start rest h =
        let d = div-add-mod' a m.sector_size in
        let lt = mod-lt a some_size in
        let k = a / m.sector_size in
        let r = a % m.sector_size in
        let s : (l + k) * m.sector_size ≡ l * m.sector_size + k * m.sector_size = grind arith in
        let i = min (m.sector_size - r) n in
        let le : r ≤ 1 * m.sector_size = omega arith in
        let le' : i ≤ 1 * m.sector_size - r = omega arith in
        let at : (l + k) * m.sector_size + r ≡ l * m.sector_size + a = omega arith in
        let bytes : take i
              (drop r (slice disc ((l + k) * m.sector_size) (1 * m.sector_size) ++ rest))
            ≡ slice disc (l * m.sector_size + a) i =
          rw (drop-slice disc ((l + k) * m.sector_size) (1 * m.sector_size) r rest le, at)
            (take-slice disc (l * m.sector_size + a) (1 * m.sector_size - r) i rest le') in
        read_rest-Gives m disc ideal some_size (l * m.sector_size + a) a n _
          (omega arith, bytes, add-pos a i)
          (λ h. (l + k + 1, ap (λ z. z +ℤ pos 1) (add-pos l k) ∙ add-pos (l + k) 1, grind arith))

    copy_first-Gives :
        (rest : List ℕ)
        → 0 < a % m.sector_size
        → (o : Output m.World) × (copy_first m
              (pos (a % m.sector_size))
              (pos 1)
              (slice disc ((l + a / m.sector_size) * m.sector_size) (1 * m.sector_size) ++ rest)
              w
              (first_of l size a n buffer w)
            ≡ done o)
          × Gives m disc ideal some_size (l * m.sector_size + a) a n o
    unfolding copy_first
    copy_first-Gives rest h = (_, refl, part_start rest h)

    read_first-Gives :
        (o : Output m.World) × (read_first m (first_of l size a n buffer w) ≡ done o)
        × Gives m disc ideal some_size (l * m.sector_size + a) a n o
    unfolding read_first
    read_first-Gives =
        let p = first_of l size a n buffer w in
        elim (Bool-cases (a % m.sector_size == 0)) [
          | inl z ↦ (read_rest m p, rw (read_first, z) refl, whole_start (ground arith))
          | inr z ↦
              let k = l + a / m.sector_size in
              let (rest, e) =
                read_buffer-slice m disc ideal some_size p.next k buffer w
                  (add-pos l (a / m.sector_size)) in
              let (o, q, g) = copy_first-Gives rest (ground arith) in
              let q' : copy_first m (pos (a % m.sector_size)) (read_buffer m p.next 1 buffer w).0
                    (read_buffer m p.next 1 buffer w).1 (read_buffer m p.next 1 buffer w).2 p
                  ≡ done o =
                subst (λ r. copy_first m (pos (a % m.sector_size)) r.0 r.1 r.2 p ≡ done o) (sym e)
                  q in
              (o, rw (read_first, z) q', g)
        ]

  begin_read-Gives :
      (l size a n : ℕ) (buffer : List ℕ) (w : m.World)
      → (o : Output m.World) × (begin_read m (pos n) (at_start m (file_at l size a) buffer w)
          ≡ done o)
        × Gives m disc ideal some_size (l * m.sector_size + a) a n o
  unfolding begin_read
  begin_read-Gives l size a zero buffer w =
      (_, refl, (refl, unfold slice in refl, ap pos (omega arith)))
  begin_read-Gives l size a (suc n) buffer w = read_first-Gives l size a (suc n) buffer w

  cut_inside :
      (l size a len : ℕ)
      → a ≤ size
      → cut_remaining m (file_at l size a) len ≡ pos (min len (size - a))
  unfolding cut_remaining
  cut_inside l size a len h = ground arith

  cut_outside :
      (l size a len : ℕ) → size < a → (k : ℕ) × (cut_remaining m (file_at l size a) len ≡ negsuc k)
  unfolding cut_remaining
  cut_outside l size a len h = (a - size - 1, ground arith)

  pub read_handle-Gives :
      (l size a len : ℕ) (buffer : List ℕ) (w : m.World)
      → len + a < 2 ^ 31
      → (o : Output m.World) × (read_handle m (file_at l size a) len buffer w ≡ done o)
        × Gives m disc ideal some_size (l * m.sector_size + a) a (min len (size - a)) o
  unfolding read_handle
  read_handle-Gives l size a len buffer w h =
      let lt : ltb_ℤ (pos len +ℤ pos a) (pos (2 ^ 31)) ≡ true = ground arith in
      elim (Bool-cases (leb a size)) [
        | inl b ↦
            let (o, e, g) = begin_read-Gives l size a (min len (size - a)) buffer w in
            (o, rw (read_handle, lt, cut_inside l size a len (ground arith)) e, g)
        | inr b ↦
            let (k, q) = cut_outside l size a len (ground arith) in
            let z : min len (size - a) ≡ 0 = ground arith in
            let o = leave m (pos 0) (at_start m (file_at l size a) buffer w) in
            (
              o,
              rw (read_handle, lt, q) (unfold begin_read in refl),
              rw z (refl, unfold slice in refl, ap pos (omega arith)),
            )
      ]
