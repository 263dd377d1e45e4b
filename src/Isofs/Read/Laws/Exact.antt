-- ===== src/Isofs/Read/Laws/Exact.antt =====
-- A read of an ISO file gives the bytes of the disc, where the disc can be read.
use native.Mathlib.Nat.{mod-lt, mod-eq_of_lt, div-add-mod'}
use adr_bubble_booter_oss.Prelude.{
  ℕ, ◌+◌, ◌-◌, ◌*◌, ◌/◌, ◌%◌, ◌<◌, ◌≤◌, ◌≡◌, refl, sym, ap, subst, ◌∙◌, arith, List, ◌++◌, ℤ, pos,
  ◌+ℤ◌, false, ltb, ◌==◌, length, drop, Bool-cases, inl, inr, if◌then◌else◌,
}
use adr_bubble_booter_oss.Isofs.Read.Laws.Slices.{slice, slice-append, take-slice}
use adr_bubble_booter_oss.Isofs.{Image, size_to_sectors, clear_behind, read_buffer}
use adr_bubble_booter_oss.Isofs.Read.{
  Output, Progress, copy_tail, count_whole, leave, read_tail, after_whole, finish, whole_sectors,
  read_whole, read_rest,
}

-- Umd9660ReadSectors2 of a disc that it can read: the number of sectors, and their bytes
abbrev pub IsDisc : (m : Image) → (ℕ → ℕ) → Type 0
IsDisc m disc =
    (l n : ℕ) (w : m.World)
    → m.read_sectors2 (pos l) n w ≡ (pos n, slice disc (l * m.sector_size) (n * m.sector_size), w)

pub add-pos : (n k : ℕ) → pos n +ℤ pos k ≡ pos (n + k)
add-pos n k = ground arith

whole_sectors-div : (m : Image) (n : ℕ) → whole_sectors m n ≡ n / m.sector_size
unfolding whole_sectors size_to_sectors
whole_sectors-div m n = ground arith

module _ (m : Image) (disc : ℕ → ℕ) (ideal : IsDisc m disc) (some_size : 0 < m.sector_size) where
  pub read_buffer-slice :
      (next : ℤ) (l : ℕ) (sectors : List ℕ) (w : m.World)
      → next ≡ pos l
      → (rest : List ℕ) × (read_buffer m next 1 sectors w
          ≡ (pos 1, slice disc (l * m.sector_size) (1 * m.sector_size) ++ rest, w))
  unfolding read_buffer
  read_buffer-slice next l sectors w e =
      let cleared = clear_behind m 1 sectors in
      let got = slice disc (l * m.sector_size) (1 * m.sector_size) in
      (drop (length got) cleared, rw (e, read_buffer, ideal l 1 w) refl)

  -- `total` bytes from `base` on, which stand at `a` in the file
  module _ (base a total : ℕ) where
    abbrev pub Gives : Output m.World → Type 0
    Gives o =
        (o.result ≡ pos total)
        × (o.bytes ≡ slice disc base total)
        × (o.filepointer ≡ pos (a + total))

    -- what has been read
    abbrev pub Got : Progress m.World → Type 0
    Got p =
        (p.read + p.remaining ≡ total)
        × (p.bytes ≡ slice disc base p.read)
        × (p.filepointer ≡ pos (a + p.read))

    leave-Gives : (p : Progress m.World) → Got p → p.remaining ≡ 0 → Gives (leave m (pos p.read) p)
    leave-Gives p (sum, got, fp) z =
        let e : p.read ≡ total = omega arith in
        (ap pos e, got ∙ ap (slice disc base) e, fp ∙ ap (λ n. pos (a + n)) e)

    -- what has been read, and the next sector, at whose start the rest stands
    abbrev Stands : ℕ → Progress m.World → Type 0
    Stands l p =
        (p.read + p.remaining ≡ total)
        × (p.bytes ≡ slice disc base p.read)
        × (p.filepointer ≡ pos (a + p.read))
        × (p.next ≡ pos l)
        × (l * m.sector_size ≡ base + p.read)

    copy_tail-Gives :
        (l : ℕ) (rest : List ℕ) (w : m.World) (p : Progress m.World)
        → Stands l p
        → p.remaining < m.sector_size
        → Gives
            (copy_tail m (pos 1) (slice disc (l * m.sector_size) (1 * m.sector_size) ++ rest) w p)
    unfolding copy_tail
    copy_tail-Gives l rest w p (sum, got, fp, next, aligned) lt =
        let r : p.remaining % m.sector_size ≡ p.remaining = mod-eq_of_lt lt in
        let z : ltb 0 (p.remaining - p.remaining) ≡ false = ground arith in
        let t : a + p.read + p.remaining ≡ a + total = omega arith in
        let le : p.remaining ≤ 1 * m.sector_size = omega arith in
        rw
          (
            copy_tail,
            r,
            z,
            fp,
            got,
            take-slice disc (l * m.sector_size) (1 * m.sector_size) p.remaining rest le,
            aligned,
          )
          (
            ap pos sum,
            slice-append disc base p.read p.remaining ∙ ap (slice disc base) sum,
            add-pos (a + p.read) p.remaining ∙ ap pos t,
          )

    read_tail-Gives :
        (l : ℕ) (p : Progress m.World)
        → Stands l p
        → p.remaining < m.sector_size
        → Gives (read_tail m p)
    unfolding read_tail
    read_tail-Gives l p st lt =
        let (rest, e) = read_buffer-slice p.next l p.buffer p.world st.3 in
        subst (λ r. Gives (copy_tail m r.0 r.1 r.2 p)) (sym e)
          (copy_tail-Gives l rest p.world p st lt)

    finish-Gives :
        (l : ℕ) (p : Progress m.World)
        → Stands l p
        → p.remaining < m.sector_size
        → Gives (finish m p)
    unfolding finish
    finish-Gives l p st lt = elim (Bool-cases (p.remaining == 0)) [
      | inl z ↦ rw (finish, z) (leave-Gives p (st.0, st.1, st.2) (ground arith))
      | inr z ↦ rw (finish, z) (read_tail-Gives l p st lt)
    ]

    count_whole-Gives :
        (l n : ℕ) (w : m.World) (p : Progress m.World)
        → Stands l p
        → n ≡ p.remaining / m.sector_size
        → Gives (count_whole m (pos n) (slice disc (l * m.sector_size) (n * m.sector_size)) w p)
    unfolding count_whole
    count_whole-Gives l n w p (sum, got, fp, next, aligned) e =
        let d : n * m.sector_size + p.remaining % m.sector_size ≡ p.remaining =
          ap (λ k. k * m.sector_size + p.remaining % m.sector_size) e
          ∙ div-add-mod' p.remaining m.sector_size in
        let lt : p.remaining % m.sector_size < m.sector_size = mod-lt p.remaining some_size in
        let s : (l + n) * m.sector_size ≡ l * m.sector_size + n * m.sector_size = grind arith in
        let k = n * m.sector_size in
        finish-Gives (l + n) (after_whole m n (slice disc (l * m.sector_size) k) w p)
          (
            omega arith,
            rw (got, aligned) (slice-append disc base p.read k),
            rw fp (add-pos (a + p.read) k ∙ ap pos (omega arith)),
            rw next (add-pos l n),
            omega arith,
          )
          (omega arith)

    read_whole-Gives : (l : ℕ) (p : Progress m.World) → Stands l p → Gives (read_whole m p)
    unfolding read_whole
    read_whole-Gives l p st =
        let n = whole_sectors m p.remaining in
        let q = whole_sectors-div m p.remaining in
        elim (Bool-cases (n == 0)) [
          | inl z ↦
              let z' : 0 ≡ n = ground arith in
              let d : 0 * m.sector_size + p.remaining % m.sector_size ≡ p.remaining =
                ap (λ k. k * m.sector_size + p.remaining % m.sector_size) (z' ∙ q)
                ∙ div-add-mod' p.remaining m.sector_size in
              let lt : p.remaining % m.sector_size < m.sector_size = mod-lt p.remaining some_size in
              rw (read_whole, z) (finish-Gives l p st (omega arith))
          | inr z ↦
              let e : m.read_sectors2 p.next n p.world
                  ≡ (pos n, slice disc (l * m.sector_size) (n * m.sector_size), p.world) =
                rw st.3 (ideal l n p.world) in
              rw (read_whole, z)
                (subst (λ r. Gives (count_whole m r.0 r.1 r.2 p)) (sym e)
                  (count_whole-Gives l n p.world p st q))
        ]

    pub read_rest-Gives :
        (p : Progress m.World)
        → Got p
        → (0 < p.remaining → (l : ℕ) × (p.next ≡ pos l) × (l * m.sector_size ≡ base + p.read))
        → Gives (read_rest m p)
    unfolding read_rest
    read_rest-Gives p g f = elim (Bool-cases (p.remaining == 0)) [
      | inl z ↦ rw (read_rest, z) (leave-Gives p g (ground arith))
      | inr z ↦
          let (l, next, aligned) = f (ground arith) in
          subst (λ b. Gives (if b then leave m (pos p.read) p else read_whole m p)) (sym z)
            (read_whole-Gives l p (g.0, g.1, g.2, next, aligned))
    ]
