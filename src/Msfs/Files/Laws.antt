-- ===== src/Msfs/Files/Laws.antt =====
-- What open and close do to the descriptor table.
use adr_bubble_booter_oss.Prelude.{
  ℕ, zero, suc, ◌+◌, ◌-◌, ◌<◌, ◌≡◌, refl, arith, min, List, ◌++◌, ℤ, pos, negsuc, pos_part, is_neg,
  ltb, true, false, some, ◌==◌, length, drop, take, Bool-cases, Option-cases, inl, inr,
}
use adr_bubble_booter_oss.Msfs.Table.{Descriptor, Table, get_descriptor, remove_descriptor}
use adr_bubble_booter_oss.Msfs.Transfer.{Kernel}
use adr_bubble_booter_oss.Msfs.Files.{
  trunc_path, path_of, copy, copy_back, truncate_fix, finish_close, close_file,
}

module _ (k : Kernel) where
  copy_total :
      (fuel : ℕ) (source target : ℤ) (size seek : ℕ) (buffer : List ℕ) (w : k.World)
      → size < seek + fuel
      → 0 < fuel
      → (r : ℤ × k.World) × (copy k fuel source target size seek buffer w ≡ some r)
  unfolding copy
  copy_total zero source target size seek buffer w h p = absurd (omega arith)
  copy_total (suc fuel) source target size seek buffer w h p =
      let n = min (size - seek) k.transfer_size in
      let r = k.io_read source n w in
      let buffer' = r.1 ++ drop (length r.1) buffer in
      let o = k.io_write target (take n buffer') r.2 in
      elim (Bool-cases (n == 0)) [
        | inl a ↦ ((pos 0, w), rw (copy, a) refl)
        | inr a ↦ elim (Bool-cases (is_neg r.0)) [
          | inl b ↦ ((r.0, r.2), rw (copy, a, b) refl)
          | inr b ↦ elim (Bool-cases (is_neg o.0)) [
            | inl c ↦ ((o.0, o.1), rw (copy, a, b, c) refl)
            | inr c ↦ elim (Bool-cases (ltb (seek + n) size)) [
              | inl d ↦
                  let rest =
                    copy_total fuel source target size (seek + n) buffer' o.1 (ground arith)
                      (ground arith) in
                  (rest.0, rw (copy, a, b, c, d) rest.1)
              | inr d ↦ ((pos 0, o.1), rw (copy, a, b, c, d) refl)
            ]
          ]
        ]
      ]

  copy_back_total :
      (d : Descriptor) (source : ℤ) (w : k.World)
      → (r : ℤ × k.World) × (copy_back k d source w ≡ some r)
  unfolding copy_back
  copy_back_total d source w =
      let w₁ = (k.io_lseek d.fd (pos 0) k.seek_set w).1 in
      let m = k.malloc k.transfer_size w₁ in
      elim (Option-cases m.0) [
        | inl e ↦ ((negsuc 0, m.1), rw (copy_back, e) refl)
        | inr (bytes, e) ↦
            let size = pos_part d.first_write_offset in
            let r =
              copy_total (suc size) source d.fd size 0 bytes m.1 (omega arith) (omega arith) in
            (r.0, rw (copy_back, e) r.1)
      ]

  -- the copy ends, where the path has a place for the suffix
  truncate_fix_total :
      (d : Descriptor) (w : k.World) (aside : List ℕ)
      → trunc_path (path_of k d.path) ≡ some aside
      → (r : ℤ × k.World) × (truncate_fix k d w ≡ some r)
  unfolding truncate_fix
  truncate_fix_total d w aside e =
      let o = k.io_open aside k.read_only w in
      let c = copy_back_total d o.0 o.1 in
      elim (Bool-cases (is_neg o.0)) [
        | inl b ↦ ((o.0, (k.io_remove aside o.1).1), rw (truncate_fix, e, b) refl)
        | inr b ↦ (
          (c.0.0, (k.io_remove aside (k.io_close o.0 c.0.1).1).1),
          rw (truncate_fix, e, b, c.1) refl,
        )
      ]

  -- what a close leaves of the table, by its result
  abbrev pub Closed : ℤ → Table → ℤ × Table × k.World → Type 0
  Closed fd t r =
      (is_neg r.0 ≡ true → r.1 ≡ t) × (is_neg r.0 ≡ false → r.1 ≡ (remove_descriptor fd t).1)

  finish_close-Closed :
      (fd : ℤ) (d : Descriptor) (t : Table) (w : k.World) → Closed fd t (finish_close k fd d t w)
  unfolding finish_close
  finish_close-Closed fd d t w = ((λ q. rw q refl), λ q. rw q refl)

  close_fixed :
      (fd : ℤ) (t : Table) (w : k.World) (d : Descriptor) (r : ℤ × k.World)
      → get_descriptor fd t ≡ some d
      → truncate_fix k d w ≡ some r
      → (q : ℤ × Table × k.World) × (close_file k fd t w ≡ some q) × Closed fd t q
  unfolding close_file
  close_fixed fd t w d (res, w') h f = elim (Bool-cases d.trunc) [
    | inl a ↦ elim (Bool-cases (is_neg res)) [
      | inl b ↦
          ((res, t, w'), rw (close_file, h, f, a, b) refl, ((λ q. refl), λ q. absurd (cc (b, q))))
      | inr b ↦ (
        finish_close k fd d t w',
        rw (close_file, h, f, a, b) refl,
        finish_close-Closed fd d t w',
      )
    ]
    | inr a ↦ (finish_close k fd d t w, rw (close_file, h, a) refl, finish_close-Closed fd d t w)
  ]

  -- Closing an open handle ends, where the descriptor's path has a place for the suffix of the file set
  -- aside. A negative result leaves the table as it was, and another one removes the handle.
  pub close_file_lem :
      (fd : ℤ) (t : Table) (w : k.World) (d : Descriptor) (aside : List ℕ)
      → get_descriptor fd t ≡ some d
      → trunc_path (path_of k d.path) ≡ some aside
      → (q : ℤ × Table × k.World) × (close_file k fd t w ≡ some q) × Closed fd t q
  close_file_lem fd t w d aside h e =
      let fixed = truncate_fix_total d w aside e in close_fixed fd t w d fixed.0 h fixed.1
