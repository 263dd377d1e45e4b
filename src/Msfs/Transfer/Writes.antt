-- ===== src/Msfs/Transfer/Writes.antt =====
-- What a write in pieces keeps of the descriptor.
use adr_bubble_booter_oss.Prelude.{
  ℕ, zero, suc, ◌+◌, ◌≤◌, ◌<◌, ◌≡◌, ◌≢◌, refl, arith, List, [], ℤ, pos, ◌+ℤ◌, eqb_ℤ, is_neg, not,
  ◌&&◌, ltb, true, false, some, length, drop, take, length-take, set, Bool-cases, inl, inr, ap,
  subst, ◌∙◌,
}
use adr_bubble_booter_oss.Msfs.Table.{Descriptor, Table, get_descriptor}
use adr_bubble_booter_oss.Msfs.Table.Laws.{get_descriptor-set_ne, get_descriptor-set_self}
use adr_bubble_booter_oss.Msfs.Transfer.{
  Kernel, Transfer, reopen_file, write_piece, write, mark_first_write,
}
use adr_bubble_booter_oss.Msfs.Transfer.Laws.{
  add_ℤ_pos, add_ℤ_zero, not_neg, transfer_total, moved, Holds, Holds-some, transfer-Holds,
}

-- what the kernel documents of sceIoWrite: it writes at most the bytes given; ENODEV is negative
pub record WritesWithin (k : Kernel) : Type 0 where
  pub write_count :
      (fd : ℤ) (bytes : List ℕ) (m : ℕ) (w : k.World)
      → (k.io_write fd bytes w).0 ≡ pos m
      → m ≤ length bytes
  pub enodev_neg : is_neg k.enodev ≡ true

module _ (k : Kernel) (within : WritesWithin k) where
  reopen_file-keeps :
      (d : Descriptor) (w : k.World)
      → ((reopen_file k d w).1.offset ≡ d.offset)
        × ((reopen_file k d w).1.first_write_offset ≡ d.first_write_offset)
  unfolding reopen_file
  reopen_file-keeps d w = elim (Bool-cases d.folder) [
    | inl e ↦ rw e (refl, refl)
    | inr e ↦ rw e (refl, refl)
  ]

  -- the offset after `seek` bytes, and the first write's
  abbrev Written : ℤ → ℤ → ℕ → Transfer k → Type 0
  Written start first seek s = (s.0.offset ≡ start +ℤ pos seek) × (s.0.first_write_offset ≡ first)

  write_piece-Written :
      (buffer : List ℕ) (start first : ℤ) (seek m : ℕ) (s : Transfer k)
      → Written start first seek s
      → (n : ℕ) → (write_piece k buffer seek m s).0 ≡ pos n
      → (n ≤ m) × Written start first seek (write_piece k buffer seek m s).1
  unfolding write_piece
  write_piece-Written buffer start first seek m (d, got, w) (o, f₁) =
      let piece = take m (drop seek buffer) in
      let le : length piece ≤ m = omega (arith, length-take m (drop seek buffer)) in
      let r = k.io_write d.fd piece w in
      let opened = reopen_file k d r.1 in
      elim (Bool-cases (eqb_ℤ r.0 k.enodev)) [
        | inl e ↦ elim (Bool-cases (is_neg opened.0)) [
          | inl f ↦
              rw (write_piece, e, f)
                (λ n h. absurd (not_neg n k.enodev (rw h at e) within.enodev_neg))
          | inr f ↦
              let kept = reopen_file-keeps d r.1 in
              rw (write_piece, e, f)
                (λ n h.
                  let c = within.write_count opened.1.fd piece n opened.2 h in
                  (omega arith, (kept.0 ∙ o, kept.1 ∙ f₁)))
        ]
        | inr e ↦
            rw (write_piece, e)
              (λ n h. let c = within.write_count d.fd piece n w h in (omega arith, (o, f₁)))
      ]

  Written-step :
      (buffer : List ℕ) (start first : ℤ) (seek m n : ℕ) (s s' : Transfer k)
      → write_piece k buffer seek m s ≡ (pos n, s')
      → Written start first seek s
      → (n ≤ m) × Written start first (seek + n) (moved k (write_piece k buffer) n s')
  Written-step buffer start first seek m zero s s' e p =
      let r = write_piece-Written buffer start first seek m s p 0 (ap (λ x. x.0) e) in
      let t = rw e at r in let z : seek + 0 ≡ seek = omega arith in (t.0, rw z t.1)
  Written-step buffer start first seek m (suc n) s s' e p =
      let r = write_piece-Written buffer start first seek m s p (suc n) (ap (λ x. x.0) e) in
      let t = rw e at r in (t.0, (rw t.1.0 (add_ℤ_pos start seek (suc n)), t.1.1))

  mark_first_write-offset :
      (size : ℕ) (d : Descriptor) → (mark_first_write k size d).offset ≡ d.offset
  unfolding mark_first_write
  mark_first_write-offset size d = elim (Bool-cases (not d.first_write && ltb 0 size)) [
    | inl e ↦ rw e refl
    | inr e ↦ rw e refl
  ]

  mark_first_write-again :
      (size : ℕ) (d : Descriptor)
      → d.first_write ≡ true
      → (mark_first_write k size d).first_write_offset ≡ d.first_write_offset
  unfolding mark_first_write
  mark_first_write-again size d e = rw e refl

  mark_first_write-first :
      (size : ℕ) (d : Descriptor)
      → d.first_write ≡ false
      → 0 < size
      → (mark_first_write k size d).first_write_offset ≡ d.offset
  unfolding mark_first_write
  mark_first_write-first size d e p = let b : ltb 0 size ≡ true = ground arith in rw (e, b) refl

  -- A write on an open handle ends, where sceIoWrite writes at most the bytes given and ENODEV is
  -- negative. When its result is n, it is at most the size asked for, the descriptor's offset has
  -- grown by n, and the offset of the first write is the one from before this write where there was a
  -- write before, and else, for a size above zero, the descriptor's offset before this write. Whatever
  -- the result, every other handle's descriptor is as it was.
  pub write_lem :
      (i size : ℕ) (buffer : List ℕ) (t : Table) (w : k.World) (d : Descriptor)
      → get_descriptor (pos i) t ≡ some d
      → (res : ℤ) × (t' : Table) × (w' : k.World) × (write k (pos i) buffer size t w
          ≡ some (res, t', w'))
        × ((j : ℕ) → j ≢ i → get_descriptor (pos j) t' ≡ get_descriptor (pos j) t)
        × ((n : ℕ)
            → res ≡ pos n
            → (n ≤ size)
              × (d' : Descriptor) × (get_descriptor (pos i) t' ≡ some d')
              × (d'.offset ≡ d.offset +ℤ pos n)
              × (d.first_write ≡ true → d'.first_write_offset ≡ d.first_write_offset)
              × (d.first_write ≡ false → 0 < size → d'.first_write_offset ≡ d.offset))
  unfolding write
  write_lem i size buffer t w d h =
      let piece = write_piece k buffer in
      let marked = mark_first_write k size d in
      let s : Transfer k = (marked, [], w) in
      let total = transfer_total k piece (suc size) size 0 s (omega arith) (omega arith) in
      let P = Written d.offset marked.first_write_offset in
      let start : marked.offset ≡ d.offset +ℤ pos 0 =
        mark_first_write-offset size d ∙ add_ℤ_zero d.offset in
      let holds = subst (Holds k piece P size) total.1 (
        transfer-Holds k piece P (Written-step buffer d.offset marked.first_write_offset) (suc size)
          size 0 s (omega arith) (start, refl)) in
      let r = total.0 in
      (
        r.0,
        set t i r.1.0,
        r.1.2,
        rw (write, h, total.1) refl,
        (λ j ne. get_descriptor-set_ne t i j r.1.0 ne),
        (λ n q.
            let kept = Holds-some k piece P size n r holds q in
            (
              kept.0,
              r.1.0,
              get_descriptor-set_self t i d r.1.0 h,
              kept.1.0,
              (λ e. kept.1.1 ∙ mark_first_write-again size d e),
              (λ e p. kept.1.1 ∙ mark_first_write-first size d e p),
            )),
      )
