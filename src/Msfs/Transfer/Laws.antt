-- ===== src/Msfs/Transfer/Laws.antt =====
-- What a transfer in pieces moves.
use adr_bubble_booter_oss.Prelude.{
  ℕ, zero, suc, ◌+◌, ◌-◌, ◌^◌, ◌<◌, ◌≤◌, ◌≡◌, ◌≢◌, refl, arith, List, [], ℤ, pos, negsuc, ◌+ℤ◌,
  eqb_ℤ, is_neg, ltb, leb, pos_part, true, Option, none, some, length, set, Bool-cases, inl, inr,
  ◌⊎◌, ap, subst, length-append, ◌∙◌,
}
use adr_bubble_booter_oss.Msfs.Table.{Descriptor, Table, get_descriptor}
use adr_bubble_booter_oss.Msfs.Table.Laws.{get_descriptor-set_ne, get_descriptor-set_self}
use adr_bubble_booter_oss.Msfs.Transfer.{
  Kernel, Transfer, reopen_file, read_piece, advance, buf_size, turn, transfer, read,
}

pub add_ℤ_pos : (z : ℤ) (a b : ℕ) → (z +ℤ pos a) +ℤ pos b ≡ z +ℤ pos (a + b)
add_ℤ_pos (pos n) a b = ground arith
add_ℤ_pos (negsuc n) a b = elim (Bool-cases (leb (suc n) a)) [
  | inl e ↦ ground arith
  | inr e ↦ ground arith
]

-- what a piece returns: an error, nothing, or some bytes
result_cases :
    {S : Type 0} (r : ℤ × S)
    → ((e : ℕ) × (s : S) × (r ≡ (negsuc e, s)))
      ⊎ (((s : S) × (r ≡ (pos 0, s))) ⊎ ((n : ℕ) × (s : S) × (r ≡ (pos (suc n), s))))
result_cases (negsuc e, s) = inl (e, s, refl)
result_cases (pos zero, s) = inr (inl (s, refl))
result_cases (pos (suc n), s) = inr (inr (n, s, refl))

pub add_ℤ_zero : (z : ℤ) → z ≡ z +ℤ pos 0
add_ℤ_zero (pos n) = ground arith
add_ℤ_zero (negsuc n) = ground arith

buf_size_le : (k : Kernel) (remain : ℕ) → buf_size k remain ≤ remain
unfolding buf_size
buf_size_le k remain = elim (Bool-cases (ltb remain (2 ^ 31))) [
  | inl e ↦ rw (buf_size, e) (omega arith)
  | inr e ↦ rw (buf_size, e) (omega arith)
]

module _ (k : Kernel) (piece : ℕ → ℕ → Transfer k → ℤ × Transfer k) where
  -- the transfer ends
  pub transfer_total :
      (fuel size seek : ℕ) (s : Transfer k)
      → size < seek + fuel
      → 0 < fuel
      → (r : ℤ × Transfer k) × (transfer k piece fuel size seek s ≡ some r)
  unfolding transfer turn
  transfer_total zero size seek s h p = absurd (omega arith)
  transfer_total (suc fuel) size seek s h p =
      elim (result_cases (piece seek (buf_size k (size - seek)) s)) [
        | inl (e, s', q) ↦ ((negsuc e, s'), rw (transfer, turn, q) refl)
        | inr (inl (s', q)) ↦ ((pos seek, s'), rw (transfer, turn, q) refl)
        | inr (inr (n, s', q)) ↦ elim (Bool-cases (ltb (seek + suc n) size)) [
          | inl t ↦
              let rest =
                transfer_total fuel size (seek + suc n) (advance k (suc n) s') (omega arith)
                  (ground arith) in
              (rest.0, rw (transfer, turn, q, t) rest.1)
          | inr t ↦ ((pos (seek + suc n), advance k (suc n) s'), rw (transfer, turn, q, t) refl)
        ]
      ]

  abbrev pub moved : ℕ → Transfer k → Transfer k
  moved zero s = s
  moved (suc n) s = advance k (suc n) s

  -- the result of a transfer of at most size bytes, when it is no error
  abbrev pub Holds : (ℕ → Transfer k → Type 0) → ℕ → Option (ℤ × Transfer k) → Type 0
  Holds P size none = Unit
  Holds P size (some (negsuc e, s)) = Unit
  Holds P size (some (pos n, s)) = (n ≤ size) × P n s

  pub Holds-some :
      (P : ℕ → Transfer k → Type 0) (size n : ℕ) (r : ℤ × Transfer k)
      → Holds P size (some r)
      → r.0 ≡ pos n
      → (n ≤ size) × P n r.1
  Holds-some P size n (negsuc e, s) h q = cc
  Holds-some P size n (pos m, s) h q = subst (λ z. (pos_part z ≤ size) × P (pos_part z) s) q h

  -- what holds of the bytes moved so far holds of the result
  pub transfer-Holds :
      (P : ℕ → Transfer k → Type 0)
      → ((seek m n : ℕ) (s s' : Transfer k)
          → piece seek m s ≡ (pos n, s')
          → P seek s
          → (n ≤ m) × P (seek + n) (moved n s'))
      → (fuel size seek : ℕ) (s : Transfer k) → seek ≤ size
      → P seek s
      → Holds P size (transfer k piece fuel size seek s)
  unfolding transfer turn
  transfer-Holds P step zero size seek s le p = tt
  transfer-Holds P step (suc fuel) size seek s le p =
      let m = buf_size k (size - seek) in
      let bound = buf_size_le k (size - seek) in
      elim (result_cases (piece seek m s)) [
        | inl (e, t, q) ↦ rw (transfer, turn, q) tt
        | inr (inl (t, q)) ↦
            let z : seek + 0 ≡ seek = omega arith in
            rw (transfer, turn, q) (le, subst (λ j. P j t) z (step seek m 0 s t q p).1)
        | inr (inr (n, t, q)) ↦
            let p' = step seek m (suc n) s t q p in
            let le' : seek + suc n ≤ size = omega (arith, p'.0, bound) in
            elim (Bool-cases (ltb (seek + suc n) size)) [
              | inl b ↦
                  rw (transfer, turn, q, b)
                    (transfer-Holds P step fuel size (seek + suc n) (advance k (suc n) t) le' p'.1)
              | inr b ↦ rw (transfer, turn, q, b) (le', p'.1)
            ]
      ]

-- what the kernel documents of sceIoRead: it reads at most what it is asked for, and its result counts
-- the bytes; the error ENODEV is negative
pub record ReadsWithin (k : Kernel) : Type 0 where
  pub read_count :
      (fd : ℤ) (n m : ℕ) (w : k.World)
      → (k.io_read fd n w).0 ≡ pos m
      → (m ≤ n) × (length (k.io_read fd n w).1 ≡ m)
  pub enodev_neg : is_neg k.enodev ≡ true

pub not_neg : (n : ℕ) (z : ℤ) → eqb_ℤ (pos n) z ≡ true → is_neg z ≡ true → ⊥
not_neg n (pos m) e h = cc
not_neg n (negsuc m) e h = cc

module _ (k : Kernel) (within : ReadsWithin k) where
  reopen_file-offset : (d : Descriptor) (w : k.World) → (reopen_file k d w).1.offset ≡ d.offset
  unfolding reopen_file
  reopen_file-offset d w = elim (Bool-cases d.folder) [ inl e ↦ rw e refl | inr e ↦ rw e refl ]

  abbrev Read : ℤ → ℕ → Transfer k → Type 0
  Read start seek s = (length s.1 ≡ seek) × (s.0.offset ≡ start +ℤ pos seek)

  read_piece-Read :
      (start : ℤ) (seek m : ℕ) (s : Transfer k)
      → Read start seek s
      → (n : ℕ) → (read_piece k seek m s).0 ≡ pos n
      → (n ≤ m)
        × (length (read_piece k seek m s).1.1 ≡ seek + n)
        × ((read_piece k seek m s).1.0.offset ≡ start +ℤ pos seek)
  unfolding read_piece
  read_piece-Read start seek m (d, got, w) (l, o) =
      let r = k.io_read d.fd m w in
      let opened = reopen_file k d r.2 in
      let r' = k.io_read opened.1.fd m opened.2 in
      elim (Bool-cases (eqb_ℤ r.0 k.enodev)) [
        | inl e ↦ elim (Bool-cases (is_neg opened.0)) [
          | inl f ↦
              rw (read_piece, e, f)
                (λ n h. absurd (not_neg n k.enodev (rw h at e) within.enodev_neg))
          | inr f ↦
              rw (read_piece, e, f)
                (λ n h.
                  let c = within.read_count opened.1.fd m n opened.2 h in
                  (
                    c.0,
                    omega (arith, length-append got r'.1, l, c.1),
                    reopen_file-offset d r.2 ∙ o,
                  ))
        ]
        | inr e ↦
            rw (read_piece, e)
              (λ n h.
                let c = within.read_count d.fd m n w h in
                (c.0, omega (arith, length-append got r.1, l, c.1), o))
      ]

  Read-step :
      (start : ℤ) (seek m n : ℕ) (s s' : Transfer k)
      → read_piece k seek m s ≡ (pos n, s')
      → Read start seek s
      → (n ≤ m) × Read start (seek + n) (moved k (read_piece k) n s')
  Read-step start seek m zero s s' e p =
      let r = read_piece-Read start seek m s p 0 (ap (λ x. x.0) e) in
      let t = rw e at r in let z : seek + 0 ≡ seek = omega arith in (t.0, (t.1, rw z t.2))
  Read-step start seek m (suc n) s s' e p =
      let r = read_piece-Read start seek m s p (suc n) (ap (λ x. x.0) e) in
      let t = rw e at r in (t.0, (t.1, rw t.2 (add_ℤ_pos start seek (suc n))))

  -- A read on an open handle ends, where sceIoRead reads at most what it is asked for, its result
  -- counts the bytes, and ENODEV is negative. When its result is n, it is at most the size asked for, n bytes are
  -- read, and the descriptor's offset has grown by n. Whatever the result, every other handle's
  -- descriptor is as it was.
  pub read_lem :
      (i size : ℕ) (t : Table) (w : k.World) (d : Descriptor)
      → get_descriptor (pos i) t ≡ some d
      → (res : ℤ) × (got : List ℕ) × (t' : Table) × (w' : k.World) × (read k (pos i) size t w
          ≡ some (res, got, t', w'))
        × ((j : ℕ) → j ≢ i → get_descriptor (pos j) t' ≡ get_descriptor (pos j) t)
        × ((n : ℕ)
            → res ≡ pos n
            → (n ≤ size)
              × (length got ≡ n)
              × (d' : Descriptor) × (get_descriptor (pos i) t' ≡ some d')
              × (d'.offset ≡ d.offset +ℤ pos n))
  unfolding read
  read_lem i size t w d h =
      let s : Transfer k = (d, [], w) in
      let total = transfer_total k (read_piece k) (suc size) size 0 s (omega arith) (omega arith) in
      let holds = subst (Holds k (read_piece k) (Read d.offset) size) total.1 (
        transfer-Holds k (read_piece k) (Read d.offset) (Read-step d.offset) (suc size) size 0 s
          (omega arith) (refl, add_ℤ_zero d.offset)) in
      let r = total.0 in
      (
        r.0,
        r.1.1,
        set t i r.1.0,
        r.1.2,
        rw (read, h, total.1) refl,
        (λ j ne. get_descriptor-set_ne t i j r.1.0 ne),
        (λ n q.
            let kept = Holds-some k (read_piece k) (Read d.offset) size n r holds q in
            (kept.0, kept.1.0, r.1.0, get_descriptor-set_self t i d r.1.0 h, kept.1.1)),
      )
