-- ===== src/Isofs/Read/Laws/Returns.antt =====
-- A read of an ISO file returns, whatever the image holds.
use adr_bubble_booter_oss.Prelude.{
  ℕ, zero, suc, ◌≡◌, refl, List, ℤ, pos, negsuc, ltb_ℤ, eqb_ℤ, ◌+ℤ◌, ◌^◌, Bool-cases, ◌⊎◌, inl, inr,
}
use adr_bubble_booter_oss.Isofs.{Handle, Image, read_buffer}
use adr_bubble_booter_oss.Isofs.Ends.{Ends}
use adr_bubble_booter_oss.Isofs.Read.{
  Progress, residue, copy_first, read_first, begin_read, cut_remaining, at_start, read_handle,
}

integer_cases : (n : ℤ) → (n ≡ pos 0) ⊎ (((k : ℕ) × (n ≡ pos (suc k))) ⊎ ((k : ℕ) × (n ≡ negsuc k)))
integer_cases (pos zero) = inl refl
integer_cases (pos (suc k)) = inr (inl (k, refl))
integer_cases (negsuc k) = inr (inr (k, refl))

module _ (m : Image) where
  copy_first-Ends :
      (offset res : ℤ) (sectors : List ℕ) (w : m.World) (p : Progress m.World)
      → Ends (λ _. Unit) (copy_first m offset res sectors w p)
  unfolding copy_first
  copy_first-Ends offset res sectors w p = elim (Bool-cases (eqb_ℤ res (pos 1))) [
    | inr b ↦ rw (copy_first, b) tt
    | inl b ↦ elim (integer_cases offset) [
      | inl e ↦ rw (copy_first, b, e) tt
      | inr (inl (k, e)) ↦ rw (copy_first, b, e) tt
      | inr (inr (k, e)) ↦ rw (copy_first, b, e) tt
    ]
  ]

  read_first-Ends : (p : Progress m.World) → Ends (λ _. Unit) (read_first m p)
  unfolding read_first
  read_first-Ends p =
      let offset = residue p.filepointer m.sector_size in
      let r = read_buffer m p.next 1 p.buffer p.world in
      elim (Bool-cases (eqb_ℤ offset (pos 0))) [
        | inl b ↦ rw (read_first, b) tt
        | inr b ↦ rw (read_first, b) (copy_first-Ends offset r.0 r.1 r.2 p)
      ]

  begin_read-Ends : (n : ℤ) (p : Progress m.World) → Ends (λ _. Unit) (begin_read m n p)
  unfolding begin_read
  begin_read-Ends (negsuc n) p = tt
  begin_read-Ends (pos zero) p = tt
  begin_read-Ends (pos (suc n)) p = read_first-Ends (record p { remaining = suc n })

  pub read_handle-Ends :
      (h : Handle) (len : ℕ) (buffer : List ℕ) (w : m.World)
      → Ends (λ _. Unit) (read_handle m h len buffer w)
  unfolding read_handle
  read_handle-Ends h len buffer w =
      elim (Bool-cases (ltb_ℤ (pos len +ℤ h.filepointer) (pos (2 ^ 31)))) [
        | inr a ↦ rw (read_handle, a) tt
        | inl a ↦
            rw (read_handle, a) (begin_read-Ends (cut_remaining m h len) (at_start m h buffer w))
      ]
