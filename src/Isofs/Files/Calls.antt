-- ===== src/Isofs/Files/Calls.antt =====
-- The calls of the ISO driver keep the handle table whole, and its first handle unused.
use adr_bubble_booter_oss.Prelude.{
  ℕ, zero, suc, ◌≤◌, ◌≡◌, refl, ap, arith, List, [], ℤ, pos, negsuc, is_neg, false, ◌&&◌, ltb,
  length, get_or, set, replicate, Option, none, some, Bool-cases, Option-cases, inl, inr, ◌∙◌, not,
  eqb_ℤ, ltb_ℤ, ◌+ℤ◌, ◌-ℤ◌, ◌-◌, ◌^◌, take, drop, length-set, get_or-set_ne,
}
use adr_bubble_booter_oss.Isofs.{
  Handle, no_handle, Image, Driver, Run, done, max_handlers, need, ◌>>=◌, read_buffer,
}
use adr_bubble_booter_oss.Isofs.Ends.{Ends, bind-Ends, need-Ends}
use adr_bubble_booter_oss.Isofs.Read.{read_handle}
use adr_bubble_booter_oss.Isofs.Read.Laws.Returns.{read_handle-Ends}
use adr_bubble_booter_oss.Isofs.Search.{buffer_size, same_text}
use adr_bubble_booter_oss.Text.{to_int32, codes}
use adr_bubble_booter_oss.Isofs.Files.{
  opened_at, isofs_fastinit, isofs_init, isofs_close, isofs_read, isofs_lseek, seek_to, as_int,
  read_volume,
}

-- a whole table whose first handle is never open
abbrev pub IsSoundTable : List Handle → Type 0
IsSoundTable handlers =
    (length handlers ≡ max_handlers) × ((get_or handlers 0 no_handle).opened ≡ false)

abbrev pub IsSound : Driver → Type 0
IsSound d = IsSoundTable d.handlers

pub set-IsSoundTable :
    (handlers : List Handle) (i : ℕ) (h : Handle)
    → IsSoundTable handlers
    → 1 ≤ i
    → IsSoundTable (set handlers i h)
set-IsSoundTable handlers i h (len, closed) le = (
  length-set handlers i h ∙ len,
  ap (λ h. h.opened) (get_or-set_ne handlers i 0 h no_handle (λ e. absurd (omega arith))) ∙ closed,
)

abbrev index_or : ℕ → Option (ℕ × Handle) → ℕ
index_or k none = k
index_or k (some (i, h)) = i

opened_at-pos :
    (fd : ℤ) (handlers : List Handle) (i : ℕ) (h : Handle)
    → IsSoundTable handlers
    → opened_at fd handlers ≡ some (i, h)
    → 1 ≤ i
unfolding opened_at
opened_at-pos (negsuc k) handlers i h (len, closed) e = absurd (cc e)
opened_at-pos (pos zero) handlers i h (len, closed) e = absurd (cc (rw closed at e))
opened_at-pos (pos (suc k)) handlers i h (len, closed) e =
    elim (Bool-cases (ltb (suc k) max_handlers && (get_or handlers (suc k) no_handle).opened)) [
      | inl b ↦
          let p : ℕ × Handle = (suc k, get_or handlers (suc k) no_handle) in
          let q : some p ≡ some (i, h) = rw b at e in
          let q' : suc k ≡ i = ap (index_or 0) q in omega arith
      | inr b ↦ absurd (cc (rw b at e))
    ]

-- the new file pointer, if it is an int
as_int-Ends : (n : ℤ) → Ends (λ _. Unit) (as_int n >>= λ k. done (some k))
unfolding as_int
as_int-Ends n = elim (Bool-cases (not (ltb_ℤ n (negsuc (2 ^ 31 - 1))) && ltb_ℤ n (pos (2 ^ 31)))) [
  | inl b ↦ rw (as_int, b) tt
  | inr b ↦ rw (as_int, b) tt
]

module _ (m : Image) where
  pub close-IsSound :
      (fd : ℤ) (d : Driver) (w : m.World) → IsSound d → IsSound (isofs_close m fd d w).1
  unfolding isofs_close
  close-IsSound fd d w s = elim (Option-cases (opened_at fd d.handlers)) [
    | inl n ↦ rw (isofs_close, n) s
    | inr ((i, h), e) ↦
        rw (isofs_close, e)
          (set-IsSoundTable d.handlers i (record h { opened = false }) s
            (opened_at-pos fd d.handlers i h s e))
  ]

  pub read-IsSound :
      (fd len : ℤ) (d : Driver) (w : m.World)
      → IsSound d
      → Ends (λ r. IsSound r.2) (isofs_read m fd len d w)
  unfolding isofs_read
  read-IsSound fd len d w s = elim (Option-cases (opened_at fd d.handlers)) [
    | inl n ↦ rw (isofs_read, n) s
    | inr ((i, h), e) ↦ rw (isofs_read, e) (go len i h (opened_at-pos fd d.handlers i h s e))
  ]
    where
      go :
          (len : ℤ) (i : ℕ) (h : Handle)
          → 1 ≤ i
          → Ends
              (λ r. IsSound r.2)
              (elim len as (λ _. Run (ℤ × List ℕ × Driver × m.World)) [
                | negsuc n ↦ done (m.errors.einval, [], d, w)
                | pos n ↦ need d.sectors >>= λ s. read_handle m h n s w >>= λ o.
                    let handlers = set d.handlers i (record h { filepointer = o.filepointer }) in
                    done (
                      o.result,
                      o.bytes,
                      record d { handlers = handlers; sectors = some o.buffer },
                      o.world,
                    )
              ])
      go (negsuc n) i h le = s
      go (pos n) i h le =
          bind-Ends (λ r. IsSound r.2) (need d.sectors) _ (need-Ends d.sectors)
            λ b u.
              bind-Ends (λ r. IsSound r.2) (read_handle m h n b w) _ (read_handle-Ends m h n b w)
                λ o u'.
                  set-IsSoundTable d.handlers i (record h { filepointer = o.filepointer }) s le

  seek_to-Ends : (h : Handle) (ofs whence : ℤ) → Ends (λ _. Unit) (seek_to m h ofs whence)
  unfolding seek_to
  seek_to-Ends h ofs whence = elim (Bool-cases (eqb_ℤ whence m.seek_set)) [
    | inl a ↦ rw (seek_to, a) tt
    | inr a ↦ elim (Bool-cases (eqb_ℤ whence m.seek_cur)) [
      | inl b ↦ rw (seek_to, a, b) (as_int-Ends (h.filepointer +ℤ to_int32 ofs))
      | inr b ↦ elim (Bool-cases (eqb_ℤ whence m.seek_end)) [
        | inl c ↦ rw (seek_to, a, b, c) (as_int-Ends (h.filesize -ℤ to_int32 ofs))
        | inr c ↦ rw (seek_to, a, b, c) tt
      ]
    ]
  ]

  pub lseek-IsSound :
      (fd ofs whence : ℤ) (d : Driver) (w : m.World)
      → IsSound d
      → Ends (λ r. IsSound r.1) (isofs_lseek m fd ofs whence d w)
  unfolding isofs_lseek
  lseek-IsSound fd ofs whence d w s = elim (Option-cases (opened_at fd d.handlers)) [
    | inl n ↦ rw (isofs_lseek, n) s
    | inr ((i, h), e) ↦
        rw (isofs_lseek, e)
          (bind-Ends (λ r. IsSound r.1) (seek_to m h ofs whence) _ (seek_to-Ends h ofs whence)
            λ r u. elim (Option-cases r) [
              | inl n ↦ rw n s
              | inr (n, q) ↦ rw q (
                  set-IsSoundTable d.handlers i (record h { filepointer = n }) s
                    (opened_at-pos fd d.handlers i h s e))
            ])
  ]

  read_volume-IsSound :
      (res : ℤ) (sectors : List ℕ) (d : Driver) (w : m.World)
      → IsSound d
      → IsSound (read_volume m res sectors d w).1
  unfolding read_volume
  read_volume-IsSound res sectors d w s = elim (Bool-cases (is_neg res)) [
    | inl a ↦ rw (read_volume, a) s
    | inr a ↦ elim (Bool-cases (same_text (take 5 (drop 1 sectors)) (codes "CD001"))) [
      | inl b ↦ rw (read_volume, a, b) (refl, refl)
      | inr b ↦ rw (read_volume, a, b) s
    ]
  ]

  pub init-IsSound : (d : Driver) (w : m.World) → IsSound d → IsSound (isofs_init m d w).1
  unfolding isofs_init
  init-IsSound d w s = elim (Option-cases (m.malloc (buffer_size m) w).0) [
    | inl n ↦ rw (isofs_init, n) s
    | inr (b, e) ↦
        let r =
          read_buffer m (pos 0x10) 1 (replicate {A = ℕ} (buffer_size m) 0)
            (m.malloc (buffer_size m) w).1 in
        rw (isofs_init, e) (read_volume-IsSound r.0 r.1 d r.2 s)
  ]

  pub fastinit-IsSound : (d : Driver) (w : m.World) → IsSound d → IsSound (isofs_fastinit m d w).1
  unfolding isofs_fastinit
  fastinit-IsSound d w s = elim (Option-cases (m.malloc (buffer_size m) w).0) [
    | inl n ↦ rw (isofs_fastinit, n) s
    | inr (b, e) ↦ rw (isofs_fastinit, e) (refl, refl)
  ]
