-- ===== src/Booter/Kinds.antt =====
-- What src/psp/booter/main.c starts for each kind of content.
use adr_bubble_booter_oss.Prelude.{
  ℕ, zero, suc, ◌<◌, ◌≤◌, ◌≡◌, refl, arith, List, [], ◌∷◌, ◌++◌, ℤ, pos, negsuc, Bool, true, false,
  none, some, if◌then◌else◌, length, ◌⊎◌, inl, inr, drop, leb, ◌||◌, ◌∙◌, eqb_ℤ, length-append,
  length-drop,
}
use native.Mathlib.Decide.{dec_lt, ℕ_discrete}
use adr_bubble_booter_oss.Text.{codes}
use adr_bubble_booter_oss.BootInfo.{BootInfo}
use adr_bubble_booter_oss.Vita.{M, ◌>>=◌, call, pure}
use adr_bubble_booter_oss.Vita.Defined.{
  Defined, Defined-pure, Defined-call, Defined-if, Defined-bind, Defined-require, Ensures,
  Ensures-pure, Ensures-if, Ensures-bind, Ensures-then,
}
use adr_bubble_booter_oss.Booter.{
  launch_content, LoadExec, Request, content_iso, content_ps1_pbp, set_boot_conf_file_index,
}
use adr_bubble_booter_oss.Booter.Thread.{
  Psp, read_into, read_title, detect_pbp, pbp_magic, psar_type, begins_with,
}

-- the requests that choose a boot configuration
abbrev pub boot_config_of : List Request → List ℕ
boot_config_of [] = []
boot_config_of (set_boot_conf_file_index i ∷ rs) = i ∷ boot_config_of rs
boot_config_of (r ∷ rs) = boot_config_of rs

-- the kinds of content that launch_content knows
abbrev pub IsKind : ℤ → Type 0
IsKind (pos n) = (1 ≤ n) × (n ≤ 4)
IsKind (negsuc n) = ⊥

-- launch_content has a result exactly for the four kinds of content; for zero, a larger number or a
-- negative open error it reads a NULL string.
pub launch_content_iff :
    (isage : Bool) (b : BootInfo) (path title : List ℕ) (type : ℤ)
    → (IsKind type
        → (r : List Request × LoadExec) × (launch_content isage b path title type ≡ some r))
      × (¬ (IsKind type) → launch_content isage b path title type ≡ none)
unfolding launch_content
launch_content_iff isage b path title type = (defined type, undefined type)
  where
    defined :
        (type : ℤ)
        → IsKind type
        → (r : List Request × LoadExec) × (launch_content isage b path title type ≡ some r)
    defined (pos zero) h = absurd (omega arith)
    defined (pos (suc zero)) h = (_, refl)
    defined (pos (suc (suc zero))) h = (_, refl)
    defined (pos (suc (suc (suc zero)))) h = (_, refl)
    defined (pos (suc (suc (suc (suc zero))))) h = (_, refl)
    defined (pos (suc (suc (suc (suc (suc n)))))) h = absurd (omega arith)
    defined (negsuc n) h = absurd h

    undefined : (type : ℤ) → ¬ (IsKind type) → launch_content isage b path title type ≡ none
    undefined (negsuc n) h = refl
    undefined (pos n) h =
        let big : (n ≡ 0) ⊎ (4 < n) = elim (dec_lt 4 n) [
          | yes p ↦ inr p
          | no p ↦ elim (ℕ_discrete n 0) [ yes z ↦ inl z | no z ↦ absurd (h (omega arith)) ]
        ] in
        ground arith

IsKind-if : (b : Bool) (x y : ℤ) → IsKind x → IsKind y → IsKind (if b then x else y)
IsKind-if true x y h k = h
IsKind-if false x y h k = k

psar_type-IsKind : (header : List ℕ) → IsKind (psar_type header)
unfolding psar_type
psar_type-IsKind header =
    IsKind-if
      (begins_with header (codes "PSISOIMG0000") || begins_with header (codes "PSTITLEIMG000000"))
      (pos 4) (if begins_with header (codes "NPUMDIMG") then pos 3 else pos 2) (omega arith)
      (IsKind-if (begins_with header (codes "NPUMDIMG")) (pos 3) (pos 2) (omega arith)
        (omega arith))

-- sceIoRead delivers at most the bytes asked for, and the arrays that are read into have their sizes.
pub record Relied (p : Psp) (pbp_header header title : List ℕ) : Type 0 where
  pub reads : (fd : ℤ) (size : ℕ) (w : p.World) → length (p.io_read fd size w).0.1 ≤ size
  pub pbp_header_fits : p.pbp_header_size ≤ length pbp_header
  pub header_fits : length header ≡ 16
  pub title_fits : 9 ≤ length title

module _ (p : Psp) (pbp_header header title : List ℕ)
    (relied : Relied p pbp_header header title) where
  read_into-Defined :
      (fd : ℤ) (buffer : List ℕ) (size : ℕ) (w : p.World)
      → size ≤ length buffer
      → Defined (read_into p fd buffer size) w
  unfolding read_into
  read_into-Defined fd buffer size w le =
      Defined-bind _ _ w (Defined-call (p.io_read fd size) w) (λ r w₁ e.
        let fits : leb (length r.1) (length buffer) ≡ true =
          ground (arith, relied.reads fd size w) in
        Defined-bind _ _ w₁ (Defined-require (leb (length r.1) (length buffer)) w₁ fits)
          (λ u w₂ e₂. Defined-pure (r.1 ++ drop (length r.1) buffer) w₂))

  read_into-length :
      (fd : ℤ) (buffer : List ℕ) (size : ℕ) (w w' : p.World) (r : List ℕ)
      → read_into p fd buffer size w ≡ some (r, w')
      → length r ≡ length buffer
  unfolding read_into
  read_into-length fd buffer size w w' r h =
      let ((n, bytes), w₂) = p.io_read fd size w in
      ground
        (arith, length-append bytes (drop (length bytes) buffer), length-drop (length bytes) buffer)

  abbrev pub HasKind : ℤ × List ℕ → Type 0
  HasKind r = IsKind r.0

  detect_pbp-Ensures :
      (fd : ℤ) (pbp buffer : List ℕ) (w : p.World)
      → length buffer ≡ 16
      → Ensures HasKind (detect_pbp p fd pbp buffer title) w
  unfolding detect_pbp read_title
  detect_pbp-Ensures fd pbp buffer w size =
      Ensures-bind HasKind _ _ w (Defined-call (p.io_lseek fd (p.psar_offset pbp)) w) (λ u w₁ e₁.
        Ensures-bind HasKind _ _ w₁ (read_into-Defined fd buffer 16 w₁ (omega arith)) (λ psar w₂ e₂.
          Ensures-bind HasKind _ _ w₂
            (Defined-if (eqb_ℤ (psar_type psar) content_ps1_pbp) _ _ w₂
              (Defined-bind _ _ w₂ (Defined-call (p.io_lseek fd 0x130) w₂)
                (λ u w₃ e₃. read_into-Defined fd title 9 w₃ relied.title_fits))
              (Defined-pure title w₂))
            (λ t w₃ e₃. Ensures-pure HasKind (psar_type psar, t) w₃ (psar_type-IsKind psar))))

  -- behind a successful open
  abbrev pub opened : ℤ → M p.World (ℤ × List ℕ)
  opened fd = do
    pbp_header' ← read_into p fd pbp_header p.pbp_header_size
    _ ← call (p.io_lseek fd 0)
    header' ← read_into p fd header 16
    (type, t) ←
        (if begins_with header' pbp_magic
          then detect_pbp p fd pbp_header' header' title
          else pure (content_iso, title))
    _ ← call (p.io_close fd)
    _ ← call p.flush_caches
    pure (type, t)

  pub opened-Ensures : (fd : ℤ) (w : p.World) → Ensures HasKind (opened fd) w
  unfolding content_iso
  opened-Ensures fd w =
      Ensures-bind HasKind _ _ w
        (read_into-Defined fd pbp_header p.pbp_header_size w relied.pbp_header_fits)
        (λ pbp w₁ e₁. Ensures-bind HasKind _ _ w₁ (Defined-call (p.io_lseek fd 0) w₁) (λ u w₂ e₂.
          Ensures-bind HasKind _ _ w₂
            (read_into-Defined fd header 16 w₂ (omega (arith, relied.header_fits)))
            (λ h w₃ e₃.
              Ensures-then HasKind HasKind _ _ w₃
                (Ensures-if HasKind (begins_with h pbp_magic) _ _ w₃
                  (detect_pbp-Ensures fd pbp h w₃
                    (read_into-length fd header 16 w₂ w₃ h e₃ ∙ relied.header_fits))
                  (Ensures-pure HasKind (content_iso, title) w₃ (omega arith)))
                (λ r w₄ k. Ensures-bind HasKind _ _ w₄ (Defined-call (p.io_close fd) w₄) (λ c w₅ e₅.
                  Ensures-bind HasKind _ _ w₅ (Defined-call p.flush_caches w₅)
                    (λ f w₆ e₆. Ensures-pure HasKind r w₆ k))))))
